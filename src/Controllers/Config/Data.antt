-- ===== src/Controllers/Config/Data.antt =====
-- What the Secret holds under each of its keys.
use mathlib.Core.List.{Nodup-cons, mem-cons}
use mathlib.Core.Logic.Or
use text.Mathlib.TextPositions.{eq_refl}
use fluentbit_operator.Prelude.{
  ◌≡◌, refl, sym, ap, ◌∙◌, String, ◌==◌, Option, none, some, List, [], ◌∷◌, GoMap, lookup,
  if◌then◌else◌, eq_iff, arith, Bool-cases, inl, inr, map, Nodup, Mem, All, All-map,
}
use fluentbit_operator.Config.Render.{Script}
use fluentbit_operator.Controllers.Config.{set, add_scripts, secret_data}

pub lookup-set :
    (k v j : String) (m : GoMap String)
    → lookup j (set k v m) ≡ (if k == j then some v else lookup j m)
unfolding set lookup
lookup-set k v j [] = refl
lookup-set k v j ((i, u) ∷ m) =
    ground (arith, lookup-set k v j m, eq_iff i k, eq_iff i j, eq_iff k j)

-- The content of the last script of that name, if there is one, and otherwise what was there before.
unfoldable pub last_script : String → List Script → Option String → Option String
last_script k [] before = before
last_script k (s ∷ ss) before = last_script k ss (if s.name == k then some s.content else before)

pub lookup-add_scripts :
    (k : String) (ss : List Script) (m : GoMap String)
    → lookup k (add_scripts ss m) ≡ last_script k ss (lookup k m)
unfolding add_scripts last_script
lookup-add_scripts k [] m = refl
lookup-add_scripts k (s ∷ ss) m =
    lookup-add_scripts k ss (set s.name s.content m)
    ∙ ap (last_script k ss) (lookup-set s.name s.content k m)

-- Under a key the Secret holds the content of the last script of that name; where there is none, it holds
-- the main configuration under fluent-bit.conf, the parsers under parsers.conf, and nothing elsewhere.
pub lookup-secret_data :
    (k main_cfg parser_cfg : String) (ss : List Script)
    → lookup k (secret_data main_cfg parser_cfg ss)
      ≡ last_script k ss (
          if "fluent-bit.conf" == k
          then some main_cfg
          else if "parsers.conf" == k
          then some parser_cfg
          else none)
unfolding secret_data lookup
lookup-secret_data k main_cfg parser_cfg ss = lookup-add_scripts k ss _

pub last_script_absent :
    (k : String) (ss : List Script) (before : Option String)
    → ¬ Mem k (map (λ s. s.name) ss)
    → last_script k ss before ≡ before
unfolding last_script
last_script_absent k [] before h = refl
last_script_absent k (s ∷ ss) before h = elim (Bool-cases (s.name == k)) [
  | inl e ↦ absurd (h (mem-cons.1 (Or.inl (sym ((eq_iff s.name k).0 e)))))
  | inr e ↦ rw e (last_script_absent k ss before (λ m. h (mem-cons.1 (Or.inr m))))
]

-- Among scripts with distinct names, the last of a name is the only one.
pub last_script_own :
    (ss : List Script)
    → Nodup (map (λ s. s.name) ss)
    → All (λ s. (before : Option String) → last_script s.name ss before ≡ some s.content) ss
unfolding last_script
last_script_own [] d = tt
last_script_own (s ∷ ss) d =
    let p = (Nodup-cons {a = s.name} {l = map (λ s. s.name) ss}).0 d in
    (
      λ before. rw (eq_refl s.name) (last_script_absent s.name ss (some s.content) p.0),
      All-map (λ t h before. h _) ss (last_script_own ss p.1),
    )
