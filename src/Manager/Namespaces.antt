-- ===== src/Manager/Namespaces.antt =====
-- The namespaces that the manager watches are those of the flag.
use Prim.Native.Char.{Char, code}
use Prim.Native.String.{String, ◌++◌}
use text.Mathlib.TextEquality.{Char-path}
use text.Mathlib.TextLemmas.{nil-append, cons-append}
use fluentbit_operator.Prelude.{
  ◌≡◌, refl, sym, ap, ◌∙◌, Bool, true, false, ◌==◌, eq_iff, eqb, List, [], ◌∷◌, split, put_first,
  Bool-cases, inl, inr, arith,
}
use fluentbit_operator.Manager.{
  Flags, Scope, cluster_scope, one_namespace, several_namespaces, scope_of, is_namespaced, options,
}

unfoldable pub watched : Scope → List String
watched cluster_scope = []
watched (one_namespace n) = n ∷ []
watched (several_namespaces ns) = ns

unfoldable pub join : List String → String
join [] = ""
join (w ∷ []) = w
join (w ∷ v ∷ ws) = w ++ "," ++ join (v ∷ ws)

watched-scope_of : (ns : List String) → watched (scope_of ns) ≡ ns
unfolding watched scope_of
watched-scope_of [] = refl
watched-scope_of (n ∷ []) = refl
watched-scope_of (n ∷ m ∷ ns) = refl

is_there : List String → Bool
is_there [] = false
is_there (w ∷ ws) = true

put_first-is_there : (c : Char) (ws : List String) → is_there (put_first c ws) ≡ true
unfolding is_there put_first
put_first-is_there c [] = refl
put_first-is_there c (w ∷ ws) = refl

split-is_there : (s : String) → is_there (split "," s) ≡ true
unfolding is_there split
split-is_there String.[] = refl
split-is_there (String.◌∷◌ c s) = elim (Bool-cases (eqb (code c) (code ","))) [
  | inl e ↦ rw e refl
  | inr e ↦ rw e (put_first-is_there c (split "," s))
]

join-empty : (ws : List String) → is_there ws ≡ true → join ("" ∷ ws) ≡ String.◌∷◌ "," (join ws)
unfolding join is_there
join-empty [] h = cc
join-empty (w ∷ ws) h = rw (nil-append, cons-append, nil-append) refl

join-put_first : (c : Char) (ws : List String) → join (put_first c ws) ≡ String.◌∷◌ c (join ws)
unfolding join put_first
join-put_first c [] = refl
join-put_first c (w ∷ []) = refl
join-put_first c (w ∷ v ∷ ws) = rw cons-append refl

is_comma : (c : Char) → eqb (code c) (code ",") ≡ true → c ≡ ","
is_comma c e = Char-path c "," (ground arith)

join-split : (s : String) → join (split "," s) ≡ s
unfolding split join
join-split String.[] = refl
join-split (String.◌∷◌ c s) = elim (Bool-cases (eqb (code c) (code ","))) [
  | inl e ↦ rw e (
      join-empty (split "," s) (split-is_there s)
      ∙ ap (String.◌∷◌ ",") (join-split s)
      ∙ ap (λ d. String.◌∷◌ d s) (sym (is_comma c e)))
  | inr e ↦ rw e (join-put_first c (split "," s) ∙ ap (String.◌∷◌ c) (join-split s))
]

-- The namespaces that the manager watches, put together with commas, are those of the flag; none stand for all.
pub join-watched : (flags : Flags) → join (watched (options flags).scope) ≡ flags.watch_namespaces
unfolding options is_namespaced join watched
join-watched flags = elim (Bool-cases (flags.watch_namespaces == "")) [
  | inl e ↦ rw e (sym ((eq_iff flags.watch_namespaces "").0 e))
  | inr e ↦ rw e (
      ap join (watched-scope_of (split "," flags.watch_namespaces))
      ∙ join-split flags.watch_namespaces)
]
