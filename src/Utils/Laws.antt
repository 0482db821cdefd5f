-- ===== src/Utils/Laws.antt =====
-- What the helpers of pkg/utils do to a whole list.
use Prim.Native.Char.{Char}
use Prim.Native.String.{◌++◌, count}
use text.Mathlib.TextLemmas.{nil-append, cons-append, append_assoc, length-append, length-cons}
use text.Mathlib.TextPositions.{eq_refl}
use fluentbit_operator.Prelude.{
  ◌≡◌, refl, sym, ap, ◌∙◌, String, ◌==◌, false, List, [], ◌∷◌, trim_suffix, if◌then◌else◌, eq_iff,
  Bool-cases, inl, inr, arith,
}
use fluentbit_operator.Utils.{contain_string, remove_string, concat_loop, concat_string}

-- The texts with the separator between them.
unfoldable pub join : String → List String → String
join sep [] = ""
join sep (s ∷ []) = s
join sep (s ∷ t ∷ ts) = s ++ sep ++ join sep (t ∷ ts)

longer-ne : (c : Char) (p t : String) → (String.◌∷◌ c (p ++ t) == t) ≡ false
longer-ne c p t = elim (Bool-cases (String.◌∷◌ c (p ++ t) == t)) [
  | inl e ↦ absurd (
      omega (
        arith,
        ap count ((eq_iff (String.◌∷◌ c (p ++ t)) t).0 e),
        length-cons c (p ++ t),
        length-append p t,
      ))
  | inr e ↦ e
]

trim_suffix_self : (t : String) → trim_suffix t t ≡ ""
unfolding trim_suffix
trim_suffix_self String.[] = refl
trim_suffix_self (String.◌∷◌ c t) = rw (eq_refl (String.◌∷◌ c t))

pub trim_suffix-append : (p t : String) → trim_suffix (p ++ t) t ≡ p
unfolding trim_suffix
trim_suffix-append String.[] t = rw nil-append (trim_suffix_self t)
trim_suffix-append (String.◌∷◌ c p) t =
    rw (cons-append, trim_suffix)
      (rw (longer-ne c p t) (ap (String.◌∷◌ c) (trim_suffix-append p t)))

concat_loop-eq :
    (sep : String) (s : String) (ss : List String) (ns : String)
    → concat_loop sep (s ∷ ss) ns ≡ (ns ++ join sep (s ∷ ss)) ++ sep
unfolding concat_loop join
concat_loop-eq sep s [] ns = sym (append_assoc ns s sep)
concat_loop-eq sep s (t ∷ ts) ns = concat_loop-eq sep t ts (ns ++ s ++ sep) ∙ simp append_assoc

-- `ConcatString` puts the separator between the texts, and nothing behind the last one.
pub concat_string-eq-join : (ss : List String) (sep : String) → concat_string ss sep ≡ join sep ss
unfolding concat_string
concat_string-eq-join [] sep = unfold join in refl
concat_string-eq-join (s ∷ ss) sep =
    rw (concat_loop-eq sep s ss "") (rw nil-append (trim_suffix-append (join sep (s ∷ ss)) sep))

-- After `RemoveString` of one text a list holds exactly the others that it held.
pub contain-remove :
    (xs : List String) (s t : String)
    → contain_string (remove_string xs s) t ≡ (if s == t then false else contain_string xs t)
unfolding contain_string remove_string
contain-remove [] s t = ground arith
contain-remove (x ∷ xs) s t =
    ground (arith, contain-remove xs s t, eq_iff x s, eq_iff x t, eq_iff s t)
