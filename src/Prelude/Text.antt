-- ===== src/Prelude/Text.antt =====
-- Go strings: their order, `strings.TrimSuffix` and `strings.HasSuffix`, and the bytes of a text as a list of numbers.
use Prim.Native.Nat.{ℕ}
use Prim.Native.Char.{code}
use Prim.Native.String
use Prim.Native.String.{String}
use mathlib.Core.Path.{◌≡◌, refl, sym, ap, ap₂, ◌∙◌}
use mathlib.Core.Logic.{◌≢◌, ◌⊎◌, inl, inr}
use mathlib.Core.Bool.{Bool, true, false}
use mathlib.Core.List.{List, [], ◌∷◌, ◌++◌}
use native.Mathlib.Omega.{arith}
use text.Mathlib.Text.{◌==◌}
use text.Mathlib.TextEquality.{Char-path, eq_iff}
use text.Mathlib.TextLemmas.{nil-append, cons-append}
use fluentbit_operator.Prelude.Tests.{ltb, eqb, Bool-cases, true≢false, if◌then◌else◌}

-- Go's `a < b` on strings. On UTF-8 the order of the bytes is the order of the code points.
unfoldable pub less : String → String → Bool
less String.[] String.[] = false
less String.[] (String.◌∷◌ d t) = true
less (String.◌∷◌ c s) String.[] = false
less (String.◌∷◌ c s) (String.◌∷◌ d t) =
    if ltb (code c) (code d) then true else if eqb (code c) (code d) then less s t else false

pub less_irrefl : (s : String) → less s s ≡ false
unfolding less
less_irrefl String.[] = refl
less_irrefl (String.◌∷◌ c s) = ground (arith, less_irrefl s)

pub less_asymm : (s t : String) → less s t ≡ true → less t s ≡ false
unfolding less
less_asymm String.[] String.[] h = cc
less_asymm String.[] (String.◌∷◌ d t) h = refl
less_asymm (String.◌∷◌ c s) String.[] h = cc
less_asymm (String.◌∷◌ c s) (String.◌∷◌ d t) h = ground (arith, less_asymm s t)

pub less_trans : (s t u : String) → less s t ≡ true → less t u ≡ true → less s u ≡ true
unfolding less
less_trans String.[] String.[] u h k = cc
less_trans (String.◌∷◌ c s) String.[] u h k = cc
less_trans String.[] (String.◌∷◌ d t) String.[] h k = cc
less_trans String.[] (String.◌∷◌ d t) (String.◌∷◌ e u) h k = refl
less_trans (String.◌∷◌ c s) (String.◌∷◌ d t) String.[] h k = cc
less_trans (String.◌∷◌ c s) (String.◌∷◌ d t) (String.◌∷◌ e u) h k = ground (arith, less_trans s t u)

pub less_connex : (s t : String) → less s t ≡ false → less t s ≡ false → s ≡ t
unfolding less
less_connex String.[] String.[] h k = refl
less_connex String.[] (String.◌∷◌ d t) h k = cc
less_connex (String.◌∷◌ c s) String.[] h k = cc
less_connex (String.◌∷◌ c s) (String.◌∷◌ d t) h k =
    ap₂ String.◌∷◌ (Char-path c d (ground arith)) (less_connex s t (ground arith) (ground arith))

-- `strings.TrimSuffix(s, suffix)`
unfoldable pub trim_suffix : String → String → String
trim_suffix String.[] suffix = String.[]
trim_suffix (String.◌∷◌ c s) suffix =
    if String.◌∷◌ c s == suffix then "" else String.◌∷◌ c (trim_suffix s suffix)

-- `strings.HasSuffix(s, suffix)`
unfoldable pub has_suffix : String → String → Bool
has_suffix String.[] suffix = String.[] == suffix
has_suffix (String.◌∷◌ c s) suffix = if String.◌∷◌ c s == suffix then true else has_suffix s suffix

-- The code points of a text: its bytes, if it is ASCII.
abbrev pub codes : String → List ℕ
codes String.[] = []
codes (String.◌∷◌ c s) = code c ∷ codes s

pub codes-append : (s t : String) → codes (String.◌++◌ s t) ≡ codes s ++ codes t
codes-append String.[] t = rw nil-append
codes-append (String.◌∷◌ c s) t = rw cons-append (ap (◌∷◌ (code c)) (codes-append s t))

pub same_text : (a b : String) → (a ≡ b) ⊎ (a ≢ b)
same_text a b = elim (Bool-cases (a == b)) [
  | inl e ↦ inl ((eq_iff a b).0 e)
  | inr e ↦ inr (λ p. true≢false (sym ((eq_iff a b).1 p) ∙ e))
]

pub same_key : (a b c d : String) → ((a ≡ c) × (b ≡ d)) ⊎ (¬ ((a ≡ c) × (b ≡ d)))
same_key a b c d = elim (same_text a c) [
  | inr n ↦ inr (λ p. n p.0)
  | inl e ↦ elim (same_text b d) [ inl f ↦ inl (e, f) | inr n ↦ inr (λ p. n p.1) ]
]
