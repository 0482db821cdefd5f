-- ===== src/Params/Words.antt =====
-- Words that the program computes: a fixed part with a number, or with another word, behind it.

use Prim.Native.String.{◌++◌}
use text.Mathlib.TextLemmas.{nil-append, cons-append}
use fluentbit_operator.Prelude.{
  ◌≡◌, refl, ℕ, zero, suc, ◌/◌, ◌%◌, String, Bool, true, false, arith, decimal, digit, show_ℕ, ltb,
  Bool-cases, inl, inr, if◌then◌else◌,
}
use fluentbit_operator.Params.Sane.{all_plain, IsWord}

pub all_plain-append :
    (s t : String) → all_plain s ≡ true → all_plain t ≡ true → all_plain (s ++ t) ≡ true
all_plain-append String.[] t h k = rw nil-append k
all_plain-append (String.◌∷◌ c s) t h k = rw cons-append (ground (arith, all_plain-append s t))

pub IsWord-append : (s t : String) → IsWord s → all_plain t ≡ true → IsWord (s ++ t)
IsWord-append String.[] t h k = cc
IsWord-append (String.◌∷◌ c s) t h k = rw cons-append (ground (arith, all_plain-append s t))

pub all_plain_of_IsWord : (s : String) → IsWord s → all_plain s ≡ true
all_plain_of_IsWord String.[] h = refl
all_plain_of_IsWord (String.◌∷◌ c s) h = h

all_plain-if :
    (b : Bool) (s t : String)
    → all_plain s ≡ true
    → all_plain t ≡ true
    → all_plain (if b then s else t) ≡ true
all_plain-if true s t h k = h
all_plain-if false s t h k = k

digit-plain : (n : ℕ) → all_plain (digit n) ≡ true
unfolding digit
digit-plain n = search all_plain-if depth 20

decimal-plain : (rounds n : ℕ) → all_plain (decimal rounds n) ≡ true
unfolding decimal
decimal-plain zero n = refl
decimal-plain (suc r) n = elim (Bool-cases (ltb n 10)) [
  | inl e ↦ rw e (digit-plain n)
  | inr e ↦ rw e (
      all_plain-append (decimal r (n / 10)) (digit (n % 10)) (decimal-plain r (n / 10))
        (digit-plain (n % 10)))
]

pub show_ℕ-plain : (n : ℕ) → all_plain (show_ℕ n) ≡ true
unfolding show_ℕ
show_ℕ-plain n = decimal-plain (suc n) n
