-- ===== src/Prelude/Rune.antt =====
-- `string(rune(n))` of an `int`, which is one character, `strings.ToLower`, and `fmt.Sprint` of a pointer.
use Prim.Native.Nat.{ℕ, zero, suc, ◌+◌, ◌/◌, ◌%◌, ◌^◌, ◌<◌, compare, Ordering}
use Prim.Native.Char.{Char, char, code, IsScalar}
use Prim.Native.String.{String, ◌++◌}
use mathlib.Core.Path.{◌≡◌}
use mathlib.Core.Logic.{dite}
use mathlib.Core.Bool.{Bool, true, false}
use native.Mathlib.Decide.{dec_lt}
use native.Mathlib.Omega.{arith}
use fluentbit_operator.Prelude.Tests.{ltb, eqb, if◌then◌else◌}
use fluentbit_operator.Prelude.Int.{ℤ, show_ℕ}

compare_lt : (a b : ℕ) → a < b → compare a b ≡ Ordering.lt
compare_lt a b h = ground arith

compare_gt : (a b : ℕ) → b < a → compare a b ≡ Ordering.gt
compare_gt a b h = ground arith

pub IsScalar-low : (n : ℕ) → n < 55296 → IsScalar n
IsScalar-low n h = rw (compare_lt n 55296 h) tt

pub IsScalar-high : (n : ℕ) → 57343 < n → n < 1114112 → IsScalar n
IsScalar-high n h k =
    rw (compare_gt n 55296 (omega arith))
      (rw (compare_lt 57343 n h) (rw (compare_lt n 1114112 k) tt))

-- The text of one character; what is no Unicode scalar value is U+FFFD.
unfoldable pub scalar_text : ℕ → String
unfolding dec_lt
scalar_text n =
    dite (dec_lt n 55296) (λ h. String.◌∷◌ (char n (IsScalar-low n h)) "")
      λ _.
        dite (dec_lt 57343 n)
          (λ h.
            dite (dec_lt n 1114112) (λ k. String.◌∷◌ (char n (IsScalar-high n h k)) "") (λ _. "�"))
          (λ _. "�")

-- `rune` is an int32: the low 32 bits. A negative one is no scalar value either way.
unfoldable pub rune_text : ℕ → String
unfolding scalar_text
rune_text n = scalar_text (n % 2 ^ 32)

-- A pointer to a number: where it points, and what is there.
pub record Pointer : Type 0 where
  pub address : ℕ
  pub value : ℤ

hex_digit : ℕ → String
unfolding show_ℕ
hex_digit n =
    if ltb n 10
    then show_ℕ n
    else if eqb n 10
    then "a"
    else if eqb n 11
    then "b"
    else if eqb n 12
    then "c"
    else if eqb n 13
    then "d"
    else if eqb n 14
    then "e"
    else "f"

hex : ℕ → ℕ → String
hex zero n = ""
hex (suc rounds) n =
    let front = hex rounds (n / 16) in if ltb n 16 then hex_digit n else front ++ hex_digit (n % 16)

-- `fmt.Sprint(p)` of a pointer `p`
unfoldable pub show_pointer : Pointer → String
unfolding hex hex_digit
show_pointer p = "0x" ++ hex (suc p.address) p.address

-- `strings.ToLower`, on the letters of ASCII.
unfoldable pub lower_at : (c : Char) → Dec (code c < 91) → Bool → Char
lower_at c (yes h) true = char (code c + 32) (IsScalar-low (code c + 32) (omega arith))
lower_at c (yes h) false = c
lower_at c (no h) b = c

unfoldable pub to_lower : String → String
unfolding lower_at dec_lt
to_lower String.[] = ""
to_lower (String.◌∷◌ c s) =
    String.◌∷◌ (lower_at c (dec_lt (code c) 91) (ltb 64 (code c))) (to_lower s)
