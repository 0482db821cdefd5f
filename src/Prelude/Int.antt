-- ===== src/Prelude/Int.antt =====
-- Go's signed integers, and `fmt.Sprint` of a number and of a Boolean.
use Prim.Native.Nat.{ℕ, zero, suc, ◌/◌, ◌%◌}
use Prim.Native.String.{String, ◌++◌}
use mathlib.Core.Bool.{Bool, true, false}
use fluentbit_operator.Prelude.Tests.{ltb, eqb, if◌then◌else◌}

-- `negsuc n` is -(n + 1).
pub data ℤ : Type 0 where
  pos : ℕ → ℤ
  negsuc : ℕ → ℤ

unfoldable pub digit : ℕ → String
digit n =
    if eqb n 0
    then "0"
    else if eqb n 1
    then "1"
    else if eqb n 2
    then "2"
    else if eqb n 3
    then "3"
    else if eqb n 4
    then "4"
    else if eqb n 5
    then "5"
    else if eqb n 6
    then "6"
    else if eqb n 7
    then "7"
    else if eqb n 8
    then "8"
    else "9"

-- The decimal digits of `n`, given at least as many rounds as it has digits.
unfoldable pub decimal : ℕ → ℕ → String
decimal zero n = ""
decimal (suc rounds) n =
    let front = decimal rounds (n / 10) in if ltb n 10 then digit n else front ++ digit (n % 10)

-- A number has fewer digits than its successor counts.
unfoldable pub show_ℕ : ℕ → String
unfolding digit decimal
show_ℕ n = decimal (suc n) n

-- `fmt.Sprint(n)`
unfoldable pub show_int : ℤ → String
unfolding show_ℕ
show_int (pos n) = show_ℕ n
show_int (negsuc n) = "-" ++ show_ℕ (suc n)

-- `fmt.Sprint(b)`, `strconv.FormatBool(b)`
unfoldable pub show_bool : Bool → String
show_bool true = "true"
show_bool false = "false"
