-- ===== src/Watcher/Backoff.antt =====
-- The delay of `backoff`, in nanoseconds of a 64-bit `time.Duration`, and what happens to the counter
-- of restarts. `math.Pow(2, n)` is exact. Its conversion to an int64 is not defined by Go from 2^63 on:
-- `converted` is what the machine makes of it, as 64 bits.
use fluentbit_operator.Prelude.{
  ◌≡◌, refl, ap, ◌∙◌, ℕ, zero, suc, ◌-◌, ◌*◌, ◌%◌, ◌^◌, ◌<◌, ◌≤◌, Bool, true, false, ◌&&◌, ltb, leb,
  eqb, if◌then◌else◌, ℤ, pos, negsuc, arith, Bool-cases, inl, inr,
}

abbrev pub second : ℕ
second = 1_000_000_000

-- `MaxDelayTime`, 5 * time.Minute
abbrev pub max_delay : ℕ
max_delay = 300 * second

-- The signed number that 64 bits stand for.
unfoldable pub signed64 : ℕ → ℤ
signed64 n = if ltb n (2 ^ 63) then pos n else negsuc (2 ^ 64 - 1 - n)

-- `if delayTime >= MaxDelayTime { delayTime = MaxDelayTime }`
unfoldable pub cap : ℤ → ℤ
cap (pos n) = if leb max_delay n then pos max_delay else pos n
cap (negsuc n) = negsuc n

-- `time.Duration(math.Pow(2, float64(restartTimes))) * time.Second`, as 64 bits
unfoldable pub delay_bits : (ℕ → ℕ) → ℕ → ℕ
delay_bits converted n = (if ltb n 63 then 2 ^ n else converted n) * second % 2 ^ 64

-- `delayTime` of `backoff`
unfoldable pub delay_time : (ℕ → ℕ) → ℕ → ℤ
unfolding signed64 cap delay_bits
delay_time converted n = cap (signed64 (delay_bits converted n))

-- What the delay is meant to be: 1s, 2s, 4s, …, at most five minutes.
unfoldable pub intended_delay : ℕ → ℤ
intended_delay n = if ltb n 9 then pos (2 ^ n * second) else pos max_delay

unfoldable same_int : ℤ → ℤ → Bool
same_int (pos m) (pos n) = eqb m n
same_int (negsuc m) (negsuc n) = eqb m n
same_int (pos m) (negsuc n) = false
same_int (negsuc m) (pos n) = false

same_int_sound : (a b : ℤ) → same_int a b ≡ true → a ≡ b
unfolding same_int
same_int_sound (pos m) (pos n) h = ap pos (ground arith)
same_int_sound (negsuc m) (negsuc n) h = ap negsuc (ground arith)
same_int_sound (pos m) (negsuc n) h = ground arith
same_int_sound (negsuc m) (pos n) h = ground arith

eqb_sound : (m n : ℕ) → eqb m n ≡ true → m ≡ n
eqb_sound m n h = ground arith

eqb-lt : (n k : ℕ) → eqb n k ≡ false → n < suc k → n < k
eqb-lt n k e l = ground arith

and-split : (a b : Bool) → a && b ≡ true → (a ≡ true) × (b ≡ true)
and-split true b h = (refl, h)
and-split false b h = ground arith

else_of : (c b : Bool) → (if c then true else b) ≡ true → c ≡ false → b ≡ true
else_of true b h e = ground arith
else_of false b h e = h

-- A test passes on every number below a bound.
unfoldable all_below : ℕ → (ℕ → Bool) → Bool
all_below zero f = true
all_below (suc n) f = f n && all_below n f

all_below_sound : (k : ℕ) (f : ℕ → Bool) → all_below k f ≡ true → (n : ℕ) → n < k → f n ≡ true
unfolding all_below
all_below_sound zero f h n l = absurd (omega arith)
all_below_sound (suc k) f h n l = elim (Bool-cases (eqb n k)) [
  | inl e ↦ ap f (eqb_sound n k e) ∙ (and-split (f k) _ h).0
  | inr e ↦ all_below_sound k f (and-split (f k) _ h).1 n (eqb-lt n k e l)
]

-- Up to 33 restarts in a row, the delay is the intended one.
pub delay_time-intended :
    (converted : ℕ → ℕ) (n : ℕ) → n < 34 → delay_time converted n ≡ intended_delay n
delay_time-intended converted n l = same_int_sound _ _ (
    all_below_sound 34 (λ i. same_int (delay_time converted i) (intended_delay i))
      (unfold delay_time intended_delay same_int all_below in refl) n l)

-- From 55 to 62 restarts in a row there is no delay at all: the product is a multiple of 2^64.
pub delay_time-vanishes :
    (converted : ℕ → ℕ) (n : ℕ) → 55 ≤ n → n < 63 → delay_time converted n ≡ pos 0
delay_time-vanishes converted n l u = elim (Bool-cases (ltb n 55)) [
  | inl e ↦ absurd (ground arith)
  | inr e ↦ same_int_sound _ _ (
      else_of _ _
        (all_below_sound 63
          (λ i. if ltb i 55 then true else same_int (delay_time converted i) (pos 0))
          (unfold delay_time same_int all_below in refl) n u)
        e)
]
