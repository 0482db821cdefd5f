-- ===== src/Run.antt =====
-- A call that reads and changes the world, and returns a value or an error: Go's `(value, error)` with the
-- world passed along. A block ends at the first error, with the world as that call left it.
pub mod Laws
use fluentbit_operator.Result.{Result, ok, err}

abbrev pub Run : Type 0 → Type 0 → Type 0
Run World A = World → World × Result A

unfoldable pub continue :
    {World A B : Type 0} → (A → Run World B) → World × Result A → World × Result B
continue f (w, ok a) = f a w
continue f (w, err e) = (w, err e)

infixl 10 ◌>>=◌
infixr 10 ◌>>◌
abbrev pub ◌>>=◌ : {World A B : Type 0} → Run World A → (A → Run World B) → Run World B
(m >>= f) w = continue f (m w)

abbrev pub ◌>>◌ : {World B : Type 0} → Run World (Unit {0}) → Run World B → Run World B
m >> k = m >>= λ _. k

abbrev pub return : {World A : Type 0} → A → Run World A
return a w = (w, ok a)

-- A call that leaves the world alone.
abbrev pub read : {World A : Type 0} → (World → Result A) → Run World A
read get w = (w, get w)
