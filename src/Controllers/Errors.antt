-- ===== src/Controllers/Errors.antt =====
-- The errors that the controllers let pass, and how they print one.
use fluentbit_operator.Prelude.{String, ◌≡◌, refl, ◌⊎◌, inl, inr}
use fluentbit_operator.Result.{Error, Result, ok, err, not_found, already_exists, other, panicked}

-- `if err != nil && !errors.IsAlreadyExists(err) { return err }`
unfoldable pub ignore_already_exists :
    {World : Type 0} → World × Result (Unit {0}) → World × Result (Unit {0})
ignore_already_exists (w, err (already_exists _)) = (w, ok tt)
ignore_already_exists (w, r) = (w, r)

-- `if err != nil && !errors.IsNotFound(err) { return err }`
unfoldable pub ignore_not_found :
    {World : Type 0} → World × Result (Unit {0}) → World × Result (Unit {0})
ignore_not_found (w, err (not_found _)) = (w, ok tt)
ignore_not_found (w, r) = (w, r)

-- What `%v` prints of an error.
unfoldable pub message : Error → String
message (not_found s) = s
message (already_exists s) = s
message (other s) = s
message panicked = "panic"

pub ignore_not_found-world :
    {World : Type 0} (p : World × Result (Unit {0})) → (ignore_not_found p).0 ≡ p.0
unfolding ignore_not_found
ignore_not_found-world (w, ok a) = refl
ignore_not_found-world (w, err (not_found s)) = refl
ignore_not_found-world (w, err (already_exists s)) = refl
ignore_not_found-world (w, err (other s)) = refl
ignore_not_found-world (w, err panicked) = refl

pub ignore_already_exists-world :
    {World : Type 0} (p : World × Result (Unit {0})) → (ignore_already_exists p).0 ≡ p.0
unfolding ignore_already_exists
ignore_already_exists-world (w, ok a) = refl
ignore_already_exists-world (w, err (not_found s)) = refl
ignore_already_exists-world (w, err (already_exists s)) = refl
ignore_already_exists-world (w, err (other s)) = refl
ignore_already_exists-world (w, err panicked) = refl

-- A call whose error may be ignored has succeeded, or found nothing.
pub ignore_not_found_ok :
    {World : Type 0} (p : World × Result (Unit {0})) (u : Unit {0})
    → (ignore_not_found p).1 ≡ ok u
    → (p.1 ≡ ok tt) ⊎ ((s : String) × (p.1 ≡ err (not_found s)))
unfolding ignore_not_found
ignore_not_found_ok (w, ok a) u h = inl refl
ignore_not_found_ok (w, err (not_found s)) u h = inr (s, refl)
ignore_not_found_ok (w, err (already_exists s)) u h = cc
ignore_not_found_ok (w, err (other s)) u h = cc
ignore_not_found_ok (w, err panicked) u h = cc
