-- ===== src/Watcher/Machine/Moves.antt =====
-- What the steps of the first goroutine do to the process and to the log.
use mathlib.Core.Path.{subst}
use fluentbit_operator.Prelude.{
  ◌≡◌, refl, sym, ◌∙◌, ℕ, Bool, true, false, Option, none, some, ◌&&◌, if◌then◌else◌,
}
use fluentbit_operator.Result.{Result, ok, err, not_found, already_exists, other, panicked}
use fluentbit_operator.Watcher.Process.{
  Machine, Store, timer_cancelled, note, exited, start, start_unless, launched, launch, panics,
  start_panics, reset_restarts, forget, new_timer, count,
}
use fluentbit_operator.Watcher.Machine.{
  Runner, Input, run_step, enter, checking, starting, entering, renewing, delaying, timing,
  resetting, counting, crashed, waiting, exiting, clearing, run_returned, proceed, timer_fires,
  watch_error, told, exits, event,
}
use fluentbit_operator.Watcher.Machine.Log.{status, running, IsOrderly}
use fluentbit_operator.Watcher.Machine.Quiet.{IsCurrent, Quiet, reset_after-Quiet}

abbrev after_start : Bool → Runner
after_start b = if b then crashed else entering

-- How `cmd` and the process that the log says is running fit the point that the first goroutine has reached.
unfoldable pub Fits : Runner → Option ℕ → Option ℕ → Type 0
Fits entering c p = c ≡ p
Fits (waiting q) c p = (c ≡ some q) × (p ≡ some q)
Fits (exiting t failed) c p = p ≡ none
Fits (clearing failed) c p = p ≡ none
Fits checking c p = (c ≡ none) × (p ≡ none)
Fits starting c p = (c ≡ none) × (p ≡ none)
Fits renewing c p = (c ≡ none) × (p ≡ none)
Fits delaying c p = (c ≡ none) × (p ≡ none)
Fits timing c p = (c ≡ none) × (p ≡ none)
Fits resetting c p = (c ≡ none) × (p ≡ none)
Fits crashed c p = (c ≡ none) × (p ≡ none)
Fits counting c p = (c ≡ none) × (p ≡ none)
Fits (run_returned failed) c p = (c ≡ none) × (p ≡ none)

-- Where there is no `cmd`, no process runs.
pub Fits-none : (r : Runner) (c p : Option ℕ) → Fits r c p → c ≡ none → p ≡ none
unfolding Fits
Fits-none entering c p f e = sym f ∙ e
Fits-none (waiting q) c p f e = absurd cc
Fits-none (exiting t failed) c p f e = f
Fits-none (clearing failed) c p f e = f
Fits-none checking c p f e = f.1
Fits-none starting c p f e = f.1
Fits-none renewing c p f e = f.1
Fits-none delaying c p f e = f.1
Fits-none timing c p f e = f.1
Fits-none resetting c p f e = f.1
Fits-none crashed c p f e = f.1
Fits-none counting c p f e = f.1
Fits-none (run_returned failed) c p f e = f.1

enter-Fits : (c p : Option ℕ) → c ≡ p → Fits (enter c) c p
unfolding enter Fits
enter-Fits none p e = (refl, sym e)
enter-Fits (some q) p e = (refl, sym e)

module _ {World : Type 0} where
  pub record Runs (r : Runner) (s : Store World) : Type 0 where
    pub fits : Fits r s.cmd (running (status s.log))
    pub orderly : IsOrderly s.log

  abbrev IsIdle : Store World → Type 0
  IsIdle s = (s.cmd ≡ none) × (running (status s.log) ≡ none)

  pub Quiet-Runs : (r : Runner) (s t : Store World) → Quiet s t → Runs r s → Runs r t
  Quiet-Runs r s t q x = record {
    fits =
        subst (λ c. Fits r c (running (status t.log))) (sym q.same_cmd)
          (subst (λ p. Fits r s.cmd p) (sym q.same_process) x.fits);
    orderly = q.orderly x.orderly;
  }

  -- What a step of the first goroutine does.
  pub record Moves (s : Store World) (r : Runner) (t : Store World) : Type 0 where
    pub runs : Runs r t
    pub current : IsCurrent (status s.log) → IsCurrent (status t.log)

  on :
      (r : Runner) (s t : Store World)
      → Fits r t.cmd (running (status t.log))
      → IsOrderly t.log
      → (IsCurrent (status s.log) → IsCurrent (status t.log))
      → Moves s r t
  on r s t f o c = record { runs = record { fits = f; orderly = o }; current = c }

  Quiet-Moves : (r : Runner) (s t : Store World) → Quiet s t → Runs r s → Moves s r t
  Quiet-Moves r s t q x = record { runs = Quiet-Runs r s t q x; current = q.current }

  stays-Moves : (r : Runner) (s : Store World) → Runs r s → Moves s r s
  stays-Moves r s x = record { runs = x; current = λ h. h }

  launched-Moves :
      (m : Machine World) (r : World × Result ℕ) (s : Store World)
      → s.cmd ≡ none
      → running (status s.log) ≡ none
      → IsOrderly s.log
      → Moves s (after_start (panics r.1)) (launched r s)
  unfolding launched panics status running IsOrderly Fits IsCurrent
  launched-Moves m (w, ok p) s c e o = record {
    runs = record { fits = refl; orderly = (e, o) };
    current = λ h. tt;
  }
  launched-Moves m (w, err (not_found x)) s c e o = on _ s _ (sym e) o (λ h. h)
  launched-Moves m (w, err (already_exists x)) s c e o = on _ s _ (sym e) o (λ h. h)
  launched-Moves m (w, err (other x)) s c e o = on _ s _ (sym e) o (λ h. h)
  launched-Moves m (w, err panicked) s c e o = on _ s _ (c, e) o (λ h. h)

  start-Moves :
      (m : Machine World) (c : Option ℕ) (s : Store World)
      → c ≡ none
      → Runs starting s
      → Moves s (after_start (start_panics m c s.world)) (start_unless m c s)
  unfolding start_unless start_panics Fits
  start-Moves m none s e x = launched-Moves m (launch m s.world) s x.fits.0 x.fits.1 x.orderly
  start-Moves m (some p) s e x = absurd cc

  exited-Moves :
      (q t : ℕ) (failed : Bool) (s : Store World)
      → Runs (waiting q) s
      → Moves s (exiting t failed) (note (exited q) s)
  unfolding note status running IsOrderly Fits IsCurrent
  exited-Moves q t failed s x = record {
    runs = record { fits = refl; orderly = (x.fits.1, x.orderly) };
    current = λ h. tt;
  }

  forget-Moves :
      (m : Machine World) (b failed : Bool) (s : Store World)
      → Runs (clearing failed) s
      → Moves s (if b then run_returned true else renewing) (forget s)
  unfolding forget Fits
  forget-Moves m true failed s x = on _ s _ ((refl, x.fits)) x.orderly (λ h. h)
  forget-Moves m false failed s x = on _ s _ ((refl, x.fits)) x.orderly (λ h. h)

  module _ (m : Machine World) where
    abbrev backed_off : Bool → Store World → Runner × Store World
    backed_off b s = if b then (resetting, note timer_cancelled s) else (timing, s)

    timing-Moves :
        (b : Bool) (s : Store World) → Runs timing s → Moves s (backed_off b s).0 (backed_off b s).1
    unfolding note status IsOrderly Fits
    timing-Moves true s x = on _ s _ x.fits x.orderly (λ h. h)
    timing-Moves false s x = stays-Moves timing s x

    checking-Moves :
        (b : Bool) (s : Store World)
        → Runs checking s
        → Moves s (if b then run_returned false else starting) s
    unfolding Fits
    checking-Moves true s x = on _ s _ x.fits x.orderly (λ h. h)
    checking-Moves false s x = on _ s _ x.fits x.orderly (λ h. h)

    pub run-Moves :
        (b : Bool) (i : Input) (r : Runner) (s : Store World)
        → Runs r s
        → Moves s (run_step m b i r s).0 (run_step m b i r s).1
    unfolding run_step note start Fits status IsOrderly new_timer reset_restarts count
    run-Moves b i checking s x = checking-Moves b s x
    run-Moves b i starting s x = start-Moves m s.cmd s x.fits.0 x
    run-Moves b i entering s x = on _ s _ (enter-Fits s.cmd _ x.fits) x.orderly (λ h. h)
    run-Moves b (exits t failed) (waiting p) s x = exited-Moves p t failed s x
    run-Moves b proceed (waiting p) s x = stays-Moves (waiting p) s x
    run-Moves b timer_fires (waiting p) s x = stays-Moves (waiting p) s x
    run-Moves b watch_error (waiting p) s x = stays-Moves (waiting p) s x
    run-Moves b told (waiting p) s x = stays-Moves (waiting p) s x
    run-Moves b (event o) (waiting p) s x = stays-Moves (waiting p) s x
    run-Moves b i (exiting t failed) s x =
        Quiet-Moves (clearing failed) s _ (reset_after-Quiet t s)
          (record { fits = x.fits; orderly = x.orderly })
    run-Moves b i (clearing failed) s x = forget-Moves m (m.exit_on_failure && failed) failed s x
    run-Moves b i renewing s x = on _ s _ x.fits x.orderly (λ h. h)
    run-Moves b i delaying s x = on _ s _ x.fits x.orderly (λ h. h)
    run-Moves b timer_fires timing s x = on _ s _ x.fits x.orderly (λ h. h)
    run-Moves b proceed timing s x = timing-Moves s.cancelled s x
    run-Moves b watch_error timing s x = stays-Moves timing s x
    run-Moves b told timing s x = stays-Moves timing s x
    run-Moves b (event o) timing s x = stays-Moves timing s x
    run-Moves b (exits t failed) timing s x = stays-Moves timing s x
    run-Moves b i resetting s x = on _ s _ x.fits x.orderly (λ h. h)
    run-Moves b i crashed s x = stays-Moves crashed s x
    run-Moves b i counting s x = on _ s _ x.fits x.orderly (λ h. h)
    run-Moves b i (run_returned failed) s x = stays-Moves (run_returned failed) s x
