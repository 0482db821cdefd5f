-- ===== src/Watcher/Machine/Processes.antt =====
-- At most one process runs, and it is told to stop when the configuration has changed, in every interleaving.
use mathlib.Core.Path.{subst}
use fluentbit_operator.Prelude.{◌≡◌, ◌≢◌, refl, sym, Bool, none, ◌||◌, Bool-cases, inl, inr}
use fluentbit_operator.Watcher.Process.{Machine, Store, note, stop, timer_cancel, reset_restarts}
use fluentbit_operator.Watcher.Machine.{
  Runner, Handler, Interrupt, interrupt_at, Input, System, Reachable, Step, begins, steps, runs,
  handles, interrupts, changes, initial, run, handle, interrupt_step, elsewhere, handle_step,
  is_valid_event, run_done, watch_done, listening, stopping, cancelling, zeroing, reporting,
  watch_returned, idle, closing, interrupt_stopping, interrupt_cancelling, interrupt_zeroing,
  interrupted, proceed, timer_fires, watch_error, told, exits, event,
}
use fluentbit_operator.Watcher.Machine.Log.{Status, status, running, IsOrderly}
use fluentbit_operator.Watcher.Machine.Moves.{Fits, Fits-none, Runs, Quiet-Runs, run-Moves}
use fluentbit_operator.Watcher.Machine.Quiet.{
  IsCurrent, running-change, Quiet, aside-Quiet, stop-Quiet, stop-IsCurrent,
}

-- Only between the event and the stop may a process run that has not been told.
unfoldable Attends : Handler → Status → Type 0
unfolding IsCurrent
Attends stopping st = Unit {0}
Attends listening st = IsCurrent st
Attends cancelling st = IsCurrent st
Attends zeroing st = IsCurrent st
Attends reporting st = IsCurrent st
Attends watch_returned st = IsCurrent st

Attends-map : (h : Handler) (a b : Status) → (IsCurrent a → IsCurrent b) → Attends h a → Attends h b
unfolding Attends
Attends-map stopping a b f x = tt
Attends-map listening a b f x = f x
Attends-map cancelling a b f x = f x
Attends-map zeroing a b f x = f x
Attends-map reporting a b f x = f x
Attends-map watch_returned a b f x = f x

Attends-IsCurrent : (h : Handler) (s : Status) → h ≢ stopping → Attends h s → IsCurrent s
unfolding Attends
Attends-IsCurrent stopping s h x = absurd (h refl)
Attends-IsCurrent listening s h x = x
Attends-IsCurrent cancelling s h x = x
Attends-IsCurrent zeroing s h x = x
Attends-IsCurrent reporting s h x = x
Attends-IsCurrent watch_returned s h x = x

module _ {World : Type 0} (m : Machine World) where
  record Inv (s : System World) : Type 0 where
    runs : Runs s.runner s.store
    attends : Attends s.handler (status s.store.log)

  -- The second goroutine, whose steps depend on the process only through the stop.
  handle-Runs :
      (b : Bool) (i : Input) (h : Handler) (r : Runner) (s : Store World)
      → Runs r s
      → Runs r (handle_step m b i h s).1
  unfolding handle_step note status IsOrderly timer_cancel reset_restarts
  handle-Runs b (event o) listening r s x = elim (Bool-cases (is_valid_event o)) [
    | inl e ↦ rw e (record {
      fits = subst (Fits r s.cmd) (sym (running-change (status s.log))) x.fits;
      orderly = x.orderly;
    })
    | inr e ↦ rw e x
  ]
  handle-Runs b watch_error listening r s x = x
  handle-Runs b told listening r s x = x
  handle-Runs b proceed listening r s x = x
  handle-Runs b timer_fires listening r s x = x
  handle-Runs b (exits t failed) listening r s x = x
  handle-Runs b i stopping r s x = Quiet-Runs r s (stop m s) (stop-Quiet m s) x
  handle-Runs b i cancelling r s x = Quiet-Runs r s _ (aside-Quiet s (timer_cancel s) refl refl) x
  handle-Runs b i zeroing r s x = Quiet-Runs r s _ (aside-Quiet s (reset_restarts s) refl refl) x
  handle-Runs b i reporting r s x = record { fits = x.fits; orderly = x.orderly }
  handle-Runs b i watch_returned r s x = x

  handle-Attends :
      (b : Bool) (i : Input) (h : Handler) (s : Store World)
      → (s.cmd ≡ none → running (status s.log) ≡ none)
      → Attends h (status s.log)
      → Attends (handle_step m b i h s).0 (status (handle_step m b i h s).1.log)
  unfolding handle_step note status Attends timer_cancel reset_restarts
  handle-Attends b (event o) listening s f x = elim (Bool-cases (is_valid_event o)) [
    | inl e ↦ rw e tt
    | inr e ↦ rw e x
  ]
  handle-Attends b watch_error listening s f x = x
  handle-Attends b told listening s f x = elim (Bool-cases b) [ inl e ↦ rw e x | inr e ↦ rw e x ]
  handle-Attends b proceed listening s f x = x
  handle-Attends b timer_fires listening s f x = x
  handle-Attends b (exits t failed) listening s f x = x
  handle-Attends b i stopping s f x = stop-IsCurrent m s f
  handle-Attends b i cancelling s f x = x
  handle-Attends b i zeroing s f x = x
  handle-Attends b i reporting s f x = x
  handle-Attends b i watch_returned s f x = x

  Quiet-Inv :
      (s : System World) (t : Store World) → Quiet s.store t → Inv s → Inv (record s { store = t })
  Quiet-Inv s t q v = record {
    runs = Quiet-Runs s.runner s.store t q v.runs;
    attends = Attends-map s.handler (status s.store.log) (status t.log) q.current v.attends;
  }

  interrupt-Inv : (k : Interrupt) (b : Bool) (s : System World) → Inv s → Inv (interrupt_at m k b s)
  unfolding interrupt_at timer_cancel reset_restarts
  interrupt-Inv idle b s v = elim (Bool-cases (b || run_done s.runner || watch_done s.handler)) [
    | inl e ↦ rw e (record { runs = v.runs; attends = v.attends })
    | inr e ↦ rw e v
  ]
  interrupt-Inv closing b s v = record { runs = v.runs; attends = v.attends }
  interrupt-Inv interrupt_stopping b s v =
      let v' = Quiet-Inv s (stop m s.store) (stop-Quiet m s.store) v in
      record { runs = v'.runs; attends = v'.attends }
  interrupt-Inv interrupt_cancelling b s v = record {
    runs = record { fits = v.runs.fits; orderly = v.runs.orderly };
    attends = v.attends;
  }
  interrupt-Inv interrupt_zeroing b s v = record {
    runs = record { fits = v.runs.fits; orderly = v.runs.orderly };
    attends = v.attends;
  }
  interrupt-Inv interrupted b s v = record { runs = v.runs; attends = v.attends }

  Step-Inv : (s t : System World) → Step m s t → Inv s → Inv t
  unfolding run handle elsewhere interrupt_step
  Step-Inv _ _ (runs i s _) v =
      let moved = run-Moves m s.closed i s.runner s.store v.runs in
      record {
        runs = moved.runs;
        attends = Attends-map s.handler (status s.store.log) _ moved.current v.attends;
      }
  Step-Inv _ _ (handles i s _) v = record {
    runs = handle-Runs s.watch_closed i s.handler s.runner s.store v.runs;
    attends =
        handle-Attends s.watch_closed i s.handler s.store
          (Fits-none s.runner s.store.cmd _ v.runs.fits) v.attends;
  }
  Step-Inv _ _ (interrupts b s _) v = interrupt-Inv s.interrupt b s v
  Step-Inv _ _ (changes w s) v = Quiet-Inv s _ (aside-Quiet s.store _ refl refl) v

  Reachable-Inv : (s : System World) → Reachable m s → Inv s
  unfolding initial Fits status running IsOrderly Attends IsCurrent
  Reachable-Inv _ (begins w) = record {
    runs = record { fits = (refl, refl); orderly = tt };
    attends = tt;
  }
  Reachable-Inv _ (steps s t r x) = Step-Inv s t x (Reachable-Inv s r)

  pub Reachable-Fits :
      (s : System World) → Reachable m s → Fits s.runner s.store.cmd (running (status s.store.log))
  Reachable-Fits s r = (Reachable-Inv s r).runs.fits

  -- In every interleaving, a process is started only where none runs, and the exit that is seen is that of the one
  -- that runs.
  pub Reachable-IsOrderly : (s : System World) → Reachable m s → IsOrderly s.store.log
  Reachable-IsOrderly s r = (Reachable-Inv s r).runs.orderly

  -- In every interleaving, where the second goroutine is not about to stop Fluent Bit after an event, a process that
  -- runs was started after the last change of the configuration, or the watcher has tried to signal it since its start.
  pub Reachable-IsCurrent :
      (s : System World) → Reachable m s → s.handler ≢ stopping → IsCurrent (status s.store.log)
  Reachable-IsCurrent s r h = Attends-IsCurrent s.handler _ h (Reachable-Inv s r).attends
