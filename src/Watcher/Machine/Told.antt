-- ===== src/Watcher/Machine/Told.antt =====
-- Why no process outlives the end of the watcher unsignalled, unless the first goroutine is about to start one.
use mathlib.Core.Path.{subst}
use fluentbit_operator.Prelude.{
  ◌≡◌, ◌≢◌, refl, ℕ, Bool, true, ◌||◌, ◌&&◌, Option, none, some, Bool-cases, inl, inr, leb,
}
use fluentbit_operator.Result.{Result, ok, err}
use fluentbit_operator.Watcher.Process.{
  Machine, Store, note, signalled, stop_running, stop, timer_cancel, reset_restarts, reset_after,
  reset_time, forget, new_timer, count,
}
use fluentbit_operator.Watcher.Machine.{
  Runner, Handler, Interrupt, Input, System, Reachable, begins, steps, Step, runs, handles,
  interrupts, changes, initial, run, handle, interrupt_step, interrupt_at, elsewhere, run_step,
  handle_step, enter, is_valid_event, run_done, watch_done, checking, starting, entering, renewing,
  delaying, timing, resetting, counting, crashed, waiting, exiting, clearing, run_returned,
  listening, stopping, cancelling, zeroing, reporting, watch_returned, idle, closing,
  interrupt_stopping, interrupt_cancelling, interrupt_zeroing, interrupted, proceed, timer_fires,
  watch_error, told, exits, event,
}
use fluentbit_operator.Watcher.Machine.Log.{status}
use fluentbit_operator.Watcher.Machine.Moves.{Fits-none}
use fluentbit_operator.Watcher.Machine.Processes.{Reachable-Fits}
use fluentbit_operator.Watcher.Machine.Marks.{
  IsTold, change-IsTold, tell-IsTold, absent-IsTold, IsPast, past, HasClosed,
}

module _ {World : Type 0} (m : Machine World) where
  -- What the steps of the whole lead to
  pub data Leads (s : System World) : System World → Type 0 where
    here : Leads s s
    onwards : (t u : System World) → Leads s t → Step m t u → Leads s u

  interrupt-HasClosed :
      (k : Interrupt) (b : Bool) (s : System World)
      → s.interrupt ≡ k
      → HasClosed k s.closed
      → HasClosed (interrupt_at m k b s).interrupt (interrupt_at m k b s).closed
  unfolding interrupt_at HasClosed
  interrupt-HasClosed idle b s e h =
      elim (Bool-cases (b || run_done s.runner || watch_done s.handler)) [
        | inl e1 ↦ rw e1 tt
        | inr e1 ↦ rw (e1, e) tt
      ]
  interrupt-HasClosed closing b s e h = refl
  interrupt-HasClosed interrupt_stopping b s e h = h
  interrupt-HasClosed interrupt_cancelling b s e h = h
  interrupt-HasClosed interrupt_zeroing b s e h = h
  interrupt-HasClosed interrupted b s e h = rw e h

  Step-HasClosed :
      (s t : System World)
      → Step m s t
      → HasClosed s.interrupt s.closed
      → HasClosed t.interrupt t.closed
  unfolding run handle elsewhere interrupt_step
  Step-HasClosed _ _ (runs i s c) h = h
  Step-HasClosed _ _ (handles i s c) h = h
  Step-HasClosed _ _ (interrupts b s c) h = interrupt-HasClosed s.interrupt b s refl h
  Step-HasClosed _ _ (changes w s) h = h

  Reachable-HasClosed : (s : System World) → Reachable m s → HasClosed s.interrupt s.closed
  unfolding initial HasClosed
  Reachable-HasClosed _ (begins w) = tt
  Reachable-HasClosed _ (steps s t r x) = Step-HasClosed s t x (Reachable-HasClosed s r)

  -- A point of the first goroutine from which it starts no process, with nothing left to signal.
  record Ends (r : Runner) (s : Store World) : Type 0 where
    past : IsPast r
    told : IsTold (status s.log)

  record Late (s : System World) : Type 0 where
    closed : s.closed ≡ true
    ends : Ends s.runner s.store

  ends : (r : Runner) (s : Store World) → IsPast r → IsTold (status s.log) → Ends r s
  ends r s p h = record { past = p; told = h }

  reset_after-log : (t : ℕ) (s : Store World) → (reset_after t s).log ≡ s.log
  unfolding reset_after reset_restarts
  reset_after-log t s = elim (Bool-cases (leb reset_time t)) [
    | inl e ↦ rw e refl
    | inr e ↦ rw e refl
  ]

  run-Ends :
      (i : Input) (r : Runner) (s : Store World)
      → Ends r s
      → Ends (run_step m true i r s).0 (run_step m true i r s).1
  unfolding run_step note IsPast IsTold status new_timer reset_restarts count forget
  run-Ends i checking s x = ends _ _ tt x.told
  run-Ends i starting s x = absurd x.past
  run-Ends i entering s x = entered s.cmd
    where
      entered : (c : Option ℕ) → Ends (enter c) s
      entered none = ends _ s tt x.told
      entered (some p) = ends _ s tt x.told
  run-Ends (exits t failed) (waiting p) s x = ends _ _ tt tt
  run-Ends proceed (waiting p) s x = x
  run-Ends timer_fires (waiting p) s x = x
  run-Ends watch_error (waiting p) s x = x
  run-Ends told (waiting p) s x = x
  run-Ends (event o) (waiting p) s x = x
  run-Ends i (exiting t failed) s x = ends _ _ tt (rw (reset_after-log t s) x.told)
  run-Ends i (clearing failed) s x = elim (Bool-cases (m.exit_on_failure && failed)) [
    | inl e ↦ rw e (ends _ _ tt x.told)
    | inr e ↦ rw e (ends _ _ tt x.told)
  ]
  run-Ends i renewing s x = ends _ _ tt x.told
  run-Ends i delaying s x = ends _ _ tt x.told
  run-Ends timer_fires timing s x = ends _ _ tt x.told
  run-Ends proceed timing s x = elim (Bool-cases s.cancelled) [
    | inl e ↦ rw e (ends _ _ tt x.told)
    | inr e ↦ rw e (ends _ _ tt x.told)
  ]
  run-Ends watch_error timing s x = x
  run-Ends told timing s x = x
  run-Ends (event o) timing s x = x
  run-Ends (exits t failed) timing s x = x
  run-Ends i resetting s x = ends _ _ tt x.told
  run-Ends i counting s x = ends _ _ tt x.told
  run-Ends i crashed s x = x
  run-Ends i (run_returned failed) s x = x

  signalled-IsTold :
      (p : ℕ) (r : World × Result (Unit {0})) (s : Store World)
      → IsTold (status (signalled p r s).log)
  unfolding signalled status
  signalled-IsTold p (w, ok u) s = tell-IsTold (status s.log)
  signalled-IsTold p (w, err e) s = tell-IsTold (status s.log)

  stop_running-IsTold :
      (c : Option ℕ) (s : Store World)
      → (c ≡ none → IsTold (status s.log))
      → IsTold (status (stop_running m c s).log)
  unfolding stop_running note status
  stop_running-IsTold none s h = h refl
  stop_running-IsTold (some p) s h = signalled-IsTold p (m.signal p s.world) s

  stop-IsTold :
      (s : Store World) → (s.cmd ≡ none → IsTold (status s.log)) → IsTold (status (stop m s).log)
  unfolding stop
  stop-IsTold s h = stop_running-IsTold s.cmd s h

  handle-IsTold :
      (b : Bool) (i : Input) (h : Handler) (s : Store World)
      → IsTold (status s.log)
      → IsTold (status (handle_step m b i h s).1.log)
  unfolding handle_step note status timer_cancel reset_restarts
  handle-IsTold b (event o) listening s x = elim (Bool-cases (is_valid_event o)) [
    | inl e ↦ rw e (change-IsTold (status s.log) x)
    | inr e ↦ rw e x
  ]
  handle-IsTold b watch_error listening s x = x
  handle-IsTold b told listening s x = x
  handle-IsTold b proceed listening s x = x
  handle-IsTold b timer_fires listening s x = x
  handle-IsTold b (exits t failed) listening s x = x
  handle-IsTold b i stopping s x = stop-IsTold s (λ e. x)
  handle-IsTold b i cancelling s x = x
  handle-IsTold b i zeroing s x = x
  handle-IsTold b i reporting s x = x
  handle-IsTold b i watch_returned s x = x

  interrupt-Late :
      (k : Interrupt) (b : Bool) (s : System World) → Late s → Late (interrupt_at m k b s)
  unfolding interrupt_at timer_cancel reset_restarts
  interrupt-Late idle b s x = elim (Bool-cases (b || run_done s.runner || watch_done s.handler)) [
    | inl e ↦ rw e (record { closed = x.closed; ends = x.ends })
    | inr e ↦ rw e x
  ]
  interrupt-Late closing b s x = record { closed = refl; ends = x.ends }
  interrupt-Late interrupt_stopping b s x = record {
    closed = x.closed;
    ends = ends _ _ x.ends.past (stop-IsTold s.store (λ e. x.ends.told));
  }
  interrupt-Late interrupt_cancelling b s x = record {
    closed = x.closed;
    ends = ends _ _ x.ends.past x.ends.told;
  }
  interrupt-Late interrupt_zeroing b s x = record {
    closed = x.closed;
    ends = ends _ _ x.ends.past x.ends.told;
  }
  interrupt-Late interrupted b s x = record { closed = x.closed; ends = x.ends }

  run-Late :
      (b : Bool) (i : Input) (r : Runner) (s : Store World)
      → b ≡ true
      → Ends r s
      → Ends (run_step m b i r s).0 (run_step m b i r s).1
  run-Late b i r s e x = rw e (run-Ends i r s x)

  Step-Late : (s t : System World) → Step m s t → Late s → Late t
  unfolding run handle elsewhere interrupt_step
  Step-Late _ _ (runs i s c) x = record {
    closed = x.closed;
    ends = run-Late s.closed i s.runner s.store x.closed x.ends;
  }
  Step-Late _ _ (handles i s c) x = record {
    closed = x.closed;
    ends = ends _ _ x.ends.past (handle-IsTold s.watch_closed i s.handler s.store x.ends.told);
  }
  Step-Late _ _ (interrupts b s c) x = interrupt-Late s.interrupt b s x
  Step-Late _ _ (changes w s) x = record {
    closed = x.closed;
    ends = ends _ _ x.ends.past x.ends.told;
  }

  Leads-Late : (s t : System World) → Leads s t → Late s → Late t
  Leads-Late s _ here x = x
  Leads-Late s _ (onwards t u l y) x = Step-Late t u y (Leads-Late s t l x)

  -- The stop of the interrupt
  stop-Late :
      (k : Interrupt) (b : Bool) (s : System World)
      → k ≡ interrupt_stopping
      → s.closed ≡ true
      → IsPast s.runner
      → (s.store.cmd ≡ none → IsTold (status s.store.log))
      → Late (interrupt_at m k b s)
  unfolding interrupt_at
  stop-Late k b s e c p h = rw e (record { closed = c; ends = ends _ _ p (stop-IsTold s.store h) })

  -- In every interleaving, where the first goroutine is not about to start a process at the moment when the interrupt
  -- stops Fluent Bit, no process runs from then on but one that the watcher has tried to signal since its start.
  pub shutdown_tells :
      (terminated : Bool) (s t : System World)
      → Reachable m s
      → s.interrupt ≡ interrupt_stopping
      → s.runner ≢ starting
      → Leads (interrupt_step m terminated s) t
      → IsTold (status t.store.log)
  unfolding interrupt_step HasClosed
  shutdown_tells b s t r k p l =
      (Leads-Late _ t l (
        stop-Late s.interrupt b s k (subst (λ j. HasClosed j s.closed) k (Reachable-HasClosed s r))
          (past s.runner p)
          (λ e.
            absent-IsTold _ (Fits-none s.runner s.store.cmd _ (Reachable-Fits m s r) e)))).ends.told
