-- ===== src/Watcher/Machine/Quiet.antt =====
-- What neither a stop nor a change of the timer alters: the process, and whether the log is in order.
use fluentbit_operator.Prelude.{◌≡◌, refl, ℕ, Option, none, some, Bool-cases, inl, inr, leb}
use fluentbit_operator.Result.{Result, ok, err}
use fluentbit_operator.Watcher.Process.{
  Machine, Store, note, signalled, stop_running, stop, reset_after, reset_restarts, reset_time,
}
use fluentbit_operator.Watcher.Machine.Log.{
  Status, absent, fresh, stale, stopped, change, tell, status, running, IsOrderly,
}

-- No process runs that was started before the last change, and has not been told to stop.
unfoldable pub IsCurrent : Status → Type 0
IsCurrent absent = Unit {0}
IsCurrent (fresh p) = Unit {0}
IsCurrent (stale p) = ⊥
IsCurrent (stopped p) = Unit {0}

pub running-tell : (s : Status) → running (tell s) ≡ running s
unfolding running tell
running-tell absent = refl
running-tell (fresh p) = refl
running-tell (stale p) = refl
running-tell (stopped p) = refl

pub running-change : (s : Status) → running (change s) ≡ running s
unfolding running change
running-change absent = refl
running-change (fresh p) = refl
running-change (stale p) = refl
running-change (stopped p) = refl

tell-IsCurrent : (s : Status) → IsCurrent (tell s)
unfolding tell IsCurrent
tell-IsCurrent absent = tt
tell-IsCurrent (fresh p) = tt
tell-IsCurrent (stale p) = tt
tell-IsCurrent (stopped p) = tt

pub absent-IsCurrent : (s : Status) → running s ≡ none → IsCurrent s
unfolding running IsCurrent
absent-IsCurrent absent e = tt
absent-IsCurrent (fresh p) e = tt
absent-IsCurrent (stale p) e = absurd cc
absent-IsCurrent (stopped p) e = tt

pub record Quiet {World : Type 0} (s t : Store World) : Type 0 where
  pub same_cmd : t.cmd ≡ s.cmd
  pub same_process : running (status t.log) ≡ running (status s.log)
  pub orderly : IsOrderly s.log → IsOrderly t.log
  pub current : IsCurrent (status s.log) → IsCurrent (status t.log)

module _ {World : Type 0} where
  -- A step that changes neither the process nor the log.
  pub aside-Quiet : (s t : Store World) → t.cmd ≡ s.cmd → t.log ≡ s.log → Quiet s t
  aside-Quiet s t c l = record {
    same_cmd = c;
    same_process = rw l refl;
    orderly = λ h. rw l h;
    current = λ h. rw l h;
  }

  pub reset_after-Quiet : (t : ℕ) (s : Store World) → Quiet s (reset_after t s)
  unfolding reset_after reset_restarts
  reset_after-Quiet t s = elim (Bool-cases (leb reset_time t)) [
    | inl e ↦ rw e (aside-Quiet s _ refl refl)
    | inr e ↦ rw e (aside-Quiet s _ refl refl)
  ]

  signalled-Quiet :
      (p : ℕ) (r : World × Result (Unit {0})) (s : Store World) → Quiet s (signalled p r s)
  unfolding signalled status IsOrderly
  signalled-Quiet p (w, ok u) s = record {
    same_cmd = refl;
    same_process = running-tell (status s.log);
    orderly = λ h. h;
    current = λ h. tell-IsCurrent (status s.log);
  }
  signalled-Quiet p (w, err e) s = record {
    same_cmd = refl;
    same_process = running-tell (status s.log);
    orderly = λ h. h;
    current = λ h. tell-IsCurrent (status s.log);
  }

  signalled-IsCurrent :
      (p : ℕ) (r : World × Result (Unit {0})) (s : Store World)
      → IsCurrent (status (signalled p r s).log)
  unfolding signalled status
  signalled-IsCurrent p (w, ok u) s = tell-IsCurrent (status s.log)
  signalled-IsCurrent p (w, err e) s = tell-IsCurrent (status s.log)

  stop_running-Quiet :
      (m : Machine World) (c : Option ℕ) (s : Store World) → Quiet s (stop_running m c s)
  unfolding stop_running note status IsOrderly
  stop_running-Quiet m none s = record {
    same_cmd = refl;
    same_process = refl;
    orderly = λ h. h;
    current = λ h. h;
  }
  stop_running-Quiet m (some p) s = signalled-Quiet p (m.signal p s.world) s

  pub stop-Quiet : (m : Machine World) (s : Store World) → Quiet s (stop m s)
  unfolding stop
  stop-Quiet m s = stop_running-Quiet m s.cmd s

  stop_running-IsCurrent :
      (m : Machine World) (c : Option ℕ) (s : Store World)
      → (c ≡ none → running (status s.log) ≡ none)
      → IsCurrent (status (stop_running m c s).log)
  unfolding stop_running note status
  stop_running-IsCurrent m none s h = absent-IsCurrent (status s.log) (h refl)
  stop_running-IsCurrent m (some p) s h = signalled-IsCurrent p (m.signal p s.world) s

  -- After a stop, a process that runs was started after the last change, or has been told to stop.
  pub stop-IsCurrent :
      (m : Machine World) (s : Store World)
      → (s.cmd ≡ none → running (status s.log) ≡ none)
      → IsCurrent (status (stop m s).log)
  unfolding stop
  stop-IsCurrent m s h = stop_running-IsCurrent m s.cmd s h
