-- ===== src/Watcher/Machine/Marks.antt =====
-- What is kept of the log, of the first goroutine and of the channel once the interrupt has stopped Fluent Bit.
use fluentbit_operator.Prelude.{◌≡◌, ◌≢◌, refl, Bool, true, none}
use fluentbit_operator.Watcher.Machine.{
  Runner, Interrupt, checking, starting, entering, renewing, delaying, timing, resetting, counting,
  crashed, waiting, exiting, clearing, run_returned, idle, closing, interrupt_stopping,
  interrupt_cancelling, interrupt_zeroing, interrupted,
}
use fluentbit_operator.Watcher.Machine.Log.{
  Status, absent, fresh, stale, stopped, change, tell, running,
}

-- No process runs but one that the watcher has tried to signal.
unfoldable pub IsTold : Status → Type 0
IsTold absent = Unit {0}
IsTold (fresh p) = ⊥
IsTold (stale p) = ⊥
IsTold (stopped p) = Unit {0}

pub change-IsTold : (s : Status) → IsTold s → IsTold (change s)
unfolding IsTold change
change-IsTold absent h = tt
change-IsTold (fresh p) h = absurd h
change-IsTold (stale p) h = absurd h
change-IsTold (stopped p) h = tt

pub tell-IsTold : (s : Status) → IsTold (tell s)
unfolding IsTold tell
tell-IsTold absent = tt
tell-IsTold (fresh p) = tt
tell-IsTold (stale p) = tt
tell-IsTold (stopped p) = tt

pub absent-IsTold : (s : Status) → running s ≡ none → IsTold s
unfolding running IsTold
absent-IsTold absent e = tt
absent-IsTold (fresh p) e = absurd cc
absent-IsTold (stale p) e = absurd cc
absent-IsTold (stopped p) e = tt

unfoldable pub IsPast : Runner → Type 0
IsPast starting = ⊥
IsPast checking = Unit {0}
IsPast entering = Unit {0}
IsPast renewing = Unit {0}
IsPast delaying = Unit {0}
IsPast timing = Unit {0}
IsPast resetting = Unit {0}
IsPast counting = Unit {0}
IsPast crashed = Unit {0}
IsPast (waiting p) = Unit {0}
IsPast (exiting t failed) = Unit {0}
IsPast (clearing failed) = Unit {0}
IsPast (run_returned failed) = Unit {0}

pub past : (r : Runner) → r ≢ starting → IsPast r
unfolding IsPast
past starting h = absurd (h refl)
past checking h = tt
past entering h = tt
past renewing h = tt
past delaying h = tt
past timing h = tt
past resetting h = tt
past counting h = tt
past crashed h = tt
past (waiting p) h = tt
past (exiting t failed) h = tt
past (clearing failed) h = tt
past (run_returned failed) h = tt

-- The channel is closed before the stop.
unfoldable pub HasClosed : Interrupt → Bool → Type 0
HasClosed idle b = Unit {0}
HasClosed closing b = Unit {0}
HasClosed interrupt_stopping b = b ≡ true
HasClosed interrupt_cancelling b = b ≡ true
HasClosed interrupt_zeroing b = b ≡ true
HasClosed interrupted b = b ≡ true
