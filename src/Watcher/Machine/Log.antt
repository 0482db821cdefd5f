-- ===== src/Watcher/Machine/Log.antt =====
-- What the log of the watcher says of the processes, read from its oldest entry on.
use fluentbit_operator.Prelude.{◌≡◌, ℕ, Option, none, some, List, [], ◌∷◌}
use fluentbit_operator.Watcher.Process.{
  Entry, started, exited, killed, kill_error, start_error, changed, not_running, change_handled,
  delayed, timer_cancelled, timer_done,
}

-- The process that runs: started after the last change of the configuration; started before it, and not stopped
-- since; or told to stop.
pub data Status : Type 0 where
  absent : Status
  fresh stale stopped : ℕ → Status

unfoldable pub change : Status → Status
change absent = absent
change (fresh p) = stale p
change (stale p) = stale p
change (stopped p) = stopped p

unfoldable pub tell : Status → Status
tell absent = absent
tell (fresh p) = stopped p
tell (stale p) = stopped p
tell (stopped p) = stopped p

unfoldable pub status : List Entry → Status
unfolding change tell
status [] = absent
status (started p ∷ l) = fresh p
status (exited p ∷ l) = absent
status (killed p ∷ l) = tell (status l)
status (kill_error p ∷ l) = tell (status l)
status (changed ∷ l) = change (status l)
status (start_error e ∷ l) = status l
status (not_running ∷ l) = status l
status (change_handled ∷ l) = status l
status (delayed d ∷ l) = status l
status (timer_cancelled ∷ l) = status l
status (timer_done ∷ l) = status l

unfoldable pub running : Status → Option ℕ
running absent = none
running (fresh p) = some p
running (stale p) = some p
running (stopped p) = some p

-- A process is started where none runs, and the one that exits is the one that runs.
unfoldable pub IsOrderly : List Entry → Type 0
unfolding running status
IsOrderly [] = Unit {0}
IsOrderly (started p ∷ l) = (running (status l) ≡ none) × IsOrderly l
IsOrderly (exited p ∷ l) = (running (status l) ≡ some p) × IsOrderly l
IsOrderly (killed p ∷ l) = IsOrderly l
IsOrderly (kill_error p ∷ l) = IsOrderly l
IsOrderly (changed ∷ l) = IsOrderly l
IsOrderly (start_error e ∷ l) = IsOrderly l
IsOrderly (not_running ∷ l) = IsOrderly l
IsOrderly (change_handled ∷ l) = IsOrderly l
IsOrderly (delayed d ∷ l) = IsOrderly l
IsOrderly (timer_cancelled ∷ l) = IsOrderly l
IsOrderly (timer_done ∷ l) = IsOrderly l
