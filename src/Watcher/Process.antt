-- ===== src/Watcher/Process.antt =====
-- cmd/fluent-bit-watcher/main.go: the variables of package main, and what the goroutines do with them between two
-- points at which another one may run. A process is the number that the call that started it gave. The log holds,
-- newest first, the lines that tell what happened to the process, to the configuration and to the timer.
-- `cmd.Process` is set where `cmd` is, under the mutex.
use fluentbit_operator.Prelude.{
  ℕ, ◌+◌, ◌*◌, ◌^◌, ◌%◌, String, Bool, true, false, Option, none, some, List, ◌∷◌, ltb, leb, ℤ, pos,
  if◌then◌else◌,
}
use fluentbit_operator.Result.{Error, Result, ok, err, not_found, already_exists, other, panicked}
use fluentbit_operator.Run.{Run, continue, ◌>>=◌}
use fluentbit_operator.Files.{Os, FilePath}
use fluentbit_operator.Files.Gzip.{Codec}
use fluentbit_operator.Watcher.Backoff.{second, delay_time}
use fluentbit_operator.Watcher.Config.{prepare}

pub data Entry : Type 0 where
  started exited killed kill_error : ℕ → Entry
  start_error : Error → Entry
  changed not_running change_handled : Entry
  delayed : ℤ → Entry
  timer_cancelled timer_done : Entry

-- What the machine does, and the flags of the command line
pub record Machine (World : Type 0) : Type 0 where
  pub os : Os World
  pub codec : Codec
  pub path_of : String → FilePath
  pub command : String → String → Run World ℕ  -- `exec.Command` and `Start`
  pub signal : ℕ → Run World (Unit {0})
  pub converted : ℕ → ℕ
  pub bin_path : String
  pub config_path : String
  pub exit_on_failure : Bool

pub record Store (World : Type 0) : Type 0 where
  pub world : World
  pub cmd : Option ℕ
  pub restart_times : ℕ  -- the bits of an int32
  pub cancelled : Bool  -- `timerCtx` is done
  pub log : List Entry

-- `ResetTime`, in nanoseconds
abbrev pub reset_time : ℕ
reset_time = 600 * second

-- Does a start end in a panic?
unfoldable pub panics : Result ℕ → Bool
panics (ok p) = false
panics (err (not_found e)) = false
panics (err (already_exists e)) = false
panics (err (other e)) = false
panics (err panicked) = true

module _ {World : Type 0} where
  unfoldable pub note : Entry → Store World → Store World
  note e s = record s { log = e ∷ s.log }

  unfoldable pub launched : World × Result ℕ → Store World → Store World
  launched (w, ok p) s = record s { world = w; cmd = some p; log = started p ∷ s.log }
  launched (w, err (not_found e)) s = record s {
    world = w;
    cmd = none;
    log = start_error (not_found e) ∷ s.log;
  }
  launched (w, err (already_exists e)) s = record s {
    world = w;
    cmd = none;
    log = start_error (already_exists e) ∷ s.log;
  }
  launched (w, err (other e)) s = record s {
    world = w;
    cmd = none;
    log = start_error (other e) ∷ s.log;
  }
  launched (w, err panicked) s = record s { world = w }

  -- What `start` runs where there is no process
  abbrev pub launch : Machine World → Run World ℕ
  launch m = prepare m.os m.codec m.path_of m.config_path >>= m.command m.bin_path

  unfoldable pub start_unless : Machine World → Option ℕ → Store World → Store World
  unfolding launched continue
  start_unless m (some p) s = s
  start_unless m none s = launched (launch m s.world) s

  unfoldable pub start : Machine World → Store World → Store World
  unfolding start_unless
  start m s = start_unless m s.cmd s

  unfoldable pub start_panics : Machine World → Option ℕ → World → Bool
  unfolding panics continue
  start_panics m (some p) w = false
  start_panics m none w = panics (launch m w).1

  unfoldable pub signalled : ℕ → World × Result (Unit {0}) → Store World → Store World
  signalled p (w, ok _) s = record s { world = w; log = killed p ∷ s.log }
  signalled p (w, err _) s = record s { world = w; log = kill_error p ∷ s.log }

  unfoldable pub stop_running : Machine World → Option ℕ → Store World → Store World
  unfolding signalled note
  stop_running m none s = note not_running s
  stop_running m (some p) s = signalled p (m.signal p s.world) s

  unfoldable pub stop : Machine World → Store World → Store World
  unfolding stop_running
  stop m s = stop_running m s.cmd s

  -- The two halves of `resetTimer`: `timerCancel()`, and the counter
  unfoldable pub timer_cancel : Store World → Store World
  timer_cancel s = record s { cancelled = true }

  unfoldable pub reset_restarts : Store World → Store World
  reset_restarts s = record s { restart_times = 0 }

  -- `wait`: a process that ran for long resets the counter; then there is none.
  unfoldable pub reset_after : ℕ → Store World → Store World
  unfolding reset_restarts
  reset_after elapsed s = if leb reset_time elapsed then reset_restarts s else s

  unfoldable pub forget : Store World → Store World
  forget s = record s { cmd = none }

  -- The new context of the loop
  unfoldable pub new_timer : Store World → Store World
  new_timer s = record s { cancelled = false }

  -- `backoff`: 2 to the power of a negative number is cut to 0.
  unfoldable pub delay : Machine World → Store World → ℤ
  unfolding delay_time
  delay m s = if ltb s.restart_times (2 ^ 31) then delay_time m.converted s.restart_times else pos 0

  unfoldable pub count : Store World → Store World
  count s = record s { restart_times = (s.restart_times + 1) % 2 ^ 32 }
