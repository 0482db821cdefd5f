-- ===== src/Watcher/Machine.antt =====
-- cmd/fluent-bit-watcher/main.go: the goroutines of `main`, each as a function from the point that it has reached to
-- the next one, and their interleavings. `mutex` makes `start` and `stop` one step each; loads and stores of the
-- counter are atomic, as is a call of `timerCancel`. run.Group, of package oklog/run, runs the functions, and calls the
-- functions that interrupt them, one after the other, when one of them has returned.
-- Files that change while `start` reads them are left out: they change between two steps.
pub mod Log
pub mod Quiet
pub mod Moves
pub mod Processes
pub mod Rounds
pub mod Turns
pub mod Restart
pub mod Shutdown
pub mod Marks
pub mod Told
use fluentbit_operator.Prelude.{
  ◌≡◌, ℕ, String, Bool, true, false, ◌&&◌, ◌||◌, Option, none, some, [], eqb, if◌then◌else◌,
}
use fluentbit_operator.Watcher.Process.{
  Machine, Store, started, exited, changed, change_handled, delayed, timer_cancelled, timer_done,
  note, start, start_panics, stop, timer_cancel, reset_restarts, reset_after, forget, new_timer,
  delay, count,
}

-- Where the goroutine is that watches Fluent Bit.
pub data Runner : Type 0 where
  checking starting entering renewing delaying timing resetting counting crashed : Runner
  waiting : ℕ → Runner
  exiting : ℕ → Bool → Runner
  clearing : Bool → Runner
  run_returned : Bool → Runner

-- Where the goroutine is that watches the configuration.
pub data Handler : Type 0 where
  listening stopping cancelling zeroing reporting watch_returned : Handler

-- Where the function is that interrupts the first goroutine: `close(cancel)`, `stop()` and `resetTimer()`.
pub data Interrupt : Type 0 where
  idle closing interrupt_stopping interrupt_cancelling interrupt_zeroing interrupted : Interrupt

-- `fsnotify.Op`, a mask of bits: one event may have several.
abbrev pub Op : Type 0
Op = ℕ

abbrev pub create : Op
create = 1

abbrev pub write : Op
write = 2

unfoldable pub is_valid_event : Op → Bool
is_valid_event op = eqb op create || eqb op write

-- What a goroutine may be waiting for: the exit of the process after a time, with an error or not; the timer, or the
-- end of its context; an event or an error of the watcher, or the channel that tells it to return.
pub data Input : Type 0 where
  proceed timer_fires watch_error told : Input
  exits : ℕ → Bool → Input
  event : Op → Input

pub record System (World : Type 0) : Type 0 where
  pub store : Store World
  pub runner : Runner
  pub handler : Handler
  pub interrupt : Interrupt
  pub closed : Bool  -- `cancel` of the first goroutine
  pub watch_closed : Bool  -- `cancel` of the second goroutine

-- `wait` returns nil where there is no process.
unfoldable pub enter : Option ℕ → Runner
enter none = renewing
enter (some p) = waiting p

-- Has one of the goroutines returned?
unfoldable pub run_done : Runner → Bool
run_done checking = false
run_done starting = false
run_done entering = false
run_done renewing = false
run_done delaying = false
run_done timing = false
run_done resetting = false
run_done counting = false
run_done crashed = false
run_done (waiting p) = false
run_done (exiting t failed) = false
run_done (clearing failed) = false
run_done (run_returned failed) = true

unfoldable pub watch_done : Handler → Bool
watch_done listening = false
watch_done stopping = false
watch_done cancelling = false
watch_done zeroing = false
watch_done reporting = false
watch_done watch_returned = true

-- A panic of a goroutine ends the program.
unfoldable pub has_crashed : Runner → Bool
has_crashed crashed = true
has_crashed checking = false
has_crashed starting = false
has_crashed entering = false
has_crashed renewing = false
has_crashed delaying = false
has_crashed timing = false
has_crashed resetting = false
has_crashed counting = false
has_crashed (waiting p) = false
has_crashed (exiting t failed) = false
has_crashed (clearing failed) = false
has_crashed (run_returned failed) = false

module _ {World : Type 0} (m : Machine World) where
  -- A step of the first goroutine, with `closed` read from its channel.
  unfoldable pub run_step : Bool → Input → Runner → Store World → Runner × Store World
  unfolding enter note start start_panics reset_after forget new_timer delay count reset_restarts
  run_step closed i checking s = ((if closed then run_returned false else starting), s)
  run_step closed i starting s =
      ((if start_panics m s.cmd s.world then crashed else entering), start m s)
  run_step closed i entering s = (enter s.cmd, s)
  run_step closed (exits t failed) (waiting p) s = (exiting t failed, note (exited p) s)
  run_step closed proceed (waiting p) s = (waiting p, s)
  run_step closed timer_fires (waiting p) s = (waiting p, s)
  run_step closed watch_error (waiting p) s = (waiting p, s)
  run_step closed told (waiting p) s = (waiting p, s)
  run_step closed (event o) (waiting p) s = (waiting p, s)
  run_step closed i (exiting t failed) s = (clearing failed, reset_after t s)
  run_step closed i (clearing failed) s =
      ((if m.exit_on_failure && failed then run_returned true else renewing), forget s)
  run_step closed i renewing s = (delaying, new_timer s)
  run_step closed i delaying s = (timing, note (delayed (delay m s)) s)
  run_step closed timer_fires timing s = (counting, note timer_done s)
  run_step closed proceed timing s =
      if s.cancelled then (resetting, note timer_cancelled s) else (timing, s)
  run_step closed watch_error timing s = (timing, s)
  run_step closed told timing s = (timing, s)
  run_step closed (event o) timing s = (timing, s)
  run_step closed (exits t failed) timing s = (timing, s)
  run_step closed i resetting s = (checking, reset_restarts s)
  run_step closed i counting s = (checking, count s)
  run_step closed i crashed s = (crashed, s)
  run_step closed i (run_returned failed) s = (run_returned failed, s)

  -- A step of the second goroutine.
  unfoldable pub handle_step : Bool → Input → Handler → Store World → Handler × Store World
  unfolding is_valid_event note stop timer_cancel reset_restarts
  handle_step closed (event o) listening s =
      if is_valid_event o then (stopping, note changed s) else (listening, s)
  handle_step closed watch_error listening s = (watch_returned, s)
  handle_step closed told listening s = ((if closed then watch_returned else listening), s)
  handle_step closed proceed listening s = (listening, s)
  handle_step closed timer_fires listening s = (listening, s)
  handle_step closed (exits t failed) listening s = (listening, s)
  handle_step closed i stopping s = (cancelling, stop m s)
  handle_step closed i cancelling s = (zeroing, timer_cancel s)
  handle_step closed i zeroing s = (reporting, reset_restarts s)
  handle_step closed i reporting s = (listening, note change_handled s)
  handle_step closed i watch_returned s = (watch_returned, s)

  -- A step of the group. `terminated` says that the goroutine of the signal handler has returned.
  unfoldable pub interrupt_at : Interrupt → Bool → System World → System World
  unfolding run_done watch_done stop timer_cancel reset_restarts
  interrupt_at idle terminated s =
      if terminated || run_done s.runner || watch_done s.handler
      then record s { interrupt = closing }
      else s
  interrupt_at closing terminated s = record s { interrupt = interrupt_stopping; closed = true }
  interrupt_at interrupt_stopping terminated s = record s {
    interrupt = interrupt_cancelling;
    store = stop m s.store;
  }
  interrupt_at interrupt_cancelling terminated s = record s {
    interrupt = interrupt_zeroing;
    store = timer_cancel s.store;
  }
  interrupt_at interrupt_zeroing terminated s = record s {
    interrupt = interrupted;
    store = reset_restarts s.store;
  }
  interrupt_at interrupted terminated s = record s { watch_closed = true }

  unfoldable pub interrupt_step : Bool → System World → System World
  unfolding interrupt_at
  interrupt_step terminated s = interrupt_at s.interrupt terminated s

  unfoldable pub run : Input → System World → System World
  unfolding run_step
  run i s =
      let (r, st) = run_step s.closed i s.runner s.store in record s { runner = r; store = st }

  unfoldable pub handle : Input → System World → System World
  unfolding handle_step
  handle i s =
      let (h, st) = handle_step s.watch_closed i s.handler s.store in
      record s { handler = h; store = st }

  unfoldable pub elsewhere : World → System World → System World
  elsewhere w s = record s { store = record s.store { world = w } }

  -- One step of the whole: of a goroutine, or of anything else on the machine.
  pub data Step : System World → System World → Type 0 where
    runs : (i : Input) (s : System World) → has_crashed s.runner ≡ false → Step s (run i s)
    handles : (i : Input) (s : System World) → has_crashed s.runner ≡ false → Step s (handle i s)
    interrupts :
        (terminated : Bool) (s : System World)
        → has_crashed s.runner ≡ false
        → Step s (interrupt_step terminated s)
    changes : (w : World) (s : System World) → Step s (elsewhere w s)

-- The start of `main`
unfoldable pub initial : {World : Type 0} → World → System World
initial w = record {
  store = record { world = w; cmd = none; restart_times = 0; cancelled = false; log = [] };
  runner = checking;
  handler = listening;
  interrupt = idle;
  closed = false;
  watch_closed = false;
}

pub data Reachable {World : Type 0} (m : Machine World) : System World → Type 0 where
  begins : (w : World) → Reachable m (initial w)
  steps : (s t : System World) → Reachable m s → Step m s t → Reachable m t
