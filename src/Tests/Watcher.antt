-- ===== src/Tests/Watcher.antt =====
-- A machine on which every start succeeds: its state is the number of the next process.
use fluentbit_operator.Prelude.{◌≡◌, ◌≢◌, refl, ℕ, suc, true, false, ◌||◌, List, [], ◌∷◌, arith}
use fluentbit_operator.Result.{ok}
use fluentbit_operator.Files.{Os}
use fluentbit_operator.Files.Gzip.{is_compressed}
use fluentbit_operator.Watcher.Config.{default_cfg_path, prepare}
use fluentbit_operator.Watcher.Process.{Machine}
use fluentbit_operator.Watcher.Machine.{
  Input, System, Reachable, begins, steps, handles, initial, run, handle, has_crashed,
  interrupt_step, interrupts, starting, run_done, proceed, exits, event, write, checking, waiting,
  listening, stopping, interrupted, is_valid_event,
}
use fluentbit_operator.Tests.Runs.{
  early_turns, late_turns, run_through, lives, run_through-Reachable,
}
use fluentbit_operator.Watcher.Machine.Log.{status, fresh, IsOrderly}
use fluentbit_operator.Watcher.Machine.Quiet.{IsCurrent}
use fluentbit_operator.Watcher.Machine.Processes.{Reachable-IsOrderly, Reachable-IsCurrent}
use fluentbit_operator.Watcher.Machine.Rounds.{
  intended_delays, delays, rounds, Settled, rounds_back_off,
}
use fluentbit_operator.Watcher.Machine.Restart.{change_restarts}
use fluentbit_operator.Watcher.Machine.Turns.{firsts, seconds, play, Restarted}
use fluentbit_operator.Watcher.Machine.Shutdown.{go_on, closed_ends}
use fluentbit_operator.Watcher.Machine.Marks.{IsTold}
use fluentbit_operator.Watcher.Machine.Told.{here, onwards, shutdown_tells}

abbrev counting_os : Os ℕ
counting_os = record {
  stat = λ w d. ok (record { name = d; is_dir = true });
  mkdir = λ d w. (w, ok tt);
  open_dir = λ w d. ok tt;
  read_dir = λ w d. ok [];
  open_file = λ w p. ok tt;
  content = λ w p. ok (1 ∷ []);
  create = λ p w. (w, ok tt);
  write = λ p bs w. (w, ok tt);
}

abbrev machine : Machine ℕ
machine = record {
  os = counting_os;
  codec = record { compress = λ bs. bs; read_header = λ bs. ok tt; decompress = ok };
  path_of = λ s. record { dir = "/fluent-bit/etc"; base = s };
  command = λ bin file w. (suc w, ok w);
  signal = λ p w. (w, ok tt);
  converted = λ n. 0;
  bin_path = "/fluent-bit/bin/fluent-bit";
  config_path = default_cfg_path;
  exit_on_failure = false;
}

abbrev to_delay : List Input
to_delay = proceed ∷ proceed ∷ proceed ∷ exits 5 true ∷ proceed ∷ proceed ∷ proceed ∷ proceed ∷ []

abbrev delaying_system : System ℕ
delaying_system = run_through machine to_delay (initial 40)

delaying-Reachable : Reachable machine delaying_system
unfolding lives has_crashed run initial prepare is_compressed
delaying-Reachable = run_through-Reachable machine to_delay (initial 40) refl (begins 40)

Reachable-IsOrderly_example : IsOrderly delaying_system.store.log
Reachable-IsOrderly_example = Reachable-IsOrderly machine delaying_system delaying-Reachable

-- Fluent Bit runs, the configuration changes, and Fluent Bit is told to stop.
abbrev running_system : System ℕ
running_system = run_through machine (proceed ∷ proceed ∷ proceed ∷ []) (initial 40)

running-Reachable : Reachable machine running_system
unfolding lives has_crashed run initial prepare is_compressed
running-Reachable =
    run_through-Reachable machine (proceed ∷ proceed ∷ proceed ∷ []) (initial 40) refl (begins 40)

abbrev stopped_system : System ℕ
stopped_system = handle machine proceed (handle machine (event write) running_system)

stopped-Reachable : Reachable machine stopped_system
unfolding lives has_crashed run handle initial prepare is_compressed
stopped-Reachable =
    steps _ _ (steps _ _ running-Reachable (handles (event write) running_system refl))
      (handles proceed (handle machine (event write) running_system) refl)

stopped_goes_on : stopped_system.handler ≢ stopping
unfolding run handle initial
stopped_goes_on e = cc

Reachable-IsCurrent_example : IsCurrent (status stopped_system.store.log)
Reachable-IsCurrent_example =
    Reachable-IsCurrent machine stopped_system stopped-Reachable stopped_goes_on

change_restarts_example :
    let s =
      play machine late_turns
        (play machine early_turns (handle machine (event write) delaying_system)) in
    (s.handler ≡ listening) × Restarted machine delaying_system.store.world 41 s.store
unfolding run initial prepare is_valid_event is_compressed firsts seconds
change_restarts_example =
    change_restarts machine write early_turns late_turns delaying_system 41 delaying-Reachable refl
      refl refl refl refl refl (omega arith) (omega arith) (omega arith)

rounds_back_off_example :
    Settled machine 12
      (rounds machine (λ i w. suc w) 12 (λ i. 5) (λ i. true) (checking, (initial 40).store))
unfolding prepare initial is_compressed intended_delays delays
rounds_back_off_example =
    rounds_back_off machine (λ w. (w, refl)) refl (λ i w. suc w) (λ i. 5) (λ i. true)
      (initial 40).store (λ i. refl)
      (record { here = refl; absent = refl; counted = refl; logged = refl }) 12 (omega arith)

-- A signal that ends the watcher between the test of the channel and the start: Fluent Bit is started after the stop,
-- and the watcher waits for it.
abbrev interrupt_all : System ℕ → System ℕ
interrupt_all s = interrupt_step machine true (
    interrupt_step machine true
      (interrupt_step machine true (interrupt_step machine true (interrupt_step machine true s))))

late_start :
    let s =
      run machine proceed
        (run machine proceed (interrupt_all (run machine proceed (initial 40)))) in
    (s.interrupt ≡ interrupted) × (s.runner ≡ waiting 40) × (status s.store.log ≡ fresh 40)
unfolding run initial interrupt_step prepare status is_compressed
late_start = (refl, refl, refl)

closed_ends_example :
    (has_crashed (go_on machine 10 (λ n s. s) running_system.runner running_system.store)
      || run_done (go_on machine 10 (λ n s. s) running_system.runner running_system.store))
    ≡ true
closed_ends_example = closed_ends machine (λ n s. s) running_system.runner running_system.store

-- The watcher is told to end while Fluent Bit runs, and then the configuration changes.
abbrev ending_system : System ℕ
ending_system = interrupt_step machine true (interrupt_step machine true running_system)

ending-Reachable : Reachable machine ending_system
unfolding has_crashed run initial interrupt_step prepare is_compressed
ending-Reachable =
    steps _ _ (steps _ _ running-Reachable (interrupts true running_system refl))
      (interrupts true (interrupt_step machine true running_system) refl)

ending_waits : ending_system.runner ≢ starting
unfolding run initial interrupt_step prepare is_compressed
ending_waits e = cc

abbrev ended_system : System ℕ
ended_system = interrupt_step machine true ending_system

shutdown_tells_example : IsTold (status (handle machine (event write) ended_system).store.log)
unfolding has_crashed run initial interrupt_step prepare is_compressed
shutdown_tells_example =
    shutdown_tells machine true ending_system (handle machine (event write) ended_system)
      ending-Reachable refl ending_waits
      (onwards ended_system (handle machine (event write) ended_system) here
        (handles (event write) ended_system refl))
