-- ===== src/Tests/Effect.antt =====
-- The watcher waits for the timer, since there was nothing to start; then the Secret is mounted, and an event comes.
use fluentbit_operator.Prelude.{refl, false, true, List, [], ◌∷◌, arith, Option, has_suffix}
use fluentbit_operator.Result.{ok}
use fluentbit_operator.Files.{Bytes, FilePath}
use fluentbit_operator.Files.Copy.{copy_files_with_filter}
use fluentbit_operator.Files.Gzip.{is_compressed, decompress_file}
use fluentbit_operator.Watcher.Config.{default_cfg_path, prepare}
use fluentbit_operator.Watcher.Process.{Machine}
use fluentbit_operator.Watcher.Machine.{
  Input, System, Reachable, begins, steps, changes, initial, run, elsewhere, has_crashed,
  is_valid_event, proceed, event, handle, write,
}
use fluentbit_operator.Watcher.Machine.Turns.{firsts, seconds, play}
use fluentbit_operator.Delivery.Effect.{Effect, play-Effect}
use fluentbit_operator.Controllers.Config.{rendered}
use fluentbit_operator.Plugins.Runs.{plugin_runs}
use fluentbit_operator.Tests.Controllers.{config}
use fluentbit_operator.Tests.Delivery.{
  encode, compressing, no_secrets, secret, mounted_table, only_script, main_plain, what_is_stored,
  compress_bytes_encode,
}
use fluentbit_operator.Tests.Files.{
  nothing, table_os, view, table-IsFileSystem, plain_codec, plain_codec-IsGzip, path_of,
}
use fluentbit_operator.Tests.Runs.{
  early_turns, late_turns, run_through, lives, run_through-Reachable,
}

abbrev machine : Machine (FilePath → Option Bytes)
machine = record {
  os = table_os;
  codec = plain_codec;
  path_of = path_of;
  command = λ bin file w. (w, ok 7);
  signal = λ p w. (w, ok tt);
  converted = λ n. 0;
  bin_path = "/fluent-bit/bin/fluent-bit";
  config_path = default_cfg_path;
  exit_on_failure = false;
}

abbrev to_timer : List Input
to_timer = proceed ∷ proceed ∷ proceed ∷ proceed ∷ proceed ∷ []

abbrev waiting_system : System (FilePath → Option Bytes)
waiting_system = run_through machine to_timer (initial nothing)

abbrev mounted_system : System (FilePath → Option Bytes)
mounted_system = elsewhere machine mounted_table waiting_system

mounted-Reachable : Reachable machine mounted_system
unfolding lives has_crashed run initial prepare is_compressed
mounted-Reachable =
    steps waiting_system mounted_system
      (run_through-Reachable machine to_timer (initial nothing) refl (begins nothing))
      (changes mounted_table waiting_system)

play-Effect_example :
    Effect compressing true no_secrets "fluent"
      (config "a")
      machine
      view
      table-IsFileSystem
      plain_codec-IsGzip
      encode
      (play machine late_turns
        (play machine early_turns (handle machine (event write) mounted_system)))
      7
unfolding run initial prepare is_valid_event is_compressed elsewhere rendered plugin_runs
    copy_files_with_filter decompress_file view has_suffix firsts seconds
play-Effect_example =
    play-Effect compressing true no_secrets "fluent" (config "a") machine view table-IsFileSystem
      plain_codec-IsGzip encode compress_bytes_encode main_plain refl secret write early_turns
      late_turns mounted_system 7 refl only_script what_is_stored mounted-Reachable refl refl refl
      refl refl refl (omega arith) (omega arith) (omega arith)
