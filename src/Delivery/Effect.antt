-- ===== src/Delivery/Effect.antt =====
-- From the controller to the process: what the watcher starts after an event, where it waited for the timer.
use fluentbit_operator.Prelude.{
  ◌≡◌, sym, ◌∙◌, ap₂, ℕ, String, Bool, true, false, Option, some, List, lookup, map, Mem, GoMap,
  ◌+◌, ◌≤◌, if◌then◌else◌,
}
use fluentbit_operator.Result.{ok}
use fluentbit_operator.Run.Laws.{then_ok}
use fluentbit_operator.Config.Render.{Script}
use fluentbit_operator.Controllers.Config.{Client, FluentBitConfig, rendered}
use fluentbit_operator.Files.{Bytes, FilePath}
use fluentbit_operator.Files.Laws.{IsFileSystem}
use fluentbit_operator.Files.Gzip.{is_magic, limit}
use fluentbit_operator.Files.Gzip.Laws.{IsGzip}
use fluentbit_operator.Watcher.Config.{default_cfg_path, new_config, new_config_path, prepare}
use fluentbit_operator.Watcher.Process.{Machine, launch}
use fluentbit_operator.Watcher.Machine.{
  Op, System, Reachable, handle, event, is_valid_event, timing, listening,
}
use fluentbit_operator.Watcher.Machine.Log.{fresh, status}
use fluentbit_operator.Watcher.Machine.Restart.{change_restarts}
use fluentbit_operator.Watcher.Machine.Turns.{Turn, firsts, seconds, play}
use fluentbit_operator.Delivery.{main_config, scripts, mounted, read_from, main_config_arrives}

-- The machine, where the watcher is given no other configuration than the default one.
abbrev pub default_machine : {Files : Type 0} → Machine Files → Machine Files
default_machine machine = record machine { config_path = default_cfg_path }

module _ {World LabelSelector Selector : Type 0} (client : Client World LabelSelector Selector)
    (use_compression : Bool) (w : World) (namespace : String) (cfg : FluentBitConfig LabelSelector)
    {Files : Type 0} (machine : Machine Files) (view : Files → FilePath → Option Bytes)
    (fs : IsFileSystem machine.os view) (gz : IsGzip machine.codec) (encode : String → Bytes) where
  -- What the process `q` has been started with: the main configuration is in the file that is read.
  pub record Effect (t : System Files) (q : ℕ) : Type 0 where
    pub main : String
    pub is_main : main_config client use_compression w namespace cfg ≡ ok main
    pub file : String
    pub named : file ≡ (if use_compression then new_config_path else default_cfg_path)
    pub files : Files
    pub holds : view files (read_from machine.path_of file) ≡ some (encode main)
    pub starts : machine.command machine.bin_path file files ≡ (t.store.world, ok q)
    pub remembered : t.store.cmd ≡ some q
    pub counted : t.store.restart_times ≡ 0
    pub is_fresh : status t.store.log ≡ fresh q
    pub listens : t.handler ≡ listening

  -- Where the controller has rendered the data of a Secret, no script of which is called fluent-bit.conf, and the
  -- watcher is in a state that can be reached, in which the first goroutine waits for the timer, which is not cancelled, the
  -- second one listens, and nothing has been told to return: if a valid event comes when the file of that name in the
  -- watched directory holds what the Secret does, and the start of the default configuration succeeds, then, however the two
  -- goroutines take turns, with no timer fired, no further event and nothing else changed on the machine, once the second one
  -- has taken two turns, and then the first one four, and the second one four in all, there is a process that has been started
  -- after the event, with a path, that of the scratch file if the Secret is compressed and the default one if not, such that
  -- the file that Fluent Bit reads when started with it held the bytes of the main configuration; where compressing a text
  -- gives a text with the bytes that gzip gives, the main configuration does not start like a compressed file, and the path of
  -- the scratch file names it.
  pub play-Effect :
      (compresses : (s c : String)
        → client.compress_bytes s ≡ ok c
        → encode c ≡ machine.codec.compress (encode s))
      (plain : (s : String)
        → main_config client use_compression w namespace cfg ≡ ok s
        → is_magic (limit 8 (encode s)) ≡ false)
      (scratch : machine.path_of new_config_path ≡ new_config) (m : GoMap String) (o : Op)
      (ts us : List Turn) (s : System Files) (q : ℕ)
      → rendered client use_compression w namespace cfg ≡ ok m
      → ((ss : List Script)
          → scripts client use_compression w namespace cfg ≡ ok ss
          → ¬ Mem "fluent-bit.conf" (map (λ s. s.name) ss))
      → ((held : String)
          → lookup "fluent-bit.conf" m ≡ some held
          → view s.store.world mounted ≡ some (encode held))
      → Reachable (default_machine machine) s
      → s.runner ≡ timing
      → s.store.cancelled ≡ false
      → s.handler ≡ listening
      → s.closed ≡ false
      → is_valid_event o ≡ true
      → (launch (default_machine machine) s.store.world).1 ≡ ok q
      → 2 ≤ seconds ts
      → 4 ≤ firsts us
      → 4 ≤ seconds ts + seconds us
      → Effect
          (play
            (default_machine machine)
            us
            (play (default_machine machine) ts (handle (default_machine machine) (event o) s)))
          q
  play-Effect compresses plain scratch m o ts us s q r free mount reached e k h c valid l l1 l2 l3 =
      let (file, prepared, same) =
        then_ok (prepare machine.os machine.codec machine.path_of default_cfg_path)
          (machine.command machine.bin_path) s.store.world q l in
      let (main, is_main, named, holds) =
        main_config_arrives client use_compression w namespace cfg machine.os view fs machine.codec
          gz machine.path_of encode compresses plain scratch m s.store.world file r free mount
          prepared in
      let (listens, x) =
        change_restarts (default_machine machine) o ts us s q reached e k h c valid l l1 l2 l3 in
      record {
        main = main;
        is_main = is_main;
        file = file;
        named = named;
        files = (prepare machine.os machine.codec machine.path_of default_cfg_path s.store.world).0;
        holds = holds;
        starts = sym same ∙ ap₂ (λ a b. (a, b)) (sym x.launches) l;
        remembered = x.remembered;
        counted = x.counted;
        is_fresh = x.is_fresh;
        listens = listens;
      }
