-- ===== src/Delivery.antt =====
-- From the controller to the watcher: controllers/fluentbitconfig_controller.go writes a Secret, which the pod sees as
-- the directory /fluent-bit/config, and cmd/fluent-bit-watcher/main.go starts Fluent Bit with what is there. The bytes
-- of a text are a parameter, as is the mounting of the Secret.
pub mod Effect
use fluentbit_operator.Prelude.{
  ◌≡◌, ◌≢◌, refl, ◌==◌, sym, ap, ◌∙◌, String, Bool, true, false, Option, some, List, eq_iff, lookup,
  map, Mem, GoMap, sort_by, if◌then◌else◌,
}
use fluentbit_operator.Result.{Result, ok, ◌>>=◌, bind_ok, ok_bind, ok-injective}
use fluentbit_operator.Config.Render.{
  Script, render_main_config, render_parser_config, render_lua_script,
}
use fluentbit_operator.Controllers.Config.{
  Client, FluentBitConfig, list_matching, secret_loader, config_map_loader, rendered,
}
use fluentbit_operator.Controllers.Config.Data.{lookup-secret_data, last_script_absent}
use fluentbit_operator.Files.{Bytes, FilePath, Os}
use fluentbit_operator.Files.Laws.{IsFileSystem}
use fluentbit_operator.Files.Gzip.{Codec, is_magic, limit}
use fluentbit_operator.Files.Gzip.Laws.{IsGzip}
use fluentbit_operator.Watcher.Config.{
  default_cfg_path, default_watch_dir, scratch_cfg_dir, new_config, new_config_path,
  is_custom_config_set, file_to_check, prepare,
}
use fluentbit_operator.Watcher.Config.Restored.{prepare_restores, prepare_plain}

away : default_watch_dir ≢ scratch_cfg_dir
away e = let same = (eq_iff default_watch_dir scratch_cfg_dir).1 e in cc

abbrev pub mounted : FilePath
mounted = record { dir = default_watch_dir; base = "fluent-bit.conf" }

-- The file that a Fluent Bit that is started with this path reads the configuration from: conf/fluent-bit.conf, which
-- the default path names, only includes the one in the directory that is watched.
unfoldable pub read_from : (String → FilePath) → String → FilePath
read_from path_of p = if p == default_cfg_path then mounted else path_of p

read_from-default :
    (path_of : String → FilePath) (p : String)
    → p ≡ default_cfg_path
    → read_from path_of p ≡ mounted
unfolding read_from
read_from-default path_of p e = rw e refl

read_from-scratch :
    (path_of : String → FilePath) (p : String)
    → p ≡ new_config_path
    → path_of new_config_path ≡ new_config
    → read_from path_of p ≡ new_config
unfolding read_from
read_from-scratch path_of p e h = rw e h

module _ {World LabelSelector Selector : Type 0} (client : Client World LabelSelector Selector)
    (use_compression : Bool) (w : World) (namespace : String)
    (cfg : FluentBitConfig LabelSelector) where
  -- The main configuration and the scripts that the controller renders
  unfoldable pub main_config : Result String
  unfolding list_matching secret_loader render_main_config
  main_config = do
    inputs ←
        list_matching client use_compression (client.list_inputs w) namespace cfg.input_selector
    filters ←
        list_matching client use_compression (client.list_filters w) namespace cfg.filter_selector
    outputs ←
        list_matching client use_compression (client.list_outputs w) namespace cfg.output_selector
    render_main_config cfg.service (secret_loader client use_compression w cfg) inputs filters
        outputs

  unfoldable pub scripts : Result (List Script)
  unfolding list_matching config_map_loader render_lua_script
  scripts = do
    filters ←
        list_matching client use_compression (client.list_filters w) namespace cfg.filter_selector
    render_lua_script (config_map_loader client use_compression w cfg)
        (sort_by (λ f. f.name) filters)

  -- What the Secret holds under fluent-bit.conf, where no script has that name.
  stored :
      (m : GoMap String)
      → rendered client use_compression w namespace cfg ≡ ok m
      → ((ss : List Script) → scripts ≡ ok ss → ¬ Mem "fluent-bit.conf" (map (λ s. s.name) ss))
      → (main : String) × (main_config ≡ ok main)
        × ((held : String) × ((if use_compression then client.compress_bytes main else ok main)
              ≡ ok held)
            × (lookup "fluent-bit.conf" m ≡ some held))
  unfolding rendered main_config scripts
  stored m r free =
      let (inputs, e1, r1) =
        bind_ok
          (list_matching client use_compression (client.list_inputs w) namespace cfg.input_selector)
          _ m r in
      let (filters, e2, r2) =
        bind_ok
          (list_matching client use_compression (client.list_filters w) namespace
            cfg.filter_selector)
          _ m r1 in
      let (outputs, e3, r3) =
        bind_ok
          (list_matching client use_compression (client.list_outputs w) namespace
            cfg.output_selector)
          _ m r2 in
      let (parsers, e4, r4) =
        bind_ok
          (list_matching client use_compression (client.list_parsers w) namespace
            cfg.parser_selector)
          _ m r3 in
      let (main, e5, r5) =
        bind_ok
          (render_main_config cfg.service (secret_loader client use_compression w cfg) inputs
            filters outputs)
          _ m r4 in
      let (parser, e6, r6) =
        bind_ok (render_parser_config (secret_loader client use_compression w cfg) parsers) _ m
          r5 in
      let (held, e7, r7) =
        bind_ok (if use_compression then client.compress_bytes main else ok main) _ m r6 in
      let (ss, e8, r8) =
        bind_ok
          (render_lua_script (config_map_loader client use_compression w cfg)
            (sort_by (λ f. f.name) filters))
          _ m r7 in
      (
        main,
        ok_bind _ _ inputs main e1 (ok_bind _ _ filters main e2 (ok_bind _ _ outputs main e3 e5)),
        (
          held,
          e7,
          ap (lookup "fluent-bit.conf") (sym (ok-injective _ _ r8))
              ∙ lookup-secret_data "fluent-bit.conf" held parser ss
              ∙ last_script_absent "fluent-bit.conf" ss (some held)
                  (free ss (ok_bind _ _ filters ss e2 e8)),
        ),
      )

  module _ {Files : Type 0} (os : Os Files) (view : Files → FilePath → Option Bytes)
      (fs : IsFileSystem os view) (codec : Codec) (gz : IsGzip codec) (path_of : String → FilePath)
      (encode : String → Bytes) where
    -- Where the controller has rendered the data of a Secret, no script of which is called fluent-bit.conf, and the file
    -- of that name in the directory that the watcher watches holds what the Secret does, and the watcher has prepared
    -- the default configuration: the path that Fluent Bit is started with is that of the scratch file if the Secret is
    -- compressed, and the default one if not, and the file that Fluent Bit reads when started with it holds the bytes of the
    -- main configuration; where compressing a text gives a text with the bytes that gzip gives, the main configuration does
    -- not start like a compressed file, and the path of the scratch file names it.
    pub main_config_arrives :
        (compresses : (s c : String)
          → client.compress_bytes s ≡ ok c
          → encode c ≡ codec.compress (encode s))
        (plain : (s : String) → main_config ≡ ok s → is_magic (limit 8 (encode s)) ≡ false)
        (scratch : path_of new_config_path ≡ new_config) (m : GoMap String) (f : Files) (p : String)
        → rendered client use_compression w namespace cfg ≡ ok m
        → ((ss : List Script) → scripts ≡ ok ss → ¬ Mem "fluent-bit.conf" (map (λ s. s.name) ss))
        → ((held : String)
            → lookup "fluent-bit.conf" m ≡ some held
            → view f mounted ≡ some (encode held))
        → (prepare os codec path_of default_cfg_path f).1 ≡ ok p
        → (main : String) × (main_config ≡ ok main)
          × (p ≡ (if use_compression then new_config_path else default_cfg_path))
          × (view (prepare os codec path_of default_cfg_path f).0 (read_from path_of p)
              ≡ some (encode main))
    unfolding file_to_check is_custom_config_set
    main_config_arrives compresses plain scratch m f p r free mount e =
        let (main, em, (held, ed, l)) = stored m r free in
        let (named, holds) =
          arrives use_compression main held ed (compresses main held) (plain main em)
            (mount held l) in
        (main, em, named, holds)
      where
        arrives :
            (c : Bool) (main held : String)
            → (if c then client.compress_bytes main else ok main) ≡ ok held
            → (client.compress_bytes main ≡ ok held → encode held ≡ codec.compress (encode main))
            → is_magic (limit 8 (encode main)) ≡ false
            → view f mounted ≡ some (encode held)
            → (p ≡ (if c then new_config_path else default_cfg_path))
              × (view (prepare os codec path_of default_cfg_path f).0 (read_from path_of p)
                  ≡ some (encode main))
        arrives true main held ed h n v =
            let (named, holds) =
              prepare_restores os view fs codec path_of default_cfg_path gz away (encode main) f p
                (v ∙ ap some (h ed)) e in
            (
              named,
              ap (λ q. view (prepare os codec path_of default_cfg_path f).0 q)
                    (read_from-scratch path_of p named scratch)
                  ∙ holds,
            )
        arrives false main held ed h n v =
            let v' = v ∙ ap (λ s. some (encode s)) (sym (ok-injective _ _ ed)) in
            let same =
              prepare_plain os view fs codec path_of default_cfg_path (encode main) f p v' n e in
            let named = ok-injective p default_cfg_path (sym e ∙ ap (λ r. r.1) same) in
            (
              named,
              ap (λ q. view (prepare os codec path_of default_cfg_path f).0 q)
                    (read_from-default path_of p named)
                  ∙ ap (λ r. view r.0 mounted) same
                  ∙ v',
            )
