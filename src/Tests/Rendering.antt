-- ===== src/Tests/Rendering.antt =====
-- Instances of the theorems on the rendered configuration, at the objects of the repository's test.
use mathlib.Core.List
use mathlib.Core.List.Permᴰ
use fluentbit_operator.Tests.Names.{one_name, two_names}
use fluentbit_operator.Prelude.{
  ◌≡◌, refl, String, Bool, true, false, ◌&&◌, some, List, [], ◌∷◌, codes, All, map, arith,
}
use fluentbit_operator.Result.{ok, ◌>>=◌}
use fluentbit_operator.Plugins.Runs.{plugin_runs}
use fluentbit_operator.Config.Example.{
  no_secrets, input_item, filter_item, http_output, syslog_output, service,
}
use fluentbit_operator.Params.Sane.{is_word}
use fluentbit_operator.Params.Render.{Entry}
use fluentbit_operator.Config.Output.{Output}
use fluentbit_operator.Config.Render.{render_main_config}
use fluentbit_operator.Config.Sections.{Section}
use fluentbit_operator.Config.Sections.Main.{
  MainConfig, main_config, main_text, render_main_config-eq,
}
use fluentbit_operator.Config.Reader.{IsReadable, is_header, one_line, read, read_as}
use fluentbit_operator.Config.Reader.Main.{AllReadable, outputs_or_null, render_main_config-read}
use fluentbit_operator.Config.Stable.{render_main_config-perm}

abbrev outputs : List Output
outputs = syslog_output ∷ http_output ∷ []

abbrev config : MainConfig
config = record {
  service =
      record {
        header = "Service";
        entries =
            ("Daemon", "false")
            ∷ ("Flush", "1")
            ∷ ("Grace", "30")
            ∷ ("Http_Server", "true")
            ∷ ("Log_Level", "info")
            ∷ ("Parsers_File", "parsers.conf")
            ∷ [];
      }
      ∷ [];
  inputs =
      record {
        header = "Input";
        entries =
            ("Name", "tail")
            ∷ ("Alias", "input0_alias")
            ∷ ("Path", "/logs/containers/apps0")
            ∷ ("Exclude_Path", "/logs/containers/exclude_path")
            ∷ ("Refresh_Interval", "10")
            ∷ ("Ignore_Older", "5m")
            ∷ ("Skip_Long_Lines", "true")
            ∷ ("DB", "/fluent-bit/tail/pos.db")
            ∷ ("Mem_Buf_Limit", "5MB")
            ∷ ("Tag", "logs.foo.bar")
            ∷ ("Inotify_Watcher", "false")
            ∷ [];
      }
      ∷ [];
  filters =
      record {
        header = "Filter";
        entries =
            ("Name", "modify")
            ∷ ("Match", "logs.foo.bar")
            ∷ ("Condition", "Key_value_equals    kve0    kvev0")
            ∷ ("Condition", "Key_value_equals    kve1    kvev1")
            ∷ ("Condition", "Key_value_equals    kve2    kvev2")
            ∷ ("Condition", "Key_does_not_exist    kdn0    kdnv0")
            ∷ ("Condition", "Key_does_not_exist    kdn1    kdnv1")
            ∷ ("Condition", "Key_does_not_exist    kdn2    kdnv2")
            ∷ ("Set", "app    foo")
            ∷ ("Set", "customer    cus1")
            ∷ ("Set", "sk0    skv0")
            ∷ ("Add", "add_k0    k0value")
            ∷ ("Add", "add_k1    k1v")
            ∷ ("Add", "add_k2    k2val")
            ∷ ("Rename", "rk0    r0v")
            ∷ ("Rename", "rk1    r1v")
            ∷ ("Rename", "rk2    r2v")
            ∷ ("Rename", "rk3    r3v")
            ∷ [];
      }
      ∷ [];
  outputs =
      record {
        header = "Output";
        entries =
            ("Name", "http")
            ∷ ("Match", "logs.foo.bar")
            ∷ ("Alias", "output_http_alias")
            ∷ ("host", "https://example2.com")
            ∷ ("port", "433")
            ∷ ("uri", "/logs")
            ∷ ("format", "json_lines")
            ∷ ("header", " Authorization    foo:bar")
            ∷ ("header", " X-Log-Header-0    testing")
            ∷ ("header", " X-Log-Header-App-ID    9780495d9db3")
            ∷ ("header", " X-Log-Header-App-Name    app_name")
            ∷ ("json_date_key", "timestamp")
            ∷ ("json_date_format", "iso8601")
            ∷ ("tls", "On")
            ∷ ("tls.verify", "true")
            ∷ [];
      }
      ∷ record {
        header = "Output";
        entries =
            ("Name", "syslog")
            ∷ ("Match", "logs.foo.bar")
            ∷ ("Alias", "output_syslog_alias")
            ∷ ("Host", "example.com")
            ∷ ("port", "3300")
            ∷ ("mode", "tls")
            ∷ ("syslog_hostname_key", "do_app_name")
            ∷ ("syslog_appname_key", "do_component_name")
            ∷ ("syslog_message_key", "log")
            ∷ ("tls", "On")
            ∷ ("tls.verify", "true")
            ∷ [];
      }
      ∷ [];
}

config_test :
    main_config (some service) no_secrets (input_item ∷ []) (filter_item ∷ []) outputs ≡ ok config
unfolding main_config plugin_runs
config_test = refl

abbrev readable_entries : List Entry → Bool
readable_entries [] = true
readable_entries (e ∷ es) = is_word e.0 && one_line e.1 && readable_entries es

abbrev pub readable : List Section → Bool
readable [] = true
readable (s ∷ ss) = is_header s.header && readable_entries s.entries && readable ss

and-split : (a b : Bool) → a && b ≡ true → (a ≡ true) × (b ≡ true)
and-split true b h = (refl, h)
and-split false b h = ground arith

readable_entries_sound :
    (es : List Entry)
    → readable_entries es ≡ true
    → All (λ (e : Entry). (is_word e.0 ≡ true) × (one_line e.1 ≡ true)) es
readable_entries_sound [] h = tt
readable_entries_sound (e ∷ es) h =
    let p = and-split _ _ h in let q = and-split _ _ p.0 in (q, readable_entries_sound es p.1)

pub readable_sound : (ss : List Section) → readable ss ≡ true → All IsReadable ss
readable_sound [] h = tt
readable_sound (s ∷ ss) h =
    let p = and-split _ _ h in
    let q = and-split _ _ p.0 in
    ((q.0, readable_entries_sound s.entries q.1), readable_sound ss p.1)

config-AllReadable : AllReadable config
config-AllReadable = record {
  service = readable_sound config.service refl;
  inputs = readable_sound config.inputs refl;
  filters = readable_sound config.filters refl;
  outputs = readable_sound config.outputs refl;
}

render_main_config-read_example :
    (text : String) × (render_main_config
        (some service)
        no_secrets
        (input_item ∷ [])
        (filter_item ∷ [])
        outputs
      ≡ ok text)
    × (read (codes text)
        ≡ List.◌++◌ (map read_as config.service) (
            List.◌++◌ (map read_as config.inputs) (
              List.◌++◌
                (map read_as config.filters)
                (map read_as (outputs_or_null config.inputs config.outputs)))))
render_main_config-read_example =
    render_main_config-read (some service) no_secrets (input_item ∷ []) (filter_item ∷ []) outputs
      config config_test config-AllReadable

render_main_config-eq_example :
    render_main_config (some service) no_secrets (input_item ∷ []) (filter_item ∷ []) outputs ≡ (
      main_config (some service) no_secrets (input_item ∷ []) (filter_item ∷ []) outputs >>= λ m.
      ok (main_text m))
render_main_config-eq_example =
    render_main_config-eq (some service) no_secrets (input_item ∷ []) (filter_item ∷ []) outputs

render_main_config-perm_example :
    render_main_config (some service) no_secrets (input_item ∷ []) (filter_item ∷ []) outputs
    ≡ render_main_config
        (some service)
        no_secrets
        (input_item ∷ [])
        (filter_item ∷ [])
        (http_output ∷ syslog_output ∷ [])
render_main_config-perm_example =
    render_main_config-perm (some service) no_secrets (input_item ∷ []) (input_item ∷ [])
      (filter_item ∷ []) (filter_item ∷ []) outputs (http_output ∷ syslog_output ∷ [])
      (one_name "input0") (one_name "filter0") (two_names "syslog_output0" "http_output_0" refl)
      ∣ Permᴰ.refl _ ∣₁ ∣ Permᴰ.refl _ ∣₁ ∣ Permᴰ.swap refl refl ∣₁
