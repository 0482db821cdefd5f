-- ===== src/Config/Example.antt =====
-- The test of api/fluentbitoperator/v1alpha2/fluentbitconfig_types_test.go, and data for the witnesses.
use Prim.Native.String.{◌++◌}
use fluentbit_operator.Prelude.{◌≡◌, refl, String, true, false, none, some, [], ◌∷◌, pos}
use fluentbit_operator.Result.{ok, err, other}
use fluentbit_operator.Plugins.{SecretLoader}
use fluentbit_operator.Plugins.Tls.{Tls}
use fluentbit_operator.Plugins.Input.Tail.{Tail}
use fluentbit_operator.Plugins.Filter.Modify.{Modify, Condition, Rule}
use fluentbit_operator.Plugins.Output.Syslog.{Syslog}
use fluentbit_operator.Plugins.Output.Http.{Http}
use fluentbit_operator.Plugins.Runs.{plugin_runs}
use fluentbit_operator.Config.Service.{Service}
use fluentbit_operator.Config.Input.{Input}
use fluentbit_operator.Config.Filter.{Filter, FilterItem}
use fluentbit_operator.Config.Output.{Output}
use fluentbit_operator.Config.Render.{render_main_config}

-- The client of the test is nil: no secret is read.
abbrev pub no_secrets : SecretLoader
no_secrets = record { get = λ ns name. err (other "no client"); namespace = "testnamespace" }

abbrev pub tls : Tls
tls = record {
  verify = some true;
  debug = none;
  ca_file = "";
  ca_path = "";
  crt_file = "";
  key_file = "";
  key_password = none;
  vhost = "";
}

abbrev pub tail_plugin : Tail
tail_plugin = record {
  buffer_chunk_size = "";
  buffer_max_size = "";
  path = "/logs/containers/apps0";
  path_key = "";
  exclude_path = "/logs/containers/exclude_path";
  read_from_head = none;
  refresh_interval_seconds = some (pos 10);
  rotate_wait_seconds = none;
  ignore_older = "5m";
  skip_long_lines = some true;
  db = "/fluent-bit/tail/pos.db";
  db_sync = "";
  mem_buf_limit = "5MB";
  parser = "";
  key = "";
  tag = "logs.foo.bar";
  tag_regex = "";
  multiline = none;
  multiline_flush_seconds = none;
  parser_firstline = "";
  parser_n = [];
  docker_mode = none;
  docker_mode_flush_seconds = none;
  disable_inotify_watcher = some true;
}

abbrev pub input_item : Input
input_item = record {
  name = "input0";
  spec = record { alias = "input0_alias"; dummy = none; tail = some tail_plugin; systemd = none };
}

abbrev kve : Condition
kve = record {
  key_exists = "";
  key_does_not_exist = [];
  a_key_matches = "";
  no_key_matches = "";
  key_value_equals = ("kve1", "kvev1") ∷ ("kve0", "kvev0") ∷ ("kve2", "kvev2") ∷ [];
  key_value_does_not_equal = [];
  key_value_matches = [];
  key_value_does_not_match = [];
  matching_keys_have_matching_values = [];
  matching_keys_do_not_have_matching_values = [];
}

abbrev kdn : Condition
kdn = record {
  key_exists = "";
  key_does_not_exist = ("kdn1", "kdnv1") ∷ ("kdn0", "kdnv0") ∷ ("kdn2", "kdnv2") ∷ [];
  a_key_matches = "";
  no_key_matches = "";
  key_value_equals = [];
  key_value_does_not_equal = [];
  key_value_matches = [];
  key_value_does_not_match = [];
  matching_keys_have_matching_values = [];
  matching_keys_do_not_have_matching_values = [];
}

abbrev rules : Rule
rules = record {
  set = ("sk0", "skv0") ∷ ("customer", "cus1") ∷ ("app", "foo") ∷ [];
  add = ("add_k1", "k1v") ∷ ("add_k2", "k2val") ∷ ("add_k0", "k0value") ∷ [];
  remove = "";
  remove_wildcard = "";
  remove_regex = "";
  rename = ("rk1", "r1v") ∷ ("rk0", "r0v") ∷ ("rk3", "r3v") ∷ ("rk2", "r2v") ∷ [];
  hard_rename = [];
  copy = [];
  hard_copy = [];
}

abbrev pub modify_plugin : Modify
modify_plugin = record { conditions = kve ∷ kdn ∷ []; rules = rules ∷ [] }

abbrev modify_item : FilterItem
modify_item = record {
  grep = none;
  record_modifier = none;
  kubernetes = none;
  modify = some modify_plugin;
  nest = none;
  parser = none;
  lua = none;
  throttle = none;
  rewrite_tag = none;
}

abbrev pub filter_item : Filter
filter_item = record {
  name = "filter0";
  spec = record { match = "logs.foo.bar"; match_regex = ""; filter_items = modify_item ∷ [] };
}

abbrev pub syslog_plugin : Syslog
syslog_plugin = record {
  host = "example.com";
  port = some (pos 3300);
  mode = "tls";
  syslog_format = "";
  syslog_max_size = none;
  syslog_severity_key = "";
  syslog_facility_key = "";
  syslog_hostname_key = "do_app_name";
  syslog_appname_key = "do_component_name";
  syslog_process_id_key = "";
  syslog_message_id_key = "";
  syslog_sd_key = "";
  syslog_message_key = "log";
  tls = some tls;
}

abbrev pub http_plugin : Http
http_plugin = record {
  host = "https://example2.com";
  http_user = none;
  http_passwd = none;
  port = some (pos 433);
  proxy = "";
  uri = "/logs";
  compress = "";
  format = "json_lines";
  allow_duplicated_headers = none;
  header_tag = "";
  headers =
      ("Authorization", "foo:bar")
      ∷ ("X-Log-Header-App-Name", "app_name")
      ∷ ("X-Log-Header-0", "testing")
      ∷ ("X-Log-Header-App-ID", "9780495d9db3")
      ∷ [];
  json_date_key = "timestamp";
  json_date_format = "iso8601";
  gelf_timestamp_key = "";
  gelf_host_key = "";
  gelf_short_messge_key = "";
  gelf_full_message_key = "";
  gelf_level_key = "";
  tls = some tls;
}

abbrev pub syslog_output : Output
syslog_output = record {
  name = "syslog_output0";
  spec = record {
    match = "logs.foo.bar";
    match_regex = "";
    alias = "output_syslog_alias";
    retry_limit = "";
    elasticsearch = none;
    file = none;
    forward = none;
    http = none;
    kafka = none;
    null = none;
    stdout = none;
    tcp = none;
    loki = none;
    syslog = some syslog_plugin;
    data_dog = none;
  };
}

abbrev pub http_output : Output
http_output = record {
  name = "http_output_0";
  spec = record {
    match = "logs.foo.bar";
    match_regex = "";
    alias = "output_http_alias";
    retry_limit = "";
    elasticsearch = none;
    file = none;
    forward = none;
    http = some http_plugin;
    kafka = none;
    null = none;
    stdout = none;
    tcp = none;
    loki = none;
    syslog = none;
    data_dog = none;
  };
}

abbrev pub service : Service
service = record {
  daemon = some false;
  flush_seconds = some (pos 1);
  grace_seconds = some (pos 30);
  http_listen = "";
  http_port = none;
  http_server = some true;
  log_file = "";
  log_level = "info";
  parsers_file = "parsers.conf";
}

abbrev pub expected : String
expected =
    "[Service]\n" ++ "    Daemon    false\n" ++ "    Flush    1\n" ++ "    Grace    30\n"
    ++ "    Http_Server    true\n" ++ "    Log_Level    info\n"
    ++ "    Parsers_File    parsers.conf\n" ++ "[Input]\n" ++ "    Name    tail\n"
    ++ "    Alias    input0_alias\n" ++ "    Path    /logs/containers/apps0\n"
    ++ "    Exclude_Path    /logs/containers/exclude_path\n" ++ "    Refresh_Interval    10\n"
    ++ "    Ignore_Older    5m\n" ++ "    Skip_Long_Lines    true\n"
    ++ "    DB    /fluent-bit/tail/pos.db\n" ++ "    Mem_Buf_Limit    5MB\n"
    ++ "    Tag    logs.foo.bar\n" ++ "    Inotify_Watcher    false\n" ++ "[Filter]\n"
    ++ "    Name    modify\n" ++ "    Match    logs.foo.bar\n"
    ++ "    Condition    Key_value_equals    kve0    kvev0\n"
    ++ "    Condition    Key_value_equals    kve1    kvev1\n"
    ++ "    Condition    Key_value_equals    kve2    kvev2\n"
    ++ "    Condition    Key_does_not_exist    kdn0    kdnv0\n"
    ++ "    Condition    Key_does_not_exist    kdn1    kdnv1\n"
    ++ "    Condition    Key_does_not_exist    kdn2    kdnv2\n" ++ "    Set    app    foo\n"
    ++ "    Set    customer    cus1\n" ++ "    Set    sk0    skv0\n"
    ++ "    Add    add_k0    k0value\n" ++ "    Add    add_k1    k1v\n"
    ++ "    Add    add_k2    k2val\n" ++ "    Rename    rk0    r0v\n"
    ++ "    Rename    rk1    r1v\n" ++ "    Rename    rk2    r2v\n" ++ "    Rename    rk3    r3v\n"
    ++ "[Output]\n" ++ "    Name    http\n" ++ "    Match    logs.foo.bar\n"
    ++ "    Alias    output_http_alias\n" ++ "    host    https://example2.com\n"
    ++ "    port    433\n" ++ "    uri    /logs\n" ++ "    format    json_lines\n"
    ++ "    header     Authorization    foo:bar\n" ++ "    header     X-Log-Header-0    testing\n"
    ++ "    header     X-Log-Header-App-ID    9780495d9db3\n"
    ++ "    header     X-Log-Header-App-Name    app_name\n" ++ "    json_date_key    timestamp\n"
    ++ "    json_date_format    iso8601\n" ++ "    tls    On\n" ++ "    tls.verify    true\n"
    ++ "[Output]\n" ++ "    Name    syslog\n" ++ "    Match    logs.foo.bar\n"
    ++ "    Alias    output_syslog_alias\n" ++ "    Host    example.com\n" ++ "    port    3300\n"
    ++ "    mode    tls\n" ++ "    syslog_hostname_key    do_app_name\n"
    ++ "    syslog_appname_key    do_component_name\n" ++ "    syslog_message_key    log\n"
    ++ "    tls    On\n" ++ "    tls.verify    true\n"

render_main_config_test :
    render_main_config
      (some service)
      no_secrets
      (input_item ∷ [])
      (filter_item ∷ [])
      (syslog_output ∷ http_output ∷ [])
    ≡ ok expected
unfolding render_main_config plugin_runs
render_main_config_test = refl
