-- ===== src/Plugins/Output/Syslog.antt =====
-- api/fluentbitoperator/v1alpha2/plugins/output/syslog_types.go
use fluentbit_operator.Prelude.{String, ℤ, Option, some, ◌▸◌, show_int, Pointer, show_pointer}
use fluentbit_operator.Result.{Result, ok, ◌>>=◌}
use fluentbit_operator.Params.{Kvs, new_kvs, insert_text, insert_some}
use fluentbit_operator.Plugins.{SecretLoader}
use fluentbit_operator.Plugins.Tls.{Tls, merge_tls}

pub record Syslog : Type 0 where
  pub host : String
  pub port : Option ℤ
  pub mode : String
  pub syslog_format : String
  pub syslog_max_size : Option Pointer
  pub syslog_severity_key : String
  pub syslog_facility_key : String
  pub syslog_hostname_key : String
  pub syslog_appname_key : String
  pub syslog_process_id_key : String
  pub syslog_message_id_key : String
  pub syslog_sd_key : String
  pub syslog_message_key : String
  pub tls : Option Tls

-- `Name`
abbrev pub name : String
name = "syslog"

-- `Params`
unfoldable pub params : SecretLoader → Syslog → Result (Option Kvs)
params sl s = do
  kvs ← merge_tls sl s.tls (
      new_kvs
      ▸ insert_text "Host" s.host
      ▸ insert_some show_int "port" s.port
      ▸ insert_text "mode" s.mode
      ▸ insert_text "syslog_format" s.syslog_format
      ▸ insert_some show_pointer "syslog_maxsize" s.syslog_max_size
      ▸ insert_text "syslog_severity_key" s.syslog_severity_key
      ▸ insert_text "syslog_facility_key" s.syslog_facility_key
      ▸ insert_text "syslog_hostname_key" s.syslog_hostname_key
      ▸ insert_text "syslog_appname_key" s.syslog_appname_key
      ▸ insert_text "syslog_procid_key" s.syslog_process_id_key
      ▸ insert_text "syslog_msgid_key" s.syslog_message_id_key
      ▸ insert_text "syslog_sd_key" s.syslog_sd_key
      ▸ insert_text "syslog_message_key" s.syslog_message_key)
  ok (some kvs)
