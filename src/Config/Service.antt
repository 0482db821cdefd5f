-- ===== src/Config/Service.antt =====
-- `Service` of api/fluentbitoperator/v1alpha2/fluentbitconfig_types.go
use fluentbit_operator.Prelude.{String, Bool, ℤ, Option, ◌▸◌, show_bool, show_int}
use fluentbit_operator.Params.{Kvs, new_kvs, insert_text, insert_some}

pub record Service : Type 0 where
  pub daemon : Option Bool
  pub flush_seconds : Option ℤ
  pub grace_seconds : Option ℤ
  pub http_listen : String
  pub http_port : Option ℤ
  pub http_server : Option Bool
  pub log_file : String
  pub log_level : String
  pub parsers_file : String

-- `Params`
unfoldable pub params : Service → Kvs
unfolding insert_text insert_some show_bool show_int
params s =
    new_kvs
    ▸ insert_some show_bool "Daemon" s.daemon
    ▸ insert_some show_int "Flush" s.flush_seconds
    ▸ insert_some show_int "Grace" s.grace_seconds
    ▸ insert_text "Http_Listen" s.http_listen
    ▸ insert_some show_int "Http_Port" s.http_port
    ▸ insert_some show_bool "Http_Server" s.http_server
    ▸ insert_text "Log_File" s.log_file
    ▸ insert_text "Log_Level" s.log_level
    ▸ insert_text "Parsers_File" s.parsers_file
