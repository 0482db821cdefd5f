-- ===== src/Plugins/Output/Tcp.antt =====
-- api/fluentbitoperator/v1alpha2/plugins/output/tcp_types.go
use fluentbit_operator.Prelude.{String, ℤ, Option, some, ◌▸◌, show_int}
use fluentbit_operator.Result.{Result, ok, ◌>>=◌}
use fluentbit_operator.Params.{Kvs, new_kvs, insert_text, insert_some}
use fluentbit_operator.Plugins.{SecretLoader}
use fluentbit_operator.Plugins.Tls.{Tls, merge_tls}

pub record Tcp : Type 0 where
  pub host : String
  pub port : Option ℤ
  pub format : String
  pub json_date_key : String
  pub json_date_format : String
  pub tls : Option Tls

-- `Name`
abbrev pub name : String
name = "tcp"

-- `Params`
unfoldable pub params : SecretLoader → Tcp → Result (Option Kvs)
params sl t = do
  kvs ← merge_tls sl t.tls (
      new_kvs
      ▸ insert_text "Host" t.host
      ▸ insert_some show_int "Port" t.port
      ▸ insert_text "Format" t.format
      ▸ insert_text "json_date_key" t.json_date_key
      ▸ insert_text "json_date_format" t.json_date_format)
  ok (some kvs)
