-- ===== src/Plugins/Output/Loki.antt =====
-- api/fluentbitoperator/v1alpha2/plugins/output/loki_types.go
use fluentbit_operator.Prelude.{String, ℤ, Option, some, List, ◌▸◌, show_int}
use fluentbit_operator.Result.{Result, ok, ◌>>=◌}
use fluentbit_operator.Params.{Kvs, new_kvs, insert_text, insert_some}
use fluentbit_operator.Plugins.{Secret, SecretLoader, insert_secret, insert_joined}
use fluentbit_operator.Plugins.Tls.{Tls, merge_tls}

pub record Loki : Type 0 where
  pub host : String
  pub port : Option ℤ
  pub http_user : Option Secret
  pub http_passwd : Option Secret
  pub tenant_id : Option Secret
  pub labels : List String
  pub label_keys : List String
  pub line_format : String
  pub auto_kubernetes_labels : String
  pub tls : Option Tls

-- `Name`
abbrev pub name : String
name = "loki"

-- `Params`
unfoldable pub params : SecretLoader → Loki → Result (Option Kvs)
params sl l = do
  kvs ←
      insert_secret sl "http_user" l.http_user
        (new_kvs ▸ insert_text "host" l.host ▸ insert_some show_int "port" l.port)
  kvs ← insert_secret sl "http_passwd" l.http_passwd kvs
  kvs ← insert_secret sl "tenant_id" l.tenant_id kvs
  kvs ← merge_tls sl l.tls (
      kvs
      ▸ insert_joined "," "labels" l.labels
      ▸ insert_joined "," "label_keys" l.label_keys
      ▸ insert_text "line_format" l.line_format
      ▸ insert_text "auto_kubernetes_labels" l.auto_kubernetes_labels)
  ok (some kvs)
