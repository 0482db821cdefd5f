-- ===== src/Plugins/Tls.antt =====
-- api/fluentbitoperator/v1alpha2/plugins/tls_types.go
use fluentbit_operator.Prelude.{String, Bool, ℤ, Option, ◌▸◌, show_bool, show_int, none, some}
use fluentbit_operator.Result.{Result, ok, ◌>>=◌}
use fluentbit_operator.Params.{Kvs, new_kvs, insert, insert_text, insert_some, merge}
use fluentbit_operator.Plugins.{Secret, SecretLoader, insert_secret}

pub record Tls : Type 0 where
  pub verify : Option Bool
  pub debug : Option ℤ
  pub ca_file : String
  pub ca_path : String
  pub crt_file : String
  pub key_file : String
  pub key_password : Option Secret
  pub vhost : String

-- `Params`
unfoldable pub params : SecretLoader → Tls → Result Kvs
params sl t = do
  kvs ← insert_secret sl "tls.key_passwd" t.key_password (
      new_kvs
      ▸ insert "tls" "On"
      ▸ insert_some show_bool "tls.verify" t.verify
      ▸ insert_some show_int "tls.debug" t.debug
      ▸ insert_text "tls.ca_file" t.ca_file
      ▸ insert_text "tls.ca_path" t.ca_path
      ▸ insert_text "tls.crt_file" t.crt_file
      ▸ insert_text "tls.key_file" t.key_file)
  ok (kvs ▸ insert_text "tls.vhost" t.vhost)

-- `if x.TLS != nil { tls, err := x.TLS.Params(sl); …; kvs.Merge(tls) }`
unfoldable pub merge_tls : SecretLoader → Option Tls → Kvs → Result Kvs
merge_tls sl none kvs = ok kvs
merge_tls sl (some t) kvs = do tls ← params sl t; ok (merge tls kvs)
