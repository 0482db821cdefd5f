-- ===== src/Plugins/Output/Forward.antt =====
-- api/fluentbitoperator/v1alpha2/plugins/output/forward_types.go
use fluentbit_operator.Prelude.{String, Bool, ℤ, Option, some, ◌▸◌, show_bool, show_int}
use fluentbit_operator.Result.{Result, ok, ◌>>=◌}
use fluentbit_operator.Params.{Kvs, new_kvs, insert_text, insert_some}
use fluentbit_operator.Plugins.{Secret, SecretLoader, insert_secret}
use fluentbit_operator.Plugins.Tls.{Tls, merge_tls}

pub record Forward : Type 0 where
  pub host : String
  pub port : Option ℤ
  pub time_as_integer : Option Bool
  pub send_options : Option Bool
  pub require_ack_response : Option Bool
  pub shared_key : String
  pub empty_shared_key : Option Bool
  pub username : Option Secret
  pub password : Option Secret
  pub self_hostname : String
  pub tls : Option Tls

-- `Name`
abbrev pub name : String
name = "forward"

-- `Params`
unfoldable pub params : SecretLoader → Forward → Result (Option Kvs)
params sl f = do
  kvs ← insert_secret sl "Username" f.username (
      new_kvs
      ▸ insert_text "Host" f.host
      ▸ insert_some show_int "Port" f.port
      ▸ insert_some show_bool "Time_as_Integer" f.time_as_integer
      ▸ insert_some show_bool "Send_options" f.send_options
      ▸ insert_some show_bool "Require_ack_response" f.require_ack_response
      ▸ insert_text "Shared_Key" f.shared_key
      ▸ insert_some show_bool "Empty_Shared_Key" f.empty_shared_key)
  kvs ← insert_secret sl "Password" f.password kvs
  kvs ← merge_tls sl f.tls (kvs ▸ insert_text "Self_Hostname" f.self_hostname)
  ok (some kvs)
