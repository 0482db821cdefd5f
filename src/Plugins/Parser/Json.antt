-- ===== src/Plugins/Parser/Json.antt =====
-- api/fluentbitoperator/v1alpha2/plugins/parser/json_types.go
use fluentbit_operator.Prelude.{String, Bool, Option, some, ◌▸◌, show_bool}
use fluentbit_operator.Result.{Result, ok}
use fluentbit_operator.Params.{Kvs, new_kvs, insert_text, insert_some}
use fluentbit_operator.Plugins.{SecretLoader}

pub record Json : Type 0 where
  pub time_key : String
  pub time_format : String
  pub time_keep : Option Bool

-- `Name`
abbrev pub name : String
name = "json"

-- `Params`
unfoldable pub params : SecretLoader → Json → Result (Option Kvs)
params _ j = ok (
    some (
      new_kvs
      ▸ insert_text "Time_Key" j.time_key
      ▸ insert_text "Time_Format" j.time_format
      ▸ insert_some show_bool "Time_Keep" j.time_keep))
