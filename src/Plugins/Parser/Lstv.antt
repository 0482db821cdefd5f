-- ===== src/Plugins/Parser/Lstv.antt =====
-- api/fluentbitoperator/v1alpha2/plugins/parser/lstv_types.go
use fluentbit_operator.Prelude.{String, Bool, Option, some, ◌▸◌, show_bool}
use fluentbit_operator.Result.{Result, ok}
use fluentbit_operator.Params.{Kvs, new_kvs, insert_text, insert_some}
use fluentbit_operator.Plugins.{SecretLoader}

pub record Lstv : Type 0 where
  pub time_key : String
  pub time_format : String
  pub time_keep : Option Bool
  pub types : String

-- `Name`
abbrev pub name : String
name = "ltsv"

-- `Params`
unfoldable pub params : SecretLoader → Lstv → Result (Option Kvs)
params _ l = ok (
    some (
      new_kvs
      ▸ insert_text "Time_Key" l.time_key
      ▸ insert_text "Time_Format" l.time_format
      ▸ insert_some show_bool "Time_Format" l.time_keep
      ▸ insert_text "Types" l.types))
