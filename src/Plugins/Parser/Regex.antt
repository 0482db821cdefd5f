-- ===== src/Plugins/Parser/Regex.antt =====
-- api/fluentbitoperator/v1alpha2/plugins/parser/regex_types.go
use fluentbit_operator.Prelude.{String, Bool, Option, some, ◌▸◌, show_bool}
use fluentbit_operator.Result.{Result, ok}
use fluentbit_operator.Params.{Kvs, new_kvs, insert_text, insert_some}
use fluentbit_operator.Plugins.{SecretLoader}

pub record Regex : Type 0 where
  pub regex : String
  pub time_key : String
  pub time_format : String
  pub time_keep : Option Bool
  pub types : String

-- `Name`
abbrev pub name : String
name = "regex"

-- `Params`
unfoldable pub params : SecretLoader → Regex → Result (Option Kvs)
params _ re = ok (
    some (
      new_kvs
      ▸ insert_text "Regex" re.regex
      ▸ insert_text "Time_Key" re.time_key
      ▸ insert_text "Time_Format" re.time_format
      ▸ insert_some show_bool "Time_Format" re.time_keep
      ▸ insert_text "Types" re.types))
