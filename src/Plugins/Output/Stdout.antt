-- ===== src/Plugins/Output/Stdout.antt =====
-- api/fluentbitoperator/v1alpha2/plugins/output/stdout_types.go
use fluentbit_operator.Prelude.{String, Option, some, ◌▸◌}
use fluentbit_operator.Result.{Result, ok}
use fluentbit_operator.Params.{Kvs, new_kvs, insert_text}
use fluentbit_operator.Plugins.{SecretLoader}

pub record Stdout : Type 0 where
  pub format : String
  pub json_date_key : String
  pub json_date_format : String

-- `Name`
abbrev pub name : String
name = "stdout"

-- `Params`
unfoldable pub params : SecretLoader → Stdout → Result (Option Kvs)
params _ s = ok (
    some (
      new_kvs
      ▸ insert_text "Format" s.format
      ▸ insert_text "json_date_key" s.json_date_key
      ▸ insert_text "json_date_format" s.json_date_format))
