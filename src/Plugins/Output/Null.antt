-- ===== src/Plugins/Output/Null.antt =====
-- api/fluentbitoperator/v1alpha2/plugins/output/null_types.go
use fluentbit_operator.Prelude.{String, Option, none}
use fluentbit_operator.Result.{Result, ok}
use fluentbit_operator.Params.{Kvs}
use fluentbit_operator.Plugins.{SecretLoader}

-- an empty struct
pub data Null : Type 0 where
  null : Null

-- `Name`
abbrev pub name : String
name = "null"

-- `Params`
unfoldable pub params : SecretLoader → Null → Result (Option Kvs)
params _ _ = ok none
