-- ===== src/Plugins/Parser/Logfmt.antt =====
-- api/fluentbitoperator/v1alpha2/plugins/parser/logfmt_types.go
use fluentbit_operator.Prelude.{String, Option, none}
use fluentbit_operator.Result.{Result, ok}
use fluentbit_operator.Params.{Kvs}
use fluentbit_operator.Plugins.{SecretLoader}

-- an empty struct
pub data Logfmt : Type 0 where
  logfmt : Logfmt

-- `Name`
abbrev pub name : String
name = "logfmt"

-- `Params`
unfoldable pub params : SecretLoader → Logfmt → Result (Option Kvs)
params _ _ = ok none
