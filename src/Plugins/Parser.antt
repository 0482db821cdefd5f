-- ===== src/Plugins/Parser.antt =====
-- api/fluentbitoperator/v1alpha2/plugins/parser: the implementations of the interface `Plugin` of
-- plugins/interface.go, one constructor each, with its two methods.
pub mod Json
pub mod Regex
pub mod Lstv
pub mod Logfmt
use fluentbit_operator.Prelude.{String, Option}
use fluentbit_operator.Result.{Result}
use fluentbit_operator.Params.{Kvs}
use fluentbit_operator.Plugins.{SecretLoader}

pub data ParserPlugin : Type 0 where
  json : Json.Json → ParserPlugin
  regex : Regex.Regex → ParserPlugin
  lstv : Lstv.Lstv → ParserPlugin
  logfmt : Logfmt.Logfmt → ParserPlugin

-- `Name`
unfoldable pub name : ParserPlugin → String
name (json p) = Json.name
name (regex p) = Regex.name
name (lstv p) = Lstv.name
name (logfmt p) = Logfmt.name

-- `Params`
unfoldable pub params : SecretLoader → ParserPlugin → Result (Option Kvs)
params sl (json p) = Json.params sl p
params sl (regex p) = Regex.params sl p
params sl (lstv p) = Lstv.params sl p
params sl (logfmt p) = Logfmt.params sl p
