-- ===== src/Plugins/Filter.antt =====
-- api/fluentbitoperator/v1alpha2/plugins/filter: the implementations of the interface `Plugin` of
-- plugins/interface.go, one constructor each, with its two methods.
pub mod Grep
pub mod RecordModifier
pub mod Kubernetes
pub mod Modify
pub mod Nest
pub mod Parser
pub mod Lua
pub mod Throttle
pub mod RewriteTag
use fluentbit_operator.Prelude.{String, Option}
use fluentbit_operator.Result.{Result}
use fluentbit_operator.Params.{Kvs}
use fluentbit_operator.Plugins.{SecretLoader}

pub data FilterPlugin : Type 0 where
  grep : Grep.Grep → FilterPlugin
  record_modifier : RecordModifier.RecordModifier → FilterPlugin
  kubernetes : Kubernetes.Kubernetes → FilterPlugin
  modify : Modify.Modify → FilterPlugin
  nest : Nest.Nest → FilterPlugin
  parser : Parser.Parser → FilterPlugin
  lua : Lua.Lua → FilterPlugin
  throttle : Throttle.Throttle → FilterPlugin
  rewrite_tag : RewriteTag.RewriteTag → FilterPlugin

-- `Name`
unfoldable pub name : FilterPlugin → String
name (grep p) = Grep.name
name (record_modifier p) = RecordModifier.name
name (kubernetes p) = Kubernetes.name
name (modify p) = Modify.name
name (nest p) = Nest.name
name (parser p) = Parser.name
name (lua p) = Lua.name
name (throttle p) = Throttle.name
name (rewrite_tag p) = RewriteTag.name

-- `Params`
unfoldable pub params : SecretLoader → FilterPlugin → Result (Option Kvs)
params sl (grep p) = Grep.params sl p
params sl (record_modifier p) = RecordModifier.params sl p
params sl (kubernetes p) = Kubernetes.params sl p
params sl (modify p) = Modify.params sl p
params sl (nest p) = Nest.params sl p
params sl (parser p) = Parser.params sl p
params sl (lua p) = Lua.params sl p
params sl (throttle p) = Throttle.params sl p
params sl (rewrite_tag p) = RewriteTag.params sl p
