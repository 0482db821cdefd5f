-- ===== src/Plugins/Input.antt =====
-- api/fluentbitoperator/v1alpha2/plugins/input: the implementations of the interface `Plugin` of
-- plugins/interface.go, one constructor each, with its two methods.
pub mod Dummy
pub mod Tail
pub mod Systemd
use fluentbit_operator.Prelude.{String, Option}
use fluentbit_operator.Result.{Result}
use fluentbit_operator.Params.{Kvs}
use fluentbit_operator.Plugins.{SecretLoader}

pub data InputPlugin : Type 0 where
  dummy : Dummy.Dummy → InputPlugin
  tail : Tail.Tail → InputPlugin
  systemd : Systemd.Systemd → InputPlugin

-- `Name`
unfoldable pub name : InputPlugin → String
name (dummy p) = Dummy.name
name (tail p) = Tail.name
name (systemd p) = Systemd.name

-- `Params`
unfoldable pub params : SecretLoader → InputPlugin → Result (Option Kvs)
params sl (dummy p) = Dummy.params sl p
params sl (tail p) = Tail.params sl p
params sl (systemd p) = Systemd.params sl p
