-- ===== src/Plugins/Filter/Throttle.antt =====
-- api/fluentbitoperator/v1alpha2/plugins/filter/throttle_types.go
use fluentbit_operator.Prelude.{String, Bool, ℤ, Option, some, ◌▸◌, show_bool, show_int}
use fluentbit_operator.Result.{Result, ok}
use fluentbit_operator.Params.{Kvs, new_kvs, insert_text, insert_some}
use fluentbit_operator.Plugins.{SecretLoader}

pub record Throttle : Type 0 where
  pub rate : Option ℤ
  pub window : Option ℤ
  pub interval : String
  pub print_status : Option Bool

-- `Name`
abbrev pub name : String
name = "throttle"

-- `Params`
unfoldable pub params : SecretLoader → Throttle → Result (Option Kvs)
params _ k = ok (
    some (
      new_kvs
      ▸ insert_some show_int "Rate" k.rate
      ▸ insert_some show_int "Window" k.window
      ▸ insert_text "Interval" k.interval
      ▸ insert_some show_bool "Print_Status" k.print_status))
