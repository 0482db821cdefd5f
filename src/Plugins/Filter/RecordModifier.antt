-- ===== src/Plugins/Filter/RecordModifier.antt =====
-- api/fluentbitoperator/v1alpha2/plugins/filter/recordmodifier_types.go
use fluentbit_operator.Prelude.{String, Option, some, List, ◌▸◌}
use fluentbit_operator.Result.{Result, ok}
use fluentbit_operator.Params.{Kvs, new_kvs, insert_each}
use fluentbit_operator.Plugins.{SecretLoader}

pub record RecordModifier : Type 0 where
  pub records : List String
  pub remove_keys : List String
  pub whitelist_keys : List String

-- `Name`
abbrev pub name : String
name = "record_modifier"

-- `Params`
unfoldable pub params : SecretLoader → RecordModifier → Result (Option Kvs)
params _ rm = ok (
    some (
      new_kvs
      ▸ insert_each "Record" rm.records
      ▸ insert_each "Remove_key" rm.remove_keys
      ▸ insert_each "Whitelist_key" rm.whitelist_keys))
