-- ===== src/Plugins/Filter/Nest.antt =====
-- api/fluentbitoperator/v1alpha2/plugins/filter/nest_types.go
use fluentbit_operator.Prelude.{String, Option, some, List, ◌▸◌}
use fluentbit_operator.Result.{Result, ok}
use fluentbit_operator.Params.{Kvs, new_kvs, insert_text, insert_each}
use fluentbit_operator.Plugins.{SecretLoader}

pub record Nest : Type 0 where
  pub operation : String
  pub wildcard : List String
  pub nest_under : String
  pub nested_under : String
  pub add_prefix : String
  pub remove_prefix : String

-- `Name`
abbrev pub name : String
name = "nest"

-- `Params`
unfoldable pub params : SecretLoader → Nest → Result (Option Kvs)
params _ n = ok (
    some (
      new_kvs
      ▸ insert_text "Operation" n.operation
      ▸ insert_each "Wildcard" n.wildcard
      ▸ insert_text "Nest_under" n.nest_under
      ▸ insert_text "Nested_under" n.nested_under
      ▸ insert_text "Add_prefix" n.add_prefix
      ▸ insert_text "Remove_prefix" n.remove_prefix))
