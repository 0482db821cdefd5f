-- ===== src/Plugins/Filter/Lua.antt =====
-- api/fluentbitoperator/v1alpha2/plugins/filter/lua_types.go
use Prim.Native.String.{◌++◌}
use fluentbit_operator.Prelude.{String, Bool, Option, some, List, ◌▸◌, show_bool, true, false}
use fluentbit_operator.Result.{Result, ok}
use fluentbit_operator.Params.{Kvs, new_kvs, insert, insert_some}
use fluentbit_operator.Plugins.{SecretLoader, ConfigMapKeySelector, insert_joined}

pub record Lua : Type 0 where
  pub script : ConfigMapKeySelector
  pub call : String
  pub type_int_key : List String
  pub protected_mode : Option Bool
  pub time_as_table : Bool

-- `Name`
abbrev pub name : String
name = "lua"

-- `if b { kvs.Insert(key, "true") }`
unfoldable pub insert_flag : String → Bool → Kvs → Kvs
unfolding insert
insert_flag key true kvs = insert key "true" kvs
insert_flag key false kvs = kvs

-- `Params`
unfoldable pub params : SecretLoader → Lua → Result (Option Kvs)
params _ l = ok (
    some (
      new_kvs
      ▸ insert "script" ("/fluent-bit/config/" ++ l.script.key)
      ▸ insert "call" l.call
      ▸ insert_joined " " "type_int_key" l.type_int_key
      ▸ insert_some show_bool "protected_mode" l.protected_mode
      ▸ insert_flag "time_as_table" l.time_as_table))
