-- ===== src/Plugins/Filter/RewriteTag.antt =====
-- api/fluentbitoperator/v1alpha2/plugins/filter/rewritetag_types.go
use fluentbit_operator.Prelude.{String, Option, some, List, ◌▸◌}
use fluentbit_operator.Result.{Result, ok}
use fluentbit_operator.Params.{Kvs, new_kvs, insert_text, insert_each}
use fluentbit_operator.Plugins.{SecretLoader}

pub record RewriteTag : Type 0 where
  pub rules : List String
  pub emitter_name : String
  pub emitter_storage_type : String
  pub emitter_memory_buffer_limit : String

-- `Name`
abbrev pub name : String
name = "rewrite_tag"

-- `Params`
unfoldable pub params : SecretLoader → RewriteTag → Result (Option Kvs)
params _ r = ok (
    some (
      new_kvs
      ▸ insert_each "Rule" r.rules
      ▸ insert_text "Emitter_Name" r.emitter_name
      ▸ insert_text "Emitter_Storage.type" r.emitter_storage_type
      ▸ insert_text "Emitter_Mem_Buf_Limit" r.emitter_memory_buffer_limit))
