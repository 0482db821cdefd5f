-- ===== src/Plugins/Filter/Parser.antt =====
-- api/fluentbitoperator/v1alpha2/plugins/filter/parser_types.go
use fluentbit_operator.Prelude.{
  String, Bool, Option, some, ◌▸◌, show_bool, ◌==◌, if◌then◌else◌, map, split, trim_spaces,
}
use fluentbit_operator.Result.{Result, ok}
use fluentbit_operator.Params.{Kvs, new_kvs, insert_text, insert_some, insert_each}
use fluentbit_operator.Plugins.{SecretLoader}

pub record Parser : Type 0 where
  pub key_name : String
  pub parser : String
  pub preserve_key : Option Bool
  pub reserve_data : Option Bool
  pub unescape_key : Option Bool

-- `Name`
abbrev pub name : String
name = "parser"

-- `if x != "" { for _, parser := range strings.Split(x, ",") { kvs.Insert("Parser", strings.Trim(parser, " ")) } }`
unfoldable pub insert_parsers : String → Kvs → Kvs
unfolding insert_each split trim_spaces
insert_parsers x kvs =
    if x == "" then kvs else insert_each "Parser" (map trim_spaces (split "," x)) kvs

-- `Params`
unfoldable pub params : SecretLoader → Parser → Result (Option Kvs)
params _ p = ok (
    some (
      new_kvs
      ▸ insert_text "Key_Name" p.key_name
      ▸ insert_parsers p.parser
      ▸ insert_some show_bool "Preserve_Key" p.preserve_key
      ▸ insert_some show_bool "Reserve_Data" p.reserve_data
      ▸ insert_some show_bool "Unescape_Key" p.unescape_key))
