-- ===== src/Plugins/Input/Dummy.antt =====
-- api/fluentbitoperator/v1alpha2/plugins/input/dummy_types.go
use fluentbit_operator.Prelude.{String, ℤ, Option, some, ◌▸◌, show_int}
use fluentbit_operator.Result.{Result, ok}
use fluentbit_operator.Params.{Kvs, new_kvs, insert_text, insert_some}
use fluentbit_operator.Plugins.{SecretLoader}

pub record Dummy : Type 0 where
  pub tag : String
  pub dummy : String
  pub rate : Option ℤ
  pub samples : Option ℤ

-- `Name`
abbrev pub name : String
name = "dummy"

-- `Params`
unfoldable pub params : SecretLoader → Dummy → Result (Option Kvs)
params _ d = ok (
    some (
      new_kvs
      ▸ insert_text "Tag" d.tag
      ▸ insert_text "Dummy" d.dummy
      ▸ insert_some show_int "Rate" d.rate
      ▸ insert_some show_int "Samples" d.samples))
