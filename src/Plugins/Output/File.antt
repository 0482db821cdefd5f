-- ===== src/Plugins/Output/File.antt =====
-- api/fluentbitoperator/v1alpha2/plugins/output/file_types.go
use fluentbit_operator.Prelude.{String, Option, some, ◌▸◌}
use fluentbit_operator.Result.{Result, ok}
use fluentbit_operator.Params.{Kvs, new_kvs, insert_text}
use fluentbit_operator.Plugins.{SecretLoader}

pub record File : Type 0 where
  pub path : String
  pub file : String
  pub format : String
  pub delimiter : String
  pub label_delimiter : String
  pub template : String

-- `Name`
abbrev pub name : String
name = "file"

-- `Params`
unfoldable pub params : SecretLoader → File → Result (Option Kvs)
params _ f = ok (
    some (
      new_kvs
      ▸ insert_text "Path" f.path
      ▸ insert_text "File" f.file
      ▸ insert_text "Format" f.format
      ▸ insert_text "Delimiter" f.delimiter
      ▸ insert_text "Label_Delimiter" f.label_delimiter
      ▸ insert_text "Template" f.template))
