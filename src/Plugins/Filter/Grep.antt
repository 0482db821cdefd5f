-- ===== src/Plugins/Filter/Grep.antt =====
-- api/fluentbitoperator/v1alpha2/plugins/filter/grep_types.go
use fluentbit_operator.Prelude.{String, Option, some, ◌▸◌}
use fluentbit_operator.Result.{Result, ok}
use fluentbit_operator.Params.{Kvs, new_kvs, insert_text}
use fluentbit_operator.Plugins.{SecretLoader}

pub record Grep : Type 0 where
  pub regex : String
  pub exclude : String

-- `Name`
abbrev pub name : String
name = "grep"

-- `Params`
unfoldable pub params : SecretLoader → Grep → Result (Option Kvs)
params _ g = ok (some (new_kvs ▸ insert_text "Regex" g.regex ▸ insert_text "Exclude" g.exclude))
