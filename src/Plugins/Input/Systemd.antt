-- ===== src/Plugins/Input/Systemd.antt =====
-- api/fluentbitoperator/v1alpha2/plugins/input/systemd_types.go
use fluentbit_operator.Prelude.{
  String, ℤ, Option, some, List, ◌▸◌, pos, negsuc, zero, suc, rune_text,
}
use fluentbit_operator.Result.{Result, ok}
use fluentbit_operator.Params.{Kvs, new_kvs, insert, insert_text, insert_each}
use fluentbit_operator.Plugins.{SecretLoader}

pub record Systemd : Type 0 where
  pub path : String
  pub db : String
  pub db_sync : String
  pub tag : String
  pub max_fields : ℤ
  pub max_entries : ℤ
  pub systemd_filter : List String
  pub systemd_filter_type : String
  pub read_from_tail : String
  pub strip_underscores : String

-- `Name`
abbrev pub name : String
name = "systemd"

-- `if n > 0 { kvs.Insert(key, string(rune(n))) }`
unfoldable pub insert_rune : String → ℤ → Kvs → Kvs
unfolding insert rune_text
insert_rune key (pos zero) kvs = kvs
insert_rune key (pos (suc n)) kvs = insert key (rune_text (suc n)) kvs
insert_rune key (negsuc n) kvs = kvs

-- `Params`
unfoldable pub params : SecretLoader → Systemd → Result (Option Kvs)
params _ s = ok (
    some (
      new_kvs
      ▸ insert_text "Path" s.path
      ▸ insert_text "DB" s.db
      ▸ insert_text "DB.Sync" s.db_sync
      ▸ insert_text "Tag" s.tag
      ▸ insert_rune "Max_Fields" s.max_fields
      ▸ insert_rune "Max_Entries" s.max_entries
      ▸ insert_each "Systemd_Filter" s.systemd_filter
      ▸ insert_text "Systemd_Filter_Type" s.systemd_filter_type
      ▸ insert_text "Read_From_Tail" s.read_from_tail
      ▸ insert_text "Strip_Underscores" s.strip_underscores))
