-- ===== src/Plugins/Input/Tail.antt =====
-- api/fluentbitoperator/v1alpha2/plugins/input/tail_types.go
use Prim.Native.String.{◌++◌}
use fluentbit_operator.Prelude.{
  String, Bool, ℤ, Option, some, List, ◌▸◌, show_bool, show_int, show_ℕ, ℕ, [], ◌∷◌, ◌+◌, not,
}
use fluentbit_operator.Result.{Result, ok}
use fluentbit_operator.Params.{Kvs, new_kvs, insert, insert_text, insert_some}
use fluentbit_operator.Plugins.{SecretLoader}

pub record Tail : Type 0 where
  pub buffer_chunk_size : String
  pub buffer_max_size : String
  pub path : String
  pub path_key : String
  pub exclude_path : String
  pub read_from_head : Option Bool
  pub refresh_interval_seconds : Option ℤ
  pub rotate_wait_seconds : Option ℤ
  pub ignore_older : String
  pub skip_long_lines : Option Bool
  pub db : String
  pub db_sync : String
  pub mem_buf_limit : String
  pub parser : String
  pub key : String
  pub tag : String
  pub tag_regex : String
  pub multiline : Option Bool
  pub multiline_flush_seconds : Option ℤ
  pub parser_firstline : String
  pub parser_n : List String
  pub docker_mode : Option Bool
  pub docker_mode_flush_seconds : Option ℤ
  pub disable_inotify_watcher : Option Bool

-- `Name`
abbrev pub name : String
name = "tail"

-- `for i, parser := range parsers { kvs.Insert(fmt.Sprintf("Parser_%d", i+1), parser) }`, from the
-- number of the first parser that is left
unfoldable pub insert_numbered : ℕ → List String → Kvs → Kvs
unfolding insert show_ℕ
insert_numbered n [] kvs = kvs
insert_numbered n (p ∷ ps) kvs = insert_numbered (n + 1) ps (insert ("Parser_" ++ show_ℕ n) p kvs)

-- `fmt.Sprint(!b)`
unfoldable pub show_not : Bool → String
unfolding show_bool
show_not b = show_bool (not b)

-- `Params`
unfoldable pub params : SecretLoader → Tail → Result (Option Kvs)
params _ t = ok (
    some (
      new_kvs
      ▸ insert_text "Buffer_Chunk_Size" t.buffer_chunk_size
      ▸ insert_text "Buffer_Max_Size" t.buffer_max_size
      ▸ insert_text "Path" t.path
      ▸ insert_text "Path_Key" t.path_key
      ▸ insert_text "Exclude_Path" t.exclude_path
      ▸ insert_some show_bool "Read_from_Head" t.read_from_head
      ▸ insert_some show_int "Refresh_Interval" t.refresh_interval_seconds
      ▸ insert_some show_int "Rotate_Wait" t.rotate_wait_seconds
      ▸ insert_text "Ignore_Older" t.ignore_older
      ▸ insert_some show_bool "Skip_Long_Lines" t.skip_long_lines
      ▸ insert_text "DB" t.db
      ▸ insert_text "DB.Sync" t.db_sync
      ▸ insert_text "Mem_Buf_Limit" t.mem_buf_limit
      ▸ insert_text "Parser" t.parser
      ▸ insert_text "Key" t.key
      ▸ insert_text "Tag" t.tag
      ▸ insert_text "Tag_Regex" t.tag_regex
      ▸ insert_some show_bool "Multiline" t.multiline
      ▸ insert_some show_int "Multiline_Flush" t.multiline_flush_seconds
      ▸ insert_text "Parser_Firstline" t.parser_firstline
      ▸ insert_numbered 1 t.parser_n
      ▸ insert_some show_bool "Docker_Mode" t.docker_mode
      ▸ insert_some show_int "Docker_Mode_Flush" t.docker_mode_flush_seconds
      ▸ insert_some show_not "Inotify_Watcher" t.disable_inotify_watcher))
