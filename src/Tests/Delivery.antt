-- ===== src/Tests/Delivery.antt =====
-- A configuration that is compressed on the way, with the file system of a table.
use Prim.Native.Char.{code}
use mathlib.Core.Path.{subst}
use fluentbit_operator.Prelude.{
  ◌≡◌, refl, String, true, false, Option, none, some, List, [], ◌∷◌, GoMap, has_suffix, lookup, map,
  Mem, eqb, if◌then◌else◌,
}
use fluentbit_operator.Result.{ok, ok-injective}
use fluentbit_operator.Plugins.Runs.{plugin_runs}
use fluentbit_operator.Config.Render.{Script}
use fluentbit_operator.Controllers.Config.{Client, rendered}
use fluentbit_operator.Files.{Bytes, FilePath}
use fluentbit_operator.Files.Copy.{copy_files_with_filter}
use fluentbit_operator.Files.Gzip.{is_magic, limit, is_compressed, decompress_file}
use fluentbit_operator.Watcher.Config.{
  default_cfg_path, default_watch_dir, etc_dir, new_config_path, prepare,
}
use fluentbit_operator.Delivery.{main_config, scripts, read_from, main_config_arrives}
use fluentbit_operator.Tests.Controllers.{Table, cluster, config}
use fluentbit_operator.Tests.Names.{or_else}
use fluentbit_operator.Tests.Names.{not_among_one}
use fluentbit_operator.Tests.Files.{
  set, nothing, at, table_os, view, table-IsFileSystem, plain_codec, plain_codec-IsGzip, path_of,
}

-- The bytes of a text, in which a letter stands for the three bytes of gzip.
abbrev pub encode : String → Bytes
encode String.[] = []
encode (String.◌∷◌ c s) =
    let rest = encode s in
    if eqb (code c) (code "Z") then 0x1f ∷ 0x8b ∷ 0x08 ∷ rest else code c ∷ rest

abbrev pub compressing : Client Table Unit Unit
compressing = record cluster { compress_bytes = λ s. ok (String.◌∷◌ "Z" s) }

abbrev pub no_secrets : Table
no_secrets namespace name = none

abbrev some_or : String → Option String → String
some_or s none = s
some_or s (some t) = t

abbrev pub secret : GoMap String
secret = or_else [] (rendered compressing true no_secrets "fluent" (config "a"))

abbrev main_text : String
main_text = or_else "" (main_config compressing true no_secrets "fluent" (config "a"))

abbrev stored_text : String
stored_text = some_or "" (lookup "fluent-bit.conf" secret)

abbrev pub mounted_table : FilePath → Option Bytes
mounted_table =
    set (at default_watch_dir "fluent-bit.conf") (encode stored_text)
      (set (at etc_dir "parsers.conf") (5 ∷ []) nothing)

pub only_script :
    (ss : List Script)
    → scripts compressing true no_secrets "fluent" (config "a") ≡ ok ss
    → ¬ Mem "fluent-bit.conf" (map (λ s. s.name) ss)
unfolding scripts plugin_runs
only_script ss e =
    subst (λ ts. ¬ Mem "fluent-bit.conf" (map (λ s. s.name) ts)) (ok-injective _ ss e)
      (not_among_one "fluent-bit.conf" "systemd.lua" refl)

pub main_plain :
    (s : String)
    → main_config compressing true no_secrets "fluent" (config "a") ≡ ok s
    → is_magic (limit 8 (encode s)) ≡ false
unfolding main_config plugin_runs is_magic limit
main_plain s e = subst (λ t. is_magic (limit 8 (encode t)) ≡ false) (ok-injective _ s e) refl

pub what_is_stored :
    (t : String)
    → lookup "fluent-bit.conf" secret ≡ some t
    → view mounted_table (at default_watch_dir "fluent-bit.conf") ≡ some (encode t)
unfolding rendered plugin_runs lookup view
what_is_stored t e =
    subst (λ u. some (encode stored_text) ≡ some (encode u)) (some_same stored_text t e) refl
  where
    some_same : (a b : String) → some a ≡ some b → a ≡ b
    some_same a b h = cc

pub compress_bytes_encode :
    (s c : String)
    → compressing.compress_bytes s ≡ ok c
    → encode c ≡ plain_codec.compress (encode s)
compress_bytes_encode s c e =
    subst (λ d. encode d ≡ plain_codec.compress (encode s)) (ok-injective _ c e) refl

main_config_arrives_example :
    (main : String) × (main_config compressing true no_secrets "fluent" (config "a") ≡ ok main)
    × (new_config_path ≡ new_config_path)
    × (view
          (prepare table_os plain_codec path_of default_cfg_path mounted_table).0
          (read_from path_of new_config_path)
        ≡ some (encode main))
unfolding rendered plugin_runs prepare is_compressed copy_files_with_filter decompress_file view
    has_suffix
main_config_arrives_example =
    main_config_arrives compressing true no_secrets "fluent" (config "a") table_os view
      table-IsFileSystem plain_codec plain_codec-IsGzip path_of encode compress_bytes_encode
      main_plain refl secret mounted_table new_config_path refl only_script what_is_stored refl
