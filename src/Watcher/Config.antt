-- ===== src/Watcher/Config.antt =====
-- cmd/fluent-bit-watcher/main.go: the configuration that `start` runs Fluent Bit with. `path_of` is the directory and
-- the name that a path stands for.
pub mod Restored
use fluentbit_operator.Prelude.{
  String, Bool, true, false, not, ◌||◌, ◌==◌, has_suffix, if◌then◌else◌,
}
use fluentbit_operator.Run.{Run, continue, ◌>>=◌, ◌>>◌, return}
use fluentbit_operator.Files.{Os, FilePath, FileInfo}
use fluentbit_operator.Files.Copy.{copy_files_with_filter}
use fluentbit_operator.Files.Gzip.{Codec, is_compressed, decompress_file}

abbrev pub default_cfg_path : String
default_cfg_path = "/fluent-bit/etc/fluent-bit.conf"

abbrev pub default_watch_dir : String
default_watch_dir = "/fluent-bit/config"

abbrev pub etc_dir : String
etc_dir = "/fluent-bit/etc"

abbrev pub scratch_cfg_dir : String
scratch_cfg_dir = "/tmp/fluent-bit"

abbrev pub scratch_cfg_file : String
scratch_cfg_file = "fluent-bit.scratch.conf"

-- `newConfig`, and the text of its path
abbrev pub new_config : FilePath
new_config = record { dir = scratch_cfg_dir; base = scratch_cfg_file }

abbrev pub new_config_path : String
new_config_path = "/tmp/fluent-bit/fluent-bit.scratch.conf"

unfoldable pub copy_filterfunc : FileInfo → Bool
copy_filterfunc fi =
    has_suffix fi.name ".conf"
    || has_suffix fi.name ".lua"
    || has_suffix fi.name ".yaml"
    || has_suffix fi.name ".yml"

unfoldable pub is_custom_config_set : String → Bool
is_custom_config_set config_path = not (default_cfg_path == config_path)

-- The default configuration only includes the file in the directory that is watched.
unfoldable pub file_to_check : (String → FilePath) → String → FilePath
unfolding is_custom_config_set
file_to_check path_of config_path =
    if not (is_custom_config_set config_path)
    then record { dir = default_watch_dir; base = "fluent-bit.conf" }
    else path_of config_path

module _ {World : Type 0} (os : Os World) (codec : Codec) where
  -- The files that the configuration may refer to
  unfoldable pub copy_local : Bool → FilePath → Run World (Unit {0})
  unfolding copy_filterfunc continue
  copy_local custom file =
      copy_files_with_filter os etc_dir scratch_cfg_dir copy_filterfunc
      >> (if custom
          then copy_files_with_filter os file.dir scratch_cfg_dir copy_filterfunc
          else return tt)

  unfoldable pub config_file : String → FilePath → Bool → Run World String
  unfolding copy_local is_custom_config_set continue
  config_file config_path file true =
      copy_local (is_custom_config_set config_path) file
      >> (decompress_file os codec file new_config >> return new_config_path)
  config_file config_path file false = return config_path

  -- `configFilePath`, which Fluent Bit is started with
  unfoldable pub prepare : (String → FilePath) → String → Run World String
  unfolding config_file file_to_check continue
  prepare path_of config_path =
      is_compressed os (file_to_check path_of config_path)
      >>= config_file config_path (file_to_check path_of config_path)
