-- ===== src/Watcher/Config/Restored.antt =====
-- The configuration that Fluent Bit is started with holds what was compressed.
use fluentbit_operator.Prelude.{
  true≢false, ◌≡◌, ◌≢◌, sym, ap, ap₂, ◌∙◌, String, Bool, true, false, Option, some, eq_iff,
  if◌then◌else◌,
}
use fluentbit_operator.Result.{ok, ok-injective}
use fluentbit_operator.Run.{return}
use fluentbit_operator.Run.Laws.{Keeps, Keeps-return, Keeps-then, Ensures, Ensures-then, then_ok}
use fluentbit_operator.Files.{Bytes, FilePath, Os}
use fluentbit_operator.Files.Laws.{IsFileSystem}
use fluentbit_operator.Files.Copy.{copy_files_with_filter}
use fluentbit_operator.Files.Copy.Whole.{copy-keeps}
use fluentbit_operator.Files.Gzip.{Codec, limit, is_magic, is_compressed, decompress_file}
use fluentbit_operator.Files.Gzip.Laws.{
  IsGzip, is_compressed-magic, is_compressed-Keeps, decompress_file_restores,
}
use fluentbit_operator.Watcher.Config.{
  etc_dir, scratch_cfg_dir, new_config, new_config_path, copy_filterfunc, is_custom_config_set,
  file_to_check, copy_local, config_file, prepare,
}

etc-scratch : etc_dir ≢ scratch_cfg_dir
etc-scratch e = let same = (eq_iff etc_dir scratch_cfg_dir).1 e in cc

module _ {World : Type 0} (os : Os World) (view : World → FilePath → Option Bytes)
    (fs : IsFileSystem os view) (codec : Codec) where
  local-Keeps :
      (custom : Bool) (file : FilePath)
      → file.dir ≢ scratch_cfg_dir
      → Keeps (λ w. view w file) (copy_local os codec custom file)
  unfolding copy_local
  local-Keeps custom file away =
      Keeps-then (λ w. view w file)
        (copy_files_with_filter os etc_dir scratch_cfg_dir copy_filterfunc) _
        (record {
          keeps =
              copy-keeps os view fs etc_dir scratch_cfg_dir etc-scratch copy_filterfunc file away;
        })
        (λ u. rest custom)
    where
      rest :
          (c : Bool)
          → Keeps
              (λ w. view w file)
              (if c
                then copy_files_with_filter os file.dir scratch_cfg_dir copy_filterfunc
                else return tt)
      rest true = record {
        keeps = copy-keeps os view fs file.dir scratch_cfg_dir away copy_filterfunc file away;
      }
      rest false = Keeps-return (λ w. view w file) tt

  module _ (path_of : String → FilePath) (config_path : String) where
    abbrev file : FilePath
    file = file_to_check path_of config_path

    -- Where the file that is checked holds what the compression of a text gives, and is not in the scratch directory,
    -- and the preparation returns without an error, Fluent Bit is started with the scratch file, and it holds the text.
    pub prepare_restores :
        (gz : IsGzip codec) (away : file.dir ≢ scratch_cfg_dir) (text : Bytes) (w : World)
        (p : String)
        → view w file ≡ some (codec.compress text)
        → (prepare os codec path_of config_path w).1 ≡ ok p
        → (p ≡ new_config_path)
          × (view (prepare os codec path_of config_path w).0 new_config ≡ some text)
    unfolding prepare config_file
    prepare_restores gz away text w p v e =
        Ensures-then Held (λ b w'. Held w' × (is_magic (limit 8 (codec.compress text)) ≡ b)) Done
          (is_compressed os file) (config_file os codec config_path file)
          (is_compressed-magic os view fs file (codec.compress text)) rest w v p e
      where
        Held : World → Type 0
        Held w' = view w' file ≡ some (codec.compress text)

        Done : String → World → Type 0
        Done q w' = (q ≡ new_config_path) × (view w' new_config ≡ some text)

        rest :
            (b : Bool)
            → Ensures
                (λ w'. Held w' × (is_magic (limit 8 (codec.compress text)) ≡ b))
                (config_file os codec config_path file b)
                Done
        rest false = λ w' h q e'. absurd (true≢false (sym (gz.magic text) ∙ h.1))
        rest true =
            Ensures-then (λ w'. Held w' × (is_magic (limit 8 (codec.compress text)) ≡ true))
              (λ u. Held) Done (copy_local os codec (is_custom_config_set config_path) file) _
              (λ w' h u e'.
                (local-Keeps (is_custom_config_set config_path) file away).keeps w' ∙ h.0)
              λ u.
                Ensures-then Held (λ u' w'. view w' new_config ≡ some text) Done
                  (decompress_file os codec file new_config) _
                  (decompress_file_restores os view fs codec gz file new_config text
                    (λ q. away (ap (λ r. r.dir) q)))
                  (λ u' w' h q e'. (sym (ok-injective _ _ e'), h))

    -- Where the file that is checked does not start as a compressed one does, Fluent Bit is started with the
    -- configuration that was given, and nothing is changed.
    pub prepare_plain :
        (bs : Bytes) (w : World) (p : String)
        → view w file ≡ some bs
        → is_magic (limit 8 bs) ≡ false
        → (prepare os codec path_of config_path w).1 ≡ ok p
        → prepare os codec path_of config_path w ≡ (w, ok config_path)
    unfolding prepare config_file
    prepare_plain bs w p v m e =
        let (b, e', same) =
          then_ok (is_compressed os file) (config_file os codec config_path file) w p e in
        let m' = (is_compressed-magic os view fs file bs w v b e').1 in
        same
        ∙ ap₂ (config_file os codec config_path file) (sym m' ∙ m)
            ((is_compressed-Keeps os view fs file).keeps w)
