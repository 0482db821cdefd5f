-- ===== src/Tests/Files.antt =====
-- A file system that is a table, and a format that puts the three first bytes of gzip before the text.
use fluentbit_operator.Prelude.{
  ◌≡◌, ◌≢◌, refl, has_suffix, ap₂, String, Bool, true, false, ◌&&◌, ◌==◌, eq_iff, Bool-cases, inl,
  inr, Option, none, some, List, [], ◌∷◌, All, if◌then◌else◌,
}
use fluentbit_operator.Result.{Result, ok, err, not_found}
use fluentbit_operator.Files.{Bytes, FilePath, FileInfo, Os}
use fluentbit_operator.Files.Laws.{IsFileSystem}
use fluentbit_operator.Files.Copy.{copy_files_with_filter}
use fluentbit_operator.Files.Copy.Effect.{chosen}
use fluentbit_operator.Files.Copy.Whole.{copy-keeps, copy_copies}
use fluentbit_operator.Files.Gzip.{Codec, is_magic, limit, is_compressed, decompress_file}
use fluentbit_operator.Files.Gzip.Laws.{IsGzip}
use fluentbit_operator.Watcher.Config.{
  default_cfg_path, default_watch_dir, etc_dir, scratch_cfg_dir, new_config, new_config_path,
  copy_filterfunc, prepare,
}
use fluentbit_operator.Watcher.Config.Restored.{prepare_restores, prepare_plain}

abbrev pub Table : Type 0
Table = FilePath → Option Bytes

abbrev same_path : FilePath → FilePath → Bool
same_path p q = (p.dir == q.dir) && (p.base == q.base)

abbrev pub set : FilePath → Bytes → Table → Table
set p bs t q = if same_path q p then some bs else t q

abbrev pub listing : List FileInfo
listing =
    record { name = "parsers.conf"; is_dir = false }
    ∷ record { name = "README"; is_dir = false }
    ∷ []

abbrev held : Option Bytes → Result Bytes
held (some bs) = ok bs
held none = err (not_found "")

abbrev pub table_os : Os Table
table_os = record {
  stat = λ t d. ok (record { name = d; is_dir = true });
  mkdir = λ d t. (t, ok tt);
  open_dir = λ t d. ok tt;
  read_dir = λ t d. ok listing;
  open_file = λ t p. ok tt;
  content = λ t p. held (t p);
  create = λ p t. (set p [] t, ok tt);
  write = λ p bs t. (set p bs t, ok tt);
}

unfoldable pub view : Table → FilePath → Option Bytes
view t p = t p

and-true : (a b : Bool) → a ≡ true → b ≡ true → a && b ≡ true
and-true a b e f = rw (e, f) refl

and-both : (a b : Bool) → a && b ≡ true → (a ≡ true) × (b ≡ true)
and-both true b h = (refl, h)
and-both false b h = cc

same_path_refl : (p : FilePath) → same_path p p ≡ true
same_path_refl p = and-true _ _ ((eq_iff p.dir p.dir).1 refl) ((eq_iff p.base p.base).1 refl)

same_path-eq : (p q : FilePath) → same_path p q ≡ true → p ≡ q
same_path-eq p q h =
    let (d, b) = and-both _ _ h in
    ap₂ (λ x y. record { dir = x; base = y }) ((eq_iff p.dir q.dir).0 d)
      ((eq_iff p.base q.base).0 b)

set_at : (p : FilePath) (bs : Bytes) (t : Table) → set p bs t p ≡ some bs
set_at p bs t = rw (same_path_refl p) refl

set-away : (p q : FilePath) (bs : Bytes) (t : Table) → q ≢ p → set p bs t q ≡ t q
set-away p q bs t d = elim (Bool-cases (same_path q p)) [
  | inl e ↦ absurd (d (same_path-eq q p e))
  | inr e ↦ rw e refl
]

held-some : (o : Option Bytes) (bs : Bytes) → held o ≡ ok bs → o ≡ some bs
held-some (some cs) bs e = cc
held-some none bs e = cc

pub table-IsFileSystem : IsFileSystem table_os view
unfolding view
table-IsFileSystem = record {
  content-view = λ t p bs e. held-some (t p) bs e;
  created = λ t p e. set_at p [] t;
  create-kept = λ t p q d. set-away p q [] t d;
  written = λ t p bs v e. set_at p bs t;
  write-kept = λ t p q bs d. set-away p q bs t d;
  mkdir-kept = λ t d q. refl;
  mkdir-open_dir = λ t d e n. refl;
  mkdir-read_dir = λ t d e n. refl;
}

abbrev after_magic : Bytes → Bytes
after_magic [] = []
after_magic (a ∷ []) = []
after_magic (a ∷ b ∷ []) = []
after_magic (a ∷ b ∷ c ∷ bs) = bs

abbrev pub plain_codec : Codec
plain_codec = record {
  compress = λ bs. 0x1f ∷ 0x8b ∷ 0x08 ∷ bs;
  read_header = λ bs. ok tt;
  decompress = λ bs. ok (after_magic bs);
}

pub plain_codec-IsGzip : IsGzip plain_codec
unfolding is_magic limit
plain_codec-IsGzip = record { magic = λ bs. refl; restores = λ bs. refl }

abbrev pub at : String → String → FilePath
at d b = record { dir = d; base = b }

abbrev pub nothing : Table
nothing p = none

abbrev compressed_table : Table
compressed_table =
    set (at default_watch_dir "fluent-bit.conf") (0x1f ∷ 0x8b ∷ 0x08 ∷ 7 ∷ 8 ∷ [])
      (set (at etc_dir "parsers.conf") (5 ∷ []) nothing)

abbrev plain_table : Table
plain_table = set (at default_watch_dir "fluent-bit.conf") (7 ∷ 8 ∷ []) nothing

abbrev pub path_of : String → FilePath
path_of s = if s == new_config_path then new_config else at etc_dir s

differ : (a b : String) → (a == b) ≡ false → a ≢ b
differ a b e h = let same = (eq_iff a b).1 h in cc

prepare_restores_example :
    (new_config_path ≡ new_config_path)
    × (view (prepare table_os plain_codec path_of default_cfg_path compressed_table).0 new_config
        ≡ some (7 ∷ 8 ∷ []))
unfolding prepare view is_compressed copy_files_with_filter has_suffix decompress_file
prepare_restores_example =
    prepare_restores table_os view table-IsFileSystem plain_codec path_of default_cfg_path
      plain_codec-IsGzip (differ _ _ refl) (7 ∷ 8 ∷ []) compressed_table new_config_path refl refl

prepare_plain_example :
    prepare table_os plain_codec path_of default_cfg_path plain_table
    ≡ (plain_table, ok default_cfg_path)
unfolding prepare view is_magic limit is_compressed
prepare_plain_example =
    prepare_plain table_os view table-IsFileSystem plain_codec path_of default_cfg_path (7 ∷ 8 ∷ [])
      plain_table default_cfg_path refl refl refl

copy-keeps_example :
    view
      (copy_files_with_filter table_os etc_dir scratch_cfg_dir copy_filterfunc compressed_table).0
      (at etc_dir "parsers.conf")
    ≡ view compressed_table (at etc_dir "parsers.conf")
copy-keeps_example =
    copy-keeps table_os view table-IsFileSystem etc_dir scratch_cfg_dir (differ _ _ refl)
      copy_filterfunc (at etc_dir "parsers.conf") (differ _ _ refl) compressed_table

copy_copies_example :
    All
      (λ (fi : FileInfo).
        view
          (copy_files_with_filter table_os etc_dir scratch_cfg_dir copy_filterfunc
            compressed_table).0
          (at scratch_cfg_dir fi.name)
        ≡ view compressed_table (at etc_dir fi.name))
      (chosen copy_filterfunc listing)
unfolding copy_files_with_filter copy_filterfunc has_suffix
copy_copies_example =
    copy_copies table_os view table-IsFileSystem etc_dir scratch_cfg_dir (differ _ _ refl)
      copy_filterfunc listing compressed_table tt refl refl refl
