-- ===== src/Files/Copy.antt =====
-- pkg/copy/copy.go. `io.Copy` writes what can be read from one file to the other; where
-- reading fails halfway, the model leaves out what was written before.
pub mod Effect
pub mod Whole
use Prim.Native.String
use fluentbit_operator.Prelude.{String, Bool, true, false, not, List, [], ◌∷◌, if◌then◌else◌}
use fluentbit_operator.Result.{Result, ok, err, not_found, other, panicked}
use fluentbit_operator.Run.{Run, continue, ◌>>=◌, ◌>>◌, return, read}
use fluentbit_operator.Files.{Os, FilePath, FileInfo}

unfoldable pub not_a_directory : {World A : Type 0} → String → Run World A
not_a_directory dir w = (w, err (other (String.◌++◌ dir " is not a directory")))

module _ {World : Type 0} (os : Os World) (source_dir dest_dir : String) where
  -- The body of the loop, on a file that is not passed over.
  unfoldable pub copy_file : String → Run World (Unit {0})
  unfolding continue
  copy_file name = do
    read (λ w. os.open_file w (record { dir = source_dir; base = name }))
    os.create (record { dir = dest_dir; base = name })
    bytes ← read (λ w. os.content w (record { dir = source_dir; base = name }))
    os.write (record { dir = dest_dir; base = name }) bytes

  -- The loop
  unfoldable pub copy_files : (FileInfo → Bool) → List FileInfo → Run World (Unit {0})
  unfolding copy_file continue
  copy_files filter [] = return tt
  copy_files filter (fi ∷ fis) =
      if not (filter fi) then copy_files filter fis else copy_file fi.name >> copy_files filter fis

  -- From `Readdir` on, and from `Open` of the source on
  unfoldable pub copy_listed : (FileInfo → Bool) → Result (List FileInfo) → Run World (Unit {0})
  unfolding copy_files
  copy_listed filter (ok fis) w = copy_files filter fis w
  copy_listed filter (err (not_found _)) w = (w, ok tt)
  copy_listed filter (err e) w = (w, err e)

  unfoldable pub copy_opened : (FileInfo → Bool) → Result (Unit {0}) → Run World (Unit {0})
  unfolding copy_listed
  copy_opened filter (ok _) w = copy_listed filter (os.read_dir w source_dir) w
  copy_opened filter (err (not_found _)) w = (w, ok tt)
  copy_opened filter (err e) w = (w, err e)

  -- From the second `Stat` on: the directory that is copied to is there, or is made.
  unfoldable pub dest_info : Result FileInfo → Run World FileInfo
  unfolding continue
  dest_info (ok fi) w = (w, ok fi)
  dest_info (err (not_found _)) w = (os.mkdir dest_dir >> read (λ w'. os.stat w' dest_dir)) w
  dest_info (err e) w = (w, err e)

  -- From the test of the directory that is copied to on
  unfoldable pub copy_to : (FileInfo → Bool) → FileInfo → Run World (Unit {0})
  unfolding copy_opened not_a_directory
  copy_to filter dest_file_info w =
      if not dest_file_info.is_dir
      then not_a_directory dest_dir w
      else copy_opened filter (os.open_dir w source_dir) w

  unfoldable pub copy_from : (FileInfo → Bool) → FileInfo → Run World (Unit {0})
  unfolding dest_info copy_to not_a_directory continue
  copy_from filter source_info w =
      if not source_info.is_dir
      then not_a_directory source_dir w
      else ((λ w'. dest_info (os.stat w' dest_dir) w') >>= copy_to filter) w

  -- From the first `Stat` on: an error that says that nothing is there is let pass, and `IsDir` is called on nil.
  unfoldable pub copy_stated : (FileInfo → Bool) → Result FileInfo → Run World (Unit {0})
  unfolding copy_from
  copy_stated filter (ok fi) w = copy_from filter fi w
  copy_stated filter (err (not_found _)) w = (w, err panicked)
  copy_stated filter (err e) w = (w, err e)

  -- `CopyFilesWithFilter`
  unfoldable pub copy_files_with_filter : (FileInfo → Bool) → Run World (Unit {0})
  unfolding copy_stated
  copy_files_with_filter filter w = copy_stated filter (os.stat w source_dir) w
