-- ===== src/Files.antt =====
-- The file system, as pkg/copy, pkg/gziputil and the watcher use it: the calls of package os on a state of
-- the file system are a parameter, `Os`. A directory is its cleaned path; a file stands in a directory under
-- a name, so that `path.Join` and `filepath.Dir` are its constructor and its first field. A byte is a number.
-- `not_found` is the error of `os.IsNotExist`. Closing a file is left out.
pub mod Laws
pub mod Copy
pub mod Gzip
use fluentbit_operator.Prelude.{ℕ, String, Bool, List}
use fluentbit_operator.Result.{Result}
use fluentbit_operator.Run.{Run}

abbrev pub Bytes : Type 0
Bytes = List ℕ

pub record FilePath : Type 0 where
  pub dir : String
  pub base : String

-- `os.FileInfo`
pub record FileInfo : Type 0 where
  pub name : String
  pub is_dir : Bool

pub record Os (World : Type 0) : Type 0 where
  pub stat : World → String → Result FileInfo
  pub mkdir : String → Run World (Unit {0})
  pub open_dir : World → String → Result (Unit {0})
  pub read_dir : World → String → Result (List FileInfo)
  -- `os.Open` of a file, and what can then be read from it
  pub open_file : World → FilePath → Result (Unit {0})
  pub content : World → FilePath → Result Bytes
  -- `os.Create`, and writing to the file
  pub create : FilePath → Run World (Unit {0})
  pub write : FilePath → Bytes → Run World (Unit {0})
