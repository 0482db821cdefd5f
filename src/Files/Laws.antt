-- ===== src/Files/Laws.antt =====
-- What is relied on of package os, by the files and what they hold. A call that fails may have changed the file
-- that it is about, and no other.
use fluentbit_operator.Prelude.{◌≡◌, ◌≢◌, String, Option, some, []}
use fluentbit_operator.Result.{ok}
use fluentbit_operator.Files.{Bytes, FilePath, Os}

pub record IsFileSystem {World : Type 0} (os : Os World) (view : World → FilePath → Option Bytes)
    : Type 0 where
  pub content-view :
      (w : World) (p : FilePath) (bs : Bytes) → os.content w p ≡ ok bs → view w p ≡ some bs
  pub created :
      (w : World) (p : FilePath) → (os.create p w).1 ≡ ok tt → view (os.create p w).0 p ≡ some []
  pub create-kept : (w : World) (p q : FilePath) → q ≢ p → view (os.create p w).0 q ≡ view w q
  pub written :
      (w : World) (p : FilePath) (bs : Bytes)
      → view w p ≡ some []
      → (os.write p bs w).1 ≡ ok tt
      → view (os.write p bs w).0 p ≡ some bs
  pub write-kept :
      (w : World) (p q : FilePath) (bs : Bytes) → q ≢ p → view (os.write p bs w).0 q ≡ view w q
  pub mkdir-kept : (w : World) (d : String) (q : FilePath) → view (os.mkdir d w).0 q ≡ view w q
  pub mkdir-open_dir :
      (w : World) (d e : String) → e ≢ d → os.open_dir (os.mkdir d w).0 e ≡ os.open_dir w e
  pub mkdir-read_dir :
      (w : World) (d e : String) → e ≢ d → os.read_dir (os.mkdir d w).0 e ≡ os.read_dir w e
