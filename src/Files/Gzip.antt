-- ===== src/Files/Gzip.antt =====
-- pkg/gziputil/compress.go. The format of gzip, which package compress/gzip reads and writes, is a parameter. Where
-- decompressing fails halfway, the model leaves out what was written before.
pub mod Laws
use fluentbit_operator.Prelude.{ℕ, zero, suc, ◌≡◌, Bool, true, false, ◌&&◌, eqb, List, [], ◌∷◌}
use fluentbit_operator.Result.{Result, ok, err}
use fluentbit_operator.Run.{Run, continue, ◌>>=◌, ◌>>◌, read}
use fluentbit_operator.Files.{Bytes, Os, FilePath}

pub record Codec : Type 0 where
  -- what a writer at the best compression makes of the bytes
  pub compress : Bytes → Bytes
  -- `gzip.NewReader`, and what can then be read
  pub read_header : Bytes → Result (Unit {0})
  pub decompress : Bytes → Result Bytes

-- The first of at most eight bytes of a buffer of zeros.
unfoldable pub byte_at : ℕ → Bytes → ℕ
byte_at zero [] = 0
byte_at zero (b ∷ bs) = b
byte_at (suc n) [] = 0
byte_at (suc n) (b ∷ bs) = byte_at n bs

-- `io.LimitReader`
unfoldable pub limit : ℕ → Bytes → Bytes
limit zero bs = []
limit (suc n) [] = []
limit (suc n) (b ∷ bs) = b ∷ limit n bs

-- What becomes of bytes that could be read.
unfoldable pub parse : {A : Type 0} → Result Bytes → (Bytes → Result A) → Result A
parse (ok bs) f = f bs
parse (err e) f = err e

-- `bytes.Equal(b[0:3], magicGzip)`
unfoldable pub is_magic : Bytes → Bool
unfolding byte_at
is_magic bs = eqb (byte_at 0 bs) 0x1f && eqb (byte_at 1 bs) 0x8b && eqb (byte_at 2 bs) 0x08

-- `CompressBytes`: writing to a buffer does not fail.
unfoldable pub compress_bytes : Codec → Bytes → Result Bytes
compress_bytes codec bytes = ok (codec.compress bytes)

module _ {World : Type 0} (os : Os World) where
  -- `IsCompressed`
  unfoldable pub is_compressed : FilePath → Run World Bool
  unfolding is_magic limit parse continue
  is_compressed path = do
    read (λ w. os.open_file w path)
    read (λ w. parse (os.content w path) (λ bs. ok (is_magic (limit 8 bs))))

  -- `Decompress`
  unfoldable pub decompress_file : Codec → FilePath → FilePath → Run World (Unit {0})
  unfolding parse continue
  decompress_file codec from_path to_path = do
    read (λ w. os.open_file w from_path)
    read (λ w. parse (os.content w from_path) codec.read_header)
    os.create to_path
    bytes ← read (λ w. parse (os.content w from_path) codec.decompress)
    os.write to_path bytes
