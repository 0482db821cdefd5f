-- ===== src/Files/Gzip/Laws.antt =====
-- What is relied on of compress/gzip, and what the file that `Decompress` writes then holds.
use fluentbit_operator.Prelude.{
  some-injective, ◌≡◌, ◌≢◌, refl, sym, ap, ◌∙◌, true, Option, some, [],
}
use fluentbit_operator.Result.{Result, ok, err, ok-injective}
use fluentbit_operator.Run.{read}
use fluentbit_operator.Run.Laws.{Keeps, keeping, Ensures, Ensures-then}
use fluentbit_operator.Files.{Bytes, FilePath, Os}
use fluentbit_operator.Files.Laws.{IsFileSystem}
use fluentbit_operator.Files.Gzip.{Codec, limit, parse, is_magic, is_compressed, decompress_file}

pub record IsGzip (codec : Codec) : Type 0 where
  pub magic : (bs : Bytes) → is_magic (limit 8 (codec.compress bs)) ≡ true
  pub restores : (bs : Bytes) → codec.decompress (codec.compress bs) ≡ ok bs

-- What is made of a file that holds `bs`.
parse_ok :
    {A : Type 0} (f : Bytes → Result A) (r : Result Bytes) (bs : Bytes) (a : A)
    → ((c : Bytes) → r ≡ ok c → c ≡ bs)
    → parse r f ≡ ok a
    → f bs ≡ ok a
unfolding parse
parse_ok f (ok c) bs a h e = ap f (sym (h c refl)) ∙ e
parse_ok f (err x) bs a h e = cc

module _ {World : Type 0} (os : Os World) (view : World → FilePath → Option Bytes)
    (fs : IsFileSystem os view) where
  pub read_file :
      {A : Type 0} (f : Bytes → Result A) (w : World) (p : FilePath) (bs : Bytes) (a : A)
      → view w p ≡ some bs
      → parse (os.content w p) f ≡ ok a
      → f bs ≡ ok a
  read_file f w p bs a v =
      parse_ok f (os.content w p) bs a
        (λ c e. some-injective c bs (sym (fs.content-view w p c e) ∙ v))

  pub is_compressed-magic :
      (p : FilePath) (bs : Bytes)
      → Ensures
          (λ w. view w p ≡ some bs)
          (is_compressed os p)
          (λ b w. (view w p ≡ some bs) × (is_magic (limit 8 bs) ≡ b))
  unfolding is_compressed
  is_compressed-magic p bs =
      Ensures-then (λ w. view w p ≡ some bs) (λ u w. view w p ≡ some bs)
        (λ b w. (view w p ≡ some bs) × (is_magic (limit 8 bs) ≡ b)) (read (λ w. os.open_file w p)) _
        (λ w v u e. v)
        (λ u w v b e.
          (v, ok-injective _ _ (read_file (λ cs. ok (is_magic (limit 8 cs))) w p bs b v e)))

  pub is_compressed-Keeps : (p : FilePath) → Keeps (λ w. w) (is_compressed os p)
  unfolding is_compressed
  is_compressed-Keeps p = search (keeping)

  -- A file that holds what the compression of `bs` gives is decompressed to `bs`.
  pub decompress_file_restores :
      (codec : Codec) (gz : IsGzip codec) (from to : FilePath) (bs : Bytes)
      → from ≢ to
      → Ensures
          (λ w. view w from ≡ some (codec.compress bs))
          (decompress_file os codec from to)
          (λ u w. view w to ≡ some bs)
  unfolding decompress_file
  decompress_file_restores codec gz from to bs apart =
      let Held = λ (w : World). view w from ≡ some (codec.compress bs) in
      let Done = λ (u : Unit {0}) (w : World). view w to ≡ some bs in
      let Empty = λ (w : World). view w to ≡ some [] in
      Ensures-then Held (λ u. Held) Done (read (λ w. os.open_file w from)) _ (λ w v u e. v)
        λ u.
          Ensures-then Held (λ u'. Held) Done
            (read (λ w. parse (os.content w from) codec.read_header)) _ (λ w v u' e. v)
            λ u'.
              Ensures-then Held (λ u'' w. Held w × Empty w) Done (os.create to) _
                (λ w v u'' e. (fs.create-kept w to from apart ∙ v, fs.created w to e))
                λ u''.
                  Ensures-then (λ w. Held w × Empty w) (λ cs w. (cs ≡ bs) × Empty w) Done
                    (read (λ w. parse (os.content w from) codec.decompress)) (λ cs. os.write to cs)
                    (λ w v cs e. (
                      ok-injective cs bs
                          (sym (read_file codec.decompress w from _ cs v.0 e) ∙ gz.restores bs),
                      v.1,
                    ))
                    (λ cs w v u3 e. fs.written w to cs v.1 e ∙ ap some v.0)
