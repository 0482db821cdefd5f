-- ===== src/Files/Copy/Effect.antt =====
-- What `CopyFilesWithFilter` does to the files.
use mathlib.Core.Path.{subst}
use fluentbit_operator.Prelude.{
  true≢false, ◌≡◌, ◌≢◌, refl, sym, ap, ◌∙◌, String, Bool, true, false, Option, some, List, [], ◌∷◌,
  inl, inr, Bool-cases, All, All-of, All-map, ◌==◌, eq_iff, if◌then◌else◌,
}
use fluentbit_operator.Result.{Result, ok}
use fluentbit_operator.Run.{read}
use fluentbit_operator.Run.Laws.{
  then_ok, Keeps, Keeps-return, Keeps-then, keeping, Ensures, Ensures-then,
}
use fluentbit_operator.Files.{Bytes, FilePath, FileInfo, Os}
use fluentbit_operator.Files.Laws.{IsFileSystem}
use fluentbit_operator.Files.Copy.{copy_file, copy_files}

-- The files that are copied.
unfoldable pub chosen : (FileInfo → Bool) → List FileInfo → List FileInfo
chosen filter [] = []
chosen filter (fi ∷ fis) = let rest = chosen filter fis in if filter fi then fi ∷ rest else rest

chosen-taken :
    (filter : FileInfo → Bool) (fi : FileInfo) (fis : List FileInfo)
    → filter fi ≡ true
    → chosen filter (fi ∷ fis) ≡ fi ∷ chosen filter fis
unfolding chosen
chosen-taken filter fi fis e = rw e refl

chosen-passed :
    (filter : FileInfo → Bool) (fi : FileInfo) (fis : List FileInfo)
    → filter fi ≡ false
    → chosen filter (fi ∷ fis) ≡ chosen filter fis
unfolding chosen
chosen-passed filter fi fis e = rw e refl

module _ {World : Type 0} (os : Os World) (view : World → FilePath → Option Bytes)
    (fs : IsFileSystem os view) (source_dir dest_dir : String) where
  abbrev source : String → FilePath
  source name = record { dir = source_dir; base = name }

  abbrev dest : String → FilePath
  dest name = record { dir = dest_dir; base = name }

  abbrev at : FilePath → World → Option Bytes
  at q w = view w q

  create-Keeps : (p q : FilePath) → q ≢ p → Keeps (at q) (os.create p)
  create-Keeps p q d = record { keeps = λ w. fs.create-kept w p q d }

  write-Keeps : (p q : FilePath) (bs : Bytes) → q ≢ p → Keeps (at q) (os.write p bs)
  write-Keeps p q bs d = record { keeps = λ w. fs.write-kept w p q bs d }

  -- A file that is not the copy stays as it is, whatever fails.
  copy_file-Keeps :
      (name : String) (q : FilePath)
      → q ≢ dest name
      → Keeps (at q) (copy_file os source_dir dest_dir name)
  unfolding copy_file
  copy_file-Keeps name q d = search (keeping, create-Keeps, write-Keeps, d)

  module _ (apart : source_dir ≢ dest_dir) where
    source-dest : (n m : String) → source n ≢ dest m
    source-dest n m e = apart (ap (λ p. p.dir) e)

    -- The copy holds what the file held.
    copy_file_copies :
        (name : String) (s : Option Bytes)
        → Ensures
            (λ w. view w (source name) ≡ s)
            (copy_file os source_dir dest_dir name)
            (λ u w. view w (dest name) ≡ s)
    unfolding copy_file
    copy_file_copies name s =
        Ensures-then (λ w. at (source name) w ≡ s) (λ u w. at (source name) w ≡ s)
          (λ u w. at (dest name) w ≡ s) (read (λ w. os.open_file w (source name))) _ (λ w p u e. p)
          λ u.
            Ensures-then (λ w. at (source name) w ≡ s)
              (λ u' w. (at (source name) w ≡ s) × (at (dest name) w ≡ some []))
              (λ u' w. at (dest name) w ≡ s) (os.create (dest name)) _
              (λ w p u' e. (
                fs.create-kept w (dest name) (source name) (source-dest name name) ∙ p,
                fs.created w (dest name) e,
              ))
              λ u'.
                Ensures-then (λ w. (at (source name) w ≡ s) × (at (dest name) w ≡ some []))
                  (λ bs w. (s ≡ some bs) × (at (dest name) w ≡ some []))
                  (λ bs w. at (dest name) w ≡ s) (read (λ w. os.content w (source name)))
                  (λ bs. os.write (dest name) bs)
                  (λ w p bs e. (sym p.0 ∙ fs.content-view w (source name) bs e, p.1))
                  (λ bs w p u'' e. fs.written w (dest name) bs p.1 e ∙ sym p.0)

    copy_files-Keeps :
        (filter : FileInfo → Bool) (fis : List FileInfo) (q : FilePath)
        → All (λ (fi : FileInfo). q ≢ dest fi.name) (chosen filter fis)
        → Keeps (at q) (copy_files os source_dir dest_dir filter fis)
    unfolding copy_files
    copy_files-Keeps filter [] q h = Keeps-return (at q) tt
    copy_files-Keeps filter (fi ∷ fis) q h = elim (Bool-cases (filter fi)) [
      | inl e ↦
          let (d, h') =
            subst (All (λ (fi : FileInfo). q ≢ dest fi.name)) (chosen-taken filter fi fis e) h in
          rw e (
            Keeps-then (at q) (copy_file os source_dir dest_dir fi.name) _
              (copy_file-Keeps fi.name q d) (λ u. copy_files-Keeps filter fis q h'))
      | inr e ↦
          let h' =
            subst (All (λ (fi : FileInfo). q ≢ dest fi.name)) (chosen-passed filter fi fis e) h in
          rw e (copy_files-Keeps filter fis q h')
    ]

    pub elsewhere-Keeps :
        (filter : FileInfo → Bool) (fis : List FileInfo) (q : FilePath)
        → q.dir ≢ dest_dir
        → Keeps (at q) (copy_files os source_dir dest_dir filter fis)
    elsewhere-Keeps filter fis q d =
        copy_files-Keeps filter fis q (All-of _ (λ fi e. d (ap (λ p. p.dir) e)) (chosen filter fis))

    -- The file of this name and its copy hold the same.
    abbrev Same : String → Option Bytes → World → Type 0
    Same name s w = (at (source name) w ≡ s) × (at (dest name) w ≡ s)

    copy_file-Same :
        (name copied : String) (s : Option Bytes)
        → Ensures (Same name s) (copy_file os source_dir dest_dir copied) (λ u. Same name s)
    copy_file-Same name copied s w p u e = (
      (copy_file-Keeps copied (source name) (source-dest name copied)).keeps w ∙ p.0,
      elim (Bool-cases (name == copied)) [
        | inl same ↦
            let n = (eq_iff name copied).0 same in
            subst (λ t. at (dest t) (copy_file os source_dir dest_dir copied w).0 ≡ s) (sym n)
              (copy_file_copies copied s w (subst (λ t. at (source t) w ≡ s) n p.0) u e)
        | inr differs ↦
            (copy_file-Keeps copied (dest name) (λ q.
                true≢false (sym ((eq_iff name copied).1 (ap (λ p. p.base) q)) ∙ differs))).keeps
              w
            ∙ p.1
      ],
    )

    copy_files-Same :
        (name : String) (s : Option Bytes) (filter : FileInfo → Bool) (fis : List FileInfo)
        → Ensures (Same name s) (copy_files os source_dir dest_dir filter fis) (λ u. Same name s)
    unfolding copy_files
    copy_files-Same name s filter [] = λ w p u e. p
    copy_files-Same name s filter (fi ∷ fis) = elim (Bool-cases (filter fi)) [
      | inl e ↦ rw e (
          Ensures-then (Same name s) (λ u. Same name s) (λ u. Same name s)
            (copy_file os source_dir dest_dir fi.name) _ (copy_file-Same name fi.name s)
            (λ u. copy_files-Same name s filter fis))
      | inr e ↦ rw e (copy_files-Same name s filter fis)
    ]

    -- Every chosen file is copied.
    pub copy_files_copies :
        (filter : FileInfo → Bool) (fis : List FileInfo) (w : World) (u : Unit {0})
        → (copy_files os source_dir dest_dir filter fis w).1 ≡ ok u
        → All
            (λ (fi : FileInfo).
              at (dest fi.name) (copy_files os source_dir dest_dir filter fis w).0
              ≡ at (source fi.name) w)
            (chosen filter fis)
    unfolding copy_files chosen
    copy_files_copies filter [] w u = λ h. tt
    copy_files_copies filter (fi ∷ fis) w u = elim (Bool-cases (filter fi)) [
      | inr e ↦ rw e (copy_files_copies filter fis w u)
      | inl e ↦ rw e λ h.
          let w' = (copy_file os source_dir dest_dir fi.name w).0 in
          let (v, e', same) =
            then_ok (copy_file os source_dir dest_dir fi.name)
              (λ _. copy_files os source_dir dest_dir filter fis) w u h in
          let h' = sym (ap (λ (p : World × Result (Unit {0})). p.1) same) ∙ h in
          let kept = λ (name : String).
            (copy_file-Keeps fi.name (source name) (source-dest name fi.name)).keeps w in
          subst
            (λ (p : World × Result (Unit {0})).
              All (λ (f : FileInfo). at (dest f.name) p.0 ≡ at (source f.name) w)
                (fi ∷ chosen filter fis))
            (sym same)
            (
              (copy_files-Same fi.name (at (source fi.name) w) filter fis w'
                  (kept fi.name, copy_file_copies fi.name (at (source fi.name) w) w refl v e') u
                  h').1,
              All-map (λ f q. q ∙ kept f.name) (chosen filter fis)
                  (copy_files_copies filter fis w' u h'),
            )
    ]
