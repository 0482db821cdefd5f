-- ===== src/Files/Copy/Whole.antt =====
-- What `CopyFilesWithFilter` does as a whole, with the tests of the two directories.
use fluentbit_operator.Prelude.{
  ◌≡◌, ◌≢◌, refl, ◌∙◌, String, Bool, Option, List, Bool-cases, inl, inr, All, All-map,
}
use fluentbit_operator.Result.{Result, ok, err, not_found, already_exists, other, panicked}
use fluentbit_operator.Run.{read}
use fluentbit_operator.Run.Laws.{Keeps, Keeps-then, Ensures, Ensures-then}
use fluentbit_operator.Files.{Bytes, FilePath, FileInfo, Os}
use fluentbit_operator.Files.Laws.{IsFileSystem}
use fluentbit_operator.Files.Copy.{
  not_a_directory, copy_listed, copy_opened, dest_info, copy_to, copy_from, copy_stated,
  copy_files_with_filter,
}
use fluentbit_operator.Files.Copy.Effect.{chosen, elsewhere-Keeps, copy_files_copies}

module _ {World : Type 0} (os : Os World) (view : World → FilePath → Option Bytes)
    (fs : IsFileSystem os view) (source_dir dest_dir : String) (apart : source_dir ≢ dest_dir)
    (filter : FileInfo → Bool) where
  module _ (q : FilePath) (away : q.dir ≢ dest_dir) where
    abbrev see : World → Option Bytes
    see w = view w q

    listed-Keeps :
        (r : Result (List FileInfo)) → Keeps see (copy_listed os source_dir dest_dir filter r)
    unfolding copy_listed
    listed-Keeps (ok fis) = record {
      keeps = (elsewhere-Keeps os view fs source_dir dest_dir apart filter fis q away).keeps;
    }
    listed-Keeps (err (not_found s)) = record { keeps = λ w. refl }
    listed-Keeps (err (already_exists s)) = record { keeps = λ w. refl }
    listed-Keeps (err (other s)) = record { keeps = λ w. refl }
    listed-Keeps (err panicked) = record { keeps = λ w. refl }

    opened-Keeps : (r : Result (Unit {0})) → Keeps see (copy_opened os source_dir dest_dir filter r)
    unfolding copy_opened
    opened-Keeps (ok u) = record { keeps = λ w. (listed-Keeps (os.read_dir w source_dir)).keeps w }
    opened-Keeps (err (not_found s)) = record { keeps = λ w. refl }
    opened-Keeps (err (already_exists s)) = record { keeps = λ w. refl }
    opened-Keeps (err (other s)) = record { keeps = λ w. refl }
    opened-Keeps (err panicked) = record { keeps = λ w. refl }

    to-Keeps : (fi : FileInfo) → Keeps see (copy_to os source_dir dest_dir filter fi)
    unfolding copy_to not_a_directory
    to-Keeps fi = elim (Bool-cases fi.is_dir) [
      | inl e ↦ record { keeps = λ w. rw e ((opened-Keeps (os.open_dir w source_dir)).keeps w) }
      | inr e ↦ record { keeps = λ w. rw e refl }
    ]

    info-Keeps : (r : Result FileInfo) → Keeps see (dest_info os source_dir dest_dir r)
    unfolding dest_info
    info-Keeps (ok fi) = record { keeps = λ w. refl }
    info-Keeps (err (not_found s)) = record {
      keeps =
          (Keeps-then see (os.mkdir dest_dir) (λ _. read (λ w. os.stat w dest_dir))
            (record { keeps = λ w. fs.mkdir-kept w dest_dir q })
            (λ u. record { keeps = λ w. refl })).keeps;
    }
    info-Keeps (err (already_exists s)) = record { keeps = λ w. refl }
    info-Keeps (err (other s)) = record { keeps = λ w. refl }
    info-Keeps (err panicked) = record { keeps = λ w. refl }

    from-Keeps : (fi : FileInfo) → Keeps see (copy_from os source_dir dest_dir filter fi)
    unfolding copy_from not_a_directory
    from-Keeps fi = elim (Bool-cases fi.is_dir) [
      | inl e ↦ record {
        keeps = λ w. rw e (
            (Keeps-then see (λ w'. dest_info os source_dir dest_dir (os.stat w' dest_dir) w')
                (copy_to os source_dir dest_dir filter)
                (record { keeps = λ w'. (info-Keeps (os.stat w' dest_dir)).keeps w' })
                to-Keeps).keeps
              w);
      }
      | inr e ↦ record { keeps = λ w. rw e refl }
    ]

    stated-Keeps : (r : Result FileInfo) → Keeps see (copy_stated os source_dir dest_dir filter r)
    unfolding copy_stated
    stated-Keeps (ok fi) = record { keeps = (from-Keeps fi).keeps }
    stated-Keeps (err (not_found s)) = record { keeps = λ w. refl }
    stated-Keeps (err (already_exists s)) = record { keeps = λ w. refl }
    stated-Keeps (err (other s)) = record { keeps = λ w. refl }
    stated-Keeps (err panicked) = record { keeps = λ w. refl }

    -- Between two directories, a file in another directory than the one that is copied to stays as it is, whatever
    -- fails.
    pub copy-keeps :
        (w : World) → view (copy_files_with_filter os source_dir dest_dir filter w).0 q ≡ view w q
    unfolding copy_files_with_filter
    copy-keeps w = (stated-Keeps (os.stat w source_dir)).keeps w

  module _ (fis : List FileInfo) (was : String → Option Bytes) where
    -- The source can be read, and holds what it held.
    abbrev Ready : World → Type 0
    Ready w =
        (os.open_dir w source_dir ≡ ok tt)
        × (os.read_dir w source_dir ≡ ok fis)
        × ((name : String) → view w (record { dir = source_dir; base = name }) ≡ was name)

    abbrev Copied : Unit {0} → World → Type 0
    Copied u w =
        All (λ (fi : FileInfo). view w (record { dir = dest_dir; base = fi.name }) ≡ was fi.name)
          (chosen filter fis)

    opened_copies :
        (w : World)
        → Ready w
        → (u : Unit {0})
        → (copy_opened os source_dir dest_dir filter (os.open_dir w source_dir) w).1 ≡ ok u
        → Copied u (copy_opened os source_dir dest_dir filter (os.open_dir w source_dir) w).0
    unfolding copy_opened copy_listed
    opened_copies w (o, r, k) u =
        rw (o, r)
          λ h.
            All-map (λ f e. e ∙ k f.name) (chosen filter fis)
              (copy_files_copies os view fs source_dir dest_dir apart filter fis w u h)

    to_copies : (fi : FileInfo) → Ensures Ready (copy_to os source_dir dest_dir filter fi) Copied
    unfolding copy_to not_a_directory
    to_copies fi w p u = elim (Bool-cases fi.is_dir) [
      | inl e ↦ rw e (opened_copies w p u)
      | inr e ↦ rw e (λ h. cc)
    ]

    info-Ready :
        (r : Result FileInfo) → Ensures Ready (dest_info os source_dir dest_dir r) (λ fi. Ready)
    unfolding dest_info
    info-Ready (ok fi) = λ w p a h. p
    info-Ready (err (not_found s)) =
        Ensures-then Ready (λ u. Ready) (λ fi. Ready) (os.mkdir dest_dir)
          (λ _. read (λ w. os.stat w dest_dir))
          (λ w p u h. (
            fs.mkdir-open_dir w dest_dir source_dir apart ∙ p.0,
            fs.mkdir-read_dir w dest_dir source_dir apart ∙ p.1,
            λ name. fs.mkdir-kept w dest_dir (record { dir = source_dir; base = name }) ∙ p.2 name,
          ))
          (λ u w p fi h. p)
    info-Ready (err (already_exists s)) = λ w p a h. p
    info-Ready (err (other s)) = λ w p a h. p
    info-Ready (err panicked) = λ w p a h. p

    from_copies :
        (fi : FileInfo) → Ensures Ready (copy_from os source_dir dest_dir filter fi) Copied
    unfolding copy_from not_a_directory
    from_copies fi w p u = elim (Bool-cases fi.is_dir) [
      | inl e ↦ rw e (
          Ensures-then Ready (λ i. Ready) Copied
            (λ w'. dest_info os source_dir dest_dir (os.stat w' dest_dir) w')
            (copy_to os source_dir dest_dir filter) (λ w'. info-Ready (os.stat w' dest_dir) w')
            to_copies w p u)
      | inr e ↦ rw e (λ h. cc)
    ]

    stated_copies :
        (r : Result FileInfo) → Ensures Ready (copy_stated os source_dir dest_dir filter r) Copied
    unfolding copy_stated
    stated_copies (ok fi) = from_copies fi
    stated_copies (err (not_found s)) = λ w p u h. cc
    stated_copies (err (already_exists s)) = λ w p u h. cc
    stated_copies (err (other s)) = λ w p u h. cc
    stated_copies (err panicked) = λ w p u h. cc

  -- A copy from one directory to another that returns without an error, of a source that could be opened and listed,
  -- leaves under each chosen name in the directory that is copied to what the source held under it.
  pub copy_copies :
      (fis : List FileInfo) (w : World) (u : Unit {0})
      → os.open_dir w source_dir ≡ ok tt
      → os.read_dir w source_dir ≡ ok fis
      → (copy_files_with_filter os source_dir dest_dir filter w).1 ≡ ok u
      → All
          (λ (fi : FileInfo).
            view
              (copy_files_with_filter os source_dir dest_dir filter w).0
              (record { dir = dest_dir; base = fi.name })
            ≡ view w (record { dir = source_dir; base = fi.name }))
          (chosen filter fis)
  unfolding copy_files_with_filter
  copy_copies fis w u o r h =
      stated_copies fis (λ name. view w (record { dir = source_dir; base = name }))
        (os.stat w source_dir) w (o, r, λ name. refl) u h
