-- ===== src/Manager/Files/Closing.antt =====
-- What closing a file does to the table of open files, however the flush before it ends.
use mathlib.Core.List.{Perm}
use embedded_sdmmc_rs.Common.{ℕ, ◌≡◌, refl, subst, ap, sym, ◌∙◌, inl, inr, List, ◌∷◌, some}
use embedded_sdmmc_rs.Common.{◌==◌, if◌then◌else◌, ==_iff, swap_remove, Bool-cases}
use embedded_sdmmc_rs.Common.Removal.{swap_remove-perm}
use embedded_sdmmc_rs.Common.Action.{
  Action, Result, ok, err, panic, no_fuel, raise, modify, ◌>>=◌, ◌>>◌, >>=-ok,
}
use embedded_sdmmc_rs.Block.{BlockDevice}
use embedded_sdmmc_rs.Filesystem.Files.{FileInfo}
use embedded_sdmmc_rs.Fat.Directory.Change.{write_entry_to_disk}
use embedded_sdmmc_rs.Fat.Mount.{update_info_sector}
use embedded_sdmmc_rs.Manager.{
  Manager, position, get_file_by_id, get_volume_by_id, file_at, with_fat, or_bad_handle,
}
use embedded_sdmmc_rs.Manager.Dirs.Closing.{position-some}
use embedded_sdmmc_rs.Manager.Files.{
  flush_file, close_file, write_metadata, unless_panicked, check_cluster, flush_if_dirty,
}
use embedded_sdmmc_rs.Manager.Files.Opened.{Outcome, Outcome-bind, Outcome-keeps, with_fat-keeps}

-- the call came back
abbrev pub HasReturned : Result (Unit {0}) → Type 0
HasReturned (ok _) = Unit
HasReturned (err _) = Unit
HasReturned panic = ⊥
HasReturned no_fuel = ⊥

module _ {D : Type 0} ⦃dev : BlockDevice D⦄ where
  abbrev Same : List FileInfo → {A : Type 0} → A → Manager D → Type 0
  Same fs a m = m.open_files ≡ fs

  Outcome-Same :
      {A : Type 0} (fs : List FileInfo) (out : Result A × Manager D)
      → out.1.open_files ≡ fs
      → Outcome (Same fs) fs out
  Outcome-Same fs (ok a, m) h = h
  Outcome-Same fs (err e, m) h = h
  Outcome-Same fs (panic, m) h = h
  Outcome-Same fs (no_fuel, m) h = h

  write_metadata-Same :
      (f : FileInfo) (s : Manager D) (fs : List FileInfo)
      → s.open_files ≡ fs
      → Outcome (Same fs) fs (write_metadata f s)
  unfolding write_metadata get_volume_by_id
  write_metadata-Same f s fs e =
      let last = λ (i : ℕ). with_fat i (λ fat. write_entry_to_disk fat f.entry) in
      let check = λ (i : ℕ). check_cluster f >> last i in
      Outcome-bind (Same fs) (get_volume_by_id f.raw_volume)
        (λ i. with_fat i update_info_sector >> check i) s fs e
        (λ i s1 q1 e1.
          Outcome-bind (Same fs) (with_fat i update_info_sector) (λ _. check i) s1 fs
            (with_fat-keeps i update_info_sector s1 ∙ e1)
            (λ u s2 q2 e2.
              Outcome-bind (Same fs) (check_cluster f) (λ _. last i) s2 fs e2
                (λ u s3 q3 e3.
                  Outcome-Same fs (last i s3)
                    (with_fat-keeps i (λ fat. write_entry_to_disk fat f.entry) s3 ∙ e3))))

  flush_if_dirty-Same :
      (f : FileInfo) (s : Manager D) (fs : List FileInfo)
      → s.open_files ≡ fs
      → Outcome (Same fs) fs (flush_if_dirty f s)
  unfolding write_metadata
  flush_if_dirty-Same f s fs e = elim (Bool-cases f.dirty) [
    | inl yes_dirty ↦ rw (yes_dirty, if◌then◌else◌) (write_metadata-Same f s fs e)
    | inr clean ↦ rw (clean, if◌then◌else◌) e
  ]

  -- A flush opens and closes no file.
  pub flush_file-keeps : (raw : ℕ) (s : Manager D) → (flush_file raw s).1.open_files ≡ s.open_files
  unfolding flush_file get_file_by_id
  flush_file-keeps raw s =
      let fs = s.open_files in
      Outcome-keeps (Same fs) fs (flush_file raw s) (λ u m h. h)
        (Outcome-bind (Same fs) (get_file_by_id raw) (λ i. file_at i >>= flush_if_dirty) s fs refl
          (λ i s1 q1 e1.
            Outcome-bind (Same fs) (file_at i) flush_if_dirty s1 fs e1
              (λ f s2 q2 e2. flush_if_dirty-Same f s2 fs e2)))

  abbrev removal : ℕ → Action (Manager D) (Unit {0})
  removal i = modify (λ m. record m { open_files = swap_remove m.open_files i })

  removed :
      (raw i : ℕ) (s : Manager D)
      → position (λ f. f.raw_file == raw) s.open_files ≡ some i
      → (get_file_by_id raw >>= removal) s
        ≡ (ok tt, record s { open_files = swap_remove s.open_files i })
  unfolding get_file_by_id
  removed raw i s found = rw (found, or_bad_handle, ◌>>=◌) refl

  -- the state after the flush, without the file
  abbrev without : ℕ → Manager D → Manager D
  without i m = record m { open_files = swap_remove m.open_files i }

  close_file-returned :
      (raw i : ℕ) (s s1 : Manager D) (r : Result (Unit {0}))
      → flush_file raw s ≡ (r, s1)
      → position (λ f. f.raw_file == raw) s1.open_files ≡ some i
      → HasReturned r
      → close_file raw s ≡ (r, without i s1)
  unfolding close_file
  close_file-returned raw i s s1 r flushed found returned =
      ap
        (λ (out : Result (Unit {0}) × Manager D).
          unless_panicked out.0 (get_file_by_id raw >>= removal) out.1)
        flushed
      ∙ go r returned
    where
      go :
          (r : Result (Unit {0}))
          → HasReturned r
          → unless_panicked r (get_file_by_id raw >>= removal) s1 ≡ (r, without i s1)
      go (ok u) h = removed raw i s1 found
      go (err e) h =
          >>=-ok (get_file_by_id raw >>= removal) (λ _. raise e) s1 tt (without i s1)
            (removed raw i s1 found)
      go panic h = elim h [ ]
      go no_fuel h = elim h [ ]

  -- However the flush of an open file came back, closing the file returns what the flush returned,
  -- and takes the file out of the table; the others are there, perhaps in another order.
  pub close_file-flushed :
      (raw i : ℕ) (s : Manager D)
      → position (λ f. f.raw_file == raw) s.open_files ≡ some i
      → HasReturned (flush_file raw s).0
      → ((close_file raw s).0 ≡ (flush_file raw s).0)
        × (f : FileInfo) × (f.raw_file ≡ raw)
        × Perm s.open_files (f ∷ (close_file raw s).1.open_files)
  close_file-flushed raw i s found returned =
      let s1 = (flush_file raw s).1 in
      let fs = flush_file-keeps raw s in
      let f = position-some (λ (f : FileInfo). f.raw_file == raw) s.open_files i found in
      let closed =
        close_file-returned raw i s s1 (flush_file raw s).0 refl
          (ap (position (λ (f : FileInfo). f.raw_file == raw)) fs ∙ found) returned in
      (
        ap (λ out. out.0) closed,
        f.0,
        (==_iff f.0.raw_file raw).0 f.2,
        subst (λ (t : List FileInfo). Perm s.open_files (f.0 ∷ t))
            (sym (
              ap (λ (out : Result (Unit {0}) × Manager D). out.1.open_files) closed
              ∙ ap (λ (t : List FileInfo). swap_remove t i) fs))
            (swap_remove-perm s.open_files i f.0 f.1),
      )
