-- ===== src/Manager/Write/Steps.antt =====
-- The steps of `write` around its loop, and the bytes of the file as lists.
use embedded_sdmmc_rs.Common.{
  ℕ, zero, suc, ◌+◌, ◌-◌, ◌≤◌, ◌<◌, min, ◌≡◌, refl, ap, ap₂, ◌∙◌, arith, true, false, List, [], ◌∷◌,
  some, inl, inr,
}
use embedded_sdmmc_rs.Common.{
  ltb, le→ltb, if◌then◌else◌, not, ◌==◌, length, take, get_elem?, get_or, set, Bool-cases,
}
use embedded_sdmmc_rs.Common.Action.{Action, Result, ok, pure, guard, ◌>>=◌, ◌>>◌, >>=-ok}
use embedded_sdmmc_rs.Common.Action
use embedded_sdmmc_rs.Block.{BlockDevice}
use embedded_sdmmc_rs.Cache.View.{Blocks}
use embedded_sdmmc_rs.Filesystem.Cluster.{ClusterId}
use embedded_sdmmc_rs.Filesystem.Attributes.{set_archive}
use embedded_sdmmc_rs.Filesystem.Timestamp.{Timestamp}
use embedded_sdmmc_rs.Filesystem.Files.{FileInfo}
use embedded_sdmmc_rs.Fat.Volume.{FatVolume, reserved_entries}
use embedded_sdmmc_rs.Manager.{
  Manager, VolumeInfo, at_index, put_file, or_bad_handle, position, file_at, get_file_by_id,
  get_volume_by_id,
}
use embedded_sdmmc_rs.Manager.Files.{is_mode_read_only}
use embedded_sdmmc_rs.Manager.Transfer.Bytes.{file_byte, file_bytes}
use embedded_sdmmc_rs.Manager.Transfer.Read.{get_elem?-set}
use embedded_sdmmc_rs.Manager.Write.{
  write_loop, write_file, give_cluster, rewind_file, change_file, max_file_size,
}
use embedded_sdmmc_rs.Manager.Write.Splice.{
  byte_after, byte_after-in, byte_after-before, byte_after-past,
}

module _ (v : FatVolume) (c : ClusterId) (ns : List ClusterId) (d e : Blocks) (o : ℕ)
    (rest : List ℕ) (limit : ℕ)
    (at : (p : ℕ)
      → p < limit
      → file_byte v c ns e p ≡ byte_after (file_byte v c ns d) o rest p) where
  -- the bytes that were written
  pub bytes-written :
      (n k : ℕ) (xs : List ℕ)
      → o + k + n ≤ limit
      → k + n ≡ length rest
      → n ≡ length xs
      → ((i : ℕ) → get_or rest (k + i) 0 ≡ get_or xs i 0)
      → file_bytes v c ns e (o + k) n ≡ xs
  bytes-written zero k [] fits total len same = refl
  bytes-written zero k (x ∷ xs) fits total len same = absurd (omega arith)
  bytes-written (suc n) k [] fits total len same = absurd (omega arith)
  bytes-written (suc n) k (x ∷ xs) fits total len same =
      ap₂ (λ (y : ℕ) (ys : List ℕ). y ∷ ys)
        (at (o + k) (omega arith)
          ∙ byte_after-in (file_byte v c ns d) o rest (o + k) (omega arith) (omega arith)
          ∙ ap (λ i. get_or rest i 0) (omega arith)
          ∙ same 0)
        (ap (λ p. file_bytes v c ns e p n) (omega arith)
          ∙ bytes-written n (k + 1) xs (omega arith) (omega arith) (omega arith)
              (λ i. ap (λ j. get_or rest j 0) (shift k i) ∙ same (suc i)))
    where
      shift : (k i : ℕ) → k + 1 + i ≡ k + suc i
      shift k i = omega arith

  -- the bytes before and past them
  pub bytes-before :
      (n p : ℕ) → p + n ≤ o → o ≤ limit → file_bytes v c ns e p n ≡ file_bytes v c ns d p n
  bytes-before zero p le fits = refl
  bytes-before (suc n) p le fits =
      ap₂ (λ (y : ℕ) (ys : List ℕ). y ∷ ys)
        (at p (omega arith) ∙ byte_after-before (file_byte v c ns d) o rest p (omega arith))
        (bytes-before n (p + 1) (omega arith) fits)

  pub bytes-past :
      (n p : ℕ)
      → o + length rest ≤ p
      → p + n ≤ limit
      → file_bytes v c ns e p n ≡ file_bytes v c ns d p n
  bytes-past zero p le fits = refl
  bytes-past (suc n) p le fits =
      ap₂ (λ (y : ℕ) (ys : List ℕ). y ∷ ys)
        (at p (omega arith) ∙ byte_after-past (file_byte v c ns d) o rest p le)
        (bytes-past n (p + 1) (omega arith) (omega arith))

pub zero_add : (i : ℕ) → 0 + i ≡ i
zero_add i = omega arith

take-all : (xs : List ℕ) → take (length xs) xs ≡ xs
take-all [] = refl
take-all (x ∷ xs) = ap (λ (t : List ℕ). x ∷ t) (take-all xs)

module _ {D : Type 0} ⦃dev : BlockDevice D⦄ (fi : ℕ) where
  -- what `change_file` leaves
  abbrev pub changed : (FileInfo → FileInfo) → FileInfo → Manager D → Manager D
  changed g f s = record s { open_files = set s.open_files fi (g f) }

  change_file-of :
      (g : FileInfo → FileInfo) (s : Manager D) (f : FileInfo)
      → get_elem? s.open_files fi ≡ some f
      → change_file fi g s ≡ (ok tt, changed g f s)
  change_file-of g s f file =
      >>=-ok (file_at fi) (λ f. put_file fi (g f)) s f s (ap (λ o. (at_index o, s)) file)

  give_cluster-none :
      (vi : ℕ) (s : Manager D) (f : FileInfo)
      → get_elem? s.open_files fi ≡ some f
      → reserved_entries ≤ f.entry.cluster
      → give_cluster fi vi s ≡ (ok tt, s)
  unfolding give_cluster
  give_cluster-none vi s f file has_one =
      rw (file, at_index, ◌>>=◌) (rw (le→ltb f.entry.cluster 2 has_one, if◌then◌else◌) refl)

  get_volume_by_id-same :
      (id vi : ℕ) (s t : Manager D)
      → get_volume_by_id id s ≡ (ok vi, s)
      → t.open_volumes ≡ s.open_volumes
      → get_volume_by_id id t ≡ (ok vi, t)
  unfolding get_volume_by_id
  get_volume_by_id-same id vi s t found same =
      ap (λ vs. (or_bad_handle (position (λ (v : VolumeInfo). v.raw_volume == id) vs), t)) same
      ∙ ap (λ (o : Result ℕ × Manager D). (o.0, t)) found

-- the end of `write`: the archive flag and the time of change
abbrev pub archived : Timestamp → FileInfo → FileInfo
archived now f = record f {
  entry = record f.entry { attributes = set_archive f.entry.attributes true; mtime = now };
}

abbrev pub made_dirty : FileInfo → FileInfo
made_dirty f = record f { dirty = true }

pub rewind_file-offset : (f : FileInfo) → (rewind_file f).current_offset ≡ f.current_offset
unfolding rewind_file
rewind_file-offset f = elim (Bool-cases (ltb f.current_cluster f.entry.cluster)) [
  | inl back ↦ rw (back, if◌then◌else◌) refl
  | inr stay ↦ rw (stay, if◌then◌else◌) refl
]

pub rewind_file-size : (f : FileInfo) → (rewind_file f).entry.size ≡ f.entry.size
unfolding rewind_file
rewind_file-size f = elim (Bool-cases (ltb f.current_cluster f.entry.cluster)) [
  | inl back ↦ rw (back, if◌then◌else◌) refl
  | inr stay ↦ rw (stay, if◌then◌else◌) refl
]

module _ {D : Type 0} ⦃dev : BlockDevice D⦄ (time_source : ℕ → Timestamp) (fi vi : ℕ)
    (buffer : List ℕ) where
  -- `write` for a file that has a cluster, in steps that succeed
  pub write_file-of :
      (raw : ℕ) (s s1 : Manager D) (f after : FileInfo)
      → get_file_by_id raw s ≡ (ok fi, s)
      → get_elem? s.open_files fi ≡ some f
      → get_volume_by_id f.raw_volume s ≡ (ok vi, s)
      → is_mode_read_only f.mode ≡ false
      → reserved_entries ≤ f.entry.cluster
      → f.current_offset + length buffer ≤ max_file_size
      → write_loop
          (suc (length buffer))
          fi
          vi
          buffer
          (changed fi rewind_file (made_dirty f) (changed fi made_dirty f s))
        ≡ (ok tt, s1)
      → get_elem? s1.open_files fi ≡ some after
      → write_file time_source raw buffer s
        ≡ (ok tt, changed fi (archived (time_source 0)) after s1)
  unfolding write_file
  write_file-of raw s s1 f after found file volume writable has_one fits looped left =
      let counted : min (length buffer) (max_file_size - f.current_offset) ≡ length buffer =
        omega arith in
      let fin = λ (i : ℕ). change_file i (archived (time_source 0)) in
      let lp = λ (i j : ℕ) (g : FileInfo).
        write_loop (suc (length buffer)) i j
          (take (min (length buffer) (max_file_size - g.current_offset)) buffer)
        >> fin i in
      let back = λ (i j : ℕ). change_file i rewind_file >> (file_at i >>= lp i j) in
      let again = λ (i : ℕ) (f : FileInfo). get_volume_by_id f.raw_volume >>= back i in
      let give = λ (i : ℕ) (f : FileInfo) (j : ℕ). give_cluster i j >> again i f in
      let dirty = λ (i : ℕ) (f : FileInfo) (j : ℕ). change_file i made_dirty >> give i f j in
      let guarded = λ (i : ℕ) (f : FileInfo) (j : ℕ).
        guard (not (is_mode_read_only f.mode)) Action.read_only >> dirty i f j in
      let vol = λ (i : ℕ) (f : FileInfo). get_volume_by_id f.raw_volume >>= guarded i f in
      let start = λ (i : ℕ). file_at i >>= vol i in
      let t1 = changed fi made_dirty f s in
      let t2 = changed fi rewind_file (made_dirty f) t1 in
      let file1 : get_elem? t1.open_files fi ≡ some (made_dirty f) =
        get_elem?-set s.open_files fi f (made_dirty f) file in
      let f2 = rewind_file (made_dirty f) in
      >>=-ok (get_file_by_id raw) start s fi s found
      ∙ >>=-ok (file_at fi) (vol fi) s f s (ap (λ o. (at_index o, s)) file)
      ∙ >>=-ok (get_volume_by_id f.raw_volume) (guarded fi f) s vi s volume
      ∙ ap (λ b. (guard (not b) Action.read_only >> dirty fi f vi) s) writable
      ∙ >>=-ok (change_file fi made_dirty) (λ _. give fi f vi) s tt t1
          (change_file-of fi made_dirty s f file)
      ∙ >>=-ok (give_cluster fi vi) (λ _. again fi f) t1 tt t1
          (give_cluster-none fi vi t1 (made_dirty f) file1 has_one)
      ∙ >>=-ok (get_volume_by_id f.raw_volume) (back fi) t1 vi t1
          (get_volume_by_id-same fi f.raw_volume vi s t1 volume refl)
      ∙ >>=-ok (change_file fi rewind_file) (λ _. file_at fi >>= lp fi vi) t1 tt t2
          (change_file-of fi rewind_file t1 (made_dirty f) file1)
      ∙ >>=-ok (file_at fi) (lp fi vi) t2 f2 t2
          (ap (λ o. (at_index o, t2)) (get_elem?-set t1.open_files fi (made_dirty f) f2 file1))
      ∙ ap (λ (xs : List ℕ). (write_loop (suc (length buffer)) fi vi xs >> fin fi) t2)
          (ap (λ x. take (min (length buffer) (max_file_size - x)) buffer)
              (rewind_file-offset (made_dirty f))
            ∙ ap (λ x. take x buffer) counted
            ∙ take-all buffer)
      ∙ >>=-ok (write_loop (suc (length buffer)) fi vi buffer) (λ _. fin fi) t2 tt s1 looped
      ∙ change_file-of fi (archived (time_source 0)) s1 after left
