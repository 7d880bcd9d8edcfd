-- ===== src/Manager/Files/Opening.antt =====
-- The outcome of opening a file, by the part of the code that is reached.
use embedded_sdmmc_rs.Common.{
  ℕ, ◌≡◌, refl, ap, subst, sym, ◌∙◌, inl, inr, Bool, true, false, List, [], ◌∷◌, ◌++◌, Option, none,
  some,
}
use embedded_sdmmc_rs.Common.{ltb, not, ◌&&◌, if◌then◌else◌, Bool-cases}
use embedded_sdmmc_rs.Common.Action
use embedded_sdmmc_rs.Common.Action.{
  Action, Result, ok, err, panic, no_fuel, Error, guard, gets, pure, ◌>>=◌, ◌>>◌,
  opened_dir_as_file, file_already_open,
}
use embedded_sdmmc_rs.Block.{BlockDevice}
use embedded_sdmmc_rs.Filesystem.Handles.{generate}
use embedded_sdmmc_rs.Filesystem.Attributes.{is_directory, is_read_only, create_from_fat}
use embedded_sdmmc_rs.Filesystem.Timestamp.{Timestamp}
use embedded_sdmmc_rs.Filesystem.Filename.{ShortFileName}
use embedded_sdmmc_rs.Filesystem.DirEntry.{DirEntry}
use embedded_sdmmc_rs.Filesystem.Files.{
  FileInfo, Mode, read_write_append, read_write_truncate, read_write_create,
  read_write_create_or_truncate, read_write_create_or_append, seek_from_end, update_length,
  solve_mode_variant,
}
use embedded_sdmmc_rs.Fat.Alloc.{truncate_cluster_chain}
use embedded_sdmmc_rs.Fat.Directory.Change.{write_entry_to_disk, write_new_directory_entry}
use embedded_sdmmc_rs.Manager.{
  Manager, DirectoryInfo, get_volume_by_id, any, is_entry, file_is_open, on_volume, with_fat,
}
use embedded_sdmmc_rs.Manager.Files.{
  opened, emptied, new_file, push_file, open_checked, open_existing, open_created, open_new,
  open_in_mode, is_mode_read_only,
}
use embedded_sdmmc_rs.Manager.Files.Opened.{
  Outcome, Outcome-bind, Outcome-guard, Outcome-keeps, HasOpened, IsNew, on_volume-keeps,
  with_fat-keeps,
}

-- What is the same of a file however it is opened.
abbrev IsSameFile : FileInfo → FileInfo → Type 0
IsSameFile f g =
    (g.raw_file ≡ f.raw_file)
    × (g.raw_volume ≡ f.raw_volume)
    × (g.entry.entry_block ≡ f.entry.entry_block)
    × (g.entry.entry_offset ≡ f.entry.entry_offset)

seek_from_end-IsSameFile : (n : ℕ) (f : FileInfo) → IsSameFile f (seek_from_end n f).1
unfolding seek_from_end
seek_from_end-IsSameFile n f = elim (Bool-cases (ltb f.entry.size n)) [
  | inl far ↦ rw (far, if◌then◌else◌) (refl, refl, refl, refl)
  | inr near ↦ rw (near, if◌then◌else◌) (refl, refl, refl, refl)
]

IsNew-same : (fs : List FileInfo) (f g : FileInfo) → IsSameFile f g → IsNew fs f → IsNew fs g
unfolding any is_entry
IsNew-same fs f g same new = rw (same.1, same.2, same.3) new

not-true : (b : Bool) → not b ≡ true → b ≡ false
not-true true e = cc
not-true false e = refl

module _ {D : Type 0} ⦃dev : BlockDevice D⦄ (time_source : ℕ → Timestamp)
    (Made : FileInfo → Type 0) where
  -- The file that `opened` returns is the same one, and no file is added yet.
  opened-Outcome :
      (i : ℕ) (mode : Mode) (f : FileInfo) (s : Manager D) (fs : List FileInfo)
      → s.open_files ≡ fs
      → Outcome (λ g m. IsSameFile f g × (m.open_files ≡ fs)) fs (opened time_source i mode f s)
  unfolding opened emptied update_length
  opened-Outcome i Mode.read_only f s fs e = ((refl, refl, refl, refl), e)
  opened-Outcome i read_write_append f s fs e = (seek_from_end-IsSameFile 0 f, e)
  opened-Outcome i read_write_truncate f s fs e =
      let h = emptied (time_source 0) f in
      let P = λ (g : FileInfo) (m : Manager D). IsSameFile f g × (m.open_files ≡ fs) in
      let write = with_fat i (λ fat. write_entry_to_disk fat h.entry) in
      Outcome-bind P (on_volume i (truncate_cluster_chain f.entry.cluster)) (λ _. write >> pure h) s
        fs (on_volume-keeps i (truncate_cluster_chain f.entry.cluster) s ∙ e)
        (λ a s1 q1 e1.
          Outcome-bind P write (λ _. pure h) s1 fs
            (with_fat-keeps i (λ fat. write_entry_to_disk fat h.entry) s1 ∙ e1)
            (λ a s2 q2 e2. ((refl, refl, refl, refl), e2)))
  opened-Outcome i read_write_create f s fs e = e
  opened-Outcome i read_write_create_or_truncate f s fs e = e
  opened-Outcome i read_write_create_or_append f s fs e = e

  open_checked-Opened :
      (volume_id i : ℕ) (mode : Mode) (entry : DirEntry) (s : Manager D) (fs : List FileInfo)
      → s.open_files ≡ fs
      → any (is_entry volume_id entry) fs ≡ false
      → Outcome (HasOpened Made fs) fs (open_checked time_source volume_id i mode entry s)
  unfolding open_checked new_file
  open_checked-Opened volume_id i mode entry s fs e new =
      let id = (generate s.id_generator).0 in
      let s1 : Manager D = record s { id_generator = (generate s.id_generator).1 } in
      let f = new_file id volume_id mode entry in
      let P = λ (g : FileInfo) (m : Manager D). IsSameFile f g × (m.open_files ≡ fs) in
      let out = opened-Outcome i mode f s1 fs e in
      Outcome-bind (HasOpened Made fs) (opened time_source i mode f)
        (λ file. push_file file >> pure id) s1 fs
        (Outcome-keeps P fs (opened time_source i mode f s1) (λ g m h. h.1) out)
        (λ g s' q e'.
          let same = (subst (Outcome P fs) q out).0 in
          (
            g,
            ap (λ (t : List FileInfo). t ++ (g ∷ [])) e',
            same.0,
            inl (IsNew-same fs f g same new),
          ))

  pub open_existing-Opened :
      (volume_id i : ℕ) (mode : Mode) (entry : DirEntry) (s : Manager D) (fs : List FileInfo)
      → s.open_files ≡ fs
      → Outcome (HasOpened Made fs) fs (open_existing time_source volume_id i mode entry s)
  unfolding open_existing file_is_open
  open_existing-Opened volume_id i mode entry s fs e =
      let P = HasOpened Made fs in
      let writable = not (is_read_only entry.attributes && not (is_mode_read_only mode)) in
      let is_file = not (is_directory entry.attributes) in
      let checked = open_checked time_source volume_id i (solve_mode_variant mode true) entry in
      let third : Action (Manager D) ℕ = gets (λ m. file_is_open m volume_id entry) >>= λ is_open.
      guard (not is_open) file_already_open >> checked in
      let second : Action (Manager D) ℕ = guard is_file opened_dir_as_file >> third in
      Outcome-guard P writable Action.read_only second s fs e (λ _.
        Outcome-guard P is_file opened_dir_as_file third s fs e (λ _.
          Outcome-guard P (not (any (is_entry volume_id entry) s.open_files)) file_already_open
            checked s fs e
            (λ closed. open_checked-Opened volume_id i (solve_mode_variant mode true) entry s fs e (
              ap (any (is_entry volume_id entry)) (sym e)
              ∙ not-true (any (is_entry volume_id entry) s.open_files) closed))))

  open_created-Opened :
      (volume_id : ℕ) (entry : DirEntry) (s : Manager D) (fs : List FileInfo)
      → s.open_files ≡ fs
      → ((f : FileInfo) → f.entry ≡ entry → f.raw_volume ≡ volume_id → Made f)
      → Outcome (HasOpened Made fs) fs (open_created volume_id read_write_create entry s)
  unfolding open_created new_file
  open_created-Opened volume_id entry s fs e made =
      let f = new_file (generate s.id_generator).0 volume_id read_write_create entry in
      (f, ap (λ (t : List FileInfo). t ++ (f ∷ [])) e, refl, inr (made f refl refl))

  -- `Made` holds of the file whose entry the write of a new entry returns, if there was none.
  abbrev pub SaysMade : DirectoryInfo → ShortFileName → Option DirEntry → Manager D → Type 0
  SaysMade d sfn found s =
      (i : ℕ) (f : FileInfo)
      → found ≡ none
      → (get_volume_by_id d.raw_volume s).0 ≡ ok i
      → (on_volume i (write_new_directory_entry time_source d.cluster sfn (create_from_fat 0)) s).0
        ≡ ok f.entry
      → f.raw_volume ≡ d.raw_volume
      → Made f

  open_new-Opened :
      (d : DirectoryInfo) (sfn : ShortFileName) (found : Option DirEntry) (s : Manager D)
      (fs : List FileInfo)
      → s.open_files ≡ fs
      → SaysMade d sfn found s
      → Outcome (HasOpened Made fs) fs (open_new time_source d read_write_create sfn found s)
  unfolding open_new get_volume_by_id
  open_new-Opened d sfn (some entry) s fs e made = e
  open_new-Opened d sfn none s fs e made =
      let P = HasOpened Made fs in
      let new = write_new_directory_entry time_source d.cluster sfn (create_from_fat 0) in
      let write = λ (i : ℕ). on_volume i new in
      Outcome-bind P (get_volume_by_id d.raw_volume)
        (λ i. write i >>= open_created d.raw_volume read_write_create) s fs e
        (λ i s1 q e1.
          Outcome-bind P (write i) (open_created d.raw_volume read_write_create) s1 fs
            (on_volume-keeps i new s1 ∙ e1)
            (λ entry s2 q2 e2. open_created-Opened d.raw_volume entry s2 fs e2 (λ f is_entry there.
              let same : s ≡ s1 = ap (λ p. p.1) q in
              made i f refl (ap (λ p. p.0) q)
                (ap (λ s. (write i s).0) same ∙ ap (λ p. p.0) q2 ∙ ap ok (sym is_entry)) there)))

  pub open_in_mode-Opened :
      (d : DirectoryInfo) (i : ℕ) (mode : Mode) (sfn : ShortFileName) (found : Option DirEntry)
      (s : Manager D) (fs : List FileInfo)
      → s.open_files ≡ fs
      → SaysMade d sfn found s
      → Outcome (HasOpened Made fs) fs (open_in_mode time_source d i mode sfn found s)
  unfolding open_in_mode
  open_in_mode-Opened d i read_write_create sfn found s fs e made =
      open_new-Opened d sfn found s fs e made
  open_in_mode-Opened d i Mode.read_only sfn (some x) s fs e made =
      open_existing-Opened d.raw_volume i Mode.read_only x s fs e
  open_in_mode-Opened d i read_write_append sfn (some x) s fs e made =
      open_existing-Opened d.raw_volume i read_write_append x s fs e
  open_in_mode-Opened d i read_write_truncate sfn (some x) s fs e made =
      open_existing-Opened d.raw_volume i read_write_truncate x s fs e
  open_in_mode-Opened d i read_write_create_or_truncate sfn (some x) s fs e made =
      open_existing-Opened d.raw_volume i read_write_create_or_truncate x s fs e
  open_in_mode-Opened d i read_write_create_or_append sfn (some x) s fs e made =
      open_existing-Opened d.raw_volume i read_write_create_or_append x s fs e
  open_in_mode-Opened d i Mode.read_only sfn none s fs e made = e
  open_in_mode-Opened d i read_write_append sfn none s fs e made = e
  open_in_mode-Opened d i read_write_truncate sfn none s fs e made = e
  open_in_mode-Opened d i read_write_create_or_truncate sfn none s fs e made = e
  open_in_mode-Opened d i read_write_create_or_append sfn none s fs e made = e
