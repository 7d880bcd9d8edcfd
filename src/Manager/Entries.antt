-- ===== src/Manager/Entries.antt =====
-- embedded-sdmmc/src/volume_mgr.rs: directories are listed and changed by the volume manager.
use embedded_sdmmc_rs.Common.{ℕ, [], ◌∷◌, Option, none, some}
use embedded_sdmmc_rs.Common.{◌==◌, ◌||◌, not, add32, get_elem?, ltb, if◌then◌else◌, length}
use embedded_sdmmc_rs.Common.Action
use embedded_sdmmc_rs.Common.Action.{
  Action, Result, ok, err, panic, no_fuel, Error, FilenameError, filename_error, bad_handle,
  too_many_open_dirs, opened_file_as_dir, dir_already_open, delete_non_empty_dir, file_already_open,
  dir_already_exists, file_already_exists, guard, pure, raise, lift, gets, modify, match_result,
  ◌>>=◌, ◌>>◌,
}
use embedded_sdmmc_rs.Block.{BlockDevice}
use embedded_sdmmc_rs.Filesystem.Cluster.{ClusterId}
use embedded_sdmmc_rs.Filesystem.Attributes.{
  create_from_fat, directory, volume, is_directory, is_lfn,
}
use embedded_sdmmc_rs.Filesystem.Timestamp.{Timestamp}
use embedded_sdmmc_rs.Filesystem.Filename.{this_dir, parent_dir}
use embedded_sdmmc_rs.Filesystem.LfnBuffer.{LfnBuffer}
use embedded_sdmmc_rs.Filesystem.DirEntry.{DirEntry}
use embedded_sdmmc_rs.Fat.Volume.{FatVolume}
use embedded_sdmmc_rs.Fat.OnDisk.{equal_bytes}
use embedded_sdmmc_rs.Fat.Directory.{
  ControlFlow, continue, break, Visit, iterate_dir, find_directory_entry,
}
use embedded_sdmmc_rs.Fat.Directory.Lfn
use embedded_sdmmc_rs.Fat.Directory.Lfn.{LfnVisitor, Reading}
use embedded_sdmmc_rs.Fat.Directory.Change.{delete_directory_entry, make_dir}
use embedded_sdmmc_rs.Manager.{
  Manager, Limits, DirectoryInfo, any, get_volume_by_id, get_dir_by_id, volume_at, generate_id,
  on_volume, with_fat, file_is_open,
}
use embedded_sdmmc_rs.Manager.Dirs.{
  ToShortFileName, named, dir_and_volume, open_root_dir, close_dir,
}
use embedded_sdmmc_rs.Fat.VolumeName.{VolumeName, name, to_volume_label}

module _ {D : Type 0} where
  -- an action of the manager beside the state of a callback
  abbrev pub beside : {S A : Type 0} → Action (Manager D) A → Action (Manager D × S) A
  beside act (m, s) = let (r, m') = act m in (r, (m', s))

  -- a walk with a callback, over the volume at an index
  abbrev pub visit :
      {S A : Type 0} → ℕ → (FatVolume → Action (Visit D S) A) → Action (Manager D × S) A
  visit i act (m, s) = elim (get_elem? m.open_volumes i) [
    | none ↦ (panic, (m, s))
    | some info ↦
        let (r, x) = act info.volume_type (record { cache = m.block_cache; seen = s }) in
        (r, (record m { block_cache = x.cache }, x.seen))
  ]

-- the closure of `iterate_dir`, which hides the fragments of long names
abbrev pub hide_lfn :
    {S : Type 0} → (DirEntry → S → ControlFlow × S) → DirEntry → S → ControlFlow × S
hide_lfn func de s = if is_lfn de.attributes then (continue, s) else func de s

module _ {D S : Type 0} ⦃dev : BlockDevice D⦄ where
  -- `iterate_dir`
  pub iterate_entries : ℕ → (DirEntry → S → ControlFlow × S) → Action (Manager D × S) (Unit {0})
  unfolding get_dir_by_id get_volume_by_id
  iterate_entries raw_dir func = do
    (d, i) ← beside (dir_and_volume raw_dir)
    visit i (λ fat. iterate_dir fat d.cluster (hide_lfn func))

  -- what the walk with long names leaves of its state
  abbrev leave_reading :
      Result (Unit {0}) × Visit D (Reading S)
      → Manager D
      → Result (Unit {0}) × (Manager D × (LfnBuffer × S))
  leave_reading (r, x) m = (r, (record m { block_cache = x.cache }, (x.seen.buffer, x.seen.user)))

  -- `iterate_dir_lfn`: the state has the caller's buffer beside the callback's state
  pub iterate_entries_lfn : ℕ → LfnVisitor S → Action (Manager D × (LfnBuffer × S)) (Unit {0})
  unfolding get_dir_by_id get_volume_by_id
  iterate_entries_lfn raw_dir func = do
    (d, i) ← beside (dir_and_volume raw_dir)
    v ← beside (volume_at i)
    (λ (m, (buffer, s)).
        leave_reading (Lfn.iterate_dir_lfn v.volume_type d.cluster func buffer s m.block_cache) m)

-- the closure of `delete_entry_in_dir`
unfoldable pub count_entry : DirEntry → ℕ → ControlFlow × ℕ
count_entry de count =
    if is_lfn de.attributes || equal_bytes de.name this_dir || equal_bytes de.name parent_dir
    then (continue, count)
    else (continue, add32 count 1)

-- what `make_dir_in_dir` makes of its search for the name
pub check_absent : Result DirEntry → Result (Unit {0})
check_absent (ok entry) =
    if is_directory entry.attributes then err dir_already_exists else err file_already_exists
check_absent (err Action.not_found) = ok tt
check_absent (err e) = err e
check_absent panic = panic
check_absent no_fuel = no_fuel

module _ {D : Type 0} ⦃dev : BlockDevice D⦄ where
  -- the number of entries of a directory that is to be deleted
  abbrev count_entries : ℕ → ClusterId → Action (Manager D) ℕ
  count_entries i cluster m =
      let (r, (m', count)) = visit i (λ fat. iterate_dir fat cluster count_entry) (m, 0) in
      elim r [
        | ok _ ↦ (ok count, m')
        | err e ↦ (err e, m')
        | panic ↦ (panic, m')
        | no_fuel ↦ (no_fuel, m')
      ]

  -- the checks of `delete_entry_in_dir` on the entry that it found
  pub check_deletable : DirectoryInfo → ℕ → DirEntry → Action (Manager D) (Unit {0})
  unfolding count_entry any file_is_open
  check_deletable d i entry =
      if is_directory entry.attributes
      then (do
        dirs ← gets (λ m. m.open_dirs)
        guard (not (any (λ dir_info. dir_info.cluster == entry.cluster) dirs)) dir_already_open
        id ← generate_id
        count ← count_entries i entry.cluster
        guard (count == 0) delete_non_empty_dir)
      else (do
        is_open ← gets (λ m. file_is_open m d.raw_volume entry)
        guard (not is_open) file_already_open)

module _ {D N : Type 0} ⦃dev : BlockDevice D⦄ ⦃conv : ToShortFileName N⦄ where
  -- `delete_entry_in_dir`
  pub delete_entry_in_dir : ℕ → N → Action (Manager D) (Unit {0})
  unfolding get_dir_by_id get_volume_by_id check_deletable
  delete_entry_in_dir raw_dir name = do
    (d, i) ← dir_and_volume raw_dir
    sfn ← lift (named (conv.to_short_filename name))
    entry ← with_fat i (λ fat. find_directory_entry fat d.cluster sfn)
    check_deletable d i entry
    volume_idx ← get_volume_by_id d.raw_volume
    with_fat volume_idx (λ fat. delete_directory_entry fat d.cluster sfn)

  -- `make_dir_in_dir`
  pub make_dir_in_dir : Limits → (ℕ → Timestamp) → ℕ → N → Action (Manager D) (Unit {0})
  unfolding get_dir_by_id get_volume_by_id check_absent
  make_dir_in_dir lim time_source raw_dir name = do
    dirs ← gets (λ m. m.open_dirs)
    guard (ltb (length dirs) lim.max_dirs) too_many_open_dirs
    (d, i) ← dir_and_volume raw_dir
    sfn ← lift (named (conv.to_short_filename name))
    (λ m.
        let (r, m') = with_fat i (λ fat. find_directory_entry fat d.cluster sfn) m in
        lift (check_absent r) m')
    on_volume i (make_dir time_source d.cluster sfn (create_from_fat directory))

-- the closure of `get_root_volume_label`
unfoldable pub find_label : DirEntry → Option VolumeName → ControlFlow × Option VolumeName
find_label de (some label) = (continue, some label)
find_label de none =
    if de.attributes == create_from_fat volume
    then (break, some (to_volume_label de.name))
    else (continue, none)

module _ {D : Type 0} ⦃dev : BlockDevice D⦄ (lim : Limits) where
  -- The label in the root directory. The directory is closed when its handle is dropped, after an
  -- error too, and an error of that is ignored.
  search_root : ℕ → Action (Manager D) (Option VolumeName)
  unfolding iterate_entries find_label close_dir
  search_root root m =
      let (r, (m', label)) = iterate_entries root find_label (m, none) in
      (
        elim r [ ok _ ↦ ok label | err e ↦ err e | panic ↦ panic | no_fuel ↦ no_fuel ],
        (close_dir root m').1,
      )

  -- `get_root_volume_label`
  pub get_root_volume_label : ℕ → Action (Manager D) (Option VolumeName)
  unfolding get_volume_by_id open_root_dir search_root name
  get_root_volume_label raw_volume = do
    i ← get_volume_by_id raw_volume
    v ← volume_at i
    elim (name v.volume_type.name) [
      | _ ∷ _ ↦ pure (some v.volume_type.name)
      | [] ↦ open_root_dir lim raw_volume >>= search_root
    ]
