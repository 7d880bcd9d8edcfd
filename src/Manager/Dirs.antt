-- ===== src/Manager/Dirs.antt =====
-- embedded-sdmmc/src/volume_mgr.rs: directories are opened, closed and searched. What names a file is an instance of `ToShortFileName`.
pub mod Closing
use embedded_sdmmc_rs.Common.{ℕ, ◌+◌, Bool, true, false, List, [], ◌∷◌, ◌++◌, Option, none, some}
use embedded_sdmmc_rs.Common.{
  ◌⊎◌, inl, inr, ◌==◌, ◌||◌, not, add32, get_elem?, ltb, if◌then◌else◌, length, swap_remove,
}
use embedded_sdmmc_rs.Common.Action
use embedded_sdmmc_rs.Common.Action.{
  Action, Result, ok, err, panic, no_fuel, Error, FilenameError, filename_error, bad_handle,
  too_many_open_dirs, opened_file_as_dir, dir_already_open, delete_non_empty_dir, file_already_open,
  dir_already_exists, file_already_exists, guard, pure, raise, lift, gets, modify, match_result,
  ◌>>=◌, ◌>>◌,
}
use embedded_sdmmc_rs.Block.{BlockDevice}
use embedded_sdmmc_rs.Cache.{BlockCache}
use embedded_sdmmc_rs.Filesystem.Cluster.{ClusterId, root_dir}
use embedded_sdmmc_rs.Filesystem.Attributes.{
  create_from_fat, directory, volume, is_directory, is_lfn,
}
use embedded_sdmmc_rs.Filesystem.Timestamp.{Timestamp}
use embedded_sdmmc_rs.Filesystem.Filename.{ShortFileName, this_dir, parent_dir, create_from_str}
use embedded_sdmmc_rs.Filesystem.LfnBuffer.{LfnBuffer}
use embedded_sdmmc_rs.Filesystem.DirEntry.{DirEntry}
use embedded_sdmmc_rs.Fat.Volume.{FatVolume}
use embedded_sdmmc_rs.Fat.OnDisk.{equal_bytes}
use embedded_sdmmc_rs.Fat.Directory.{
  ControlFlow, continue, break, Visit, iterate_dir, find_directory_entry,
}
use embedded_sdmmc_rs.Fat.Directory
use embedded_sdmmc_rs.Fat.Directory.Lfn
use embedded_sdmmc_rs.Fat.Directory.Lfn.{LfnVisitor, Reading}
use embedded_sdmmc_rs.Fat.Directory.Change.{delete_directory_entry, make_dir}
use embedded_sdmmc_rs.Manager.{
  Manager, Limits, DirectoryInfo, any, position, get_volume_by_id, get_dir_by_id, volume_at, dir_at,
  generate_id, on_volume, with_fat, file_is_open,
}

-- `ToShortFileName`, with its implementations for short names and for `&str`
pub record ToShortFileName (N : Type 0) : Type 0 where
  pub to_short_filename : N → FilenameError ⊎ ShortFileName

instance abbrev pub short_name : ToShortFileName ShortFileName
short_name = record { to_short_filename = λ name. inr name }

pub record Str : Type 0 where
  pub chars : List ℕ

instance pub str_name : ToShortFileName Str
str_name = record { to_short_filename = λ name. create_from_str name.chars }

-- `map_err(Error::FilenameError)?`
abbrev pub named : FilenameError ⊎ ShortFileName → Result ShortFileName
named (inl e) = err (filename_error e)
named (inr name) = ok name

module _ {D : Type 0} where
  -- the index of a directory and that of its volume
  abbrev pub dir_and_volume : ℕ → Action (Manager D) (DirectoryInfo × ℕ)
  dir_and_volume raw = do
    i ← get_dir_by_id raw
    d ← dir_at i
    volume_idx ← get_volume_by_id d.raw_volume
    pure (d, volume_idx)

  -- `open_dirs.push(info).map_err(|_| Error::TooManyOpenDirs)`
  abbrev pub push_dir : Limits → DirectoryInfo → Action (Manager D) (Unit {0})
  push_dir lim info = do
    dirs ← gets (λ m. m.open_dirs)
    guard (ltb (length dirs) lim.max_dirs) too_many_open_dirs
    modify (λ m. record m { open_dirs = dirs ++ (info ∷ []) })

  -- `open_root_dir`
  unfoldable pub open_root_dir : Limits → ℕ → Action (Manager D) ℕ
  open_root_dir lim raw_volume = do
    id ← generate_id
    push_dir lim (record { raw_directory = id; raw_volume = raw_volume; cluster = root_dir })
    pure id

  -- `close_dir`
  unfoldable pub close_dir : ℕ → Action (Manager D) (Unit {0})
  unfolding get_dir_by_id
  close_dir raw = do
    i ← get_dir_by_id raw
    modify (λ m. record m { open_dirs = swap_remove m.open_dirs i })

module _ {D N : Type 0} ⦃dev : BlockDevice D⦄ ⦃conv : ToShortFileName N⦄ where
  -- `open_dir`
  unfoldable pub open_dir : Limits → ℕ → N → Action (Manager D) ℕ
  unfolding get_dir_by_id get_volume_by_id
  open_dir lim raw_parent name = do
    dirs ← gets (λ m. m.open_dirs)
    guard (ltb (length dirs) lim.max_dirs) too_many_open_dirs
    (d, i) ← dir_and_volume raw_parent
    sfn ← lift (named (conv.to_short_filename name))
    v ← volume_at i
    if equal_bytes sfn this_dir
        then (do
          id ← generate_id
          push_dir lim
              (record { raw_directory = id; raw_volume = v.raw_volume; cluster = d.cluster })
          pure id)
        else (do
          entry ← with_fat i (λ fat. find_directory_entry fat d.cluster sfn)
          guard (is_directory entry.attributes) opened_file_as_dir
          id ← generate_id
          push_dir lim
              (record { raw_directory = id; raw_volume = v.raw_volume; cluster = entry.cluster })
          pure id)

  -- `find_directory_entry`
  pub find_entry : ℕ → N → Action (Manager D) DirEntry
  unfolding get_dir_by_id get_volume_by_id
  find_entry raw_dir name = do
    (d, i) ← dir_and_volume raw_dir
    sfn ← lift (named (conv.to_short_filename name))
    with_fat i (λ fat. find_directory_entry fat d.cluster sfn)
