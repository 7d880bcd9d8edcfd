-- ===== src/Manager.antt =====
-- embedded-sdmmc/src/volume_mgr.rs: the state of the volume manager, and the look-up of handles.
-- The methods lock the state for their whole run, and the model's callbacks cannot reach it, so
-- that no call fails with `LockError`. A handle is its number.
pub mod Volumes
pub mod Dirs
pub mod Entries
pub mod Files
pub mod Transfer
pub mod Write
use embedded_sdmmc_rs.Common.{
  ℕ, zero, suc, ◌+◌, Bool, true, false, List, [], ◌∷◌, ◌++◌, Option, none, some, map,
}
use embedded_sdmmc_rs.Common.{◌==◌, ◌&&◌, leb, if◌then◌else◌, get_elem?, set, length}
use embedded_sdmmc_rs.Common.Action.{
  Action, Result, ok, err, panic, Error, bad_handle, gets, lift, modify, ◌>>=◌, ◌>>◌, pure, zoom,
}
use embedded_sdmmc_rs.Block.{BlockDevice}
use embedded_sdmmc_rs.Cache
use embedded_sdmmc_rs.Cache.{BlockCache}
use embedded_sdmmc_rs.Filesystem.Cluster.{ClusterId}
use embedded_sdmmc_rs.Filesystem.Handles
use embedded_sdmmc_rs.Filesystem.Handles.{HandleGenerator, generate}
use embedded_sdmmc_rs.Filesystem.DirEntry.{DirEntry}
use embedded_sdmmc_rs.Filesystem.Files.{FileInfo}
use embedded_sdmmc_rs.Fat.Volume.{FatVolume}
use embedded_sdmmc_rs.Fat.Alloc.{Mounted}

-- `VolumeInfo`; a FAT volume is the only type of volume
pub record VolumeInfo : Type 0 where
  pub raw_volume : ℕ
  pub idx : ℕ
  pub volume_type : FatVolume

pub record DirectoryInfo : Type 0 where
  pub raw_directory : ℕ
  pub raw_volume : ℕ
  pub cluster : ClusterId

-- `VolumeManagerData`
pub record Manager (D : Type 0) : Type 0 where
  pub id_generator : HandleGenerator
  pub block_cache : BlockCache D
  pub open_volumes : List VolumeInfo
  pub open_dirs : List DirectoryInfo
  pub open_files : List FileInfo

-- the constants that `VolumeManager` is generic in
pub record Limits : Type 0 where
  pub max_dirs : ℕ
  pub max_files : ℕ
  pub max_volumes : ℕ

abbrev pub later : Option ℕ → Option ℕ
later none = none
later (some i) = some (suc i)

-- the index of the first item that passes a test
unfoldable pub position : {A : Type 0} → (A → Bool) → List A → Option ℕ
position p [] = none
position p (x ∷ xs) = if p x then some 0 else later (position p xs)

abbrev pub or_bad_handle : Option ℕ → Result ℕ
or_bad_handle none = err bad_handle
or_bad_handle (some i) = ok i

-- one open file of the loop of `file_is_open`
pub is_entry : ℕ → DirEntry → FileInfo → Bool
is_entry raw_volume dir_entry f =
    (f.raw_volume == raw_volume)
    && (f.entry.entry_block == dir_entry.entry_block)
    && (f.entry.entry_offset == dir_entry.entry_offset)

unfoldable pub any : {A : Type 0} → (A → Bool) → List A → Bool
any p [] = false
any p (x ∷ xs) = if p x then true else any p xs

-- an index into a vector, which panics out of bounds
abbrev pub at_index : {A : Type 0} → Option A → Result A
at_index none = panic
at_index (some a) = ok a

abbrev is_empty : {A : Type 0} → List A → Bool
is_empty [] = true
is_empty (_ ∷ _) = false

module _ {D : Type 0} where
  -- `new_with_limits`
  pub new_with_limits : D → ℕ → Manager D
  new_with_limits block_device id_offset = record {
    id_generator = Handles.new id_offset;
    block_cache = Cache.new block_device;
    open_volumes = [];
    open_dirs = [];
    open_files = [];
  }

  -- `device`: the caller gets the device, and may change it
  pub device : (D → D) → Manager D → Manager D
  device f m = record m { block_cache = Cache.block_device f m.block_cache }

  -- `file_is_open`
  unfoldable pub file_is_open : Manager D → ℕ → DirEntry → Bool
  unfolding any is_entry
  file_is_open m raw_volume dir_entry = any (is_entry raw_volume dir_entry) m.open_files

  unfoldable pub get_volume_by_id : ℕ → Action (Manager D) ℕ
  unfolding position
  get_volume_by_id raw m = (or_bad_handle (position (λ v. v.raw_volume == raw) m.open_volumes), m)

  unfoldable pub get_dir_by_id : ℕ → Action (Manager D) ℕ
  unfolding position
  get_dir_by_id raw m = (or_bad_handle (position (λ d. d.raw_directory == raw) m.open_dirs), m)

  unfoldable pub get_file_by_id : ℕ → Action (Manager D) ℕ
  unfolding position
  get_file_by_id raw m = (or_bad_handle (position (λ f. f.raw_file == raw) m.open_files), m)

  -- `open_volumes[i]`, `open_dirs[i]` and `open_files[i]`, which panic out of bounds
  abbrev pub volume_at : ℕ → Action (Manager D) VolumeInfo
  volume_at i m = (at_index (get_elem? m.open_volumes i), m)

  abbrev pub dir_at : ℕ → Action (Manager D) DirectoryInfo
  dir_at i m = (at_index (get_elem? m.open_dirs i), m)

  abbrev pub file_at : ℕ → Action (Manager D) FileInfo
  file_at i m = (at_index (get_elem? m.open_files i), m)

  abbrev pub put_file : ℕ → FileInfo → Action (Manager D) (Unit {0})
  put_file i f = modify (λ m. record m { open_files = set m.open_files i f })

  -- a handle from the generator
  abbrev pub generate_id : Action (Manager D) ℕ
  generate_id m = let (id, g) = generate m.id_generator in (ok id, record m { id_generator = g })

  -- an action on the cache alone
  abbrev pub on_cache : {A : Type 0} → Action (BlockCache D) A → Action (Manager D) A
  on_cache = zoom (λ m. m.block_cache) (λ c m. record m { block_cache = c })

  -- what the volume `info` at index `i` and the cache become
  abbrev put_mounted : ℕ → VolumeInfo → Mounted D → Manager D → Manager D
  put_mounted i info s m = record m {
    block_cache = s.cache;
    open_volumes = set m.open_volumes i (record info { volume_type = s.volume });
  }

  -- a method of the volume at an index, which takes it by `&mut self`
  abbrev pub on_volume : {A : Type 0} → ℕ → Action (Mounted D) A → Action (Manager D) A
  on_volume i act = do
    info ← volume_at i
    zoom (λ m. record { volume = info.volume_type; cache = m.block_cache }) (put_mounted i info) act

  -- a method of the volume at an index, which takes it by `&self`
  abbrev pub with_fat :
      {A : Type 0} → ℕ → (FatVolume → Action (BlockCache D) A) → Action (Manager D) A
  with_fat i act = do info ← volume_at i; on_cache (act info.volume_type)

  -- `has_open_handles`
  unfoldable pub has_open_handles : Manager D → Bool
  has_open_handles m = if is_empty m.open_dirs && is_empty m.open_files then false else true
