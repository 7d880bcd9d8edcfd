-- ===== src/Manager/Transfer.antt =====
-- embedded-sdmmc/src/volume_mgr.rs: the bytes of a file are found on the disk, read and written.
pub mod Locate
pub mod Bytes
pub mod Read
use embedded_sdmmc_rs.Common.{
  ℕ, zero, suc, ◌+◌, ◌-◌, ◌/◌, ◌%◌, min, Bool, true, false, List, [], ◌++◌, Option, none, some,
}
use embedded_sdmmc_rs.Common.{◌==◌, ◌&&◌, not, ltb, if◌then◌else◌, length, take, drop, add32, sub32}
use embedded_sdmmc_rs.Common.Bytes.{put_bytes}
use embedded_sdmmc_rs.Common.Action
use embedded_sdmmc_rs.Common.Action.{
  Action, Result, ok, err, panic, no_fuel, Error, disk_full, allocation_error, guard, pure, raise,
  lift, gets, modify, match_result, ◌>>=◌, ◌>>◌,
}
use embedded_sdmmc_rs.Block.{BlockDevice, add_blocks}
use embedded_sdmmc_rs.Cache.{BlockCache, read, blank_mut, modify_block, write_back}
use embedded_sdmmc_rs.Filesystem.Cluster.{ClusterId}
use embedded_sdmmc_rs.Filesystem.Attributes.{set_archive}
use embedded_sdmmc_rs.Filesystem.Timestamp.{Timestamp}
use embedded_sdmmc_rs.Filesystem.Files.{
  FileInfo, plus, seek_from_start, seek_from_current, update_length, left, eof,
}
use embedded_sdmmc_rs.Fat.Volume.{FatVolume, bytes_per_cluster, cluster_to_block, reserved_entries}
use embedded_sdmmc_rs.Fat.Table.{next_cluster}
use embedded_sdmmc_rs.Fat.Alloc.{alloc_cluster}
use embedded_sdmmc_rs.Manager.{
  Manager, get_volume_by_id, get_file_by_id, volume_at, file_at, put_file, on_cache, on_volume,
  with_fat,
}
use embedded_sdmmc_rs.Manager.Files.{is_mode_read_only}

-- A place in a chain of clusters: the offset of a cluster in the file, and the cluster.
pub record Place : Type 0 where
  pub offset : ℕ
  pub cluster : ClusterId

-- Where a byte is: the block, the offset in it, and how many bytes it has from there on.
pub record Found : Type 0 where
  pub block_idx : ℕ
  pub block_offset : ℕ
  pub available : ℕ

-- the start of the walk: the file's first cluster for an offset before the place
unfoldable pub rewind : Place → ClusterId → ℕ → Place
rewind start file_start desired_offset =
    if ltb desired_offset start.offset then record { offset = 0; cluster = file_start } else start

-- the block and the offset in it, from the place that was reached
unfoldable pub found_at : FatVolume → Place → ℕ → Result Found
found_at v start desired_offset =
    let offset_from_cluster = sub32 desired_offset start.offset in
    if ltb offset_from_cluster (bytes_per_cluster v)
    then ok (record {
      block_idx = add_blocks (cluster_to_block v start.cluster) (offset_from_cluster / 512);
      block_offset = desired_offset % 512;
      available = 512 - desired_offset % 512;
    })
    else panic

abbrev pub place_of : FileInfo → Place
place_of f = record { offset = f.cluster_offset; cluster = f.current_cluster }

abbrev pub set_place : Place → FileInfo → FileInfo
set_place p f = record f { cluster_offset = p.offset; current_cluster = p.cluster }

module _ {D : Type 0} ⦃dev : BlockDevice D⦄ where
  -- The loop of `find_data_on_disk`. The place is what the caller keeps, also after an error.
  pub advance : ℕ → FatVolume → Place → BlockCache D → Result (Unit {0}) × (Place × BlockCache D)
  advance zero v start c = (ok tt, (start, c))
  advance (suc n) v start c =
      let (r, c') = next_cluster v start.cluster c in
      elim r [
        | ok next ↦
            advance n v
              (record { offset = add32 start.offset (bytes_per_cluster v); cluster = next }) c'
        | err e ↦ (err e, (start, c'))
        | panic ↦ (panic, (start, c'))
        | no_fuel ↦ (no_fuel, (start, c'))
      ]

  -- what `find_data_on_disk` makes of the place that the loop has reached
  abbrev reached :
      FatVolume
      → ℕ
      → Result (Unit {0}) × (Place × BlockCache D)
      → Result Found × (Place × BlockCache D)
  reached v desired_offset (ok _, (start, c)) = (found_at v start desired_offset, (start, c))
  reached v desired_offset (err e, x) = (err e, x)
  reached v desired_offset (panic, x) = (panic, x)
  reached v desired_offset (no_fuel, x) = (no_fuel, x)

  -- `find_data_on_disk`; the division by the size of a cluster panics for a size of 0
  pub find_data_on_disk :
      FatVolume → Place → ClusterId → ℕ → BlockCache D → Result Found × (Place × BlockCache D)
  unfolding rewind found_at advance
  find_data_on_disk v start file_start desired_offset c =
      let start' = rewind start file_start desired_offset in
      let num_clusters = sub32 desired_offset start'.offset / bytes_per_cluster v in
      if bytes_per_cluster v == 0
      then (panic, (start', c))
      else reached v desired_offset (advance num_clusters v start' c)

  abbrev keep_cache :
      {A : Type 0}
      → Result A × (Place × BlockCache D)
      → Manager D
      → Result (Result A × Place) × Manager D
  keep_cache (panic, (start, c)) m = (panic, record m { block_cache = c })
  keep_cache (no_fuel, (start, c)) m = (no_fuel, record m { block_cache = c })
  keep_cache (r, (start, c)) m = (ok (r, start), record m { block_cache = c })

  -- a call of `find_data_on_disk` for a file, with a copy of its place: an error is a value here
  unfoldable pub find_data : ℕ → FileInfo → Place → Action (Manager D) (Result Found × Place)
  find_data volume_idx f start = do
    info ← volume_at volume_idx
    (λ m.
        keep_cache
          (find_data_on_disk info.volume_type start f.entry.cluster f.current_offset m.block_cache)
          m)

  -- the end of a round of `read`, once the position has moved by what is copied: `unwrap` panics
  -- if it cannot
  unfoldable pub copied :
      ℕ → ℕ → Found → List ℕ → Result (Unit {0}) × FileInfo → Action (Manager D) (ℕ × List ℕ)
  copied file_idx to_copy at block (ok _, f) = do
    put_file file_idx f
    pure (to_copy, take to_copy (drop at.block_offset block))
  copied file_idx to_copy at block (_, f) = lift panic

  unfoldable pub copy_block : ℕ → ℕ → FileInfo → Found → List ℕ → Action (Manager D) (ℕ × List ℕ)
  unfolding copied
  copy_block file_idx space f at block =
      let to_copy = min (min at.available space) (left f) in
      if to_copy == 0
      then lift panic
      else copied file_idx to_copy at block (seek_from_current (plus to_copy) f)

  -- the part of a round of `read` after the bytes were found on the disk
  unfoldable pub copy_found :
      ℕ → ℕ → FileInfo → Result Found × Place → Action (Manager D) (ℕ × List ℕ)
  unfolding copy_block
  copy_found file_idx space f (r, place) = do
    at ← lift r
    put_file file_idx (set_place place f)
    block ← on_cache (read at.block_idx)
    copy_block file_idx space (set_place place f) at block

  -- one round of the loop of `read`: how many bytes it copies, and which
  unfoldable pub read_round : ℕ → ℕ → ℕ → Action (Manager D) (ℕ × List ℕ)
  unfolding find_data copy_found
  read_round file_idx volume_idx space = do
    f ← file_at file_idx
    find_data volume_idx f (place_of f) >>= copy_found file_idx space f

  -- The loop of `read`: what it has copied to the front of the buffer is its result. Each round
  -- copies at least one byte, so that the fuel is the space in the buffer and one more.
  pub read_loop : ℕ → ℕ → ℕ → ℕ → List ℕ → Action (Manager D) (List ℕ)
  unfolding read_round
  read_loop zero file_idx volume_idx space bytes = lift no_fuel
  read_loop (suc fuel) file_idx volume_idx space bytes = do
    f ← file_at file_idx
    let next = read_round file_idx volume_idx space >>= λ x.
        read_loop fuel file_idx volume_idx (space - x.0) (bytes ++ x.1)
    if ltb 0 space && not (eof f) then next else pure bytes

  -- `read`, for a buffer of a size: it returns the bytes that it puts at the buffer's front. It
  -- leaves the rest of the buffer as it is.
  pub read_file : ℕ → ℕ → Action (Manager D) (List ℕ)
  unfolding get_file_by_id get_volume_by_id read_loop
  read_file raw_file buffer_len = do
    file_idx ← get_file_by_id raw_file
    f ← file_at file_idx
    volume_idx ← get_volume_by_id f.raw_volume
    read_loop (suc buffer_len) file_idx volume_idx buffer_len []
