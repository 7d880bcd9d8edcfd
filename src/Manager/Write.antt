-- ===== src/Manager/Write.antt =====
-- embedded-sdmmc/src/volume_mgr.rs: the bytes of a file are written (`write`).
pub mod Store
pub mod Round
pub mod Steps
pub mod Whole
pub mod Splice
pub mod Loop
use embedded_sdmmc_rs.Common.{ℕ, zero, suc, ◌-◌, min, true, false, List, none, some}
use embedded_sdmmc_rs.Common.{◌==◌, ◌&&◌, not, ltb, if◌then◌else◌, length, take, drop, add32}
use embedded_sdmmc_rs.Common.Bytes.{put_bytes}
use embedded_sdmmc_rs.Common.Action
use embedded_sdmmc_rs.Common.Action.{
  Action, Result, ok, err, panic, no_fuel, Error, disk_full, allocation_error, guard, pure, raise,
  lift, match_result, ◌>>=◌, ◌>>◌,
}
use embedded_sdmmc_rs.Block.{BlockDevice}
use embedded_sdmmc_rs.Cache.{read, blank_mut, modify_block, write_back}
use embedded_sdmmc_rs.Filesystem.Attributes.{set_archive}
use embedded_sdmmc_rs.Filesystem.Timestamp.{Timestamp}
use embedded_sdmmc_rs.Filesystem.Files.{FileInfo, seek_from_start, update_length}
use embedded_sdmmc_rs.Fat.Volume.{reserved_entries}
use embedded_sdmmc_rs.Fat.Alloc.{alloc_cluster}
use embedded_sdmmc_rs.Manager.{
  Manager, get_volume_by_id, get_file_by_id, file_at, put_file, on_cache, on_volume,
}
use embedded_sdmmc_rs.Manager.Files.{is_mode_read_only}
use embedded_sdmmc_rs.Manager.Transfer.{Place, Found, find_data, place_of, set_place}

-- `MAX_FILE_SIZE`
abbrev pub max_file_size : ℕ
max_file_size = 0xFFFF_FFFF

-- The file after `n` bytes were written at its position: it grows if they go past its end, and
-- its position moves; `unwrap` panics if that fails.
unfoldable pub wrote : ℕ → FileInfo → Result (Unit {0}) × FileInfo
unfolding update_length seek_from_start
wrote n f =
    let new_offset = add32 f.current_offset n in
    let g = if ltb f.entry.size new_offset then update_length new_offset f else f in
    seek_from_start new_offset g

-- `if current_cluster.1 < entry.cluster`: back to the start of the file
unfoldable pub rewind_file : FileInfo → FileInfo
rewind_file f =
    if ltb f.current_cluster f.entry.cluster
    then set_place (record { offset = 0; cluster = f.entry.cluster }) f
    else f

module _ {D : Type 0} ⦃dev : BlockDevice D⦄ where
  -- `data.open_files[file_idx]` is changed
  abbrev pub change_file : ℕ → (FileInfo → FileInfo) → Action (Manager D) (Unit {0})
  change_file file_idx g = do f ← file_at file_idx; put_file file_idx (g f)

  -- the first cluster of a file that has none
  unfoldable pub give_cluster : ℕ → ℕ → Action (Manager D) (Unit {0})
  give_cluster file_idx volume_idx = do
    f ← file_at file_idx
    if ltb f.entry.cluster reserved_entries
        then (do
          c ← on_volume volume_idx (alloc_cluster none false)
          change_file file_idx (λ f. record f { entry = record f.entry { cluster = c } }))
        else pure tt

  -- the match on what `find_data_on_disk` found: at the end of the chain the file gets a cluster
  unfoldable pub extend_at_end :
      ℕ → FileInfo → Result Found × Place → Action (Manager D) (Found × Place)
  unfolding find_data
  extend_at_end volume_idx f (ok at, place) = pure (at, place)
  extend_at_end volume_idx f (err Action.end_of_file, place) = do
    match_result (on_volume volume_idx (alloc_cluster (some place.cluster) false)) (λ _. pure tt)
        (λ _. raise disk_full)
    (r, place') ← find_data volume_idx f place
    match_result (lift r) (λ at. pure (at, place')) (λ _. raise allocation_error)
  extend_at_end volume_idx f (err e, place) = raise e
  extend_at_end volume_idx f (panic, place) = lift panic
  extend_at_end volume_idx f (no_fuel, place) = lift no_fuel

  -- The block is filled with zeros if all of it is replaced, and read otherwise.
  unfoldable pub write_block : Found → List ℕ → Action (Manager D) (Unit {0})
  write_block at bytes = on_cache (do
    if (at.block_offset == 0) && (length bytes == at.available)
        then blank_mut at.block_idx
        else (read at.block_idx >>= λ _. pure tt)
    modify_block (λ b. put_bytes b at.block_offset bytes)
    write_back)

  -- the end of a round: the file's place, length and position
  abbrev pub finish_round : ℕ → Result (Unit {0}) × FileInfo → Action (Manager D) (Unit {0})
  finish_round file_idx (ok _, f) = put_file file_idx f
  finish_round file_idx (_, f) = lift panic

  -- one round of the loop: how many bytes of the rest of the buffer it writes
  unfoldable pub write_round : ℕ → ℕ → List ℕ → Action (Manager D) ℕ
  unfolding find_data extend_at_end write_block wrote
  write_round file_idx volume_idx rest = do
    f ← file_at file_idx
    found ← find_data volume_idx f (place_of f)
    (at, place) ← extend_at_end volume_idx f found
    let to_copy = min at.available (length rest)
    write_block at (take to_copy rest)
    finish_round file_idx (wrote to_copy (set_place place f))
    pure to_copy

  -- The loop of `write`, over the rest of what is to be written. Each round writes at least one
  -- byte, so that the fuel is the number of bytes and one more.
  pub write_loop : ℕ → ℕ → ℕ → List ℕ → Action (Manager D) (Unit {0})
  unfolding write_round
  write_loop zero file_idx volume_idx rest = lift no_fuel
  write_loop (suc fuel) file_idx volume_idx rest =
      let next = write_round file_idx volume_idx rest >>= λ to_copy.
      write_loop fuel file_idx volume_idx (drop to_copy rest) in
      if length rest == 0 then pure tt else next

  -- `write`
  pub write_file : (ℕ → Timestamp) → ℕ → List ℕ → Action (Manager D) (Unit {0})
  unfolding get_file_by_id get_volume_by_id is_mode_read_only give_cluster rewind_file write_loop
  write_file time_source raw_file buffer = do
    file_idx ← get_file_by_id raw_file
    f ← file_at file_idx
    volume_idx ← get_volume_by_id f.raw_volume
    guard (not (is_mode_read_only f.mode)) Action.read_only
    change_file file_idx (λ f. record f { dirty = true })
    give_cluster file_idx volume_idx
    volume_idx' ← get_volume_by_id f.raw_volume
    change_file file_idx rewind_file
    f' ← file_at file_idx
    let bytes_to_write = min (length buffer) (max_file_size - f'.current_offset)
    write_loop (suc (length buffer)) file_idx volume_idx' (take bytes_to_write buffer)
    change_file file_idx (λ f. record f {
      entry = record f.entry {
        attributes = set_archive f.entry.attributes true;
        mtime = time_source 0;
      };
    })
