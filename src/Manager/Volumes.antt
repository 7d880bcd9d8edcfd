-- ===== src/Manager/Volumes.antt =====
-- embedded-sdmmc/src/volume_mgr.rs: volumes are opened by their place in the partition table, and
-- closed (`open_raw_volume`, `close_volume`).
use embedded_sdmmc_rs.Common.{ℕ, ◌+◌, ◌*◌, Bool, [], ◌∷◌, ◌++◌}
use embedded_sdmmc_rs.Common.{◌==◌, ◌||◌, not, ltb, length, bit_and, swap_remove}
use embedded_sdmmc_rs.Common.Bytes.{byte, read_u16, read_u32}
use embedded_sdmmc_rs.Common.Action.{
  Action, Result, format_error, no_such_volume, too_many_open_volumes, volume_already_open,
  volume_still_in_use, guard, pure, gets, modify, ◌>>=◌, ◌>>◌,
}
use embedded_sdmmc_rs.Block.{BlockDevice}
use embedded_sdmmc_rs.Cache.{read}
use embedded_sdmmc_rs.Fat.Mount.{parse_volume, update_info_sector}
use embedded_sdmmc_rs.Manager.{
  Manager, Limits, any, get_volume_by_id, generate_id, on_cache, with_fat,
}

-- `PARTITION_ID_FAT32_CHS_LBA` and the other types that are supported
is_supported : ℕ → Bool
is_supported part_type =
    (part_type == 0x0B)
    || (part_type == 0x0C)
    || (part_type == 0x0E)
    || (part_type == 0x06)
    || (part_type == 0x04)

-- where the entry of a partition begins in the first block of the device
partition_start : ℕ → ℕ
partition_start volume_idx = 446 + volume_idx * 16

module _ {D : Type 0} ⦃dev : BlockDevice D⦄ (lim : Limits) where
  -- `open_raw_volume`
  pub open_raw_volume : ℕ → Action (Manager D) ℕ
  unfolding is_supported partition_start any
  open_raw_volume volume_idx = do
    volumes ← gets (λ m. m.open_volumes)
    guard (ltb (length volumes) lim.max_volumes) too_many_open_volumes
    guard (not (any (λ v. v.idx == volume_idx) volumes)) volume_already_open
    block ← on_cache (read 0)
    guard (read_u16 block 510 == 0xAA55) (format_error "Invalid MBR signature")
    guard (ltb volume_idx 4) no_such_volume
    let start = partition_start volume_idx
    guard (bit_and (byte block start) 0x7F == 0) (format_error "Invalid partition status")
    guard (is_supported (byte block (start + 4))) (format_error "Partition type not supported")
    volume ← on_cache (parse_volume (read_u32 block (start + 8)) (read_u32 block (start + 12)))
    id ← generate_id
    modify (λ m. record m {
      open_volumes =
          m.open_volumes
          ++ (record { raw_volume = id; idx = volume_idx; volume_type = volume } ∷ []);
    })
    pure id

module _ {D : Type 0} ⦃dev : BlockDevice D⦄ where
  -- the end of `close_volume`: the volume is closed whatever became of its info sector
  abbrev forget_volume : ℕ → Result (Unit {0}) × Manager D → Result (Unit {0}) × Manager D
  forget_volume i (r, m) = (r, record m { open_volumes = swap_remove m.open_volumes i })

  -- `close_volume`
  unfoldable pub close_volume : ℕ → Action (Manager D) (Unit {0})
  unfolding any get_volume_by_id
  close_volume volume = do
    files ← gets (λ m. m.open_files)
    guard (not (any (λ f. f.raw_volume == volume) files)) volume_still_in_use
    dirs ← gets (λ m. m.open_dirs)
    guard (not (any (λ d. d.raw_volume == volume) dirs)) volume_still_in_use
    i ← get_volume_by_id volume
    (λ m. forget_volume i (with_fat i update_info_sector m))
