-- ===== src/Fat/Mount.antt =====
-- embedded-sdmmc/src/fat/bpb.rs, fat/info.rs and `parse_volume`, `update_info_sector` of
-- fat/volume.rs: how a volume is mounted, and its info sector. The fields that `define_field!`
-- declares are reads at their offsets.
pub mod Layout
pub mod Geometry
use embedded_sdmmc_rs.Common.{ℕ, ◌+◌, ◌*◌, ◌/◌, ◌%◌, Bool, true, false, List, Option, none, some}
use embedded_sdmmc_rs.Common.{ltb, ◌==◌, if◌then◌else◌, ◌&&◌, not, take, drop, add32, sub32, mul32}
use embedded_sdmmc_rs.Common.Bytes.{byte, read_u16, read_u32, write_u32}
use embedded_sdmmc_rs.Common.Action.{
  Action, Result, ok, err, panic, lift, raise, pure, gets, format_error, bad_block_size, ◌>>=◌,
  ◌>>◌,
}
use embedded_sdmmc_rs.Block.{BlockDevice, add_blocks, from_bytes}
use embedded_sdmmc_rs.Cache.{BlockCache, read, modify_block, write_back}
use embedded_sdmmc_rs.Filesystem.Cluster.{ClusterId}
use embedded_sdmmc_rs.Fat.Volume.{
  FatType, fat16, fat32, FatVolume, FatSpecificInfo, fat16_info, fat32_info,
}

-- `Bpb`: the block, the type of FAT, and the number of clusters
pub record Bpb : Type 0 where
  pub bytes : List ℕ
  pub fat_type : FatType
  pub cluster_count : ℕ

abbrev pub bytes_per_block : List ℕ → ℕ
bytes_per_block b = read_u16 b 11

abbrev pub blocks_per_cluster : List ℕ → ℕ
blocks_per_cluster b = byte b 13

abbrev pub reserved_block_count : List ℕ → ℕ
reserved_block_count b = read_u16 b 14

abbrev pub num_fats : List ℕ → ℕ
num_fats b = byte b 16

abbrev pub root_entries_count : List ℕ → ℕ
root_entries_count b = read_u16 b 17

abbrev pub footer : List ℕ → ℕ
footer b = read_u16 b 510

-- `fat_size`
unfoldable pub fat_size : List ℕ → ℕ
fat_size b = if not (read_u16 b 22 == 0) then read_u16 b 22 else read_u32 b 36

-- `total_blocks`
unfoldable pub total_blocks : List ℕ → ℕ
total_blocks b = if not (read_u16 b 19 == 0) then read_u16 b 19 else read_u32 b 32

-- the blocks before the data area
unfoldable pub non_data_blocks : List ℕ → ℕ
unfolding fat_size
non_data_blocks b =
    add32 (add32 (reserved_block_count b) (mul32 (num_fats b) (fat_size b)))
      (from_bytes (mul32 (root_entries_count b) 32))

-- The type of FAT follows from the number of clusters.
unfoldable pub classify : List ℕ → ℕ → Result Bpb
classify b count =
    if ltb count 4085
    then err (format_error "FAT12 is unsupported")
    else if ltb count 65525
    then ok (record { bytes = b; fat_type = fat16; cluster_count = count })
    else if read_u16 b 42 == 0
    then ok (record { bytes = b; fat_type = fat32; cluster_count = count })
    else err (format_error "Invalid FAT format")

-- `Bpb::create_from_bytes`: the division panics if there are 0 blocks to a cluster
unfoldable pub create_from_bytes : List ℕ → Result Bpb
unfolding non_data_blocks total_blocks classify
create_from_bytes b =
    if not (footer b == 0xAA55)
    then err (format_error "Bad BPB footer")
    else if blocks_per_cluster b == 0
    then panic
    else classify b (sub32 (total_blocks b) (non_data_blocks b) / blocks_per_cluster b)

-- `volume_label`
volume_label : Bpb → List ℕ
volume_label bpb = elim bpb.fat_type [
  | fat16 ↦ take 11 (drop 43 bpb.bytes)
  | fat32 ↦ take 11 (drop 71 bpb.bytes)
]

-- `InfoSector::create_from_bytes`
unfoldable pub check_info : List ℕ → Result (List ℕ)
check_info b =
    if not (read_u32 b 0 == 0x4161_5252)
    then err (format_error "Bad lead signature on InfoSector")
    else if not (read_u32 b 484 == 0x6141_7272)
    then err (format_error "Bad struc signature on InfoSector")
    else if not (read_u32 b 508 == 0xAA55_0000)
    then err (format_error "Bad trail signature on InfoSector")
    else ok b

-- `free_clusters_count` and `next_free_cluster` of the info sector
unfoldable pub info_free_count : List ℕ → Option ℕ
info_free_count b = if read_u32 b 488 == 0xFFFF_FFFF then none else some (read_u32 b 488)

unfoldable pub info_next_free : List ℕ → Option ClusterId
info_next_free b =
    let n = read_u32 b 492 in
    if n == 0xFFFF_FFFF then none else if n == 0 then none else if n == 1 then none else some n

-- `u32::div_ceil(512)`
div_ceil512 : ℕ → ℕ
div_ceil512 n = if n % 512 == 0 then n / 512 else n / 512 + 1

-- the fields that a volume has whatever its type
base_volume : Bpb → ℕ → ℕ → ℕ → FatSpecificInfo → FatVolume
unfolding volume_label
base_volume bpb lba_start num_blocks first_data_block info =
    let fat_start = reserved_block_count bpb.bytes in
    record {
      lba_start = lba_start;
      num_blocks = num_blocks;
      name = volume_label bpb;
      blocks_per_cluster = blocks_per_cluster bpb.bytes;
      first_data_block = first_data_block;
      fat_start = fat_start;
      second_fat_start =
          if num_fats bpb.bytes == 2
          then some (add_blocks fat_start (fat_size bpb.bytes))
          else none;
      free_clusters_count = none;
      next_free_cluster = none;
      cluster_count = bpb.cluster_count;
      fat_specific_info = info;
    }

-- the block behind the tables
after_tables : List ℕ → ℕ
after_tables b = add_blocks (reserved_block_count b) (mul32 (num_fats b) (fat_size b))

-- the FAT16 arm of `parse_volume`
unfoldable pub fat16_volume : Bpb → ℕ → ℕ → Result FatVolume
unfolding base_volume after_tables div_ceil512
fat16_volume bpb lba_start num_blocks =
    let b = bpb.bytes in
    let root_dir_blocks = div_ceil512 (mul32 (root_entries_count b) 32) in
    let first_root_dir_block = after_tables b in
    if not (bytes_per_block b == 512)
    then err (bad_block_size (bytes_per_block b))
    else ok (
        base_volume bpb lba_start num_blocks (add_blocks first_root_dir_block root_dir_blocks) (
          fat16_info (record {
            first_root_dir_block = first_root_dir_block;
            root_entries_count = root_entries_count b;
          })))

-- the volume of the FAT32 arm, before its info sector is read
unfoldable pub fat32_volume : Bpb → ℕ → ℕ → FatVolume
unfolding base_volume after_tables
fat32_volume bpb lba_start num_blocks =
    let b = bpb.bytes in
    base_volume bpb lba_start num_blocks (after_tables b) (
      fat32_info (record {
        first_root_dir_cluster = read_u32 b 44;
        info_location = add_blocks lba_start (read_u16 b 48);
      }))

-- the two fields of the info sector, if they are known
pub store_opt : ℕ → Option ℕ → List ℕ → List ℕ
store_opt offset none b = b
store_opt offset (some n) b = write_u32 b offset n

pub is_none : Option ℕ → Bool
is_none none = true
is_none (some n) = false

module _ {D : Type 0} ⦃dev : BlockDevice D⦄ where
  with_type : Bpb → FatType → ℕ → ℕ → Action (BlockCache D) FatVolume
  unfolding fat16_volume fat32_volume check_info info_free_count info_next_free
  with_type bpb fat16 lba_start num_blocks = lift (fat16_volume bpb lba_start num_blocks)
  with_type bpb fat32 lba_start num_blocks = do
    info_block ← read (add_blocks lba_start (read_u16 bpb.bytes 48))
    info ← lift (check_info info_block)
    pure (record (fat32_volume bpb lba_start num_blocks) {
      free_clusters_count = info_free_count info;
      next_free_cluster = info_next_free info;
    })

  -- `parse_volume`
  pub parse_volume : ℕ → ℕ → Action (BlockCache D) FatVolume
  unfolding create_from_bytes with_type
  parse_volume lba_start num_blocks = do
    block ← read lba_start
    bpb ← lift (create_from_bytes block)
    with_type bpb bpb.fat_type lba_start num_blocks

  pub update_info : FatVolume → FatSpecificInfo → Action (BlockCache D) (Unit {0})
  unfolding store_opt is_none
  update_info v (fat16_info _) = pure tt
  update_info v (fat32_info info) =
      if is_none v.free_clusters_count && is_none v.next_free_cluster then pure tt else (do
        block ← read info.info_location
        modify_block
            (λ b. store_opt 492 v.next_free_cluster (store_opt 488 v.free_clusters_count b))
        write_back)

  -- `update_info_sector`
  pub update_info_sector : FatVolume → Action (BlockCache D) (Unit {0})
  unfolding update_info
  update_info_sector v = update_info v v.fat_specific_info
