-- ===== src/Fat/Table.antt =====
-- embedded-sdmmc/src/fat/volume.rs: an entry of the File Allocation Table is read by
-- `next_cluster` and written by `update_fat`.
pub mod Spec
pub mod Lookup
pub mod Update
pub mod ReadBack
use embedded_sdmmc_rs.Common.{ℕ, ◌+◌, ◌/◌, ◌%◌, Bool, List, Option, none, some, ◌==◌, ltb, leb}
use embedded_sdmmc_rs.Common.{if◌then◌else◌, mul32, bit_and, bit_or}
use embedded_sdmmc_rs.Common.Bytes.{read_u16, read_u32, write_u16, write_u32}
use embedded_sdmmc_rs.Common.Action.{
  Action, Result, ok, err, panic, lift, raise, pure, bad_cluster, end_of_file,
  unterminated_fat_chain, ◌>>=◌, ◌>>◌,
}
use embedded_sdmmc_rs.Block.{BlockDevice, add_blocks, offset_bytes}
use embedded_sdmmc_rs.Cache.{BlockCache, read, modify_block, write_copies}
use embedded_sdmmc_rs.Filesystem.Cluster
use embedded_sdmmc_rs.Filesystem.Cluster.{ClusterId}
use embedded_sdmmc_rs.Fat.Volume.{FatVolume, FatSpecificInfo, fat16_info, fat32_info}

-- the entry of FAT16 for a value that a `ClusterId` names
unfoldable pub encode16 : ClusterId → ℕ
encode16 value =
    if value == Cluster.invalid
    then 0xFFF6
    else if value == Cluster.bad
    then 0xFFF7
    else if value == Cluster.empty
    then 0x0000
    else if value == Cluster.end_of_file
    then 0xFFFF
    else value % 65536

unfoldable pub encode32 : ClusterId → ℕ
encode32 value =
    if value == Cluster.invalid
    then 0x0FFF_FFF6
    else if value == Cluster.bad
    then 0x0FFF_FFF7
    else if value == Cluster.empty
    then 0x0000_0000
    else value

-- what an entry of FAT16 says of the next cluster
unfoldable pub decode16 : ℕ → Result ClusterId
decode16 entry =
    if entry == 0xFFF7
    then err bad_cluster
    else if leb 0xFFF8 entry
    then err end_of_file
    else ok entry

unfoldable pub decode32 : ℕ → Result ClusterId
decode32 entry =
    if entry == 0
    then err unterminated_fat_chain
    else if entry == 0x0FFF_FFF7
    then err bad_cluster
    else if entry == 1
    then err end_of_file
    else if leb 0x0FFF_FFF8 entry
    then err end_of_file
    else ok entry

-- The upper four bits of an entry of FAT32 are kept.
pub store32 : List ℕ → ℕ → ℕ → List ℕ
store32 block offset entry =
    let existing = read_u32 block offset in
    write_u32 block offset (bit_or (bit_and existing 0xF000_0000) (bit_and entry 0x0FFF_FFFF))

-- the second table's block for the same offset
pub second_block : FatVolume → Option ℕ → ℕ → Option ℕ
second_block v none fat_offset = none
second_block v (some start) fat_offset =
    some (add_blocks v.lba_start (offset_bytes start fat_offset))

module _ {D : Type 0} ⦃dev : BlockDevice D⦄ where
  next_of : FatVolume → FatSpecificInfo → ClusterId → Action (BlockCache D) ClusterId
  unfolding decode16 decode32
  next_of v (fat16_info _) cluster = do
    let fat_offset = mul32 cluster 2
    let this_fat_block_num = add_blocks v.lba_start (offset_bytes v.fat_start fat_offset)
    let this_fat_ent_offset = fat_offset % 512
    block ← read this_fat_block_num
    lift (decode16 (read_u16 block this_fat_ent_offset))
  next_of v (fat32_info _) cluster = do
    let fat_offset = mul32 cluster 4
    let this_fat_block_num = add_blocks v.lba_start (offset_bytes v.fat_start fat_offset)
    let this_fat_ent_offset = fat_offset % 512
    block ← read this_fat_block_num
    lift (decode32 (bit_and (read_u32 block this_fat_ent_offset) 0x0FFF_FFFF))

  -- `next_cluster`, which panics on a cluster above `u32::MAX / 4`
  pub next_cluster : FatVolume → ClusterId → Action (BlockCache D) ClusterId
  unfolding next_of
  next_cluster v cluster =
      if ltb (0xFFFF_FFFF / 4) cluster then lift panic else next_of v v.fat_specific_info cluster

  update_of : FatVolume → FatSpecificInfo → ClusterId → ClusterId → Action (BlockCache D) (Unit {0})
  unfolding encode16 encode32 store32 second_block
  update_of v (fat16_info _) cluster new_value = do
    let fat_offset = mul32 cluster 2
    let this_fat_block_num = add_blocks v.lba_start (offset_bytes v.fat_start fat_offset)
    let second_fat_block_num = second_block v v.second_fat_start fat_offset
    let this_fat_ent_offset = fat_offset % 512
    block ← read this_fat_block_num
    modify_block (λ b. write_u16 b this_fat_ent_offset (encode16 new_value))
    write_copies second_fat_block_num
  update_of v (fat32_info _) cluster new_value = do
    let fat_offset = mul32 cluster 4
    let this_fat_block_num = add_blocks v.lba_start (offset_bytes v.fat_start fat_offset)
    let second_fat_block_num = second_block v v.second_fat_start fat_offset
    let this_fat_ent_offset = fat_offset % 512
    block ← read this_fat_block_num
    modify_block (λ b. store32 b this_fat_ent_offset (encode32 new_value))
    write_copies second_fat_block_num

  -- `update_fat`: it takes the volume as `&mut`, and changes no field of it
  pub update_fat : FatVolume → ClusterId → ClusterId → Action (BlockCache D) (Unit {0})
  unfolding update_of
  update_fat v cluster new_value = update_of v v.fat_specific_info cluster new_value
