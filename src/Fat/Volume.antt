-- ===== src/Fat/Volume.antt =====
-- embedded-sdmmc/src/fat/volume.rs and fat/info.rs: the data of a mounted volume, and the
-- calculations that need nothing else.
use embedded_sdmmc_rs.Common.{ℕ, List, Option, ◌==◌, if◌then◌else◌, sub32, mul32}
use embedded_sdmmc_rs.Block.{add_blocks}
use embedded_sdmmc_rs.Filesystem.Cluster.{ClusterId, root_dir}

-- `RESERVED_ENTRIES`
abbrev pub reserved_entries : ℕ
reserved_entries = 2

pub data FatType : Type 0 where
  fat16 fat32 : FatType

pub record Fat16Info : Type 0 where
  pub first_root_dir_block : ℕ
  pub root_entries_count : ℕ

pub record Fat32Info : Type 0 where
  pub first_root_dir_cluster : ClusterId
  pub info_location : ℕ

pub data FatSpecificInfo : Type 0 where
  fat16_info : Fat16Info → FatSpecificInfo
  fat32_info : Fat32Info → FatSpecificInfo

pub record FatVolume : Type 0 where
  pub lba_start : ℕ
  pub num_blocks : ℕ
  pub name : List ℕ
  pub blocks_per_cluster : ℕ
  pub first_data_block : ℕ
  pub fat_start : ℕ
  pub second_fat_start : Option ℕ
  pub free_clusters_count : Option ℕ
  pub next_free_cluster : Option ClusterId
  pub cluster_count : ℕ
  pub fat_specific_info : FatSpecificInfo

fat_type_of : FatSpecificInfo → FatType
fat_type_of (fat16_info _) = fat16
fat_type_of (fat32_info _) = fat32

-- `get_fat_type`
unfoldable pub get_fat_type : FatVolume → FatType
unfolding fat_type_of
get_fat_type v = fat_type_of v.fat_specific_info

-- `bytes_per_cluster`: `blocks_per_cluster` is a `u8`, so that nothing wraps
unfoldable pub bytes_per_cluster : FatVolume → ℕ
bytes_per_cluster v = mul32 v.blocks_per_cluster 512

-- the block of a cluster, counted from the start of the partition
block_of : FatVolume → FatSpecificInfo → ClusterId → ℕ
block_of v (fat16_info info) cluster =
    if cluster == root_dir
    then info.first_root_dir_block
    else add_blocks v.first_data_block (mul32 (sub32 cluster 2) v.blocks_per_cluster)
block_of v (fat32_info info) cluster =
    let cluster_num = if cluster == root_dir then info.first_root_dir_cluster else cluster in
    add_blocks v.first_data_block (mul32 (sub32 cluster_num 2) v.blocks_per_cluster)

-- `cluster_to_block`
unfoldable pub cluster_to_block : FatVolume → ClusterId → ℕ
unfolding block_of
cluster_to_block v cluster = add_blocks v.lba_start (block_of v v.fat_specific_info cluster)
