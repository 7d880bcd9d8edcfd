-- ===== src/Filesystem/DirEntry.antt =====
-- `DirEntry` (embedded-sdmmc/src/filesystem/directory.rs), and the bytes that are stored of it.
use embedded_sdmmc_rs.Common.{ℕ, ◌/◌, ◌^◌, List, [], ◌∷◌, replicate, set, bit_and}
use embedded_sdmmc_rs.Common.Bytes.{put_bytes, le_bytes2, le_bytes4}
use embedded_sdmmc_rs.Filesystem.Cluster.{ClusterId}
use embedded_sdmmc_rs.Filesystem.Attributes.{Attributes}
use embedded_sdmmc_rs.Filesystem.Timestamp.{Timestamp, serialize_to_fat}
use embedded_sdmmc_rs.Filesystem.Filename.{ShortFileName}
use embedded_sdmmc_rs.Fat.Volume.{FatType, fat16, fat32}

pub record DirEntry : Type 0 where
  pub name : ShortFileName
  pub mtime : Timestamp
  pub ctime : Timestamp
  pub attributes : Attributes
  pub cluster : ClusterId
  pub size : ℕ
  pub entry_block : ℕ
  pub entry_offset : ℕ

-- `OnDiskDirEntry::LEN`
abbrev pub entry_len : ℕ
entry_len = 32

cluster_hi : FatType → ClusterId → List ℕ
cluster_hi fat16 c = 0 ∷ 0 ∷ []
cluster_hi fat32 c = le_bytes2 (bit_and (c / 2 ^ 16) 0x0000_FFFF)

-- `DirEntry::serialize`
unfoldable pub serialize : DirEntry → FatType → List ℕ
unfolding cluster_hi
serialize e t =
    let data0 = put_bytes (replicate 32 0) 0 e.name in
    let data1 = set data0 11 e.attributes in
    let data2 = put_bytes data1 14 (serialize_to_fat e.ctime) in
    let data3 = put_bytes data2 20 (cluster_hi t e.cluster) in
    let data4 = put_bytes data3 22 (serialize_to_fat e.mtime) in
    let data5 = put_bytes data4 26 (le_bytes2 (bit_and e.cluster 0x0000_FFFF)) in
    put_bytes data5 28 (le_bytes4 e.size)

-- `DirEntry::new`
unfoldable pub new_entry : ShortFileName → Attributes → ClusterId → Timestamp → ℕ → ℕ → DirEntry
new_entry name attributes cluster ctime entry_block entry_offset = record {
  name = name;
  mtime = ctime;
  ctime = ctime;
  attributes = attributes;
  cluster = cluster;
  size = 0;
  entry_block = entry_block;
  entry_offset = entry_offset;
}
