-- ===== src/Fat/OnDisk.antt =====
-- embedded-sdmmc/src/fat/ondiskdirentry.rs: the 32 bytes of a directory entry. The fields that
-- `define_field!` declares are reads at their offsets.
pub mod RoundTrip
use embedded_sdmmc_rs.Common.{
  ℕ, ◌+◌, ◌*◌, ◌^◌, Bool, true, false, List, [], ◌∷◌, Option, none, some,
}
use embedded_sdmmc_rs.Common.{◌==◌, if◌then◌else◌, ◌&&◌, not, take, bit_and, bit_or}
use embedded_sdmmc_rs.Common.Bytes.{byte, read_u16, read_u32}
use embedded_sdmmc_rs.Filesystem.Cluster
use embedded_sdmmc_rs.Filesystem.Cluster.{ClusterId}
use embedded_sdmmc_rs.Filesystem.Attributes
use embedded_sdmmc_rs.Filesystem.Timestamp.{from_fat}
use embedded_sdmmc_rs.Filesystem.Filename.{ShortFileName}
use embedded_sdmmc_rs.Filesystem.DirEntry.{DirEntry}
use embedded_sdmmc_rs.Fat.Volume.{FatType, fat16, fat32}

abbrev pub raw_attr : List ℕ → ℕ
raw_attr bytes = byte bytes 11

-- `is_end`
unfoldable pub is_end : List ℕ → Bool
is_end bytes = byte bytes 0 == 0x00

-- `is_valid`
unfoldable pub is_valid : List ℕ → Bool
unfolding is_end
is_valid bytes = not (is_end bytes) && not (byte bytes 0 == 0xE5)

-- `is_lfn`
unfoldable pub is_lfn : List ℕ → Bool
is_lfn bytes = Attributes.is_lfn (Attributes.create_from_fat (raw_attr bytes))

-- the start flag, the sequence number, the checksum and the 13 code units
pub record LfnContents : Type 0 where
  pub is_start : Bool
  pub sequence : ℕ
  pub csum : ℕ
  pub buffer : List ℕ

-- `lfn_contents`
unfoldable pub lfn_contents : List ℕ → Option LfnContents
unfolding is_lfn
lfn_contents bytes =
    if is_lfn bytes
    then some (record {
      is_start = not (bit_and (byte bytes 0) 0x40 == 0);
      sequence = bit_and (byte bytes 0) 0x1F;
      csum = byte bytes 13;
      buffer =
          read_u16 bytes 1
          ∷ read_u16 bytes 3
          ∷ read_u16 bytes 5
          ∷ read_u16 bytes 7
          ∷ read_u16 bytes 9
          ∷ read_u16 bytes 14
          ∷ read_u16 bytes 16
          ∷ read_u16 bytes 18
          ∷ read_u16 bytes 20
          ∷ read_u16 bytes 22
          ∷ read_u16 bytes 24
          ∷ read_u16 bytes 28
          ∷ read_u16 bytes 30
          ∷ [];
    })
    else none

-- `==` on two arrays of bytes
unfoldable pub equal_bytes : List ℕ → List ℕ → Bool
equal_bytes [] [] = true
equal_bytes [] (y ∷ ys) = false
equal_bytes (x ∷ xs) [] = false
equal_bytes (x ∷ xs) (y ∷ ys) = if x == y then equal_bytes xs ys else false

-- `matches`
unfoldable pub matches : List ℕ → ShortFileName → Bool
matches bytes sfn = equal_bytes (take 11 bytes) sfn

-- `first_cluster_fat32` and `first_cluster_fat16`
pub first_cluster : FatType → List ℕ → ClusterId
first_cluster fat32 bytes = bit_or (read_u16 bytes 20 * 2 ^ 16) (read_u16 bytes 26)
first_cluster fat16 bytes = read_u16 bytes 26

-- `get_entry`
unfoldable pub get_entry : FatType → ℕ → ℕ → List ℕ → DirEntry
unfolding first_cluster
get_entry fat_type entry_block entry_offset bytes =
    let attributes = Attributes.create_from_fat (raw_attr bytes) in
    let cluster = first_cluster fat_type bytes in
    record {
      name = take 11 bytes;
      mtime = from_fat (read_u16 bytes 24) (read_u16 bytes 22);
      ctime = from_fat (read_u16 bytes 16) (read_u16 bytes 14);
      attributes = attributes;
      cluster =
          if (cluster == Cluster.empty) && Attributes.is_directory attributes
          then Cluster.root_dir
          else cluster;
      size = read_u32 bytes 28;
      entry_block = entry_block;
      entry_offset = entry_offset;
    }
