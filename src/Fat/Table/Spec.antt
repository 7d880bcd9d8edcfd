-- ===== src/Fat/Table/Spec.antt =====
-- The File Allocation Table as the disk holds it: which entries a volume has, where they lie, and
-- what they say, with no cache and no wrap-around.
use embedded_sdmmc_rs.Common.{ℕ, ◌+◌, ◌*◌, ◌/◌, ◌%◌, ◌<◌, ◌≤◌, ◌≡◌, List, Option, none, some, ◌^◌}
use embedded_sdmmc_rs.Common.{u32_mod, length}
use embedded_sdmmc_rs.Common.Bytes.{read_u16, read_u32}
use embedded_sdmmc_rs.Common.Action.{Result}
use embedded_sdmmc_rs.Filesystem.Cluster.{ClusterId}
use embedded_sdmmc_rs.Fat.Volume.{FatVolume, FatSpecificInfo, fat16_info, fat32_info}
use embedded_sdmmc_rs.Fat.Table.{encode16, encode32, decode16, decode32}
use embedded_sdmmc_rs.Cache.View.{Blocks}

-- bytes of an entry
abbrev pub entry_size : FatSpecificInfo → ℕ
entry_size (fat16_info _) = 2
entry_size (fat32_info _) = 4

-- blocks of a table: as many as hold the entries of all clusters and of the two reserved ones
abbrev pub table_blocks : FatVolume → FatSpecificInfo → ℕ
table_blocks v i = ((v.cluster_count + 2) * entry_size i + 511) / 512

-- The entry lies in the blocks of the table. The last block has room for entries past the last
-- cluster.
abbrev pub InTable : FatVolume → FatSpecificInfo → ClusterId → Type 0
InTable v i c = c * entry_size i < table_blocks v i * 512

-- The first table ends inside the 32-bit block numbers, and so does the second, which starts
-- behind it.
abbrev pub SecondFits : FatVolume → FatSpecificInfo → Option ℕ → Type 0
SecondFits v i none = Unit
SecondFits v i (some start) =
    (v.fat_start + table_blocks v i ≤ start) × (v.lba_start + start + table_blocks v i ≤ u32_mod)

pub record IsPlaced (v : FatVolume) (i : FatSpecificInfo) : Type 0 where
  pub count_small : v.cluster_count < 0x0FFF_FFF5
  pub first_fits : v.lba_start + v.fat_start + table_blocks v i ≤ u32_mod
  pub second_fits : SecondFits v i v.second_fat_start

-- Every block of a disk has 512 bytes.
abbrev pub HasBlocks : Blocks → Type 0
HasBlocks d = (j : ℕ) → length (d j) ≡ 512

-- the block of an entry, and the entry, in the table that starts at block `start`
abbrev pub entry_block : ℕ → FatSpecificInfo → ClusterId → ℕ
entry_block start i c = start + c * entry_size i / 512

abbrev pub entry_in : FatSpecificInfo → List ℕ → ClusterId → ℕ
entry_in (fat16_info _) b c = read_u16 b (c * 2 % 512)
entry_in (fat32_info _) b c = read_u32 b (c * 4 % 512) % 2 ^ 28

abbrev pub entry : FatVolume → FatSpecificInfo → Blocks → ClusterId → ℕ
entry v i d c = entry_in i (d (entry_block (v.lba_start + v.fat_start) i c)) c

-- what an entry says of the cluster's successor, and the entry that stands for a cluster id
abbrev pub decode : FatSpecificInfo → ℕ → Result ClusterId
decode (fat16_info _) = decode16
decode (fat32_info _) = decode32

abbrev pub encode : FatSpecificInfo → ClusterId → ℕ
encode (fat16_info _) c = encode16 c
encode (fat32_info _) c = encode32 c % 2 ^ 28
