-- ===== src/Tests/Mounting.antt =====
-- The theorems on mounting and on positions in files.
use embedded_sdmmc_rs.Common.{
  ℕ, zero, suc, ◌+◌, ◌*◌, ◌<◌, ◌≤◌, ◌≡◌, refl, arith, inl, ◌==◌, ◌&&◌, ltb, Bool, true, false, List,
  [], ◌∷◌, ◌++◌, some, replicate,
}
use embedded_sdmmc_rs.Common.Bytes.{byte, IsBytes, read_u16, read_u32}
use embedded_sdmmc_rs.Common.Action.{ok}
use embedded_sdmmc_rs.Block.{from_bytes}
use embedded_sdmmc_rs.Cache.View.{blocks}
use embedded_sdmmc_rs.Filesystem.Files.{FileInfo, read_only, plus, minus, left, eof}
use embedded_sdmmc_rs.Filesystem.Files.Offset.{
  Seek, from_start, from_end, from_current, seek_all, seek_all_lem, IsInside,
}
use embedded_sdmmc_rs.Fat.Volume.{FatVolume, fat16, fat32_info, Fat32Info}
use embedded_sdmmc_rs.Fat.Mount.Layout.{HasLayout}
use embedded_sdmmc_rs.Fat.Mount.{
  Bpb, create_from_bytes, classify, total_blocks, non_data_blocks, fat_size, info_free_count,
  info_next_free, update_info_sector,
}
use embedded_sdmmc_rs.Fat.Mount.Geometry.{create_from_bytes_lem, update_info_sector_lem, IsTypeOf}
use embedded_sdmmc_rs.Tests.Disk.{
  memory, memory_works, small_volume, cache, coherent, has_blocks, disk,
}
use embedded_sdmmc_rs.Tests.Values.{file_entry}

-- a boot sector of a FAT16 volume of 10000 blocks
abbrev boot : List ℕ
boot =
    replicate 11 0
    ++ (0 ∷ 2 ∷ 1 ∷ 1 ∷ 0 ∷ 2 ∷ 0 ∷ 2 ∷ 0x10 ∷ 0x27 ∷ 0xF8 ∷ 40 ∷ 0 ∷ [])
    ++ replicate 486 0
    ++ (0x55 ∷ 0xAA ∷ [])

abbrev boot_bpb : Bpb
boot_bpb = record { bytes = boot; fat_type = fat16; cluster_count = 9887 }

boot-accepted : create_from_bytes boot ≡ ok boot_bpb
unfolding create_from_bytes classify total_blocks non_data_blocks fat_size from_bytes read_u16
boot-accepted = refl

-- every element is a byte, decided
all_bytes : List ℕ → Bool
all_bytes [] = true
all_bytes (x ∷ xs) = ltb x 256 && all_bytes xs

all_bytes-IsBytes : (xs : List ℕ) → all_bytes xs ≡ true → IsBytes xs
unfolding all_bytes
all_bytes-IsBytes [] h i = omega arith
all_bytes-IsBytes (x ∷ xs) h zero = ground arith
all_bytes-IsBytes (x ∷ xs) h (suc i) = all_bytes-IsBytes xs (ground arith) i

boot-IsBytes : IsBytes boot
unfolding all_bytes
boot-IsBytes = all_bytes-IsBytes boot refl

-- one reserved block, two tables of 40 blocks, and 512 entries in 32 blocks
boot-HasLayout : HasLayout boot 113 10000
unfolding read_u16
boot-HasLayout = record {
  fat_len = 40;
  root_blocks = 32;
  fat_field = inl (omega arith, refl);
  volume_field = inl (omega arith, refl);
  root_fits = omega arith;
  root_least = omega arith;
  data_area = refl;
}

create_from_bytes_example :
    (read_u16 boot 510 ≡ 0xAA55)
    × (113 + 9887 * byte boot 13 ≤ 10000)
    × (10000 < 113 + (9887 + 1) * byte boot 13)
    × IsTypeOf 9887 fat16
create_from_bytes_example =
    create_from_bytes_lem boot boot_bpb 113 10000 boot-accepted boot-IsBytes boot-HasLayout
      (omega arith) (omega arith)

abbrev info : Fat32Info
info = record { first_root_dir_cluster = 2; info_location = 40 }

abbrev volume32 : FatVolume
volume32 = record small_volume {
  free_clusters_count = some 5;
  next_free_cluster = some 7;
  fat_specific_info = fat32_info info;
}

update_info_sector_example :
    let out = update_info_sector volume32 cache in
    let before = disk 40 in
    let after = blocks memory_works out.1 40 in
    (out.0 ≡ ok tt)
    × (info_free_count after ≡ some 5)
    × (info_next_free after ≡ some 7)
    × (read_u32 after 0 ≡ read_u32 before 0)
    × (read_u32 after 484 ≡ read_u32 before 484)
    × (read_u32 after 508 ≡ read_u32 before 508)
update_info_sector_example =
    update_info_sector_lem memory_works volume32 info 5 7 cache coherent has_blocks refl refl refl
      (omega arith) (omega arith) (omega arith)

abbrev open_file : FileInfo
open_file = record {
  raw_file = 1;
  raw_volume = 0;
  cluster_offset = 0;
  current_cluster = 2;
  current_offset = 0;
  mode = read_only;
  entry = record file_entry { size = 100 };
  dirty = false;
}

abbrev seeks : List Seek
seeks = from_start 50 ∷ from_current (minus 70) ∷ from_current (plus 20) ∷ from_end 101 ∷ []

seek_all_example :
    let g = seek_all seeks open_file in
    IsInside g × (g.current_offset + left g ≡ g.entry.size) × (eof g ≡ (left g == 0))
seek_all_example = seek_all_lem seeks open_file (omega arith, omega arith)
