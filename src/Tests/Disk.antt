-- ===== src/Tests/Disk.antt =====
-- A device in memory that does what `BlockDevice` documents, and a FAT16 volume of 8 clusters on
-- it: the directory that starts at cluster 2 goes on at cluster 3 and ends at 5, the others are free.
use embedded_sdmmc_rs.Common.{ℕ, refl, arith, Bool-cases, inl, inr, ◌==◌, if◌then◌else◌}
use embedded_sdmmc_rs.Common.{List, [], ◌∷◌, ◌++◌, none, some, replicate}
use embedded_sdmmc_rs.Block.{BlockDevice, done}
use embedded_sdmmc_rs.Cache.{BlockCache}
use embedded_sdmmc_rs.Cache.View.{Blocks, Working, IsCoherent, put_block}
use embedded_sdmmc_rs.Fat.Volume.{FatVolume, fat16_info}
use embedded_sdmmc_rs.Fat.Table.Spec.{IsPlaced, HasBlocks}
use embedded_sdmmc_rs.Fat.Alloc.{Mounted}
use embedded_sdmmc_rs.Fat.Alloc.Chain.{IsReady}

instance abbrev pub memory : BlockDevice Blocks
memory = record { read = λ b i d. (done, d i, d); write = λ b i d. (done, put_block d i b) }

abbrev pub memory_works : Working memory
memory_works = record {
  contents = λ d. d;
  read_done = λ b i d. refl;
  read_block = λ b i d. refl;
  read_keeps = λ b i d. refl;
  write_done = λ b i d. refl;
  write_block = λ b i d. refl;
}

abbrev pub table_block : List ℕ
table_block =
    (0xF8 ∷ 0xFF ∷ 0xFF ∷ 0xFF ∷ 3 ∷ 0 ∷ 5 ∷ 0 ∷ 0 ∷ 0 ∷ 0xFF ∷ 0xFF ∷ []) ++ replicate 500 0

-- "TXT.TXT"
abbrev pub txt_name : List ℕ
txt_name = (0x54 ∷ 0x58 ∷ 0x54 ∷ []) ++ replicate 5 32 ++ (0x54 ∷ 0x58 ∷ 0x54 ∷ [])

-- the first block of the directory at cluster 2: one file, "TXT.TXT"
abbrev pub directory_block : List ℕ
directory_block = txt_name ++ (0x20 ∷ []) ++ replicate 500 0

abbrev pub disk : Blocks
disk j = if j == 2 then table_block else if j == 36 then directory_block else replicate 512 0

abbrev pub small_volume : FatVolume
small_volume = record {
  lba_start = 1;
  num_blocks = 100;
  name = replicate 11 32;
  blocks_per_cluster = 1;
  first_data_block = 35;
  fat_start = 1;
  second_fat_start = some 2;
  free_clusters_count = some 5;
  next_free_cluster = none;
  cluster_count = 8;
  fat_specific_info = fat16_info (record { first_root_dir_block = 3; root_entries_count = 512 });
}

abbrev pub cache : BlockCache Blocks
cache = record { block_device = disk; block = replicate 512 0; block_idx = none }

abbrev pub mounted : Mounted Blocks
mounted = record { volume = small_volume; cache = cache }

pub placed : IsPlaced small_volume small_volume.fat_specific_info
placed = record {
  count_small = omega arith;
  first_fits = omega arith;
  second_fits = (omega arith, omega arith);
}

pub coherent : IsCoherent memory_works cache
coherent i h = cc

pub has_blocks : HasBlocks disk
has_blocks j = elim (Bool-cases (j == 2)) [
  | inl hit ↦ rw (hit, if◌then◌else◌) refl
  | inr miss ↦
      rw (miss, if◌then◌else◌)
        (elim (Bool-cases (j == 36)) [
          | inl hit ↦ rw (hit, if◌then◌else◌) refl
          | inr miss ↦ rw (miss, if◌then◌else◌) refl
        ])
]

pub ready : IsReady memory_works mounted
ready = record { placed = placed; coherent = coherent; full_blocks = has_blocks }
