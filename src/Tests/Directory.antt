-- ===== src/Tests/Directory.antt =====
-- The theorems on directories and long names, on the volume of Disk: the directory at cluster 2
-- holds the file "TXT.TXT".
use embedded_sdmmc_rs.Common.{
  ℕ, zero, suc, ◌+◌, ◌*◌, ◌<◌, ◌≤◌, ◌≡◌, refl, arith, inr, true, false, List, [], ◌∷◌, Option, none,
  some, replicate,
}
use embedded_sdmmc_rs.Common.Bytes.{byte, read_u16}
use embedded_sdmmc_rs.Common.Action.{ok, err, panic, not_found}
use embedded_sdmmc_rs.Cache.View.{blocks, Yields}
use embedded_sdmmc_rs.Filesystem.Cluster
use embedded_sdmmc_rs.Filesystem.Filename.{ShortFileName}
use embedded_sdmmc_rs.Filesystem.LfnBuffer.{LfnBuffer, push, is_surrogate}
use embedded_sdmmc_rs.Filesystem.LfnBuffer.Storing.{HasRoom}
use embedded_sdmmc_rs.Filesystem.LfnBuffer.Overflow.{push-ok, push-panic, IsPlain}
use embedded_sdmmc_rs.Filesystem.DirEntry.{DirEntry, new_entry}
use embedded_sdmmc_rs.Fat.Volume.{get_fat_type, cluster_to_block}
use embedded_sdmmc_rs.Fat.Table.{decode16}
use embedded_sdmmc_rs.Fat.Alloc.Chain.{IsChain, contains}
use embedded_sdmmc_rs.Fat.OnDisk.{matches, is_end, is_valid, get_entry, equal_bytes}
use embedded_sdmmc_rs.Fat.OnDisk.RoundTrip.{restored}
use embedded_sdmmc_rs.Fat.Directory.{
  chunk, start_of, type_of, found_or, find_directory_entry, iterate_dir_internal, continue,
  ControlFlow,
}
use embedded_sdmmc_rs.Fat.Directory.Listing.{chain_items, first_named, outcome_of, IsAddressable}
use embedded_sdmmc_rs.Fat.Directory.Find.{
  find_directory_entry_lem, iterate_dir_internal-Iterated, Iterated,
}
use embedded_sdmmc_rs.Fat.Directory.Change.{
  named_slot, fill_slot, delete_entry_in_block, write_entry_to_disk,
}
use embedded_sdmmc_rs.Fat.Directory.Change.Effects.{
  delete_entry_in_block_lem, delete_entry_in_block-none, fill_slot_lem, write_entry_to_disk_lem,
}
use embedded_sdmmc_rs.Tests.Disk.{
  memory, memory_works, small_volume, cache, placed, coherent, has_blocks, disk, txt_name,
}
use embedded_sdmmc_rs.Tests.Values.{some_day, some_day-IsDate, file_entry}

pub chain : IsChain small_volume disk 2 (3 ∷ 5 ∷ [])
unfolding read_u16 decode16 contains
chain = (omega arith, refl, refl, (omega arith, refl, refl, (omega arith, refl)))

addressable : IsAddressable small_volume 1 2 (3 ∷ 5 ∷ [])
unfolding cluster_to_block
addressable = (omega arith, (omega arith, omega arith))

find_directory_entry_example :
    (find_directory_entry small_volume 2 txt_name cache).0
    ≡ found_or (
        first_named txt_name
          (chain_items small_volume
            (type_of small_volume.fat_specific_info)
            disk
            1
            2
            (3 ∷ 5 ∷ [])).0)
unfolding start_of
find_directory_entry_example =
    find_directory_entry_lem memory_works small_volume 2 txt_name (3 ∷ 5 ∷ []) cache placed coherent
      chain addressable (omega arith)

-- a closure that counts
abbrev count : DirEntry → List ℕ → ℕ → ControlFlow × ℕ
count entry bytes n = (continue, n + 1)

iterate_dir_internal-Iterated_example :
    Iterated memory_works
      (iterate_dir_internal small_volume 2 count (record { cache = cache; seen = 0 }))
      (outcome_of count
        (chain_items small_volume (type_of small_volume.fat_specific_info) disk 1 2 (3 ∷ 5 ∷ []))
        0).1
      disk
unfolding start_of
iterate_dir_internal-Iterated_example =
    iterate_dir_internal-Iterated memory_works small_volume 2 count (3 ∷ 5 ∷ [])
      (record { cache = cache; seen = 0 }) placed coherent chain addressable (omega arith)

delete_entry_in_block_example :
    let out = delete_entry_in_block txt_name 36 cache in
    (out.0 ≡ ok tt)
    × (matches (chunk 0 (disk 36)) txt_name ≡ true)
    × (is_valid (chunk 0 (blocks memory_works out.1 36)) ≡ false)
    × (is_end (chunk 0 (blocks memory_works out.1 36)) ≡ false)
    × (chunk 1 (blocks memory_works out.1 36) ≡ chunk 1 (disk 36))
    × (blocks memory_works out.1 37 ≡ disk 37)
unfolding named_slot is_end matches equal_bytes
delete_entry_in_block_example =
    delete_entry_in_block_lem memory_works txt_name 36 0 1 37 cache coherent has_blocks refl
      (omega arith) (omega arith)

-- a property of the one number below 1
only_first : (P : ℕ → Type 0) → P 0 → (j : ℕ) → j < 1 → P j
only_first P h zero lt = h
only_first P h (suc j) lt = absurd (omega arith)

abbrev absent_name : ShortFileName
absent_name = replicate 11 0x41

delete_entry_in_block-none_example :
    Yields memory_works (delete_entry_in_block absent_name 36 cache) (err not_found) disk
unfolding is_end matches equal_bytes
delete_entry_in_block-none_example =
    delete_entry_in_block-none memory_works absent_name 36 1 cache coherent (omega arith)
      (only_first (λ j. matches (chunk j (disk 36)) absent_name ≡ false) refl) (inr refl)

fill_slot_example :
    let out = fill_slot small_volume txt_name 0x20 some_day 36 cache in
    let e = new_entry txt_name 0x20 Cluster.empty some_day 36 (1 * 32) in
    (out.0 ≡ ok (some e))
    × (get_entry (get_fat_type small_volume) 36 (1 * 32) (chunk 1 (blocks memory_works out.1 36))
        ≡ restored e)
    × (chunk 0 (blocks memory_works out.1 36) ≡ chunk 0 (disk 36))
    × (blocks memory_works out.1 37 ≡ disk 37)
unfolding is_valid is_end
fill_slot_example =
    fill_slot_lem memory_works small_volume txt_name 0x20 some_day 36 1 0 37 cache coherent
      has_blocks (omega arith) (only_first (λ j. is_valid (chunk j (disk 36)) ≡ true) refl) refl
      refl some_day-IsDate (omega arith) (omega arith)

abbrev small_file : DirEntry
small_file = record file_entry { cluster = 7; entry_block = 36; entry_offset = 32 }

write_entry_to_disk_example :
    let out = write_entry_to_disk small_volume small_file cache in
    (out.0 ≡ ok tt)
    × (get_entry (get_fat_type small_volume) 36 32 (chunk 1 (blocks memory_works out.1 36))
        ≡ restored small_file)
    × (chunk 0 (blocks memory_works out.1 36) ≡ chunk 0 (disk 36))
    × (blocks memory_works out.1 37 ≡ disk 37)
unfolding get_fat_type
write_entry_to_disk_example =
    write_entry_to_disk_lem memory_works small_volume small_file 1 0 37 cache coherent has_blocks
      (record {
        name = refl;
        modified = some_day-IsDate;
        created = some_day-IsDate;
        cluster = omega arith;
        size = omega arith;
      })
      refl (omega arith) (omega arith) (omega arith)

abbrev letters : List ℕ
letters = replicate 13 0x41

abbrev buffer : Option ℕ → LfnBuffer
buffer o = record { inner = replicate 64 0; free = 64; overflow = false; unpaired_surrogate = o }

push-ok_example :
    (c : LfnBuffer) × (push letters (buffer none) ≡ (ok tt, c))
    × HasRoom c
    × (c.free ≤ 64)
    × ((i : ℕ) → 64 ≤ i → byte c.inner i ≡ byte (buffer none).inner i)
push-ok_example =
    push-ok letters (buffer none) (omega arith)
      (record { inside = omega arith; small = omega arith }) refl

letters-IsPlain : IsPlain letters
unfolding is_surrogate
letters-IsPlain = (
  omega arith,
  refl,
  (
    omega arith,
    refl,
    (
      omega arith,
      refl,
      (
        omega arith,
        refl,
        (
          omega arith,
          refl,
          (
            omega arith,
            refl,
            (
              omega arith,
              refl,
              (
                omega arith,
                refl,
                (
                  omega arith,
                  refl,
                  (
                    omega arith,
                    refl,
                    (omega arith, refl, (omega arith, refl, (omega arith, refl, tt))),
                  ),
                ),
              ),
            ),
          ),
        ),
      ),
    ),
  ),
)

push-panic_example : (push letters (buffer (some 0xDC00))).0 ≡ panic
unfolding is_surrogate
push-panic_example = push-panic letters (buffer (some 0xDC00)) 0xDC00 letters-IsPlain refl refl refl
