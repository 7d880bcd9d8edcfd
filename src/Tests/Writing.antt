-- ===== src/Tests/Writing.antt =====
-- The theorem on writing, on the file of Reading: fourteen bytes from byte 500 on, of which twelve
-- fit into the first block.
use embedded_sdmmc_rs.Common.{
  ℕ, ◌+◌, ◌/◌, ◌%◌, ◌<◌, ◌≡◌, ◌≢◌, ◌⊎◌, inl, inr, refl, ap₂, ◌∙◌, arith, List, [], ◌∷◌,
}
use embedded_sdmmc_rs.Block.{add_blocks}
use embedded_sdmmc_rs.Fat.Volume.{bytes_per_cluster, cluster_to_block}
use embedded_sdmmc_rs.Manager.{get_file_by_id, get_volume_by_id}
use embedded_sdmmc_rs.Manager.Files.{is_mode_read_only}
use embedded_sdmmc_rs.Manager.Transfer.Locate.{location, nth_cluster}
use embedded_sdmmc_rs.Manager.Write.{write_file}
use embedded_sdmmc_rs.Manager.Write.Splice.{IsApart}
use embedded_sdmmc_rs.Manager.Write.Whole.{HasWrittenAll, write_file-HasWrittenAll}
use embedded_sdmmc_rs.Tests.Disk.{small_volume}
use embedded_sdmmc_rs.Common.Action.{ok}
use embedded_sdmmc_rs.Cache.View.{Blocks}
use embedded_sdmmc_rs.Manager.{Manager}
use embedded_sdmmc_rs.Tests.Disk.{memory, memory_works, disk}
use embedded_sdmmc_rs.Tests.Values.{some_day}
use embedded_sdmmc_rs.Tests.Reading.{rest, info, file, manager, file-HasClusters, manager-IsReading}

abbrev bytes : List ℕ
bytes = 1 ∷ 2 ∷ 3 ∷ 4 ∷ 5 ∷ 6 ∷ 7 ∷ 8 ∷ 9 ∷ 10 ∷ 11 ∷ 12 ∷ 13 ∷ 14 ∷ []

below_three : (q : ℕ) → q < 3 → (q ≡ 0) ⊎ ((q ≡ 1) ⊎ (q ≡ 2))
below_three q lt = ground arith

-- the blocks of the file: 36, 37 and 39
block_of_offset :
    (o : ℕ) → o < 1300 → (location small_volume 2 rest o).block_idx ≡ 36 + o / 512 + o / 512 / 2
unfolding bytes_per_cluster cluster_to_block
block_of_offset o lt =
    let at : ℕ → ℕ → ℕ =
      λ k r. add_blocks (cluster_to_block small_volume (nth_cluster 2 rest k)) r in
    let start : o % 512 / 512 ≡ 0 = omega arith in
    elim (below_three (o / 512) (omega arith)) [
      | inl e ↦ ap₂ at e start ∙ omega (arith, e)
      | inr (inl e) ↦ ap₂ at e start ∙ omega (arith, e)
      | inr (inr e) ↦ ap₂ at e start ∙ omega (arith, e)
    ]

file-IsApart : IsApart small_volume 2 rest 1300
file-IsApart = record {
  different = λ o p lt lt' same. omega (arith, block_of_offset o lt, block_of_offset p lt', same);
  outside = λ o x lt table same. absurd (omega (arith, block_of_offset o lt, table, same));
}

table_outside : (p : ℕ) → p < 1300 → (location small_volume 2 rest p).block_idx ≢ 2
table_outside p lt same = omega (arith, block_of_offset p lt, same)

write_file-HasWrittenAll_example :
    (s : Manager Blocks) × (write_file (λ k. some_day) 5002 bytes manager ≡ (ok tt, s))
    × HasWrittenAll memory_works 0 0 info 2 rest 1 disk file bytes 1300 2 s
unfolding get_file_by_id get_volume_by_id is_mode_read_only
write_file-HasWrittenAll_example =
    write_file-HasWrittenAll memory_works 0 0 info 2 rest 1 (λ k. some_day) disk 5002 bytes 1300 2
      manager file file-HasClusters file-IsApart table_outside manager-IsReading refl refl refl
      (omega arith) (omega arith)
