-- ===== src/Tests/Table.antt =====
-- The theorems on the table and its allocation, on the volume of Disk.
use embedded_sdmmc_rs.Common.{◌≡◌, ◌≢◌, refl, arith, ◌==◌, if◌then◌else◌}
use embedded_sdmmc_rs.Common.{false, [], ◌∷◌, none, some}
use embedded_sdmmc_rs.Common.Action.{ok}
use embedded_sdmmc_rs.Common.Bytes.{read_u16}
use embedded_sdmmc_rs.Cache.View.{blocks, Yields}
use embedded_sdmmc_rs.Filesystem.Cluster
use embedded_sdmmc_rs.Filesystem.Cluster.{ClusterId}
use embedded_sdmmc_rs.Fat.Volume.{FatSpecificInfo}
use embedded_sdmmc_rs.Fat.Table.{decode16, next_cluster, update_fat}
use embedded_sdmmc_rs.Fat.Table.Spec.{entry, encode, decode, InTable}
use embedded_sdmmc_rs.Fat.Table.Lookup.{next_cluster-Yields}
use embedded_sdmmc_rs.Fat.Table.Update.{update_fat-entry}
use embedded_sdmmc_rs.Fat.Table.ReadBack.{next_cluster-update_fat, link}
use embedded_sdmmc_rs.Fat.Alloc.{
  truncate_cluster_chain, alloc_cluster, earlier_hint, find_next_free_cluster,
}
use embedded_sdmmc_rs.Fat.Alloc.Search.{Searched, find_next_free_cluster-Searched}
use embedded_sdmmc_rs.Fat.Alloc.Chain.{
  IsChain, add_free, truncate_cluster_chain_lem, contains, table, rehint,
}
use embedded_sdmmc_rs.Fat.Alloc.Allocate.{alloc_cluster_lem, linked}
use embedded_sdmmc_rs.Tests.Disk.{
  memory, memory_works, small_volume, mounted, cache, placed, ready, coherent, has_blocks, disk,
}

abbrev info : FatSpecificInfo
info = small_volume.fat_specific_info

next_cluster-Yields_example :
    Yields memory_works
      (next_cluster small_volume 2 cache)
      (decode info (entry small_volume info disk 2))
      disk
next_cluster-Yields_example =
    next_cluster-Yields memory_works small_volume 2 cache placed (omega arith) coherent

update_fat-entry_example :
    let out = update_fat small_volume 4 3 cache in
    (out.0 ≡ ok tt)
    × (entry small_volume info (blocks memory_works out.1) 5
        ≡ (if 4 == 5 then encode info 3 else entry small_volume info disk 5))
update_fat-entry_example =
    update_fat-entry memory_works small_volume 4 3 5 cache placed has_blocks coherent (omega arith)
      (omega arith)

next_cluster-update_fat_example :
    (next_cluster small_volume 4 (update_fat small_volume 4 7 cache).1).0
    ≡ (if 4 == 4 then ok 7 else (next_cluster small_volume 4 cache).0)
next_cluster-update_fat_example =
    next_cluster-update_fat memory_works small_volume 4 4 (link 7) cache placed has_blocks coherent
      (omega arith) (omega arith) (omega arith)

find_next_free_cluster-Searched_example :
    Searched small_volume info disk 3 10 (find_next_free_cluster small_volume 3 10 cache).0
find_next_free_cluster-Searched_example =
    find_next_free_cluster-Searched memory_works small_volume 3 10 cache placed (omega arith)
      coherent

truncate_cluster_chain_example :
    let out = truncate_cluster_chain 2 mounted in
    (out.0 ≡ ok tt)
    × (entry small_volume info (blocks memory_works out.1.cache) 3 ≡ (
        if contains (3 ∷ 5 ∷ []) 3
        then 0
        else if 2 == 3
        then encode info Cluster.end_of_file
        else table memory_works mounted 3))
    × (out.1.volume ≡ rehint small_volume (add_free 1 (some 5)) (earlier_hint none 3))
unfolding read_u16 decode16 contains
truncate_cluster_chain_example =
    truncate_cluster_chain_lem memory_works mounted 2 3 3 (5 ∷ []) ready (omega arith) chain
      (omega arith) (omega arith)
  where
    chain : IsChain small_volume disk 2 (3 ∷ 5 ∷ [])
    chain = (omega arith, refl, refl, (omega arith, refl, refl, (omega arith, refl)))

alloc_cluster_example :
    let out = alloc_cluster (some 5) false mounted in
    (c : ClusterId) × (out.0 ≡ ok c)
    × (table memory_works mounted c ≡ 0)
    × InTable small_volume info c
    × (entry small_volume info (blocks memory_works out.1.cache) 5
        ≡ linked info
            (some 5)
            c
            5
            (if c == 5 then encode info Cluster.end_of_file else table memory_works mounted 5))
unfolding read_u16
alloc_cluster_example =
    alloc_cluster_lem memory_works mounted (some 5) 4 6 5 ready (omega arith, used) (omega arith)
      (omega arith) (omega arith) refl refl (omega arith)
  where
    used : table memory_works mounted 5 ≢ 0
    used e = omega arith
