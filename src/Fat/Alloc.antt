-- ===== src/Fat/Alloc.antt =====
-- embedded-sdmmc/src/fat/volume.rs: the search for a free cluster, its allocation, and the
-- truncation of a cluster chain. The two arms of a match on the type of FAT that differ in the
-- width of an entry alone are one function of the type here.
pub mod Search
pub mod Chain
pub mod Allocate
use embedded_sdmmc_rs.Common.{
  ℕ, zero, suc, ◌+◌, ◌-◌, ◌%◌, Bool, true, false, List, Option, none, some,
}
use embedded_sdmmc_rs.Common.{ltb, leb, ◌==◌, if◌then◌else◌, add32, sub32, mul32, bit_and}
use embedded_sdmmc_rs.Common.Bytes.{read_u16, read_u32}
use embedded_sdmmc_rs.Common.Action
use embedded_sdmmc_rs.Common.Action.{
  Action, Result, ok, err, panic, no_fuel, Error, lift, raise, pure, gets, modify, match_result,
  zoom, not_enough_space, ◌>>=◌, ◌>>◌,
}
use embedded_sdmmc_rs.Block.{BlockDevice, BlockIter, next, range, add_blocks, offset_bytes}
use embedded_sdmmc_rs.Cache.{BlockCache, read, blank_mut, write_back}
use embedded_sdmmc_rs.Filesystem.Cluster
use embedded_sdmmc_rs.Filesystem.Cluster.{ClusterId, add_cluster}
use embedded_sdmmc_rs.Fat.Volume.{
  FatVolume, FatSpecificInfo, fat16_info, fat32_info, reserved_entries, cluster_to_block,
}
use embedded_sdmmc_rs.Fat.Table.{next_cluster, update_fat}
use embedded_sdmmc_rs.Fat.Table.Spec.{entry_size}

-- what the scan of one block of the table comes to
pub data Scan : Type 0 where
  found : ClusterId → Scan
  past : ClusterId → Scan
  unfinished : Scan

-- the entry at an offset of a block of the table
abbrev pub read_entry : FatSpecificInfo → List ℕ → ℕ → ℕ
read_entry (fat16_info _) block offset = read_u16 block offset
read_entry (fat32_info _) block offset = bit_and (read_u32 block offset) 0x0FFF_FFFF

-- the inner loop of `find_next_free_cluster`, to the end of the block, with fuel for its rounds
pub scan : FatSpecificInfo → ℕ → List ℕ → ℕ → ClusterId → Scan
scan i zero block offset current = unfinished
scan i (suc fuel) block offset current =
    let rest = scan i fuel block (offset + entry_size i) (add_cluster current 1) in
    if leb offset (512 - entry_size i)
    then if read_entry i block offset == 0 then found current else rest
    else past current

-- A block has 256 entries of FAT16, and the loop makes one more test.
abbrev pub scan_fuel : ℕ
scan_fuel = 257

-- A volume and the cache through which its blocks are reached: the state of the methods that
-- take `&mut self`.
pub record Mounted (D : Type 0) : Type 0 where
  pub volume : FatVolume
  pub cache : BlockCache D

-- the hint of the volume, if it lies before the end
start_cluster : Option ClusterId → ClusterId → ClusterId
start_cluster none last = reserved_entries
start_cluster (some c) last = if ltb c last then c else reserved_entries

one_less : Option ℕ → Option ℕ
one_less none = none
one_less (some n) = some (sub32 n 1)

-- the hint after a chain was cut before `next`
pub earlier_hint : Option ClusterId → ClusterId → Option ClusterId
earlier_hint none next = some next
earlier_hint (some c) next = if ltb next c then some next else some c

pub one_more : Option ℕ → Option ℕ
one_more none = none
one_more (some n) = some (add32 n 1)

-- the arm for `Err(Error::EndOfFile)`; any other error is passed on
if_end : {S : Type 0} → Error → Action S (Unit {0}) → Action S (Unit {0})
if_end Error.end_of_file m = m
if_end e m = raise e

module _ {D : Type 0} ⦃dev : BlockDevice D⦄ where
  -- what a round of the outer loop does after the scan of its block
  go_on : (ClusterId → Action (BlockCache D) ClusterId) → Scan → Action (BlockCache D) ClusterId
  go_on rest (found c) = pure c
  go_on rest (past c) = rest c
  go_on rest unfinished = lift no_fuel

  -- the outer loop, with fuel for its rounds
  pub search :
      ℕ → FatVolume → FatSpecificInfo → ClusterId → ClusterId → Action (BlockCache D) ClusterId
  unfolding go_on
  search zero v i current end_cluster = lift no_fuel
  search (suc fuel) v i current end_cluster =
      if ltb current end_cluster
      then (do
        let fat_offset = mul32 current (entry_size i)
        let this_fat_block_num = add_blocks v.lba_start (offset_bytes v.fat_start fat_offset)
        block ← read this_fat_block_num
        go_on (λ c. search fuel v i c end_cluster)
            (scan i scan_fuel block (fat_offset % 512) current))
      else raise not_enough_space

  -- `find_next_free_cluster`: each round of the outer loop passes at least one cluster
  pub find_next_free_cluster : FatVolume → ClusterId → ClusterId → Action (BlockCache D) ClusterId
  unfolding search
  find_next_free_cluster v start end_cluster =
      search (suc (end_cluster - start)) v v.fat_specific_info start end_cluster

  -- A method that takes the volume by a shared reference, on the state of one that does not.
  abbrev pub with_volume :
      {A : Type 0} → (FatVolume → Action (BlockCache D) A) → Action (Mounted D) A
  with_volume m s = let (r, c) = m s.volume s.cache in (r, record s { cache = c })

  -- the search from a cluster, tried once more from the first one if it fails
  pub find_wrapping : ClusterId → ClusterId → FatVolume → Action (BlockCache D) ClusterId
  find_wrapping start last v = match_result (find_next_free_cluster v start last) pure (λ e.
      if ltb reserved_entries start
      then find_next_free_cluster v reserved_entries last
      else raise e)

  link : Option ClusterId → ClusterId → FatVolume → Action (BlockCache D) (Unit {0})
  link none new_cluster v = pure tt
  link (some c) new_cluster v = update_fat v c new_cluster

  -- `for block_idx in range { blank_mut(block_idx); write_back()?; }`
  pub zero_blocks : ℕ → BlockIter → Action (BlockCache D) (Unit {0})
  zero_blocks zero it = lift no_fuel
  zero_blocks (suc fuel) it =
      let (item, it') = next it in
      elim item [ none ↦ pure tt | some idx ↦ do blank_mut idx; write_back; zero_blocks fuel it' ]

  zero_cluster : Bool → ClusterId → FatVolume → Action (BlockCache D) (Unit {0})
  zero_cluster false c v = pure tt
  zero_cluster true c v =
      zero_blocks (suc v.blocks_per_cluster) (range (cluster_to_block v c) v.blocks_per_cluster)

  -- the last part of `alloc_cluster`: it stores the next hint, counts, and zeroes the cluster
  pub note_allocated : Bool → ClusterId → ClusterId → Action (Mounted D) ClusterId
  unfolding one_less
  note_allocated zero_it new_cluster next_free = do
    modify (λ s. record s { volume = record s.volume { next_free_cluster = some next_free } })
    modify (λ s. record s {
      volume = record s.volume { free_clusters_count = one_less s.volume.free_clusters_count };
    })
    with_volume (zero_cluster zero_it new_cluster)
    pure new_cluster

  -- the part of `alloc_cluster` after its first search
  pub take_cluster : Option ClusterId → Bool → ClusterId → ClusterId → Action (Mounted D) ClusterId
  unfolding note_allocated
  take_cluster prev_cluster zero_it end_cluster new_cluster = do
    with_volume (λ v. update_fat v new_cluster Cluster.end_of_file)
    with_volume (link prev_cluster new_cluster)
    next_free ← with_volume (find_wrapping new_cluster end_cluster)
    note_allocated zero_it new_cluster next_free

  -- `alloc_cluster`
  pub alloc_cluster : Option ClusterId → Bool → Action (Mounted D) ClusterId
  unfolding start_cluster take_cluster
  alloc_cluster prev_cluster zero_it = do
    volume ← gets (λ s. s.volume)
    let end_cluster = add_cluster volume.cluster_count reserved_entries
    let start = start_cluster volume.next_free_cluster end_cluster
    new_cluster ← with_volume (find_wrapping start end_cluster)
    take_cluster prev_cluster zero_it end_cluster new_cluster

  -- the loop that frees the chain from `next` on, with fuel for its rounds
  pub free_chain : ℕ → ClusterId → Action (Mounted D) (Unit {0})
  unfolding if_end
  free_chain zero next = lift no_fuel
  free_chain (suc fuel) next =
      match_result (with_volume (λ v. next_cluster v next))
        (λ n. do
          with_volume (λ v. update_fat v next Cluster.empty)
          modify (λ s. record s {
            volume = record s.volume {
              free_clusters_count = one_more s.volume.free_clusters_count;
            };
          })
          free_chain fuel n)
        (λ e. if_end e (with_volume (λ v. update_fat v next Cluster.empty)))

  -- `truncate_cluster_chain`: a chain without a cycle has at most one round for each entry
  pub truncate_cluster_chain : ClusterId → Action (Mounted D) (Unit {0})
  unfolding if_end
  truncate_cluster_chain cluster =
      if ltb cluster reserved_entries
      then pure tt
      else match_result (with_volume (λ v. next_cluster v cluster))
          (λ next. do
            modify (λ s. record s {
              volume = record s.volume {
                next_free_cluster = earlier_hint s.volume.next_free_cluster next;
              };
            })
            with_volume (λ v. update_fat v cluster Cluster.end_of_file)
            volume ← gets (λ s. s.volume)
            free_chain (volume.cluster_count + 3) next)
          (λ e. if_end e (pure tt))
