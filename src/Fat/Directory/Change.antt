-- ===== src/Fat/Directory/Change.antt =====
-- embedded-sdmmc/src/fat/volume.rs: what is written into directories. The clock is the caller's: the
-- answer to the first, second, ... call of `get_timestamp` is a parameter.
pub mod Slots
pub mod Effects
use embedded_sdmmc_rs.Common.{
  ℕ, zero, suc, ◌+◌, ◌*◌, Bool, true, false, List, [], ◌∷◌, Option, none, some,
}
use embedded_sdmmc_rs.Common.{ltb, leb, ◌==◌, if◌then◌else◌, set}
use embedded_sdmmc_rs.Common.Bytes.{put_bytes}
use embedded_sdmmc_rs.Common.Action
use embedded_sdmmc_rs.Common.Action.{
  Action, Result, ok, err, panic, Error, lift, raise, pure, gets, match_result, not_found,
  not_enough_space, ◌>>=◌, ◌>>◌,
}
use embedded_sdmmc_rs.Block.{BlockDevice, BlockIter, next, range}
use embedded_sdmmc_rs.Cache.{BlockCache, read, modify_block, blank_mut, write_back}
use embedded_sdmmc_rs.Filesystem.Cluster
use embedded_sdmmc_rs.Filesystem.Cluster.{ClusterId}
use embedded_sdmmc_rs.Filesystem.Attributes.{Attributes}
use embedded_sdmmc_rs.Filesystem.Timestamp.{Timestamp}
use embedded_sdmmc_rs.Filesystem.Filename.{ShortFileName, this_dir, parent_dir}
use embedded_sdmmc_rs.Filesystem.DirEntry.{DirEntry, new_entry, serialize}
use embedded_sdmmc_rs.Fat.Volume.{FatVolume, get_fat_type, FatSpecificInfo, cluster_to_block}
use embedded_sdmmc_rs.Fat.Table.{next_cluster}
use embedded_sdmmc_rs.Fat.Alloc.{Mounted, with_volume, alloc_cluster, zero_blocks}
use embedded_sdmmc_rs.Fat.OnDisk.{is_end, is_valid, matches}
use embedded_sdmmc_rs.Fat.Directory.{
  chunk, entries_per_block, walk, walk_fuel, start_of, first_block_of, dir_size_of, ends_at,
  next_or_none,
}

-- The first entry of a block that is free: `n` entries are left, from entry `i` on.
unfoldable pub free_slot : ℕ → ℕ → List ℕ → Option ℕ
free_slot zero i block = none
free_slot (suc n) i block = if is_valid (chunk i block) then free_slot n (i + 1) block else some i

-- The first entry of a block with the name, before the end mark.
unfoldable pub named_slot : ℕ → ℕ → ShortFileName → List ℕ → Option ℕ
named_slot zero i name block = none
named_slot (suc n) i name block =
    if is_end (chunk i block)
    then none
    else if matches (chunk i block) name
    then some i
    else named_slot n (i + 1) name block

-- the two entries of a new directory, in its first block
pub dot_entries : FatVolume → ClusterId → ClusterId → Attributes → Timestamp → List ℕ → List ℕ
dot_entries v cluster parent att now block =
    let start = cluster_to_block v cluster in
    let parent_cluster = if parent == Cluster.root_dir then Cluster.empty else parent in
    let this : DirEntry = record {
      name = this_dir;
      mtime = now;
      ctime = now;
      attributes = att;
      cluster = cluster;
      size = 0;
      entry_block = start;
      entry_offset = 0;
    } in
    let up : DirEntry = record this {
      name = parent_dir;
      cluster = parent_cluster;
      entry_offset = 32;
    } in
    put_bytes (put_bytes block 0 (serialize this (get_fat_type v))) 32
      (serialize up (get_fat_type v))

module _ {D : Type 0} ⦃dev : BlockDevice D⦄ where
  -- an action on the cache of a mounted volume
  abbrev pub cached : {A : Type 0} → Action (BlockCache D) A → Action (Mounted D) A
  cached m = with_volume (λ v. m)

  -- the body of the loop over blocks in `write_new_directory_entry`
  pub fill_slot :
      FatVolume
      → ShortFileName
      → Attributes
      → Timestamp
      → ℕ
      → Action (BlockCache D) (Option DirEntry)
  unfolding free_slot
  fill_slot v name attributes ctime idx = do
    block ← read idx
    elim (free_slot entries_per_block 0 block) [
      | none ↦ pure none
      | some i ↦
          let entry = new_entry name attributes Cluster.empty ctime idx (i * 32) in
          do
            modify_block (λ b. put_bytes b (i * 32) (serialize entry (get_fat_type v)))
            write_back
            pure (some entry)
    ]

  -- The next cluster of a directory that may grow: the chain is made longer at its end.
  grow_at_end : FatVolume → ClusterId → Error → Action (Mounted D) (Option (ClusterId × ℕ))
  grow_at_end v cluster Action.end_of_file = do
    c ← alloc_cluster (some cluster) true
    pure (some (c, cluster_to_block v c))
  grow_at_end v cluster e = pure none

  next_or_grow :
      FatVolume → FatSpecificInfo → ClusterId → Action (Mounted D) (Option (ClusterId × ℕ))
  unfolding grow_at_end
  next_or_grow v i cluster =
      if ends_at i cluster
      then pure none
      else match_result (with_volume (λ v. next_cluster v cluster))
          (λ n. pure (some (n, cluster_to_block v n))) (grow_at_end v cluster)

  -- `write_new_directory_entry`: the walk may visit one cluster more than the chain had
  pub write_new_directory_entry :
      (ℕ → Timestamp) → ClusterId → ShortFileName → Attributes → Action (Mounted D) DirEntry
  unfolding fill_slot next_or_grow
  write_new_directory_entry time_source dir_cluster name attributes = do
    v ← gets (λ s. s.volume)
    let i = v.fat_specific_info
    out ←
        walk (suc (walk_fuel v)) (start_of i dir_cluster) (first_block_of v i dir_cluster)
          (dir_size_of v i dir_cluster)
          (λ idx. cached (fill_slot v name attributes (time_source 0) idx)) (next_or_grow v i)
    elim out [ none ↦ raise not_enough_space | some entry ↦ pure entry ]

  -- `delete_entry_in_block`
  pub delete_entry_in_block : ShortFileName → ℕ → Action (BlockCache D) (Unit {0})
  unfolding named_slot
  delete_entry_in_block match_name idx = do
    block ← read idx
    elim (named_slot entries_per_block 0 match_name block) [
      | none ↦ raise not_found
      | some i ↦ modify_block (λ b. set b (i * 32) 0xE5) >> write_back
    ]

  -- `Err(Error::NotFound)` carries on; any other error ends the walk
  skip_not_found : Error → Action (BlockCache D) (Option (Unit {0}))
  skip_not_found Action.not_found = pure none
  skip_not_found e = raise e

  -- `delete_directory_entry`
  pub delete_directory_entry :
      FatVolume → ClusterId → ShortFileName → Action (BlockCache D) (Unit {0})
  unfolding delete_entry_in_block skip_not_found
  delete_directory_entry v dir match_name = do
    let i = v.fat_specific_info
    out ←
        walk (walk_fuel v) (start_of i dir) (first_block_of v i dir) (dir_size_of v i dir)
          (λ idx.
            match_result (delete_entry_in_block match_name idx) (λ _. pure (some tt))
              skip_not_found)
          (next_or_none v i)
    elim out [ none ↦ raise not_found | some _ ↦ pure tt ]

  -- `write_entry_to_disk`, which panics if the entry does not lie in its block
  pub write_entry_to_disk : FatVolume → DirEntry → Action (BlockCache D) (Unit {0})
  write_entry_to_disk v entry = do
    block ← read entry.entry_block
    if leb (entry.entry_offset + 32) 512
        then (modify_block (λ b. put_bytes b entry.entry_offset (serialize entry (get_fat_type v)))
            >> write_back)
        else lift panic

  -- the cluster of a directory that was just entered in its parent
  first_cluster_of : DirEntry → Action (Mounted D) ClusterId
  unfolding write_entry_to_disk
  first_cluster_of entry =
      if entry.cluster == Cluster.empty
      then (do
        c ← alloc_cluster none false
        with_volume (λ v. write_entry_to_disk v (record entry { cluster = c }))
        pure c)
      else pure entry.cluster

  -- `make_dir`
  pub make_dir :
      (ℕ → Timestamp) → ClusterId → ShortFileName → Attributes → Action (Mounted D) (Unit {0})
  unfolding write_new_directory_entry first_cluster_of dot_entries
  make_dir time_source parent sfn att = do
    entry ← write_new_directory_entry time_source parent sfn att
    cluster ← first_cluster_of entry
    v ← gets (λ s. s.volume)
    let start = cluster_to_block v cluster
    cached (blank_mut start)
    cached (modify_block (dot_entries v cluster parent att (time_source 1)))
    cached write_back
    cached (zero_blocks (suc v.blocks_per_cluster) (next (range start v.blocks_per_cluster)).1)
