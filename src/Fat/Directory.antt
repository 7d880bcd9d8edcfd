-- ===== src/Fat/Directory.antt =====
-- embedded-sdmmc/src/fat/volume.rs: the walk over the blocks of a directory, and what is read on
-- it. The loops of the FAT16 and FAT32 arms differ in where a directory starts and how it ends.
pub mod Change
pub mod Listing
pub mod Walk
pub mod Find
pub mod Lfn
pub mod ByLfn
use embedded_sdmmc_rs.Common.{
  ℕ, zero, suc, ◌+◌, ◌*◌, Bool, true, false, List, [], ◌∷◌, Option, none, some,
}
use embedded_sdmmc_rs.Common.{ltb, leb, ◌==◌, if◌then◌else◌, mul32, take, drop}
use embedded_sdmmc_rs.Common.Action.{
  Action, Result, ok, err, panic, no_fuel, Error, lift, raise, pure, gets, modify, match_result,
  zoom, not_found, ◌>>=◌, ◌>>◌,
}
use embedded_sdmmc_rs.Block.{BlockDevice, BlockIter, next, range, add_blocks, from_bytes}
use embedded_sdmmc_rs.Cache.{BlockCache, read}
use embedded_sdmmc_rs.Filesystem.Cluster
use embedded_sdmmc_rs.Filesystem.Cluster.{ClusterId}
use embedded_sdmmc_rs.Filesystem.Filename.{ShortFileName}
use embedded_sdmmc_rs.Filesystem.DirEntry.{DirEntry}
use embedded_sdmmc_rs.Fat.Volume.{
  FatVolume, FatType, fat16, fat32, FatSpecificInfo, fat16_info, fat32_info, Fat16Info, Fat32Info,
  cluster_to_block,
}
use embedded_sdmmc_rs.Fat.Table.{next_cluster}
use embedded_sdmmc_rs.Fat.OnDisk.{is_end, is_valid, get_entry, equal_bytes}

-- `core::ops::ControlFlow<()>`
pub data ControlFlow : Type 0 where
  continue break : ControlFlow

-- entry `i` of a block: `chunks_exact(OnDiskDirEntry::LEN)`
abbrev pub chunk : ℕ → List ℕ → List ℕ
chunk i block = take 32 (drop (i * 32) block)

-- entries of a block
abbrev pub entries_per_block : ℕ
entries_per_block = 16

-- The cache, and what the closure that is called for each entry has changed.
pub record Visit (D S : Type 0) : Type 0 where
  pub cache : BlockCache D
  pub seen : S

-- A closure: it is given an entry in both forms.
abbrev pub Visitor : Type 0 → Type 0
Visitor S = DirEntry → List ℕ → S → ControlFlow × S

module _ {X A : Type 0} where
  -- a loop goes on unless its body had a result
  abbrev pub unless_some : Option A → Action X (Option A) → Action X (Option A)
  unless_some none rest = rest
  unless_some (some a) rest = pure (some a)

  -- a round of the loop over blocks, given the iterator's next item
  abbrev pub block_round :
      Option ℕ × BlockIter
      → (BlockIter → Action X (Option A))
      → (ℕ → Action X (Option A))
      → Action X (Option A)
  block_round (none, it) rest body = pure none
  block_round (some idx, it) rest body = body idx >>= λ r. unless_some r (rest it)

  -- `for block_idx in range { ... }`, with a body that may end the whole walk with a result
  pub each_block : ℕ → BlockIter → (ℕ → Action X (Option A)) → Action X (Option A)
  each_block zero it body = lift no_fuel
  each_block (suc fuel) it body = block_round (next it) (λ it. each_block fuel it body) body

  -- a round of the loop over clusters, given what comes next
  abbrev pub walk_next :
      Option (ClusterId × ℕ) → (ClusterId → ℕ → Action X (Option A)) → Action X (Option A)
  walk_next none rest = pure none
  walk_next (some (c, b)) rest = rest c b

  -- the loop over the clusters of a directory, with fuel for its rounds: `after` says which
  -- cluster comes next, and its first block
  pub walk :
      ℕ
      → ClusterId
      → ℕ
      → ℕ
      → (ℕ → Action X (Option A))
      → (ClusterId → Action X (Option (ClusterId × ℕ)))
      → Action X (Option A)
  unfolding each_block
  walk zero cluster first_block size body after = lift no_fuel
  walk (suc fuel) cluster first_block size body after =
      each_block (suc size) (range first_block size) body >>= λ r.
      unless_some r (after cluster >>= λ n. walk_next n (λ c b. walk fuel c b size body after))

-- A chain without a cycle has at most one round for each entry of the table.
abbrev pub walk_fuel : FatVolume → ℕ
walk_fuel v = v.cluster_count + 3

-- the first cluster of the walk, its first block, and how many blocks are visited at a time
unfoldable pub start_of : FatSpecificInfo → ClusterId → ClusterId
start_of (fat16_info info) dir = dir
start_of (fat32_info info) dir =
    if dir == Cluster.root_dir then info.first_root_dir_cluster else dir

pub first_block_of : FatVolume → FatSpecificInfo → ClusterId → ℕ
unfolding start_of
first_block_of v (fat16_info info) dir =
    if dir == Cluster.root_dir
    then add_blocks v.lba_start info.first_root_dir_block
    else cluster_to_block v dir
first_block_of v (fat32_info info) dir = cluster_to_block v (start_of (fat32_info info) dir)

pub dir_size_of : FatVolume → FatSpecificInfo → ClusterId → ℕ
dir_size_of v (fat16_info info) dir =
    if dir == Cluster.root_dir
    then from_bytes (mul32 info.root_entries_count 32)
    else v.blocks_per_cluster
dir_size_of v (fat32_info info) dir = v.blocks_per_cluster

-- The root directory of FAT16 is no chain, and has no next cluster.
pub ends_at : FatSpecificInfo → ClusterId → Bool
ends_at (fat16_info info) cluster = cluster == Cluster.root_dir
ends_at (fat32_info info) cluster = false

pub type_of : FatSpecificInfo → FatType
type_of (fat16_info info) = fat16
type_of (fat32_info info) = fat32

-- the closure of `find_directory_entry`
pub match_entry : ShortFileName → DirEntry → Option DirEntry → ControlFlow × Option DirEntry
match_entry name entry seen =
    if equal_bytes entry.name name then (break, some entry) else (continue, seen)

-- the result of a search, from what it has found
pub found_or : Option DirEntry → Result DirEntry
found_or none = err not_found
found_or (some entry) = ok entry

module _ {D : Type 0} ⦃dev : BlockDevice D⦄ where
  -- The next cluster of a walk that changes nothing: any error ends it.
  pub next_or_none :
      FatVolume → FatSpecificInfo → ClusterId → Action (BlockCache D) (Option (ClusterId × ℕ))
  unfolding ends_at
  next_or_none v i cluster =
      if ends_at i cluster
      then pure none
      else match_result (next_cluster v cluster) (λ n. pure (some (n, cluster_to_block v n)))
          (λ e. pure none)

  module _ {S : Type 0} where
    -- an action on the cache alone
    abbrev pub on_cache : {A : Type 0} → Action (BlockCache D) A → Action (Visit D S) A
    on_cache m s = let (r, c) = m s.cache in (r, record s { cache = c })

    abbrev pub call : Visitor S → DirEntry → List ℕ → Action (Visit D S) ControlFlow
    call func entry bytes s =
        let (flow, seen) = func entry bytes s.seen in (ok flow, record s { seen = seen })

    -- The loop over the entries of a block: `n` of them are left, from entry `i` on. It returns a
    -- value where the code leaves the outer loop.
    pub each_entry :
        Visitor S → FatType → ℕ → List ℕ → ℕ → ℕ → Action (Visit D S) (Option (Unit {0}))
    each_entry func t idx block zero i = pure none
    each_entry func t idx block (suc n) i =
        let bytes = chunk i block in
        let rest = each_entry func t idx block n (i + 1) in
        if is_end bytes
        then pure (some tt)
        else if is_valid bytes
        then (call func (get_entry t idx (i * 32) bytes) bytes >>= λ flow. elim flow [
          | break ↦ pure (some tt)
          | continue ↦ rest
        ])
        else rest

    pub visit_block : Visitor S → FatType → ℕ → Action (Visit D S) (Option (Unit {0}))
    unfolding each_entry
    visit_block func t idx = do
      block ← on_cache (read idx)
      each_entry func t idx block entries_per_block 0

    -- `iterate_dir_internal`, and so `iterate_fat16` and `iterate_fat32`
    pub iterate_dir_internal : FatVolume → ClusterId → Visitor S → Action (Visit D S) (Unit {0})
    unfolding start_of first_block_of dir_size_of type_of next_or_none walk visit_block
    iterate_dir_internal v dir func = do
      let i = v.fat_specific_info
      out ←
          walk (walk_fuel v) (start_of i dir) (first_block_of v i dir) (dir_size_of v i dir)
            (visit_block func (type_of i)) (λ c. on_cache (next_or_none v i c))
      pure tt

    -- `iterate_dir`: the closure does not see the bytes
    pub iterate_dir :
        FatVolume → ClusterId → (DirEntry → S → ControlFlow × S) → Action (Visit D S) (Unit {0})
    unfolding iterate_dir_internal
    iterate_dir v dir func = iterate_dir_internal v dir (λ entry bytes. func entry)

  -- `find_directory_entry`
  pub find_directory_entry : FatVolume → ClusterId → ShortFileName → Action (BlockCache D) DirEntry
  unfolding match_entry found_or iterate_dir
  find_directory_entry v dir match_name c =
      let (r, s) = iterate_dir v dir (match_entry match_name) (record { cache = c; seen = none }) in
      elim r [
        | ok _ ↦ (found_or s.seen, s.cache)
        | err e ↦ (err e, s.cache)
        | panic ↦ (panic, s.cache)
        | no_fuel ↦ (no_fuel, s.cache)
      ]
