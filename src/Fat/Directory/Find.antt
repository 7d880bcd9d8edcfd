-- ===== src/Fat/Directory/Find.antt =====
-- The search for a name in a directory that is a chain of clusters.
use embedded_sdmmc_rs.Common.{
  ℕ, zero, suc, ◌+◌, ◌<◌, ◌≡◌, refl, ◌∙◌, ap, sym, subst, arith, u32_mod, length,
}
use embedded_sdmmc_rs.Common.{false, List, [], ◌∷◌, Option, none, some, if◌then◌else◌, ==_ne}
use embedded_sdmmc_rs.Common.Action.{Action, Result, ok, match_result, ◌>>=◌}
use embedded_sdmmc_rs.Block.{BlockDevice, range}
use embedded_sdmmc_rs.Block.Range.{count_from, range-eq}
use embedded_sdmmc_rs.Cache.{BlockCache}
use embedded_sdmmc_rs.Cache.View.{Blocks, Working, blocks, IsCoherent, Yields}
use embedded_sdmmc_rs.Filesystem.Cluster
use embedded_sdmmc_rs.Filesystem.Cluster.{ClusterId}
use embedded_sdmmc_rs.Filesystem.Filename.{ShortFileName}
use embedded_sdmmc_rs.Filesystem.DirEntry.{DirEntry}
use embedded_sdmmc_rs.Fat.Volume.{
  FatVolume, FatType, FatSpecificInfo, fat16_info, fat32_info, cluster_to_block,
}
use embedded_sdmmc_rs.Fat.Table.Spec.{IsPlaced, InTable}
use embedded_sdmmc_rs.Fat.Table.Lookup.{next_cluster-Yields}
use embedded_sdmmc_rs.Fat.Alloc.Chain.{IsChain}
use embedded_sdmmc_rs.Fat.Directory.{
  Visitor, Visit, on_cache, visit_block, each_block, unless_some, walk_next, walk, walk_fuel,
  next_or_none, ends_at, start_of, first_block_of, dir_size_of, type_of, iterate_dir_internal,
  iterate_dir, find_directory_entry, match_entry, found_or,
}
use embedded_sdmmc_rs.Fat.Directory.Listing.{
  listing, outcome_of, chain_items, IsAddressable, first_named, outcome-match_entry, outcome-join,
}
use embedded_sdmmc_rs.Fat.Directory.Walk.{Visited, then-Visited, each_block-Visited}

ends_at-chain :
    (v : FatVolume) (i : FatSpecificInfo) (c : ClusterId)
    → IsPlaced v i
    → InTable v i c
    → ends_at i c ≡ false
unfolding ends_at
ends_at-chain v (fat16_info info) c p h = ==_ne c Cluster.root_dir (omega (arith, p.count_small))
ends_at-chain v (fat32_info info) c p h = refl

-- what the walk is told of the next cluster
abbrev next_step : FatVolume → List ClusterId → Option (ClusterId × ℕ)
next_step v [] = none
next_step v (n ∷ ns) = some (n, cluster_to_block v n)

module _ {D : Type 0} ⦃dev : BlockDevice D⦄ (w : Working dev) where
  next_or_none-Yields :
      (v : FatVolume) (c : ClusterId) (ns : List ClusterId) (k : BlockCache D)
      → IsPlaced v v.fat_specific_info
      → IsCoherent w k
      → IsChain v (blocks w k) c ns
      → Yields w (next_or_none v v.fat_specific_info c k) (ok (next_step v ns)) (blocks w k)
  unfolding next_or_none
  next_or_none-Yields v c [] k p co h =
      let y = next_cluster-Yields w v c k p h.0 co in
      rw (ends_at-chain v v.fat_specific_info c p h.0, if◌then◌else◌)
        (rw (y.result ∙ h.1, match_result)
          (record { result = refl; coherent = y.coherent; stored = y.stored }))
  next_or_none-Yields v c (n ∷ ns) k p co h =
      let y = next_cluster-Yields w v c k p h.0 co in
      rw (ends_at-chain v v.fat_specific_info c p h.0, if◌then◌else◌)
        (rw (y.result ∙ h.1, match_result)
          (record { result = refl; coherent = y.coherent; stored = y.stored }))

module _ {D S : Type 0} ⦃dev : BlockDevice D⦄ (w : Working dev) where
  cluster-Visited :
      (func : Visitor S) (t : FatType) (first size : ℕ) (x : Visit D S) (d : Blocks)
      → first + size < u32_mod
      → IsCoherent w x.cache
      → blocks w x.cache ≡ d
      → Visited w
          (each_block (suc size) (range first size) (visit_block func t) x)
          (outcome_of func (listing t d (count_from first size)) x.seen)
          d
  cluster-Visited func t first size x d fits co st =
      let p = outcome_of func (listing t d (count_from first size)) x.seen in
      subst (λ it. Visited w (each_block (suc size) it (visit_block func t) x) p d)
        (sym (range-eq first size fits))
        (each_block-Visited w func t size first (suc size) (first + size) x d (omega arith) fits
          refl co st)

  abbrev rest_of :
      ℕ → FatVolume → Visitor S → FatType → ℕ → ClusterId → Action (Visit D S) (Option (Unit {0}))
  rest_of fuel v func t size c = on_cache (next_or_none v v.fat_specific_info c) >>= λ n.
      walk_next n (λ c b.
        walk fuel c b size (visit_block func t)
          (λ c. on_cache (next_or_none v v.fat_specific_info c)))

  walk-Visited :
      (fuel : ℕ) (v : FatVolume) (func : Visitor S) (t : FatType) (size : ℕ) (c : ClusterId)
      (ns : List ClusterId) (x : Visit D S) (d : Blocks)
      → IsPlaced v v.fat_specific_info
      → IsChain v d c ns
      → IsAddressable v size c ns
      → length ns < fuel
      → IsCoherent w x.cache
      → blocks w x.cache ≡ d
      → Visited w
          (walk fuel c
            (cluster_to_block v c)
            size
            (visit_block func t)
            (λ c. on_cache (next_or_none v v.fat_specific_info c))
            x)
          (outcome_of func (chain_items v t d size c ns) x.seen)
          d
  unfolding walk
  walk-Visited zero v func t size c ns x d p h a enough co st = elim enough [ ]
  walk-Visited (suc fuel) v func t size c [] x d p h a enough co st =
      let rest = rest_of fuel v func t size c in
      let items = listing t d (count_from (cluster_to_block v c) size) in
      let body = each_block (suc size) (range (cluster_to_block v c) size) (visit_block func t) in
      subst (λ p. Visited w ((body >>= λ r. unless_some r rest) x) p d)
        (sym (outcome-join func items ([], false) x.seen))
        (then-Visited w body rest x (outcome_of func items x.seen) (outcome_of func ([], false)) d
          (cluster-Visited func t (cluster_to_block v c) size x d a co st)
          (λ x co st.
            let y =
              next_or_none-Yields w v c [] x.cache p co
                (subst (λ d. IsChain v d c []) (sym st) h) in
            rw (y.result, ◌>>=◌)
              (record {
                result = refl;
                seen = refl;
                coherent = y.coherent;
                stored = y.stored ∙ st;
              })))
  walk-Visited (suc fuel) v func t size c (n ∷ ns) x d p h a enough co st =
      let rest = rest_of fuel v func t size c in
      let items = listing t d (count_from (cluster_to_block v c) size) in
      let more = chain_items v t d size n ns in
      let body = each_block (suc size) (range (cluster_to_block v c) size) (visit_block func t) in
      subst (λ p. Visited w ((body >>= λ r. unless_some r rest) x) p d)
        (sym (outcome-join func items more x.seen))
        (then-Visited w body rest x (outcome_of func items x.seen) (outcome_of func more) d
          (cluster-Visited func t (cluster_to_block v c) size x d a.0 co st)
          (λ x co st.
            let y =
              next_or_none-Yields w v c (n ∷ ns) x.cache p co
                (subst (λ d. IsChain v d c (n ∷ ns)) (sym st) h) in
            let x1 : Visit D S = record x {
              cache = (next_or_none v v.fat_specific_info c x.cache).1;
            } in
            rw (y.result, ◌>>=◌)
              (walk-Visited fuel v func t size n ns x1 d p h.3 a.1 (omega arith) y.coherent
                (y.stored ∙ st))))

-- Where the walk of a directory that is a chain begins, and how many blocks it visits at a time.
start-eq :
    (v : FatVolume) (i : FatSpecificInfo) (dir : ClusterId)
    → IsPlaced v i
    → InTable v i (start_of i dir)
    → (first_block_of v i dir ≡ cluster_to_block v (start_of i dir))
      × (dir_size_of v i dir ≡ v.blocks_per_cluster)
unfolding start_of first_block_of dir_size_of
start-eq v (fat16_info info) dir p h =
    let ne = ==_ne dir Cluster.root_dir (omega (arith, p.count_small)) in
    rw (ne, if◌then◌else◌) (refl, refl)
start-eq v (fat32_info info) dir p h = (refl, refl)

IsChain-InTable :
    (v : FatVolume) (d : Blocks) (c : ClusterId) (ns : List ClusterId)
    → IsChain v d c ns
    → InTable v v.fat_specific_info c
IsChain-InTable v d c [] h = h.0
IsChain-InTable v d c (n ∷ ns) h = h.0

module _ {D S : Type 0} ⦃dev : BlockDevice D⦄ (w : Working dev) where
  -- The state of an iteration at its end.
  pub record Iterated (out : Result (Unit {0}) × Visit D S) (s : S) (d : Blocks) : Type 0 where
    pub result : out.0 ≡ ok tt
    pub seen : out.1.seen ≡ s
    pub coherent : IsCoherent w out.1.cache
    pub stored : blocks w out.1.cache ≡ d

  -- On a device that works, the iteration over a directory that is a chain of clusters ends without
  -- an error, changes no block, and calls its closure for the valid entries up to the end mark, in
  -- order, until it breaks off.
  pub iterate_dir_internal-Iterated :
      (v : FatVolume) (dir : ClusterId) (func : Visitor S) (ns : List ClusterId) (x : Visit D S)
      → let i = v.fat_specific_info in
        IsPlaced v i
        → IsCoherent w x.cache
        → IsChain v (blocks w x.cache) (start_of i dir) ns
        → IsAddressable v v.blocks_per_cluster (start_of i dir) ns
        → length ns < walk_fuel v
        → Iterated
            (iterate_dir_internal v dir func x)
            (outcome_of func
              (chain_items v
                (type_of i)
                (blocks w x.cache)
                v.blocks_per_cluster
                (start_of i dir)
                ns)
              x.seen).1
            (blocks w x.cache)
  unfolding iterate_dir_internal
  iterate_dir_internal-Iterated v dir func ns x p co h a enough =
      let i = v.fat_specific_info in
      let e = start-eq v i dir p (IsChain-InTable v (blocks w x.cache) (start_of i dir) ns h) in
      let y =
        walk-Visited w (walk_fuel v) v func (type_of i) v.blocks_per_cluster (start_of i dir) ns x
          (blocks w x.cache) p h a enough co refl in
      rw (e.0, e.1)
        (rw (y.result, ◌>>=◌)
          (record { result = refl; seen = y.seen; coherent = y.coherent; stored = y.stored }))

module _ {D : Type 0} ⦃dev : BlockDevice D⦄ (w : Working dev) where
  -- On a device that works, the search for a name in a directory that is a chain of clusters returns
  -- the first valid entry before the end mark that has the name, and `NotFound` if there is none.
  pub find_directory_entry_lem :
      (v : FatVolume) (dir : ClusterId) (name : ShortFileName) (ns : List ClusterId)
      (k : BlockCache D)
      → let i = v.fat_specific_info in
        IsPlaced v i
        → IsCoherent w k
        → IsChain v (blocks w k) (start_of i dir) ns
        → IsAddressable v v.blocks_per_cluster (start_of i dir) ns
        → length ns < walk_fuel v
        → (find_directory_entry v dir name k).0
          ≡ found_or (
              first_named name
                (chain_items v (type_of i) (blocks w k) v.blocks_per_cluster (start_of i dir) ns).0)
  unfolding find_directory_entry iterate_dir
  find_directory_entry_lem v dir name ns k p co h a enough =
      let i = v.fat_specific_info in
      let items = chain_items v (type_of i) (blocks w k) v.blocks_per_cluster (start_of i dir) ns in
      let x : Visit D (Option DirEntry) = record { cache = k; seen = none } in
      let y =
        iterate_dir_internal-Iterated w v dir (λ entry bytes. match_entry name entry) ns x p co h a
          enough in
      rw (y.result, find_directory_entry)
        (ap found_or (y.seen ∙ outcome-match_entry name items.0 items.1))
