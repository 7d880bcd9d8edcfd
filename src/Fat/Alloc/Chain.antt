-- ===== src/Fat/Alloc/Chain.antt =====
-- Chains of clusters, and what the truncation of one does.
use embedded_sdmmc_rs.Common.{ℕ, zero, suc, ◌+◌, ◌<◌, ◌≤◌, ◌≡◌, refl, ◌∙◌, ap, sym, subst, arith}
use embedded_sdmmc_rs.Common.{Bool, true, false, List, [], ◌∷◌, Option, ◌==◌, if◌then◌else◌}
use embedded_sdmmc_rs.Common.{le→ltb, length}
use embedded_sdmmc_rs.Common.Action
use embedded_sdmmc_rs.Common.Action.{Action, Result, ok, err, match_result, modify, ◌>>=◌, ◌>>◌}
use embedded_sdmmc_rs.Block.{BlockDevice}
use embedded_sdmmc_rs.Cache.View.{Blocks, Working, blocks, IsCoherent}
use embedded_sdmmc_rs.Filesystem.Cluster
use embedded_sdmmc_rs.Filesystem.Cluster.{ClusterId}
use embedded_sdmmc_rs.Fat.Volume.{FatVolume, FatSpecificInfo, fat16_info, fat32_info}
use embedded_sdmmc_rs.Fat.Table.{next_cluster, update_fat, encode16, encode32}
use embedded_sdmmc_rs.Fat.Table.Spec.{IsPlaced, InTable, HasBlocks, entry, decode, encode}
use embedded_sdmmc_rs.Fat.Table.Lookup.{next_cluster-Yields}
use embedded_sdmmc_rs.Fat.Table.Update.{update_fat-Yields, update_fat-entry, updated_len}
use embedded_sdmmc_rs.Fat.Alloc.{
  Mounted, with_volume, free_chain, one_more, if_end, truncate_cluster_chain, earlier_hint,
}

-- Is the cluster one of the list?
unfoldable pub contains : List ClusterId → ClusterId → Bool
contains [] j = false
contains (c ∷ cs) j = if c == j then true else contains cs j

-- Starting at `c` the table leads through the clusters `ns`, of which the last ends the file.
abbrev pub IsChain : FatVolume → Blocks → ClusterId → List ClusterId → Type 0
IsChain v d c [] =
    InTable v v.fat_specific_info c
    × (decode v.fat_specific_info (entry v v.fat_specific_info d c) ≡ err Action.end_of_file)
IsChain v d c (n ∷ ns) =
    InTable v v.fat_specific_info c
    × (decode v.fat_specific_info (entry v v.fat_specific_info d c) ≡ ok n)
    × (contains (n ∷ ns) c ≡ false)
    × IsChain v d n ns

in_table :
    (v : FatVolume) (d : Blocks) (c : ClusterId) (ns : List ClusterId)
    → IsChain v d c ns
    → InTable v v.fat_specific_info c
in_table v d c [] h = h.0
in_table v d c (n ∷ ns) h = h.0

-- the volume with other hints
abbrev pub rehint : FatVolume → Option ℕ → Option ClusterId → FatVolume
rehint v count hint = record v { free_clusters_count = count; next_free_cluster = hint }

-- A change of the table elsewhere leaves a chain as it is, and so does a change of the hints.
IsChain-frame :
    (v : FatVolume) (count : Option ℕ) (hint : Option ClusterId) (d e : Blocks) (x c : ClusterId)
    (ns : List ClusterId)
    → ((j : ClusterId)
        → InTable v v.fat_specific_info j
        → (x == j) ≡ false
        → entry v v.fat_specific_info e j ≡ entry v v.fat_specific_info d j)
    → contains (c ∷ ns) x ≡ false
    → IsChain v d c ns
    → IsChain (rehint v count hint) e c ns
unfolding contains
IsChain-frame v count hint d e x c [] same out h =
    (h.0, ap (decode v.fat_specific_info) (same c h.0 (ground arith)) ∙ h.1)
IsChain-frame v count hint d e x c (n ∷ ns) same out h = (
  h.0,
  ap (decode v.fat_specific_info) (same c h.0 (ground arith)) ∙ h.1,
  h.2,
  IsChain-frame v count hint d e x n ns same (ground arith) h.3,
)

abbrev pub add_free : ℕ → Option ℕ → Option ℕ
add_free zero o = o
add_free (suc n) o = add_free n (one_more o)

encode-empty : (i : FatSpecificInfo) → encode i Cluster.empty ≡ 0
unfolding encode16 encode32
encode-empty (fat16_info _) = refl
encode-empty (fat32_info _) = refl

merge :
    (a b : Bool) (z t u : ℕ)
    → z ≡ 0
    → u ≡ (if b then z else t)
    → (if a then 0 else u) ≡ (if (if b then true else a) then 0 else t)
merge a b z t u p q = ground arith

module _ {D : Type 0} ⦃dev : BlockDevice D⦄ (w : Working dev) where
  abbrev pub table : Mounted D → ClusterId → ℕ
  table s j = entry s.volume s.volume.fat_specific_info (blocks w s.cache) j

  -- The state of a volume whose table can be trusted.
  pub record IsReady (s : Mounted D) : Type 0 where
    pub placed : IsPlaced s.volume s.volume.fat_specific_info
    pub coherent : IsCoherent w s.cache
    pub full_blocks : HasBlocks (blocks w s.cache)

  -- `update_fat` on the state of a mounted volume
  pub record Wrote (s : Mounted D) (c new : ClusterId) (out : Result (Unit {0}) × Mounted D)
      : Type 0 where
    pub result : out.0 ≡ ok tt
    pub volume : out.1.volume ≡ s.volume
    pub coherent : IsCoherent w out.1.cache
    pub full_blocks : HasBlocks (blocks w out.1.cache)
    pub entries :
        (j : ClusterId)
        → InTable s.volume s.volume.fat_specific_info j
        → entry s.volume s.volume.fat_specific_info (blocks w out.1.cache) j
          ≡ (if c == j then encode s.volume.fat_specific_info new else table s j)

  pub update_fat-Wrote :
      (s : Mounted D) (c new : ClusterId)
      → IsReady s
      → InTable s.volume s.volume.fat_specific_info c
      → Wrote s c new (with_volume (λ v. update_fat v c new) s)
  update_fat-Wrote s c new r ic =
      let y = update_fat-Yields w s.volume c new s.cache r.coherent in
      record {
        result = y.result;
        volume = refl;
        coherent = y.coherent;
        full_blocks = subst HasBlocks (sym y.stored) (
            updated_len s.volume s.volume.fat_specific_info (blocks w s.cache) c new r.full_blocks);
        entries = λ j ij.
            (update_fat-entry w s.volume c new j s.cache r.placed r.full_blocks r.coherent ic ij).1;
      }

  -- What freeing the clusters `cs` came to.
  pub record Freed (s : Mounted D) (cs : List ClusterId) (n : ℕ)
      (out : Result (Unit {0}) × Mounted D) : Type 0 where
    pub result : out.0 ≡ ok tt
    pub volume :
        out.1.volume
        ≡ record s.volume { free_clusters_count = add_free n s.volume.free_clusters_count }
    pub coherent : IsCoherent w out.1.cache
    pub full_blocks : HasBlocks (blocks w out.1.cache)
    pub entries :
        (j : ClusterId)
        → InTable s.volume s.volume.fat_specific_info j
        → entry s.volume s.volume.fat_specific_info (blocks w out.1.cache) j
          ≡ (if contains cs j then 0 else table s j)

  -- An update of the table after a look at it and a change of the hint.
  look-Wrote :
      (s : Mounted D) (hint : Option ClusterId) (x c new : ClusterId)
      → IsReady s
      → InTable s.volume s.volume.fat_specific_info x
      → InTable s.volume s.volume.fat_specific_info c
      → let v = rehint s.volume s.volume.free_clusters_count hint in
        Wrote
          (record s { volume = v })
          c
          new
          (with_volume
            (λ v. update_fat v c new)
            (record { volume = v; cache = (next_cluster s.volume x s.cache).1 }))
  look-Wrote s hint x c new r ix ic =
      let i = s.volume.fat_specific_info in
      let v = rehint s.volume s.volume.free_clusters_count hint in
      let y = next_cluster-Yields w s.volume x s.cache r.placed ix r.coherent in
      let s1 : Mounted D = record { volume = v; cache = (next_cluster s.volume x s.cache).1 } in
      let u =
        update_fat-Wrote s1 c new
          (record {
            placed = record {
              count_small = r.placed.count_small;
              first_fits = r.placed.first_fits;
              second_fits = r.placed.second_fits;
            };
            coherent = y.coherent;
            full_blocks = subst HasBlocks (sym y.stored) r.full_blocks;
          })
          ic in
      record {
        result = u.result;
        volume = refl;
        coherent = u.coherent;
        full_blocks = u.full_blocks;
        entries = λ j ij.
            u.entries j ij
            ∙ ap (λ (d : Blocks). if c == j then encode i new else entry v i d j) y.stored;
      }

  -- The state after an update, with other hints, is ready.
  IsReady-after :
      (s t : Mounted D) (c new : ClusterId) (r : Result (Unit {0})) (count : Option ℕ)
      (hint : Option ClusterId)
      → IsReady s
      → Wrote s c new (r, t)
      → IsReady (record { volume = rehint s.volume count hint; cache = t.cache })
  IsReady-after s t c new r count hint p u = record {
    placed = record {
      count_small = p.placed.count_small;
      first_fits = p.placed.first_fits;
      second_fits = p.placed.second_fits;
    };
    coherent = u.coherent;
    full_blocks = u.full_blocks;
  }

  -- The rest of a chain after an update of the cluster before it.
  after :
      (s t : Mounted D) (c n : ClusterId) (ns : List ClusterId) (new : ClusterId)
      (r : Result (Unit {0})) (count : Option ℕ) (hint : Option ClusterId)
      → contains (n ∷ ns) c ≡ false
      → IsChain s.volume (blocks w s.cache) n ns
      → Wrote s c new (r, t)
      → IsChain (rehint s.volume count hint) (blocks w t.cache) n ns
  after s t c n ns new r count hint out h u =
      IsChain-frame s.volume count hint (blocks w s.cache) (blocks w t.cache) c n ns
        (λ j ij ne. u.entries j ij ∙ rw ne refl) out h

  free_chain-Freed :
      (fuel : ℕ) (s : Mounted D) (c : ClusterId) (ns : List ClusterId)
      → IsReady s
      → IsChain s.volume (blocks w s.cache) c ns
      → length ns < fuel
      → Freed s (c ∷ ns) (length ns) (free_chain fuel c s)
  unfolding free_chain contains if_end
  free_chain-Freed zero s c ns r h lt = elim lt [ ]
  free_chain-Freed (suc fuel) s c [] r h lt =
      let y = next_cluster-Yields w s.volume c s.cache r.placed h.0 r.coherent in
      let u = look-Wrote s s.volume.next_free_cluster c c Cluster.empty r h.0 h.0 in
      rw (y.result ∙ h.1, match_result)
        (record {
          result = u.result;
          volume = refl;
          coherent = u.coherent;
          full_blocks = u.full_blocks;
          entries = λ j ij.
              merge false (c == j) _ _ _ (encode-empty s.volume.fat_specific_info) (u.entries j ij);
        })
  free_chain-Freed (suc fuel) s c (n ∷ ns) r h lt =
      let y = next_cluster-Yields w s.volume c s.cache r.placed h.0 r.coherent in
      let u = look-Wrote s s.volume.next_free_cluster c c Cluster.empty r h.0 h.0 in
      let out =
        with_volume (λ v. update_fat v c Cluster.empty) (with_volume (λ v. next_cluster v c) s).1 in
      let count = one_more s.volume.free_clusters_count in
      let hint = s.volume.next_free_cluster in
      let s2 : Mounted D = record { volume = rehint s.volume count hint; cache = out.1.cache } in
      let f =
        free_chain-Freed fuel s2 n ns (IsReady-after s out.1 c Cluster.empty out.0 count hint r u)
          (after s out.1 c n ns Cluster.empty out.0 count hint h.2 h.3 u) (omega arith) in
      rw (y.result ∙ h.1, match_result)
        (rw (u.result, ◌>>=◌)
          (record {
            result = f.result;
            volume = f.volume;
            coherent = f.coherent;
            full_blocks = f.full_blocks;
            entries = λ j ij.
                f.entries j ij
                ∙ merge (contains (n ∷ ns) j) (c == j) _ _ _
                    (encode-empty s.volume.fat_specific_info) (u.entries j ij);
          }))

  rehint-IsReady :
      (s : Mounted D) (count : Option ℕ) (hint : Option ClusterId)
      → IsReady s
      → IsReady (record s { volume = rehint s.volume count hint })
  rehint-IsReady s count hint r = record {
    placed = record {
      count_small = r.placed.count_small;
      first_fits = r.placed.first_fits;
      second_fits = r.placed.second_fits;
    };
    coherent = r.coherent;
    full_blocks = r.full_blocks;
  }

  rehint_chain :
      (s : Mounted D) (count : Option ℕ) (hint : Option ClusterId) (c : ClusterId)
      (ns : List ClusterId)
      → IsChain s.volume (blocks w s.cache) c ns
      → IsChain (rehint s.volume count hint) (blocks w s.cache) c ns
  rehint_chain s count hint c [] h = h
  rehint_chain s count hint c (n ∷ ns) h = (h.0, h.1, h.2, rehint_chain s count hint n ns h.3)

  -- The truncation of a file at the cluster `c` of a chain, on a device that works: it succeeds,
  -- `c` ends the file, every later cluster of the chain is free, and no other entry has changed.
  -- The count of free clusters rises by one less than the number of the freed clusters.
  pub truncate_cluster_chain_lem :
      (s : Mounted D) (c n j : ClusterId) (ns : List ClusterId)
      → IsReady s
      → 2 ≤ c
      → IsChain s.volume (blocks w s.cache) c (n ∷ ns)
      → length ns < s.volume.cluster_count + 3
      → InTable s.volume s.volume.fat_specific_info j
      → let out = truncate_cluster_chain c s in
        (out.0 ≡ ok tt)
        × (entry s.volume s.volume.fat_specific_info (blocks w out.1.cache) j ≡ (
            if contains (n ∷ ns) j
            then 0
            else if c == j
            then encode s.volume.fat_specific_info Cluster.end_of_file
            else table s j))
        × (out.1.volume
            ≡ rehint s.volume
                (add_free (length ns) s.volume.free_clusters_count)
                (earlier_hint s.volume.next_free_cluster n))
  unfolding truncate_cluster_chain
  truncate_cluster_chain_lem s c n j ns r two h enough ij =
      let v = s.volume in
      let count = v.free_clusters_count in
      let hint = earlier_hint v.next_free_cluster n in
      let y = next_cluster-Yields w v c s.cache r.placed h.0 r.coherent in
      let s0 : Mounted D = record s { volume = rehint v count hint } in
      let u = look-Wrote s hint c c Cluster.end_of_file r h.0 h.0 in
      let out =
        with_volume (λ v. update_fat v c Cluster.end_of_file)
          (record { volume = rehint v count hint; cache = (next_cluster v c s.cache).1 }) in
      let f =
        free_chain-Freed (v.cluster_count + 3) out.1 n ns
          (IsReady-after s0 out.1 c Cluster.end_of_file out.0 count hint
            (rehint-IsReady s count hint r) u)
          (after s0 out.1 c n ns Cluster.end_of_file out.0 count hint h.2
            (rehint_chain s count hint n ns h.3) u)
          enough in
      rw (le→ltb c 2 two, if◌then◌else◌)
        (rw (y.result ∙ h.1, match_result)
          (rw (u.result, ◌>>=◌)
            (
              f.result,
              f.entries j ij ∙ ap (λ t. if contains (n ∷ ns) j then 0 else t) (u.entries j ij),
              f.volume,
            )))
