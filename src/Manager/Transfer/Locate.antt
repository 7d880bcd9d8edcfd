-- ===== src/Manager/Transfer/Locate.antt =====
-- Where `find_data_on_disk` finds the bytes of a file whose clusters are a chain of the table.
use native.Mathlib.Nat.{div-add-mod', mod-lt, add-mul-div_right, suc-mul, add-mul}
use embedded_sdmmc_rs.Common.{
  ℕ, zero, suc, ◌+◌, ◌-◌, ◌*◌, ◌/◌, ◌%◌, ◌≤◌, ◌<◌, ◌≡◌, refl, ap, ap₂, subst, sym, ◌∙◌, arith, List,
  [], ◌∷◌,
}
use embedded_sdmmc_rs.Common.{
  ltb, lt→ltb, ==_ne, if◌then◌else◌, Bool-cases, inl, inr, length, length-drop, get_or, drop, add32,
  sub32, u32_mod, ltb→le,
}
use embedded_sdmmc_rs.Common.Action.{Result, ok}
use embedded_sdmmc_rs.Block.{BlockDevice, add_blocks}
use embedded_sdmmc_rs.Cache.{BlockCache}
use embedded_sdmmc_rs.Cache.View.{Working, Blocks, blocks, IsCoherent}
use embedded_sdmmc_rs.Filesystem.Cluster.{ClusterId}
use embedded_sdmmc_rs.Fat.Volume.{FatVolume, bytes_per_cluster, cluster_to_block}
use embedded_sdmmc_rs.Fat.Table.{next_cluster}
use embedded_sdmmc_rs.Fat.Table.Lookup.{next_cluster-Yields}
use embedded_sdmmc_rs.Fat.Table.Spec.{IsPlaced}
use embedded_sdmmc_rs.Fat.Alloc.Chain.{IsChain}
use embedded_sdmmc_rs.Manager.Transfer.{
  Place, Found, rewind, found_at, advance, find_data_on_disk, reached,
}

pub zero_mul : (b : ℕ) → 0 ≡ 0 * b
zero_mul b = omega arith

-- the cluster with a number of those that the table leads through from `c`
abbrev pub nth_cluster : ClusterId → List ClusterId → ℕ → ClusterId
nth_cluster c ns k = get_or (c ∷ ns) k 0

IsChain-drop :
    (v : FatVolume) (d : Blocks) (c : ClusterId) (ns : List ClusterId) (k : ℕ)
    → k ≤ length ns
    → IsChain v d c ns
    → IsChain v d (nth_cluster c ns k) (drop k ns)
IsChain-drop v d c ns zero le h = h
IsChain-drop v d c [] (suc k) le h = absurd (omega arith)
IsChain-drop v d c (n ∷ ns) (suc k) le h = IsChain-drop v d n ns k (omega arith) h.3

suc_add : (k j : ℕ) → suc k + j ≡ suc (k + j)
suc_add k j = omega arith

nth_cluster-drop :
    (c : ClusterId) (ns : List ClusterId) (k j : ℕ)
    → k ≤ length ns
    → nth_cluster (nth_cluster c ns k) (drop k ns) j ≡ nth_cluster c ns (k + j)
nth_cluster-drop c ns zero j le = ap (nth_cluster c ns) (omega arith)
nth_cluster-drop c [] (suc k) j le = absurd (omega arith)
nth_cluster-drop c (n ∷ ns) (suc k) j le =
    nth_cluster-drop n ns k j (omega arith) ∙ sym (ap (nth_cluster c (n ∷ ns)) (suc_add k j))

-- The place is that of a cluster with a number in the file's chain, from `c` on.
abbrev pub IsAt : FatVolume → ClusterId → List ClusterId → ℕ → Place → Type 0
IsAt v c ns k start =
    (k ≤ length ns)
    × (start.offset ≡ k * bytes_per_cluster v)
    × (start.cluster ≡ nth_cluster c ns k)

-- Where the byte at an offset of the file is, and the place of its cluster.
abbrev pub location : FatVolume → ClusterId → List ClusterId → ℕ → Found
location v c ns o =
    let b = bytes_per_cluster v in
    record {
      block_idx = add_blocks (cluster_to_block v (nth_cluster c ns (o / b))) (o % b / 512);
      block_offset = o % 512;
      available = 512 - o % 512;
    }

abbrev pub place_in : FatVolume → ClusterId → List ClusterId → ℕ → Place
place_in v c ns o =
    let b = bytes_per_cluster v in record { offset = o / b * b; cluster = nth_cluster c ns (o / b) }

-- The quotient of what is left after `k` clusters.
div-sub : (o k b : ℕ) → 0 < b → k * b ≤ o → (o - k * b) / b + k ≡ o / b
div-sub o k b pos le = sym (add-mul-div_right (o - k * b) k pos) ∙ ap (λ x. x / b) (omega arith)

-- an offset before the end of the chain does not wrap
sub32-le : (o x : ℕ) → o < u32_mod → x ≤ o → sub32 o x ≡ o - x
sub32-le o x small le = omega arith

found_at-location :
    (v : FatVolume) (c : ClusterId) (ns : List ClusterId) (o : ℕ)
    → 0 < bytes_per_cluster v
    → o < u32_mod
    → found_at v (place_in v c ns o) o ≡ ok (location v c ns o)
unfolding found_at
found_at-location v c ns o pos small =
    let b = bytes_per_cluster v in
    let rest : sub32 o (o / b * b) ≡ o % b =
      sub32-le o (o / b * b) small (omega (arith, div-add-mod' o b))
      ∙ omega (arith, div-add-mod' o b) in
    rw (rest, lt→ltb (o % b) b (mod-lt o pos), if◌then◌else◌) refl

module _ {D : Type 0} ⦃dev : BlockDevice D⦄ (w : Working dev) where
  -- The loop goes through the next clusters of a chain, and changes no block.
  advance-chain :
      (v : FatVolume) (n : ℕ) (c : ClusterId) (ns : List ClusterId) (o : ℕ) (k : BlockCache D)
      → IsPlaced v v.fat_specific_info
      → n ≤ length ns
      → IsChain v (blocks w k) c ns
      → o + n * bytes_per_cluster v < u32_mod
      → IsCoherent w k
      → (k' : BlockCache D) × (advance n v (record { offset = o; cluster = c }) k ≡ (
        ok tt,
        (record { offset = o + n * bytes_per_cluster v; cluster = nth_cluster c ns n }, k'),
      ))
        × IsCoherent w k'
        × (blocks w k' ≡ blocks w k)
  unfolding advance
  advance-chain v zero c ns o k p le chain small h =
      (k, ap (λ x. (ok tt, (record { offset = x; cluster = c }, k))) (omega arith), h, refl)
  advance-chain v (suc n) c [] o k p le chain small h = absurd (omega arith)
  advance-chain v (suc n) c (m ∷ ns) o k p le chain small h =
      let y = next_cluster-Yields w v c k p chain.0 h in
      let k1 = (next_cluster v c k).1 in
      let rest =
        advance-chain v n m ns (add32 o (bytes_per_cluster v)) k1 p (omega arith)
          (subst (λ d. IsChain v d m ns) (sym y.stored) chain.3)
          (omega (arith, suc-mul n (bytes_per_cluster v))) y.coherent in
      (
        rest.0,
        rw (y.result ∙ chain.1, advance)
            (rest.1
              ∙ ap (λ x. (ok tt, (record { offset = x; cluster = nth_cluster m ns n }, rest.0)))
                  (omega (arith, suc-mul n (bytes_per_cluster v)))),
        rest.2,
        rest.3 ∙ y.stored,
      )

  -- the walk from a place that is not past the offset
  reached-location :
      (v : FatVolume) (c : ClusterId) (ns : List ClusterId) (o j : ℕ) (k : BlockCache D)
      → IsPlaced v v.fat_specific_info
      → IsChain v (blocks w k) c ns
      → 0 < bytes_per_cluster v
      → j ≤ length ns
      → j * bytes_per_cluster v ≤ o
      → o / bytes_per_cluster v ≤ length ns
      → o < u32_mod
      → IsCoherent w k
      → (k' : BlockCache D) × (reached v o (
            advance
              (sub32 o (j * bytes_per_cluster v) / bytes_per_cluster v)
              v
              (record { offset = j * bytes_per_cluster v; cluster = nth_cluster c ns j })
              k)
          ≡ (ok (location v c ns o), (place_in v c ns o, k')))
        × IsCoherent w k'
        × (blocks w k' ≡ blocks w k)
  reached-location v c ns o j k p chain pos inside before ends small h =
      let b = bytes_per_cluster v in
      let n = (o - j * b) / b in
      let quot : n + j ≡ o / b = div-sub o j b pos before in
      let total : j * b + n * b ≡ o / b * b =
        omega (arith, add-mul n j b, ap (λ (x : ℕ). x * b) quot) in
      let walk =
        advance-chain v n (nth_cluster c ns j) (drop j ns) (j * b) k p
          (omega (arith, length-drop j ns, quot)) (IsChain-drop v (blocks w k) c ns j inside chain)
          (omega (arith, total, div-add-mod' o b)) h in
      (
        walk.0,
        ap
              (λ x.
                reached v o
                  (advance (x / b) v (record { offset = j * b; cluster = nth_cluster c ns j }) k))
              (sub32-le o (j * b) small before)
            ∙ ap (reached v o) (
                walk.1
                ∙ ap₂ (λ x y. (ok tt, (record { offset = x; cluster = y }, walk.0))) total
                    (nth_cluster-drop c ns j n inside
                      ∙ ap (nth_cluster c ns) (omega (arith, quot))))
            ∙ ap (λ r. (r, (place_in v c ns o, walk.0))) (found_at-location v c ns o pos small),
        walk.2,
        walk.3,
      )

  -- On a device that works, for a file whose clusters are a chain of the table: from the place of
  -- any of its clusters, before or after the offset, `find_data_on_disk` succeeds, finds the block
  -- and the offset of the byte in the cluster that has it, keeps that cluster as the new place,
  -- and changes no block.
  pub find_data_on_disk-location :
      (v : FatVolume) (c : ClusterId) (ns : List ClusterId) (o j : ℕ) (start : Place)
      (k : BlockCache D)
      → IsPlaced v v.fat_specific_info
      → IsChain v (blocks w k) c ns
      → 0 < bytes_per_cluster v
      → IsAt v c ns j start
      → o / bytes_per_cluster v ≤ length ns
      → o < u32_mod
      → IsCoherent w k
      → (k' : BlockCache D) × (find_data_on_disk v start c o k
          ≡ (ok (location v c ns o), (place_in v c ns o, k')))
        × IsCoherent w k'
        × (blocks w k' ≡ blocks w k)
  unfolding find_data_on_disk rewind
  find_data_on_disk-location v c ns o j start k p chain pos at ends small h =
      let from : ℕ → ClusterId → Result Found × (Place × BlockCache D) = λ x y.
        reached v o
          (advance (sub32 o x / bytes_per_cluster v) v (record { offset = x; cluster = y }) k) in
      elim (Bool-cases (ltb o start.offset)) [
        | inl back ↦
            let r =
              reached-location v c ns o 0 k p chain pos (omega arith) (omega arith) ends small h in
            (
              r.0,
              rw (back, ==_ne (bytes_per_cluster v) 0 (omega arith), if◌then◌else◌)
                  (ap (λ x. from x c) (zero_mul (bytes_per_cluster v)) ∙ r.1),
              r.2,
              r.3,
            )
        | inr forward ↦
            let r =
              reached-location v c ns o j k p chain pos at.0
                (omega (arith, ltb→le o start.offset forward, at.1)) ends small h in
            (
              r.0,
              rw (forward, ==_ne (bytes_per_cluster v) 0 (omega arith), if◌then◌else◌)
                  (ap₂ from at.1 at.2 ∙ r.1),
              r.2,
              r.3,
            )
      ]
