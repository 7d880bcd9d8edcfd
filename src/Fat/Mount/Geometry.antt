-- ===== src/Fat/Mount/Geometry.antt =====
-- What a mounted volume's numbers mean, and the round trip of its info sector.
use native.Mathlib.Nat.{div-mul-le_self, lt-div-mul-add}
use embedded_sdmmc_rs.Common.{
  ap₂, ==_iff, ◌^◌, sub32, ==_false, ℕ, ◌+◌, ◌-◌, ◌*◌, ◌/◌, ◌<◌, ◌≤◌, ◌≡◌, ◌≢◌, refl, ◌∙◌, ap, sym,
  subst, arith, u32_mod,
}
use embedded_sdmmc_rs.Common.{
  List, some, if◌then◌else◌, ltb, ◌==◌, Bool-cases, ◌⊎◌, inl, inr, ==_ne, ==_self, ltb→lt, ltb→le,
}
use embedded_sdmmc_rs.Common.Bytes.{
  byte, IsBytes, read_u16, read_u32, write_u32, length-write_u32, read_u32-write_u32_self,
  read_u32-write_u32_ne,
}
use embedded_sdmmc_rs.Common.Action.{ok, err, panic, ◌>>=◌}
use embedded_sdmmc_rs.Block.{BlockDevice}
use embedded_sdmmc_rs.Cache.{BlockCache}
use embedded_sdmmc_rs.Cache.View.{
  Blocks, Working, blocks, put_block, IsCoherent, Yields, read-Yields, modify_read-Yields,
}
use embedded_sdmmc_rs.Fat.Volume.{FatVolume, FatType, fat16, fat32, Fat32Info, fat32_info}
use embedded_sdmmc_rs.Fat.Table.Spec.{HasBlocks}
use embedded_sdmmc_rs.Fat.Mount.Layout.{HasLayout, layout-eq}
use embedded_sdmmc_rs.Fat.Mount.{
  Bpb, create_from_bytes, classify, total_blocks, non_data_blocks, blocks_per_cluster, footer,
  info_free_count, info_next_free, store_opt, is_none, update_info, update_info_sector,
}

-- which type of FAT a number of clusters stands for
abbrev pub IsTypeOf : ℕ → FatType → Type 0
IsTypeOf n fat16 = (4085 ≤ n) × (n < 65525)
IsTypeOf n fat32 = 65525 ≤ n

ok-Bpb : (a b : Bpb) → ok a ≡ ok b → a ≡ b
ok-Bpb a b e = cc

classify-IsTypeOf :
    (b : List ℕ) (n : ℕ) (bpb : Bpb)
    → classify b n ≡ ok bpb
    → (bpb.cluster_count ≡ n) × IsTypeOf n bpb.fat_type
unfolding classify
classify-IsTypeOf b n bpb e = elim (Bool-cases (ltb n 4085)) [
  | inl fat12 ↦ let bad : err _ ≡ ok bpb = rw (fat12, if◌then◌else◌) at e in cc
  | inr enough ↦
      let e1 = rw (enough, if◌then◌else◌) at e in
      elim (Bool-cases (ltb n 65525)) [
        | inl few ↦
            let q = ok-Bpb _ bpb (rw (few, if◌then◌else◌) at e1) in
            subst (λ (x : Bpb). (x.cluster_count ≡ n) × IsTypeOf n x.fat_type) q
              (refl, (ltb→le n 4085 enough, ltb→lt n 65525 few))
        | inr many ↦
            let e2 = rw (many, if◌then◌else◌) at e1 in
            elim (Bool-cases (read_u16 b 42 == 0)) [
              | inl known ↦
                  let q = ok-Bpb _ bpb (rw (known, if◌then◌else◌) at e2) in
                  subst (λ (x : Bpb). (x.cluster_count ≡ n) × IsTypeOf n x.fat_type) q
                    (refl, ltb→le n 65525 many)
              | inr unknown ↦ let bad : err _ ≡ ok bpb = rw (unknown, if◌then◌else◌) at e2 in cc
            ]
      ]
]

room :
    (t n k q : ℕ)
    → n ≤ t
    → t < u32_mod
    → k ≢ 0
    → q ≡ sub32 t n / k
    → (n + q * k ≤ t) × (t < n + (q + 1) * k)
room t n k q le small ne e =
    let a : sub32 t n ≡ t - n = omega arith in
    let p : 0 < k = omega arith in
    let f : q ≡ (t - n) / k = e ∙ ap (λ (x : ℕ). x / k) a in
    let low : q * k ≤ t - n =
      subst (λ (q : ℕ). q * k ≤ t - n) (sym f) (div-mul-le_self (t - n) k) in
    let high : t - n < q * k + k =
      subst (λ (q : ℕ). t - n < q * k + k) (sym f) (lt-div-mul-add p) in
    (omega (arith, low), omega (arith, high))

accepted-room :
    (b : List ℕ) (bpb : Bpb) (first_data volume_len : ℕ)
    → create_from_bytes b ≡ ok bpb
    → non_data_blocks b ≡ first_data
    → total_blocks b ≡ volume_len
    → first_data ≤ volume_len
    → volume_len < u32_mod
    → (read_u16 b 510 ≡ 0xAA55)
      × (first_data + bpb.cluster_count * byte b 13 ≤ volume_len)
      × (volume_len < first_data + (bpb.cluster_count + 1) * byte b 13)
      × IsTypeOf bpb.cluster_count bpb.fat_type
unfolding create_from_bytes
accepted-room b bpb first_data volume_len e first total fits small =
    elim (Bool-cases (footer b == 0xAA55)) [
      | inr bad ↦ let no_ok : err _ ≡ ok bpb = rw (bad, if◌then◌else◌) at e in cc
      | inl good ↦
          let e1 = rw (good, if◌then◌else◌) at e in
          elim (Bool-cases (blocks_per_cluster b == 0)) [
            | inl none_each ↦ let no_ok : panic ≡ ok bpb = rw (none_each, if◌then◌else◌) at e1 in cc
            | inr some_each ↦
                let e2 = rw (some_each, if◌then◌else◌) at e1 in
                let c = classify-IsTypeOf b _ bpb e2 in
                let q = c.0 ∙ ap₂ (λ (t n : ℕ). sub32 t n / blocks_per_cluster b) total first in
                let r =
                  room volume_len first_data (blocks_per_cluster b) bpb.cluster_count fits small
                    (==_false (blocks_per_cluster b) 0 some_each) q in
                (
                  (==_iff (footer b) 0xAA55).0 good,
                  r.0,
                  r.1,
                  subst (λ (n : ℕ). IsTypeOf n bpb.fat_type) (sym c.0) c.1,
                )
          ]
    ]

-- A boot sector that is accepted, of a volume whose data area, by its fields, begins inside the
-- volume, which has fewer than 2^32 blocks: it has its signature, the clusters fit into the blocks
-- from the start of the data area to the volume's end, there are no more of them than fit, and
-- the type of FAT is the one for their number.
pub create_from_bytes_lem :
    (b : List ℕ) (bpb : Bpb) (first_data volume_len : ℕ)
    → create_from_bytes b ≡ ok bpb
    → IsBytes b
    → HasLayout b first_data volume_len
    → first_data ≤ volume_len
    → volume_len < 2 ^ 32
    → (read_u16 b 510 ≡ 0xAA55)
      × (first_data + bpb.cluster_count * byte b 13 ≤ volume_len)
      × (volume_len < first_data + (bpb.cluster_count + 1) * byte b 13)
      × IsTypeOf bpb.cluster_count bpb.fat_type
create_from_bytes_lem b bpb first_data volume_len e bytes l fits small =
    let eqs = layout-eq b first_data volume_len bytes l fits (omega arith) in
    accepted-room b bpb first_data volume_len e eqs.0 eqs.1 fits (omega arith)

module _ {D : Type 0} ⦃dev : BlockDevice D⦄ (w : Working dev) where
  update_info-Yields :
      (v : FatVolume) (info : Fat32Info) (n c : ℕ) (k : BlockCache D)
      → IsCoherent w k
      → v.free_clusters_count ≡ some n
      → v.next_free_cluster ≡ some c
      → Yields w (update_info v (fat32_info info) k) (ok tt) (
          put_block
            (blocks w k)
            info.info_location
            (write_u32 (write_u32 (blocks w k info.info_location) 488 n) 492 c))
  unfolding update_info store_opt is_none
  update_info-Yields v info n c k co free next =
      let y = read-Yields w info.info_location k co in
      rw (free, next)
        (rw (y.result, ◌>>=◌)
          (modify_read-Yields w info.info_location (λ b. write_u32 (write_u32 b 488 n) 492 c) k co))

  -- On a device that works, the free count and the hint of a FAT32 volume that are known and are no
  -- special values are read back from its info sector once that is updated, and its signatures stay
  -- as they were.
  pub update_info_sector_lem :
      (v : FatVolume) (info : Fat32Info) (n c : ℕ) (k : BlockCache D)
      → IsCoherent w k
      → HasBlocks (blocks w k)
      → v.fat_specific_info ≡ fat32_info info
      → v.free_clusters_count ≡ some n
      → v.next_free_cluster ≡ some c
      → n < 0xFFFF_FFFF
      → 2 ≤ c
      → c < 0xFFFF_FFFF
      → let out = update_info_sector v k in
        let before = blocks w k info.info_location in
        let after = blocks w out.1 info.info_location in
        (out.0 ≡ ok tt)
        × (info_free_count after ≡ some n)
        × (info_next_free after ≡ some c)
        × (read_u32 after 0 ≡ read_u32 before 0)
        × (read_u32 after 484 ≡ read_u32 before 484)
        × (read_u32 after 508 ≡ read_u32 before 508)
  unfolding update_info_sector info_free_count info_next_free
  update_info_sector_lem v info n c k co hb kind free next small two last =
      let loc = info.info_location in
      let b = blocks w k loc in
      let b1 = write_u32 b 488 n in
      let b2 = write_u32 b1 492 c in
      let y =
        subst (λ i. Yields w (update_info v i k) (ok tt) (put_block (blocks w k) loc b2)) (sym kind)
          (update_info-Yields v info n c k co free next) in
      let after : blocks w (update_info_sector v k).1 loc ≡ b2 =
        ap (λ (d : Blocks). d loc) y.stored ∙ rw (==_self loc, if◌then◌else◌) refl in
      let len = length-write_u32 b 488 n in
      let count : read_u32 b2 488 ≡ n =
        read_u32-write_u32_ne b1 492 488 c (inl (omega arith))
        ∙ read_u32-write_u32_self b 488 n (omega (arith, hb loc)) (omega arith) in
      let hint : read_u32 b2 492 ≡ c =
        read_u32-write_u32_self b1 492 c (omega (arith, len, hb loc)) (omega arith) in
      (
        y.result,
        ap info_free_count after
            ∙ rw (count) (rw (==_ne n 0xFFFF_FFFF (omega arith), if◌then◌else◌) refl),
        ap info_next_free after
            ∙ rw (hint) (
                rw (==_ne c 0xFFFF_FFFF (omega arith), if◌then◌else◌)
                  (rw (==_ne c 0 (omega arith), if◌then◌else◌)
                    (rw (==_ne c 1 (omega arith), if◌then◌else◌) refl))),
        untouched b n c 0 after (inl (omega arith)) (inl (omega arith)),
        untouched b n c 484 after (inl (omega arith)) (inl (omega arith)),
        untouched b n c 508 after (inr (omega arith)) (inr (omega arith)),
      )
    where
      untouched :
          (b : List ℕ) (n c at : ℕ) {x : List ℕ}
          → x ≡ write_u32 (write_u32 b 488 n) 492 c
          → (at + 3 < 492) ⊎ (492 + 3 < at)
          → (at + 3 < 488) ⊎ (488 + 3 < at)
          → read_u32 x at ≡ read_u32 b at
      untouched b n c at e p q =
          ap (λ x. read_u32 x at) e
          ∙ read_u32-write_u32_ne (write_u32 b 488 n) 492 at c p
          ∙ read_u32-write_u32_ne b 488 at n q
