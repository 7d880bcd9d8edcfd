-- ===== src/Fat/Table/Lookup.antt =====
-- `next_cluster` reads the entry of its cluster.
use embedded_sdmmc_rs.Common.{ℕ, ◌+◌, ◌*◌, ◌/◌, ◌%◌, ◌^◌, ◌<◌, ◌≤◌, ◌≡◌, ◌∙◌, ap, ap₂, arith}
use embedded_sdmmc_rs.Common.{le→ltb, if◌then◌else◌, u32_mod, mul32, bit_and}
use embedded_sdmmc_rs.Common.Bits.{bit_and-mask}
use embedded_sdmmc_rs.Common.Bytes.{read_u16, read_u32}
use embedded_sdmmc_rs.Block.{BlockDevice, add_blocks, offset_bytes}
use embedded_sdmmc_rs.Cache.{BlockCache}
use embedded_sdmmc_rs.Cache.View.{
  Working, blocks, IsCoherent, Yields, read_then-Yields, Yields-result,
}
use embedded_sdmmc_rs.Filesystem.Cluster.{ClusterId}
use embedded_sdmmc_rs.Fat.Volume.{FatVolume, FatSpecificInfo, fat16_info, fat32_info}
use embedded_sdmmc_rs.Fat.Table.{next_cluster, next_of, decode16, decode32}
use embedded_sdmmc_rs.Fat.Table.Spec.{
  IsPlaced, InTable, entry, entry_block, entry_size, table_blocks, decode,
}

-- The block that the code computes for an entry, with its wrapping additions.
unfoldable pub coded_block : FatVolume → ℕ → FatSpecificInfo → ClusterId → ℕ
coded_block v start i c = add_blocks v.lba_start (offset_bytes start (mul32 c (entry_size i)))

pub coded_block-eq :
    (v : FatVolume) (start : ℕ) (i : FatSpecificInfo) (c : ClusterId)
    → v.cluster_count < 0x0FFF_FFF5
    → v.lba_start + start + table_blocks v i ≤ u32_mod
    → InTable v i c
    → coded_block v start i c ≡ entry_block (v.lba_start + start) i c
unfolding coded_block offset_bytes
coded_block-eq v start (fat16_info i) c small fits inside = omega arith
coded_block-eq v start (fat32_info i) c small fits inside = omega arith

module _ {D : Type 0} ⦃dev : BlockDevice D⦄ (w : Working dev) where
  next_of-Yields :
      (v : FatVolume) (i : FatSpecificInfo) (c : ClusterId) (k : BlockCache D)
      → IsPlaced v i
      → InTable v i c
      → IsCoherent w k
      → Yields w (next_of v i c k) (decode i (entry v i (blocks w k) c)) (blocks w k)
  unfolding next_of coded_block
  next_of-Yields v (fat16_info i) c k p inside h =
      Yields-result w
        (read_then-Yields w (coded_block v v.fat_start (fat16_info i) c)
          (λ b. decode16 (read_u16 b (mul32 c 2 % 512))) k h)
        (ap₂ (λ b o. decode16 (read_u16 (blocks w k b) o))
          (coded_block-eq v v.fat_start (fat16_info i) c p.count_small p.first_fits inside)
          (omega arith))
  next_of-Yields v (fat32_info i) c k p inside h =
      let at : mul32 c 4 % 512 ≡ c * 4 % 512 = omega arith in
      Yields-result w
        (read_then-Yields w (coded_block v v.fat_start (fat32_info i) c)
          (λ b. decode32 (bit_and (read_u32 b (mul32 c 4 % 512)) 0x0FFF_FFFF)) k h)
        (ap decode32 (
            bit_and-mask 28 (
              read_u32 (blocks w k (coded_block v v.fat_start (fat32_info i) c)) (mul32 c 4 % 512)))
          ∙ ap₂ (λ b o. decode32 (read_u32 (blocks w k b) o % 2 ^ 28))
              (coded_block-eq v v.fat_start (fat32_info i) c p.count_small p.first_fits inside) at)

  -- On a device that works, `next_cluster` of a cluster of the table returns what the entry on
  -- the disk says, and changes no block.
  pub next_cluster-Yields :
      (v : FatVolume) (c : ClusterId) (k : BlockCache D)
      → IsPlaced v v.fat_specific_info
      → InTable v v.fat_specific_info c
      → IsCoherent w k
      → Yields w
          (next_cluster v c k)
          (decode v.fat_specific_info (entry v v.fat_specific_info (blocks w k) c))
          (blocks w k)
  unfolding next_cluster
  next_cluster-Yields v c k p inside h =
      rw (le→ltb (0xFFFF_FFFF / 4) c (small v.fat_specific_info p inside), if◌then◌else◌)
        (next_of-Yields v v.fat_specific_info c k p inside h)
    where
      small : (i : FatSpecificInfo) → IsPlaced v i → InTable v i c → c ≤ 0xFFFF_FFFF / 4
      small (fat16_info _) q n = omega (arith, q.count_small)
      small (fat32_info _) q n = omega (arith, q.count_small)
