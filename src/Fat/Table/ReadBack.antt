-- ===== src/Fat/Table/ReadBack.antt =====
-- What `next_cluster` reads after `update_fat` (embedded-sdmmc/src/fat/volume.rs), by the meaning of
-- what was written.
use embedded_sdmmc_rs.Common.{◌<◌, ◌≤◌, ◌≡◌, refl, ◌∙◌, ap, arith, sym}
use embedded_sdmmc_rs.Common.{if◌then◌else◌, ◌==◌, inl, inr, Bool-cases}
use embedded_sdmmc_rs.Common.Action.{
  Result, ok, err, end_of_file, bad_cluster, unterminated_fat_chain,
}
use embedded_sdmmc_rs.Block.{BlockDevice}
use embedded_sdmmc_rs.Cache.{BlockCache}
use embedded_sdmmc_rs.Cache.View.{Working, blocks, IsCoherent}
use embedded_sdmmc_rs.Filesystem.Cluster
use embedded_sdmmc_rs.Filesystem.Cluster.{ClusterId}
use embedded_sdmmc_rs.Fat.Volume.{FatVolume, FatSpecificInfo, fat16_info, fat32_info}
use embedded_sdmmc_rs.Fat.Table.{next_cluster, update_fat, encode16, encode32, decode16, decode32}
use embedded_sdmmc_rs.Fat.Table.Spec.{IsPlaced, InTable, HasBlocks, encode, decode}
use embedded_sdmmc_rs.Fat.Table.Lookup.{next_cluster-Yields}
use embedded_sdmmc_rs.Fat.Table.Update.{update_fat-Yields, update_fat-entry}

-- what can be written into an entry: the number of a next cluster, or a value with a meaning
pub data Written : Type 0 where
  link : ClusterId → Written
  last bad free invalid : Written

-- the value that the code takes for it
abbrev pub value_of : Written → ClusterId
value_of (link n) = n
value_of last = Cluster.end_of_file
value_of bad = Cluster.bad
value_of free = Cluster.empty
value_of invalid = Cluster.invalid

-- A next cluster is the number of a cluster of the data area: 0 and 1 are none, and neither are the
-- reserved values of the type of FAT.
abbrev pub IsWritable : FatSpecificInfo → Written → Type 0
IsWritable (fat16_info _) (link n) = (2 ≤ n) × (n < 0xFFF6)
IsWritable (fat32_info _) (link n) = (2 ≤ n) × (n < 0x0FFF_FFF6)
IsWritable i last = Unit
IsWritable i bad = Unit
IsWritable i free = Unit
IsWritable i invalid = Unit

-- what is read where it was written
abbrev pub read_back : FatSpecificInfo → Written → Result ClusterId
read_back i (link n) = ok n
read_back i last = err end_of_file
read_back i bad = err bad_cluster
read_back (fat16_info _) free = ok 0
read_back (fat32_info _) free = err unterminated_fat_chain
read_back (fat16_info _) invalid = ok 0xFFF6
read_back (fat32_info _) invalid = ok 0x0FFF_FFF6

decode-encode :
    (i : FatSpecificInfo) (x : Written)
    → IsWritable i x
    → decode i (encode i (value_of x)) ≡ read_back i x
unfolding encode16 encode32 decode16 decode32
decode-encode (fat16_info _) (link n) h = ground arith
decode-encode (fat32_info _) (link n) h = ground arith
decode-encode (fat16_info _) last h = refl
decode-encode (fat32_info _) last h = refl
decode-encode (fat16_info _) bad h = refl
decode-encode (fat32_info _) bad h = refl
decode-encode (fat16_info _) free h = refl
decode-encode (fat32_info _) free h = refl
decode-encode (fat16_info _) invalid h = refl
decode-encode (fat32_info _) invalid h = refl

module _ {D : Type 0} ⦃dev : BlockDevice D⦄ (w : Working dev) where
  -- On a device that works, `next_cluster` after `update_fat` reads what was written, if it is asked
  -- for the same cluster: the number of a next cluster is read as that number, the end of a chain as
  -- `EndOfFile`, and a bad cluster as `BadCluster`; a free entry is the cluster 0 on FAT16 and
  -- `UnterminatedFatChain` on FAT32, and the invalid value is a cluster 0xFFF6 or 0x0FFFFFF6. If it
  -- is asked for another cluster, it answers as it did before.
  pub next_cluster-update_fat :
      (v : FatVolume) (c j : ClusterId) (x : Written) (k : BlockCache D)
      → IsPlaced v v.fat_specific_info
      → HasBlocks (blocks w k)
      → IsCoherent w k
      → InTable v v.fat_specific_info c
      → InTable v v.fat_specific_info j
      → IsWritable v.fat_specific_info x
      → (next_cluster v j (update_fat v c (value_of x) k).1).0
        ≡ (if c == j then read_back v.fat_specific_info x else (next_cluster v j k).0)
  next_cluster-update_fat v c j x k p h co ic ij wr =
      let i = v.fat_specific_info in
      let new = value_of x in
      let y = update_fat-Yields w v c new k co in
      let after = next_cluster-Yields w v j (update_fat v c new k).1 p ij y.coherent in
      let before = next_cluster-Yields w v j k p ij co in
      after.result
      ∙ ap (decode i) (update_fat-entry w v c new j k p h co ic ij).1
      ∙ elim (Bool-cases (c == j)) [
        | inl eq ↦ rw eq (decode-encode i x wr)
        | inr ne ↦ rw ne (sym before.result)
      ]
