-- ===== src/Fat/Table/Update.antt =====
-- `update_fat` replaces the entry of its cluster, in both tables, and no other.
use embedded_sdmmc_rs.Common.{ℕ, ◌+◌, ◌*◌, ◌/◌, ◌%◌, ◌^◌, ◌<◌, ◌≡◌, refl, ◌∙◌, ap, ap₂, arith}
use embedded_sdmmc_rs.Common.{if◌then◌else◌, ◌==◌, mul32, bit_and, bit_or, length, List}
use embedded_sdmmc_rs.Common.{◌≢◌, inl, inr, Option, none, some, false, Bool-cases, ==_iff, ==_ne}
use embedded_sdmmc_rs.Common.Bits.{bit_and-mask, bit_and-shifted, bit_or-disjoint}
use embedded_sdmmc_rs.Common.Bytes.{
  read_u32, write_u16, read_u16-write_u16_self, read_u16-write_u16_ne, length-write_u16,
  length-write_u32, read_u32-write_u32_self, read_u32-write_u32_ne,
}
use embedded_sdmmc_rs.Common.Action.{ok}
use embedded_sdmmc_rs.Block.{BlockDevice}
use embedded_sdmmc_rs.Cache.{BlockCache}
use embedded_sdmmc_rs.Cache.View.{
  Blocks, Working, blocks, IsCoherent, Yields, Yields-stored, rewrite_block-Yields, put_copies,
  put_block,
}
use embedded_sdmmc_rs.Filesystem.Cluster.{ClusterId}
use embedded_sdmmc_rs.Fat.Volume.{FatVolume, FatSpecificInfo, fat16_info, fat32_info}
use embedded_sdmmc_rs.Fat.Table.{update_fat, update_of, encode16, encode32, store32, second_block}
use embedded_sdmmc_rs.Fat.Table.Spec.{
  IsPlaced, SecondFits, InTable, HasBlocks, entry, entry_in, entry_block, entry_size, table_blocks,
  encode,
}
use embedded_sdmmc_rs.Fat.Table.Lookup.{coded_block, coded_block-eq}

-- an entry of a block replaced
abbrev pub put_entry : FatSpecificInfo → List ℕ → ClusterId → ClusterId → List ℕ
put_entry (fat16_info _) b c new = write_u16 b (c * 2 % 512) (encode16 new)
put_entry (fat32_info _) b c new = store32 b (c * 4 % 512) (encode32 new)

encode16-lt : (new : ClusterId) → encode16 new < 65536
unfolding encode16
encode16-lt new = ground arith

-- The four bits that FAT32 keeps, and the 28 that it replaces.
merged :
    (old new : ℕ)
    → bit_or (bit_and old 0xF000_0000) (bit_and new 0x0FFF_FFFF)
      ≡ old / 2 ^ 28 % 16 * 2 ^ 28 + new % 2 ^ 28
merged old new =
    ap₂ bit_or (bit_and-shifted 28 old 15 ∙ ap (λ t. t * 2 ^ 28) (bit_and-mask 4 (old / 2 ^ 28)))
      (bit_and-mask 28 new)
    ∙ bit_or-disjoint 28 (old / 2 ^ 28 % 16) (new % 2 ^ 28) (omega arith)

entry_in-put_entry_self :
    (i : FatSpecificInfo) (b : List ℕ) (c new : ClusterId)
    → length b ≡ 512
    → entry_in i (put_entry i b c new) c ≡ encode i new
unfolding store32
entry_in-put_entry_self (fat16_info _) b c new h =
    read_u16-write_u16_self b (c * 2 % 512) (encode16 new) (omega arith) (encode16-lt new)
entry_in-put_entry_self (fat32_info _) b c new h = omega (
  arith,
  merged (read_u32 b (c * 4 % 512)) (encode32 new),
  read_u32-write_u32_self b (c * 4 % 512)
      (bit_or (bit_and (read_u32 b (c * 4 % 512)) 0xF000_0000) (bit_and (encode32 new) 0x0FFF_FFFF))
      (omega arith) (omega (arith, merged (read_u32 b (c * 4 % 512)) (encode32 new))),
)

entry_in-put_entry_ne :
    (i : FatSpecificInfo) (b : List ℕ) (c j new : ClusterId)
    → c ≢ j
    → c * entry_size i / 512 ≡ j * entry_size i / 512
    → entry_in i (put_entry i b c new) j ≡ entry_in i b j
unfolding store32
entry_in-put_entry_ne (fat16_info _) b c j new ne same =
    read_u16-write_u16_ne b (c * 2 % 512) (j * 2 % 512) (encode16 new) (omega arith)
entry_in-put_entry_ne (fat32_info _) b c j new ne same =
    ap (λ t. t % 2 ^ 28) (read_u32-write_u32_ne b (c * 4 % 512) (j * 4 % 512) _ (omega arith))

entry_in-put_entry :
    (i : FatSpecificInfo) (b : List ℕ) (c j new : ClusterId)
    → length b ≡ 512
    → c * entry_size i / 512 ≡ j * entry_size i / 512
    → entry_in i (put_entry i b c new) j ≡ (if c == j then encode i new else entry_in i b j)
entry_in-put_entry i b c j new h same = elim (Bool-cases (c == j)) [
  | inl eq ↦
      let e : c ≡ j = (==_iff c j).0 eq in rw eq (rw (← e) (entry_in-put_entry_self i b c new h))
  | inr other ↦ rw other (entry_in-put_entry_ne i b c j new (ground arith) same)
]

-- A copy in the second table is no block of the first.
put_copies-first :
    (v : FatVolume) (i : FatSpecificInfo) (second : Option ℕ) (d : Blocks) (b1 bj c : ℕ)
    (b : List ℕ)
    → IsPlaced v i
    → SecondFits v i second
    → InTable v i c
    → bj < v.lba_start + v.fat_start + table_blocks v i
    → put_copies d b1 (second_block v second (mul32 c (entry_size i))) b bj
      ≡ (if b1 == bj then b else d bj)
unfolding second_block coded_block
put_copies-first v i none d b1 bj c b p s inside low = refl
put_copies-first v i (some start) d b1 bj c b p s inside low =
    rw (==_ne (coded_block v start i c) bj (apart i p s inside low)) refl
  where
    apart :
        (i : FatSpecificInfo)
        → IsPlaced v i
        → SecondFits v i (some start)
        → InTable v i c
        → bj < v.lba_start + v.fat_start + table_blocks v i
        → coded_block v start i c ≢ bj
    apart (fat16_info x) p s inside low =
        omega (arith, coded_block-eq v start (fat16_info x) c p.count_small s.1 inside)
    apart (fat32_info x) p s inside low =
        omega (arith, coded_block-eq v start (fat32_info x) c p.count_small s.1 inside)

-- the blocks after `update_fat`
abbrev pub updated : FatVolume → FatSpecificInfo → Blocks → ClusterId → ClusterId → Blocks
updated v i d c new =
    let first = coded_block v v.fat_start i c in
    put_copies d first (second_block v v.second_fat_start (mul32 c (entry_size i)))
      (put_entry i (d first) c new)

entry_block-lt :
    (v : FatVolume) (i : FatSpecificInfo) (j : ClusterId)
    → InTable v i j
    → entry_block (v.lba_start + v.fat_start) i j < v.lba_start + v.fat_start + table_blocks v i
entry_block-lt v (fat16_info _) j h = omega arith
entry_block-lt v (fat32_info _) j h = omega arith

differ : (a b : ℕ) → (a == b) ≡ false → a ≢ b
differ a b h = ground arith

entry-updated :
    (v : FatVolume) (i : FatSpecificInfo) (d : Blocks) (c j new : ClusterId)
    → IsPlaced v i
    → HasBlocks d
    → InTable v i c
    → InTable v i j
    → entry v i (updated v i d c new) j ≡ (if c == j then encode i new else entry v i d j)
entry-updated v i d c j new p h ic ij =
    let bj = entry_block (v.lba_start + v.fat_start) i j in
    let bc = coded_block v v.fat_start i c in
    let at : bc ≡ entry_block (v.lba_start + v.fat_start) i c =
      coded_block-eq v v.fat_start i c p.count_small p.first_fits ic in
    ap (λ b. entry_in i b j)
      (put_copies-first v i v.second_fat_start d bc bj c (put_entry i (d bc) c new) p p.second_fits
        ic (entry_block-lt v i j ij))
    ∙ elim (Bool-cases (bc == bj)) [
      | inl hit ↦
          let e : bc ≡ bj = (==_iff bc bj).0 hit in
          rw hit (
            entry_in-put_entry i (d bc) c j new (h bc) (omega (arith, at, e))
            ∙ ap (λ b. if c == j then encode i new else entry_in i (d b) j) e)
      | inr miss ↦ rw miss (
          rw
            (==_ne c j (λ e.
              differ bc bj miss (at ∙ ap (λ t. entry_block (v.lba_start + v.fat_start) i t) e)))
            refl)
    ]

put_block_len :
    (d : Blocks) (x : ℕ) (b : List ℕ) → HasBlocks d → length b ≡ 512 → HasBlocks (put_block d x b)
put_block_len d x b h e j = elim (Bool-cases (x == j)) [
  | inl hit ↦ rw hit e
  | inr miss ↦ rw miss (h j)
]

put_copies_len :
    (d : Blocks) (x : ℕ) (copy : Option ℕ) (b : List ℕ)
    → HasBlocks d
    → length b ≡ 512
    → HasBlocks (put_copies d x copy b)
put_copies_len d x none b h e = put_block_len d x b h e
put_copies_len d x (some y) b h e = put_block_len (put_block d x b) y b (put_block_len d x b h e) e

length-put_entry :
    (i : FatSpecificInfo) (b : List ℕ) (c new : ClusterId) → length (put_entry i b c new) ≡ length b
unfolding store32
length-put_entry (fat16_info _) b c new = length-write_u16 b (c * 2 % 512) (encode16 new)
length-put_entry (fat32_info _) b c new = length-write_u32 b (c * 4 % 512) _

pub updated_len :
    (v : FatVolume) (i : FatSpecificInfo) (d : Blocks) (c new : ClusterId)
    → HasBlocks d
    → HasBlocks (updated v i d c new)
updated_len v i d c new h =
    let first = coded_block v v.fat_start i c in
    put_copies_len d first (second_block v v.second_fat_start (mul32 c (entry_size i)))
      (put_entry i (d first) c new) h (length-put_entry i (d first) c new ∙ h first)

module _ {D : Type 0} ⦃dev : BlockDevice D⦄ (w : Working dev) where
  update_of-Yields :
      (v : FatVolume) (i : FatSpecificInfo) (c new : ClusterId) (k : BlockCache D)
      → IsCoherent w k
      → Yields w (update_of v i c new k) (ok tt) (updated v i (blocks w k) c new)
  unfolding update_of coded_block
  update_of-Yields v (fat16_info i) c new k h =
      let bc = coded_block v v.fat_start (fat16_info i) c in
      let copy = second_block v v.second_fat_start (mul32 c 2) in
      let at : mul32 c 2 % 512 ≡ c * 2 % 512 = omega arith in
      Yields-stored w
        (rewrite_block-Yields w bc copy (λ b. write_u16 b (mul32 c 2 % 512) (encode16 new)) k h)
        (ap (λ o. put_copies (blocks w k) bc copy (write_u16 (blocks w k bc) o (encode16 new))) at)
  update_of-Yields v (fat32_info i) c new k h =
      let bc = coded_block v v.fat_start (fat32_info i) c in
      let copy = second_block v v.second_fat_start (mul32 c 4) in
      let at : mul32 c 4 % 512 ≡ c * 4 % 512 = omega arith in
      Yields-stored w
        (rewrite_block-Yields w bc copy (λ b. store32 b (mul32 c 4 % 512) (encode32 new)) k h)
        (ap (λ o. put_copies (blocks w k) bc copy (store32 (blocks w k bc) o (encode32 new))) at)

  pub update_fat-Yields :
      (v : FatVolume) (c new : ClusterId) (k : BlockCache D)
      → IsCoherent w k
      → Yields w (update_fat v c new k) (ok tt) (updated v v.fat_specific_info (blocks w k) c new)
  unfolding update_fat
  update_fat-Yields v c new k h = update_of-Yields v v.fat_specific_info c new k h

  -- On a device that works, `update_fat` succeeds and sets the entry of its cluster to what stands
  -- for the new value; every other entry of the table stays as it was.
  pub update_fat-entry :
      (v : FatVolume) (c new j : ClusterId) (k : BlockCache D)
      → IsPlaced v v.fat_specific_info
      → HasBlocks (blocks w k)
      → IsCoherent w k
      → InTable v v.fat_specific_info c
      → InTable v v.fat_specific_info j
      → let out = update_fat v c new k in
        (out.0 ≡ ok tt)
        × (entry v v.fat_specific_info (blocks w out.1) j ≡ (
            if c == j
            then encode v.fat_specific_info new
            else entry v v.fat_specific_info (blocks w k) j))
  update_fat-entry v c new j k p h co ic ij =
      let y = update_fat-Yields v c new k co in
      (
        y.result,
        ap (λ (d : Blocks). entry v v.fat_specific_info d j) y.stored
            ∙ entry-updated v v.fat_specific_info (blocks w k) c j new p h ic ij,
      )
