-- ===== src/Fat/Mount/Layout.antt =====
-- Where the parts of a FAT volume are by the fields of its boot sector, written apart from the code
-- (embedded-sdmmc/src/fat/bpb.rs), and that the code's numbers are these.
use embedded_sdmmc_rs.Common.{
  add32, mul32, not, false, ==_ne, ℕ, ◌+◌, ◌*◌, ◌%◌, ◌<◌, ◌≤◌, ◌≡◌, ◌≢◌, ◌∙◌, ap, sym, arith,
  u32_mod,
}
use embedded_sdmmc_rs.Common.{List, if◌then◌else◌, ◌==◌, ◌⊎◌, inl, inr}
use embedded_sdmmc_rs.Common.Bytes.{byte, IsBytes, read_u16, read_u32}
use embedded_sdmmc_rs.Block.{from_bytes}
use embedded_sdmmc_rs.Fat.Mount.{total_blocks, non_data_blocks, fat_size}

-- A count of the boot sector: the 16-bit field at one offset, or the 32-bit field at another one if
-- the 16-bit field is 0.
abbrev pub IsCount : List ℕ → ℕ → ℕ → ℕ → Type 0
IsCount b narrow wide n =
    ((n ≢ 0) × (n ≡ read_u16 b narrow)) ⊎ ((read_u16 b narrow ≡ 0) × (n ≡ read_u32 b wide))

-- Where the parts of a volume are, by the fields of its boot sector: the reserved blocks, then the
-- tables, then the blocks that the entries of the root directory, 32 bytes each, fill or begin to
-- fill, and then the data area.
pub record HasLayout (b : List ℕ) (first_data volume_len : ℕ) : Type 0 where
  pub fat_len : ℕ
  pub root_blocks : ℕ
  pub fat_field : IsCount b 22 36 fat_len
  pub volume_field : IsCount b 19 32 volume_len
  pub root_fits : read_u16 b 17 * 32 ≤ root_blocks * 512
  pub root_least : root_blocks * 512 < read_u16 b 17 * 32 + 512
  pub data_area : first_data ≡ read_u16 b 14 + byte b 16 * fat_len + root_blocks

count-eq :
    (b : List ℕ) (narrow wide n : ℕ)
    → IsCount b narrow wide n
    → (if not (read_u16 b narrow == 0) then read_u16 b narrow else read_u32 b wide) ≡ n
count-eq b narrow wide n (inl h) =
    let e : (read_u16 b narrow == 0) ≡ false = ==_ne (read_u16 b narrow) 0 (ground arith) in
    rw (e, if◌then◌else◌) (sym h.1)
count-eq b narrow wide n (inr h) = rw (h.0, if◌then◌else◌) (sym h.1)

-- Rounded up to blocks.
from_bytes-eq : (n r : ℕ) → n < u32_mod → n ≤ r * 512 → r * 512 < n + 512 → from_bytes n ≡ r
unfolding from_bytes
from_bytes-eq n r small fits least = ground arith

root_size : (b : List ℕ) → IsBytes b → read_u16 b 17 < 65536
unfolding read_u16
root_size b h = omega (arith, h 17, h 18)

sum_of :
    (x m r f total : ℕ)
    → f ≡ x + m + r
    → f ≤ total
    → total < u32_mod
    → add32 (add32 x (m % u32_mod)) r ≡ f
sum_of x m r f total e le small = omega arith

-- The code finds the layout, if the volume has room for what lies before its data area.
pub layout-eq :
    (b : List ℕ) (first_data volume_len : ℕ)
    → IsBytes b
    → HasLayout b first_data volume_len
    → first_data ≤ volume_len
    → volume_len < u32_mod
    → (non_data_blocks b ≡ first_data) × (total_blocks b ≡ volume_len)
unfolding non_data_blocks total_blocks fat_size
layout-eq b first_data volume_len bytes l fits small =
    let tables = count-eq b 22 36 l.fat_len l.fat_field in
    let size = root_size b bytes in
    let no_wrap : mul32 (read_u16 b 17) 32 ≡ read_u16 b 17 * 32 = omega arith in
    let root : from_bytes (mul32 (read_u16 b 17) 32) ≡ l.root_blocks =
      ap from_bytes no_wrap
      ∙ from_bytes-eq (read_u16 b 17 * 32) l.root_blocks (omega arith) l.root_fits l.root_least in
    (
      ap
            (λ (n : ℕ).
              add32 (add32 (read_u16 b 14) (mul32 (byte b 16) n))
                (from_bytes (mul32 (read_u16 b 17) 32)))
            tables
          ∙ ap (add32 (add32 (read_u16 b 14) (mul32 (byte b 16) l.fat_len))) root
          ∙ sum_of (read_u16 b 14) (byte b 16 * l.fat_len) l.root_blocks first_data volume_len
              l.data_area fits small,
      count-eq b 19 32 volume_len l.volume_field,
    )
