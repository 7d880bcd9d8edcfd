-- ===== src/Sdcard/Csd/Capacity.antt =====
-- The capacity of a card, in bytes and in blocks, as the standard has it.
use embedded_sdmmc_rs.Common.{
  ℕ, ◌+◌, ◌*◌, ◌/◌, ◌%◌, ◌^◌, ◌<◌, List, Bool, true, false, ◌≡◌, refl, subst, ◌⊎◌, inl, inr, arith,
}
use embedded_sdmmc_rs.Common.{◌-◌, if◌then◌else◌, ◌==◌, Bool-cases}
use embedded_sdmmc_rs.Common.Bytes.{byte}
use embedded_sdmmc_rs.Sdcard.Csd.Fields.{
  bits, be_value, multiplier, multiplier_number, SizeMultiplierSelect, by_4, by_8, by_16, by_32,
  by_64, by_128, by_256, by_512, BlockLengthSelectV1, len_512, len_1024, len_2048,
  block_length_number,
}
use embedded_sdmmc_rs.Sdcard.Csd.Version1
use embedded_sdmmc_rs.Sdcard.Csd.Version2
use embedded_sdmmc_rs.Sdcard.Csd.Version3
use embedded_sdmmc_rs.Sdcard.Csd.Version1.{CsdV1}
use embedded_sdmmc_rs.Sdcard.Csd.{
  Csd, CsdCreationError, v1, v2, v3, new_csd, new_unchecked, of_version, checked, verify_crc7,
  invalid_csd_structure_field, card_capacity_bytes, card_capacity_blocks,
}

-- The capacity as the standard defines it.
abbrev pub HasCapacity : Csd → ℕ → Type 0
HasCapacity (v1 csd) bytes =
    (len : BlockLengthSelectV1) × (csd.read_block_length ≡ inr len)
    × (bytes
        ≡ (csd.device_size + 1)
          * multiplier csd.device_size_multiplier
          * 2 ^ block_length_number len)
HasCapacity (v2 csd) bytes = bytes ≡ (csd.device_size + 1) * 524288
HasCapacity (v3 csd) bytes = bytes ≡ (csd.device_size + 1) * 524288

-- What a capacity in blocks of 32 bits has room for: in version 1 the length of a block is one
-- that the standard names, and in the others there are less than 2^32 blocks.
abbrev pub HasRoom : Csd → Type 0
HasRoom (v1 csd) = (len : BlockLengthSelectV1) × (csd.read_block_length ≡ inr len)
HasRoom (v2 csd) = csd.device_size + 1 < 4194304
HasRoom (v3 csd) = csd.device_size + 1 < 4194304

abbrev Agrees : Csd → Type 0
Agrees csd =
    HasCapacity csd (card_capacity_bytes csd)
    × (card_capacity_bytes csd ≡ 512 * card_capacity_blocks csd)

-- the two formulas of version 1
formulas :
    (size : ℕ) (m : SizeMultiplierSelect) (len : BlockLengthSelectV1)
    → size < 4096
    → let bytes =
        (size + 1)
        * 2 ^ (multiplier_number m + block_length_number len + 2)
        % 18446744073709551616 in
      (bytes ≡ (size + 1) * multiplier m * 2 ^ block_length_number len)
      × (bytes
          ≡ 512
            * ((size + 1)
                * 2
                  ^ ((multiplier_number m + block_length_number len + 4294967296 - 7)
                      % 4294967296
                      % 32)
                % 4294967296))
unfolding multiplier_number block_length_number multiplier
formulas size by_4 len_512 h = (omega arith, omega arith)
formulas size by_4 len_1024 h = (omega arith, omega arith)
formulas size by_4 len_2048 h = (omega arith, omega arith)
formulas size by_8 len_512 h = (omega arith, omega arith)
formulas size by_8 len_1024 h = (omega arith, omega arith)
formulas size by_8 len_2048 h = (omega arith, omega arith)
formulas size by_16 len_512 h = (omega arith, omega arith)
formulas size by_16 len_1024 h = (omega arith, omega arith)
formulas size by_16 len_2048 h = (omega arith, omega arith)
formulas size by_32 len_512 h = (omega arith, omega arith)
formulas size by_32 len_1024 h = (omega arith, omega arith)
formulas size by_32 len_2048 h = (omega arith, omega arith)
formulas size by_64 len_512 h = (omega arith, omega arith)
formulas size by_64 len_1024 h = (omega arith, omega arith)
formulas size by_64 len_2048 h = (omega arith, omega arith)
formulas size by_128 len_512 h = (omega arith, omega arith)
formulas size by_128 len_1024 h = (omega arith, omega arith)
formulas size by_128 len_2048 h = (omega arith, omega arith)
formulas size by_256 len_512 h = (omega arith, omega arith)
formulas size by_256 len_1024 h = (omega arith, omega arith)
formulas size by_256 len_2048 h = (omega arith, omega arith)
formulas size by_512 len_512 h = (omega arith, omega arith)
formulas size by_512 len_1024 h = (omega arith, omega arith)
formulas size by_512 len_2048 h = (omega arith, omega arith)

-- A register of version 1 whose size field has its twelve bits.
capacity-v1 : (csd : CsdV1) → csd.device_size < 4096 → HasRoom (v1 csd) → Agrees (v1 csd)
unfolding card_capacity_bytes card_capacity_blocks Version1.card_capacity_bytes
    Version1.card_capacity_blocks
capacity-v1 csd small (len, named) =
    let both = formulas csd.device_size csd.device_size_multiplier len small in
    rw named ((len, refl, both.0), both.1)

-- what the size field of a register of version 1 is read from
abbrev IsRead : Csd → Type 0
IsRead (v1 csd) = csd.device_size < 4096
IsRead (v2 csd) = Unit
IsRead (v3 csd) = Unit

bits-small : (raw : ℕ) → bits 62 73 raw < 4096
unfolding bits
bits-small raw = omega arith

abbrev IsReadOr : CsdCreationError ⊎ Csd → Type 0
IsReadOr (inl e) = Unit
IsReadOr (inr csd) = IsRead csd

of_version-IsReadOr : (n : ℕ) (raw : List ℕ) → IsReadOr (of_version n raw)
unfolding Version1.from_be_bytes
of_version-IsReadOr n raw = go (n == 0) (n == 1) (n == 2)
  where
    go :
        (x y z : Bool)
        → IsReadOr (
            if x
            then inr (v1 (Version1.from_be_bytes raw))
            else if y
            then inr (v2 (Version2.from_be_bytes raw))
            else if z
            then inr (v3 (Version3.from_be_bytes raw))
            else inl invalid_csd_structure_field)
    go true y z = bits-small (be_value raw)
    go false true z = tt
    go false false true = tt
    go false false false = tt

checked-verified :
    (out : CsdCreationError ⊎ Csd) (csd : Csd)
    → checked out ≡ inr csd
    → (out ≡ inr csd) × (verify_crc7 csd ≡ true)
unfolding checked
checked-verified (inl e) csd h = cc
checked-verified (inr c) csd h = elim (Bool-cases (verify_crc7 c)) [
  | inl valid ↦ let same : inr c ≡ inr csd = rw (valid, if◌then◌else◌) at h in (same, cc)
  | inr invalid ↦ cc (rw (invalid, if◌then◌else◌) at h)
]

capacity-Agrees : (csd : Csd) → IsRead csd → HasRoom csd → Agrees csd
unfolding card_capacity_bytes card_capacity_blocks Version2.card_capacity_bytes
    Version2.card_capacity_blocks Version3.card_capacity_bytes Version3.card_capacity_blocks
capacity-Agrees (v1 csd) read room = capacity-v1 csd read room
capacity-Agrees (v2 csd) read room = (omega arith, omega arith)
capacity-Agrees (v3 csd) read room = (omega arith, omega arith)

-- A register that is accepted has a valid check sum. If a capacity in blocks of 32 bits has room
-- for the card, and the length of a block is one that the standard names, then the capacity in
-- bytes is the one of the standard, and 512 times the capacity in blocks.
pub new_csd-capacity :
    (raw : List ℕ) (csd : Csd)
    → new_csd raw ≡ inr csd
    → HasRoom csd
    → (verify_crc7 csd ≡ true)
      × HasCapacity csd (card_capacity_bytes csd)
      × (card_capacity_bytes csd ≡ 512 * card_capacity_blocks csd)
unfolding new_csd new_unchecked
new_csd-capacity raw csd e room =
    let parts = checked-verified (new_unchecked raw) csd e in
    let read = subst IsReadOr parts.0 (of_version-IsReadOr (byte raw 0 / 64 % 4) raw) in
    let agrees = capacity-Agrees csd read room in (parts.1, agrees.0, agrees.1)
