-- ===== src/Sdcard/Csd.antt =====
-- embedded-sdmmc-types/src/sdcard/csd.rs: the Card Specific Data in its three versions.
pub mod Fields
pub mod Version1
pub mod Version2
pub mod Version3
pub mod Capacity
use embedded_sdmmc_rs.Common.{ℕ, ◌/◌, ◌%◌, Bool, true, false, List, ◌⊎◌, inl, inr}
use embedded_sdmmc_rs.Common.{◌==◌, if◌then◌else◌}
use embedded_sdmmc_rs.Common.Bytes.{byte}
use embedded_sdmmc_rs.Sdcard.Csd.Version1
use embedded_sdmmc_rs.Sdcard.Csd.Version2
use embedded_sdmmc_rs.Sdcard.Csd.Version3
use embedded_sdmmc_rs.Sdcard.Csd.Version1.{CsdV1}
use embedded_sdmmc_rs.Sdcard.Csd.Version2.{CsdV2}
use embedded_sdmmc_rs.Sdcard.Csd.Version3.{CsdV3}

pub data Csd : Type 0 where
  v1 : CsdV1 → Csd
  v2 : CsdV2 → Csd
  v3 : CsdV3 → Csd

-- `CsdCreationError`; `InvalidCsdStructureFieldError` becomes its first value
pub data CsdCreationError : Type 0 where
  invalid_csd_structure_field checksum : CsdCreationError

-- the match on the two top bits
abbrev pub of_version : ℕ → List ℕ → CsdCreationError ⊎ Csd
of_version n raw =
    if n == 0
    then inr (v1 (Version1.from_be_bytes raw))
    else if n == 1
    then inr (v2 (Version2.from_be_bytes raw))
    else if n == 2
    then inr (v3 (Version3.from_be_bytes raw))
    else inl invalid_csd_structure_field

-- `Csd::new_unchecked`
unfoldable pub new_unchecked : List ℕ → CsdCreationError ⊎ Csd
new_unchecked raw = of_version (byte raw 0 / 64 % 4) raw

unfoldable pub card_capacity_blocks : Csd → ℕ
card_capacity_blocks (v1 csd) = Version1.card_capacity_blocks csd
card_capacity_blocks (v2 csd) = Version2.card_capacity_blocks csd
card_capacity_blocks (v3 csd) = Version3.card_capacity_blocks csd

unfoldable pub card_capacity_bytes : Csd → ℕ
card_capacity_bytes (v1 csd) = Version1.card_capacity_bytes csd
card_capacity_bytes (v2 csd) = Version2.card_capacity_bytes csd
card_capacity_bytes (v3 csd) = Version3.card_capacity_bytes csd

unfoldable pub erase_single_block_enabled : Csd → Bool
erase_single_block_enabled (v1 csd) = csd.erase_single_block_enabled
erase_single_block_enabled (v2 csd) = csd.erase_single_block_enabled
erase_single_block_enabled (v3 csd) = csd.erase_single_block_enabled

unfoldable pub verify_crc7 : Csd → Bool
verify_crc7 (v1 csd) = Version1.verify_crc7 csd
verify_crc7 (v2 csd) = Version2.verify_crc7 csd
verify_crc7 (v3 csd) = Version3.verify_crc7 csd

unfoldable pub checked : CsdCreationError ⊎ Csd → CsdCreationError ⊎ Csd
unfolding verify_crc7
checked (inl e) = inl e
checked (inr csd) = if verify_crc7 csd then inr csd else inl checksum

-- `Csd::new`
unfoldable pub new_csd : List ℕ → CsdCreationError ⊎ Csd
unfolding new_unchecked checked
new_csd raw = checked (new_unchecked raw)
