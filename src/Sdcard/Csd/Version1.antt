-- ===== src/Sdcard/Csd/Version1.antt =====
-- embedded-sdmmc-types/src/sdcard/csd.rs: the register of version 1 (`CsdV1`).
use embedded_sdmmc_rs.Common.{
  ℕ, ◌+◌, ◌*◌, ◌^◌, ◌%◌, Bool, List, ◌⊎◌, inl, inr, sub32, u32_mod, take, ◌==◌,
}
use embedded_sdmmc_rs.Sdcard.Crc.{crc7}
use embedded_sdmmc_rs.Sdcard.Csd.Fields.{
  bits, bit, csd_structure_of, CsdStructure, BlockLengthSelectV1, block_length_v1,
  SizeMultiplierSelect, size_multiplier, multiplier_number, block_length_number, be_value, be_bytes,
  u64_mod,
}

-- The value and the fields that are read from it.
pub record CsdV1 : Type 0 where
  pub raw_value : ℕ
  pub csd_structure : ℕ ⊎ CsdStructure
  pub data_read_access_time1 : ℕ
  pub data_read_access_time2 : ℕ
  pub max_data_transfer_rate : ℕ
  pub card_command_classes_raw : ℕ
  pub read_block_length : ℕ ⊎ BlockLengthSelectV1
  pub partial_blocks_for_read_allowed : Bool
  pub write_block_misalignment : Bool
  pub read_block_misalignment : Bool
  pub dsr_implemented : Bool
  pub device_size : ℕ
  pub max_read_current_vdd_min : ℕ
  pub max_read_current_vdd_max : ℕ
  pub max_write_current_vdd_min : ℕ
  pub max_write_current_vdd_max : ℕ
  pub device_size_multiplier : SizeMultiplierSelect
  pub erase_single_block_enabled : Bool
  pub erase_sector_size : ℕ
  pub write_protect_group_size : ℕ
  pub write_protect_group_enable : Bool
  pub write_speed_factor : ℕ
  pub write_block_length : ℕ ⊎ BlockLengthSelectV1
  pub partial_blocks_for_write_allowed : Bool
  pub file_format_group_set : Bool
  pub copy_flag_set : Bool
  pub permanent_write_protection : Bool
  pub temporary_write_protection : Bool
  pub file_format : ℕ
  pub write_protection_until_power_cycle : Bool
  pub crc : ℕ

unfoldable pub new_with_raw_value : ℕ → CsdV1
unfolding bits bit csd_structure_of block_length_v1 size_multiplier
new_with_raw_value raw = record {
  raw_value = raw;
  csd_structure = csd_structure_of (bits 126 127 raw);
  data_read_access_time1 = bits 112 119 raw;
  data_read_access_time2 = bits 104 111 raw;
  max_data_transfer_rate = bits 96 103 raw;
  card_command_classes_raw = bits 84 95 raw;
  read_block_length = block_length_v1 (bits 80 83 raw);
  partial_blocks_for_read_allowed = bit 79 raw;
  write_block_misalignment = bit 78 raw;
  read_block_misalignment = bit 77 raw;
  dsr_implemented = bit 76 raw;
  device_size = bits 62 73 raw;
  max_read_current_vdd_min = bits 59 61 raw;
  max_read_current_vdd_max = bits 56 58 raw;
  max_write_current_vdd_min = bits 53 55 raw;
  max_write_current_vdd_max = bits 50 52 raw;
  device_size_multiplier = size_multiplier (bits 47 49 raw);
  erase_single_block_enabled = bit 46 raw;
  erase_sector_size = bits 39 45 raw;
  write_protect_group_size = bits 32 38 raw;
  write_protect_group_enable = bit 31 raw;
  write_speed_factor = bits 26 28 raw;
  write_block_length = block_length_v1 (bits 22 25 raw);
  partial_blocks_for_write_allowed = bit 21 raw;
  file_format_group_set = bit 15 raw;
  copy_flag_set = bit 14 raw;
  permanent_write_protection = bit 13 raw;
  temporary_write_protection = bit 12 raw;
  file_format = bits 10 11 raw;
  write_protection_until_power_cycle = bit 9 raw;
  crc = bits 1 7 raw;
}

-- `CsdV1::from_be_bytes`
unfoldable pub from_be_bytes : List ℕ → CsdV1
unfolding new_with_raw_value be_value
from_be_bytes bytes = new_with_raw_value (be_value bytes)

-- The place of the lowest bit of the capacity: the field's number where it is none of the lengths
-- that the standard names.
abbrev pub read_length_number : CsdV1 → ℕ
read_length_number csd = elim csd.read_block_length [
  | inl number ↦ number
  | inr len ↦ block_length_number len
]

-- `CsdV1::card_capacity_bytes`, a `u64`: the shift is by less than 64
unfoldable pub card_capacity_bytes : CsdV1 → ℕ
unfolding multiplier_number block_length_number
card_capacity_bytes csd =
    let multiplier = multiplier_number csd.device_size_multiplier + read_length_number csd + 2 in
    (csd.device_size + 1) * 2 ^ multiplier % u64_mod

-- `CsdV1::card_capacity_blocks`, a `u32`: a release build wraps around in the subtraction of 7, and
-- shifts by the remainder of 32
unfoldable pub card_capacity_blocks : CsdV1 → ℕ
unfolding multiplier_number block_length_number
card_capacity_blocks csd =
    let multiplier =
      sub32 (multiplier_number csd.device_size_multiplier + read_length_number csd) 7 in
    (csd.device_size + 1) * 2 ^ (multiplier % 32) % u32_mod

-- `CsdV1::verify_crc7`
unfoldable pub verify_crc7 : CsdV1 → Bool
unfolding crc7 be_bytes
verify_crc7 csd = csd.crc == crc7 (take 15 (be_bytes 16 csd.raw_value))
