-- ===== src/Sdcard/Csd/Fields.antt =====
-- embedded-sdmmc-types/src/sdcard/csd.rs: the values of the fields of a register. A field of a
-- `bitfield` is a part of its bits, from the lowest to the highest one.
use embedded_sdmmc_rs.Common.{
  ℕ, zero, suc, ◌+◌, ◌-◌, ◌*◌, ◌/◌, ◌%◌, ◌^◌, Bool, List, [], ◌∷◌, ◌⊎◌, inl, inr,
}
use embedded_sdmmc_rs.Common.{◌==◌, if◌then◌else◌, length}

unfoldable pub bits : ℕ → ℕ → ℕ → ℕ
bits low high raw = raw / 2 ^ low % 2 ^ (high + 1 - low)

unfoldable pub bit : ℕ → ℕ → Bool
bit at raw = raw / 2 ^ at % 2 == 1

abbrev pub u64_mod : ℕ
u64_mod = 18446744073709551616

-- `u128::from_be_bytes`
unfoldable pub be_value : List ℕ → ℕ
be_value [] = 0
be_value (b ∷ bs) = b * 256 ^ length bs + be_value bs

-- `to_be_bytes`, for a number of some bytes
unfoldable pub be_bytes : ℕ → ℕ → List ℕ
be_bytes zero v = []
be_bytes (suc n) v = v / 256 ^ n % 256 ∷ be_bytes n v

pub data CsdStructure : Type 0 where
  csd_v1 csd_v2 csd_v3 : CsdStructure

-- A field that may hold another number than those of the enum is read as that number then.
unfoldable pub csd_structure_of : ℕ → ℕ ⊎ CsdStructure
csd_structure_of n =
    if n == 0
    then inr csd_v1
    else if n == 1
    then inr csd_v2
    else if n == 2
    then inr csd_v3
    else inl n

pub data BlockLengthSelectV1 : Type 0 where
  len_512 len_1024 len_2048 : BlockLengthSelectV1

unfoldable pub block_length_v1 : ℕ → ℕ ⊎ BlockLengthSelectV1
block_length_v1 n =
    if n == 9
    then inr len_512
    else if n == 10
    then inr len_1024
    else if n == 11
    then inr len_2048
    else inl n

-- `BlockLengthSelectV1 as u64`
unfoldable pub block_length_number : BlockLengthSelectV1 → ℕ
block_length_number len_512 = 9
block_length_number len_1024 = 10
block_length_number len_2048 = 11

pub data BlockLengthSelectV2AndV3 : Type 0 where
  only_512 : BlockLengthSelectV2AndV3

unfoldable pub block_length_v2_and_v3 : ℕ → ℕ ⊎ BlockLengthSelectV2AndV3
block_length_v2_and_v3 n = if n == 9 then inr only_512 else inl n

pub data SizeMultiplierSelect : Type 0 where
  by_4 by_8 by_16 by_32 by_64 by_128 by_256 by_512 : SizeMultiplierSelect

-- the number of three bits has a constructor whatever it is
unfoldable pub size_multiplier : ℕ → SizeMultiplierSelect
size_multiplier n =
    if n == 0
    then by_4
    else if n == 1
    then by_8
    else if n == 2
    then by_16
    else if n == 3
    then by_32
    else if n == 4
    then by_64
    else if n == 5
    then by_128
    else if n == 6
    then by_256
    else by_512

-- `SizeMultiplierSelect as u64`
unfoldable pub multiplier_number : SizeMultiplierSelect → ℕ
multiplier_number by_4 = 0
multiplier_number by_8 = 1
multiplier_number by_16 = 2
multiplier_number by_32 = 3
multiplier_number by_64 = 4
multiplier_number by_128 = 5
multiplier_number by_256 = 6
multiplier_number by_512 = 7

-- `SizeMultiplierSelect::multiplier`
unfoldable pub multiplier : SizeMultiplierSelect → ℕ
multiplier by_4 = 4
multiplier by_8 = 8
multiplier by_16 = 16
multiplier by_32 = 32
multiplier by_64 = 64
multiplier by_128 = 128
multiplier by_256 = 256
multiplier by_512 = 512
