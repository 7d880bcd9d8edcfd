-- ===== src/Sdcard/Crc.antt =====
-- embedded-sdmmc-types/src/sdcard/mod.rs: the check sums of commands (`crc7`) and of data (`crc16`).
pub mod Residue
use embedded_sdmmc_rs.Common.{
  ℕ, zero, suc, ◌+◌, ◌*◌, ◌/◌, ◌%◌, List, [], ◌∷◌, bit_and, bit_or, bit_xor, u8_mod, u16_mod,
}
use embedded_sdmmc_rs.Common.{◌==◌, if◌then◌else◌}

-- the body of the inner loop of `crc7`, for a byte `d` whose next bit is its top bit
unfoldable pub add_bit : ℕ → ℕ → ℕ
add_bit crc d =
    let crc' = crc * 2 % u8_mod in
    if bit_xor (bit_and d 0x80) (bit_and crc' 0x80) == 0 then crc' else bit_xor crc' 0x09

-- the inner loop: `n` bits of a byte, from the top
unfoldable pub add_bits : ℕ → ℕ → ℕ → ℕ
unfolding add_bit
add_bits zero crc d = crc
add_bits (suc n) crc d = add_bits n (add_bit crc d) (d * 2 % u8_mod)

-- the outer loop
unfoldable pub add_bytes : ℕ → List ℕ → ℕ
unfolding add_bits
add_bytes crc [] = crc
add_bytes crc (d ∷ ds) = add_bytes (add_bits 8 crc d) ds

unfoldable pub crc7 : List ℕ → ℕ
unfolding add_bytes
crc7 bytes = bit_and (add_bytes 0 bytes) 0x7F

-- one round of `crc16`
unfoldable pub add_byte16 : ℕ → ℕ → ℕ
add_byte16 crc byte =
    let crc1 = bit_or (bit_and (crc / 256) 0xFF) (crc * 256 % u16_mod) in
    let crc2 = bit_xor crc1 byte in
    let crc3 = bit_xor crc2 (bit_and crc2 0xFF / 16) in
    let crc4 = bit_xor crc3 (crc3 * 4096 % u16_mod) in
    bit_xor crc4 (bit_and crc4 0xFF * 32 % u16_mod)

abbrev pub crc16_from : ℕ → List ℕ → ℕ
crc16_from crc [] = crc
crc16_from crc (byte ∷ bytes) = crc16_from (add_byte16 crc byte) bytes

unfoldable pub crc16 : List ℕ → ℕ
unfolding add_byte16
crc16 bytes = crc16_from 0 bytes
