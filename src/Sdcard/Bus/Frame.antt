-- ===== src/Sdcard/Bus/Frame.antt =====
-- The six bytes of a command, as a card takes them.
use embedded_sdmmc_rs.Common.{
  ℕ, ◌+◌, ◌*◌, ◌/◌, ◌%◌, ◌<◌, ◌≡◌, ap, ap₂, ◌∙◌, arith, List, [], ◌∷◌, ◌++◌, Option, none, some,
  bit_or,
}
use embedded_sdmmc_rs.Common.{◌==◌, ◌&&◌, if◌then◌else◌}
use embedded_sdmmc_rs.Common.Bits.{bit_or-disjoint, bit_and-mask}
use embedded_sdmmc_rs.Sdcard.Crc.{crc7, add_bytes}
use embedded_sdmmc_rs.Sdcard.Crc.Residue.{shift_all, sent_bits, low_bits, IsMessage, crc7-residue}
use embedded_sdmmc_rs.Sdcard.Bus.{command_frame}

-- the checks of a card on the first bits, the last bit and the register
abbrev pub accept : ℕ → ℕ → ℕ → ℕ × ℕ → Option (ℕ × ℕ)
accept start end_bit register command =
    if (start == 1) && (end_bit == 1) && (register == 0) then some command else none

-- What a card takes from six bytes: the start bit and the transmission bit are 0 and 1, the end
-- bit is 1, and the bits before it leave the register of the check sum empty. Then it has the
-- number of the command and its argument.
abbrev pub take_frame : List ℕ → Option (ℕ × ℕ)
take_frame (b0 ∷ b1 ∷ b2 ∷ b3 ∷ b4 ∷ b5 ∷ []) =
    accept (b0 / 64) (b5 % 2)
      (shift_all 0 (sent_bits (b0 ∷ b1 ∷ b2 ∷ b3 ∷ b4 ∷ []) ++ low_bits 7 (b5 / 2)))
      (b0 % 64, b1 * 16777216 + b2 * 65536 + b3 * 256 + b4)
take_frame _ = none

-- the first five bytes, with the command's number added
abbrev message : ℕ → ℕ → List ℕ
message number arg =
    (64 + number) ∷ arg / 16777216 % 256 ∷ arg / 65536 % 256 ∷ arg / 256 % 256 ∷ arg % 256 ∷ []

crc7-small : (bytes : List ℕ) → crc7 bytes < 128
unfolding crc7
crc7-small bytes = omega (arith, bit_and-mask 7 (add_bytes 0 bytes))

last_byte : (c : ℕ) → c < 128 → bit_or (c * 2 % 256) 1 ≡ c * 2 + 1
last_byte c small = ap (λ x. bit_or x 1) (omega arith) ∙ bit_or-disjoint 1 c 1 (omega arith)

command_frame-eq :
    (number arg : ℕ)
    → number < 64
    → command_frame number arg ≡ message number arg ++ ((crc7 (message number arg) * 2 + 1) ∷ [])
unfolding command_frame
command_frame-eq number arg small =
    ap
      (λ (b : ℕ).
        let buf = b ∷ arg / 16777216 % 256 ∷ arg / 65536 % 256 ∷ arg / 256 % 256 ∷ arg % 256 ∷ [] in
        buf ++ (bit_or (crc7 buf * 2 % 256) 1 ∷ []))
      (bit_or-disjoint 6 1 number small)
    ∙ ap (λ (b : ℕ). message number arg ++ (b ∷ []))
        (last_byte (crc7 (message number arg)) (crc7-small (message number arg)))

-- A command of six bits with an argument of 32 bits: the card takes the frame, and has the number
-- and the argument.
pub take_frame-command_frame :
    (number arg : ℕ)
    → number < 64
    → arg < 4294967296
    → take_frame (command_frame number arg) ≡ some (number, arg)
take_frame-command_frame number arg small fits =
    let m = message number arg in
    let c = crc7 m in
    let is_message : IsMessage m =
      (omega arith, (omega arith, (omega arith, (omega arith, (omega arith, tt))))) in
    let empty : shift_all 0 (sent_bits m ++ low_bits 7 ((c * 2 + 1) / 2)) ≡ 0 =
      ap (λ x. shift_all 0 (sent_bits m ++ low_bits 7 x)) (omega arith)
      ∙ (crc7-residue m is_message).1 in
    let register = shift_all 0 (sent_bits m ++ low_bits 7 ((c * 2 + 1) / 2)) in
    let command : ℕ × ℕ = (
      (64 + number) % 64,
      arg / 16777216 % 256 * 16777216
          + arg / 65536 % 256 * 65536
          + arg / 256 % 256 * 256
          + arg % 256,
    ) in
    let start : (64 + number) / 64 ≡ 1 = omega arith in
    let ends : (c * 2 + 1) % 2 ≡ 1 = omega arith in
    ap take_frame (command_frame-eq number arg small)
    ∙ ap (λ x. accept x ((c * 2 + 1) % 2) register command) start
    ∙ ap (λ x. accept 1 x register command) ends
    ∙ ap (λ x. accept 1 1 x command) empty
    ∙ ap₂ (λ (x y : ℕ). some (x, y)) (omega arith) (omega arith)
