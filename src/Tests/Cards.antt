-- ===== src/Tests/Cards.antt =====
-- The theorems on cards at concrete inputs.
use embedded_sdmmc_rs.Common.{
  ℕ, ◌*◌, ◌≡◌, refl, arith, true, List, [], ◌∷◌, ◌++◌, some, none, Option, inr,
}
use embedded_sdmmc_rs.Common.{length, take, drop}
use embedded_sdmmc_rs.Sdcard.Crc.{crc7, crc16}
use embedded_sdmmc_rs.Sdcard.Crc.Residue.{shift_all, sent_bits, low_bits, crc7-residue}
use embedded_sdmmc_rs.Sdcard.Csd.{
  Csd, v1, new_csd, card_capacity_bytes, card_capacity_blocks, verify_crc7, checked,
}
use embedded_sdmmc_rs.Sdcard.Csd.Fields.{len_512}
use embedded_sdmmc_rs.Sdcard.Csd.Version1
use embedded_sdmmc_rs.Sdcard.Csd.Capacity.{HasCapacity, new_csd-capacity}
use embedded_sdmmc_rs.Sdcard.Bus.{SpiDevice, read_data, command_frame}
use embedded_sdmmc_rs.Sdcard.Bus.Frame.{take_frame, take_frame-command_frame}
use embedded_sdmmc_rs.Sdcard.Bus.Data.{judged, read_data-judged}

-- the first command to a card, without its check sum
abbrev go_idle : List ℕ
go_idle = 0x40 ∷ 0 ∷ 0 ∷ 0 ∷ 0 ∷ []

go_idle_sum : crc7 go_idle ≡ 0x4A
unfolding crc7
go_idle_sum = refl

crc7-residue_example :
    (crc7 go_idle ≡ shift_all 0 (sent_bits go_idle))
    × (shift_all 0 (sent_bits go_idle ++ low_bits 7 (crc7 go_idle)) ≡ 0)
crc7-residue_example =
    crc7-residue go_idle
      (omega arith, (omega arith, (omega arith, (omega arith, (omega arith, tt)))))

-- the register of a card of 1,015,808,000 bytes
abbrev register : List ℕ
register =
    0x00 ∷ 0x26 ∷ 0x00 ∷ 0x32 ∷ 0x5F ∷ 0x59 ∷ 0x83 ∷ 0xC8 ∷ 0xAD ∷ 0xDB ∷ 0xCF ∷ 0xFF ∷ 0xD2 ∷ 0x40
    ∷ 0x40 ∷ 0xA5 ∷ []

abbrev card : Csd
card = v1 (Version1.from_be_bytes register)

new_csd-card : new_csd register ≡ inr card
unfolding new_csd checked Version1.verify_crc7 Version1.from_be_bytes
new_csd-card = refl

capacity_of_card : card_capacity_bytes card ≡ 1015808000
unfolding card_capacity_bytes Version1.card_capacity_bytes Version1.from_be_bytes
capacity_of_card = refl

new_csd-capacity_example :
    (verify_crc7 card ≡ true)
    × HasCapacity card (card_capacity_bytes card)
    × (card_capacity_bytes card ≡ 512 * card_capacity_blocks card)
unfolding Version1.from_be_bytes
new_csd-capacity_example = new_csd-capacity register card new_csd-card (len_512, refl)

take_frame-command_frame_example : take_frame (command_frame 17 0x12345678) ≡ some (17, 0x12345678)
take_frame-command_frame_example =
    take_frame-command_frame 17 0x12345678 (omega arith) (omega arith)

-- A bus whose card sends the bytes of a list.
abbrev first : List ℕ → Option ℕ
first [] = none
first (b ∷ _) = some b

instance script : SpiDevice (List ℕ)
script = record {
  transfer = λ out s. (first s, drop 1 s);
  transfer_in_place = λ out s. (some (take (length out) s), drop (length out) s);
  write = λ out s. (true, s);
  delay_us = λ us s. s;
}

-- a card that waits for two bytes, and sends two bytes of data and their check sum
abbrev sending : List ℕ
sending = 0xFF ∷ 0xFF ∷ 0xFE ∷ 0x12 ∷ 0x34 ∷ 0x13 ∷ 0xC6 ∷ []

read_data-judged_example :
    read_data true 2 sending ≡ (judged true (0x12 ∷ 0x34 ∷ []) (0x13 ∷ 0xC6 ∷ []), [])
unfolding script
read_data-judged_example =
    read_data-judged true 2 2 sending (drop 2 sending) (drop 3 sending) (drop 5 sending) [] _ _
      (omega arith) (drop 1 sending, refl, (drop 2 sending, refl, refl)) refl refl refl

judged_ok : judged true (0x12 ∷ 0x34 ∷ []) (0x13 ∷ 0xC6 ∷ []) ≡ inr (0x12 ∷ 0x34 ∷ [])
unfolding crc16
judged_ok = refl
