-- ===== src/Sdcard.antt =====
-- embedded-sdmmc-types/src/sdcard/mod.rs: kinds of card, commands and tokens.
pub mod Crc
pub mod Csd
pub mod Bus
pub mod Card
use embedded_sdmmc_rs.Common.{ℕ}

pub data CardType : Type 0 where
  sd1 sd2 sdhc_sdxc : CardType

-- `CmdId`
pub data CmdId : Type 0 where
  cmd0_go_idle_state cmd2_all_send_cid cmd3_send_relative_addr cmd8_send_if_cond : CmdId
  cmd7_select_card cmd9_send_csd cmd12_stop_transmission cmd13_send_status : CmdId
  cmd17_read_single_block cmd18_read_multiple_block cmd24_write_block : CmdId
  cmd25_write_multiple_block cmd55_app_cmd cmd58_read_ocr cmd59_crc_on_off : CmdId

-- `command as u8`
pub cmd_number : CmdId → ℕ
cmd_number cmd0_go_idle_state = 0
cmd_number cmd2_all_send_cid = 2
cmd_number cmd3_send_relative_addr = 3
cmd_number cmd8_send_if_cond = 8
cmd_number cmd7_select_card = 7
cmd_number cmd9_send_csd = 9
cmd_number cmd12_stop_transmission = 12
cmd_number cmd13_send_status = 13
cmd_number cmd17_read_single_block = 17
cmd_number cmd18_read_multiple_block = 18
cmd_number cmd24_write_block = 24
cmd_number cmd25_write_multiple_block = 25
cmd_number cmd55_app_cmd = 55
cmd_number cmd58_read_ocr = 58
cmd_number cmd59_crc_on_off = 59

-- `AcmdId`
pub data AcmdId : Type 0 where
  acmd6_set_bus_width acmd23_pre_erase acmd41_sd_send_op_cond : AcmdId

pub acmd_number : AcmdId → ℕ
acmd_number acmd6_set_bus_width = 6
acmd_number acmd23_pre_erase = 23
acmd_number acmd41_sd_send_op_cond = 41

abbrev pub r1_ready_state : ℕ
r1_ready_state = 0x00

abbrev pub r1_idle_state : ℕ
r1_idle_state = 0x01

abbrev pub r1_illegal_command : ℕ
r1_illegal_command = 0x04

abbrev pub data_start_block : ℕ
data_start_block = 0xFE

abbrev pub stop_tran_token : ℕ
stop_tran_token = 0xFD

abbrev pub write_multiple_token : ℕ
write_multiple_token = 0xFC

abbrev pub data_res_mask : ℕ
data_res_mask = 0x1F

abbrev pub data_res_accepted : ℕ
data_res_accepted = 0x05
