-- ===== src/Sdcard/Bus.antt =====
-- embedded-sdmmc/src/sdcard/spi.rs: commands, responses and data over an SPI bus.

pub mod Frame
pub mod Data
use embedded_sdmmc_rs.Common.{
  ℕ, zero, suc, ◌*◌, ◌/◌, ◌%◌, ◌+◌, ◌-◌, Bool, true, false, List, [], ◌∷◌, ◌++◌, Option, none, some,
  ◌⊎◌, inl, inr, bit_and, bit_or,
}
use embedded_sdmmc_rs.Common.{◌==◌, ◌||◌, if◌then◌else◌, length, replicate, take}
use embedded_sdmmc_rs.Common.Bytes.{byte}
use embedded_sdmmc_rs.Sdcard.{
  CmdId, AcmdId, cmd_number, acmd_number, cmd0_go_idle_state, cmd12_stop_transmission,
  cmd55_app_cmd, data_start_block, data_res_mask, data_res_accepted,
}
use embedded_sdmmc_rs.Sdcard.Crc.{crc7, crc16}

-- The SPI device and the delay, for the calls that the driver makes. They are not under the
-- repository's control: they are a parameter of the model, as one state. `transfer` moves one byte
-- each way, `transfer_in_place` as many as it is given.
pub record SpiDevice (S : Type 0) : Type 0 where
  pub transfer : ℕ → S → Option ℕ × S
  pub transfer_in_place : List ℕ → S → Option (List ℕ) × S
  pub write : List ℕ → S → Bool × S
  pub delay_us : ℕ → S → S

-- the `Error` of the driver
pub data SdError : Type 0 where
  transport cant_enable_crc timeout_read_buffer timeout_wait_not_busy : SdError
  timeout_command : CmdId → SdError
  timeout_acommand : AcmdId → SdError
  cmd58_error register_read_error : SdError
  crc_error : ℕ → ℕ → SdError
  read_error write_error bad_state card_not_found gpio_error : SdError

-- A call of the driver: a value or an error, and the new state.
abbrev pub SdAction : Type 0 → Type 0 → Type 0
SdAction S A = S → (SdError ⊎ A) × S

module _ {S A : Type 0} where
  abbrev pub pure : A → SdAction S A
  pure a s = (inr a, s)

  abbrev pub raise : SdError → SdAction S A
  raise e s = (inl e, s)

infixl 5 ◌>>=◌ ◌>>◌
abbrev pub ◌>>=◌ : {S A B : Type 0} → SdAction S A → (A → SdAction S B) → SdAction S B
◌>>=◌ m f s = let (r, s') = m s in elim r [ inl e ↦ (inl e, s') | inr a ↦ f a s' ]

abbrev pub ◌>>◌ : {S A B : Type 0} → SdAction S A → SdAction S B → SdAction S B
m >> k = m >>= λ _. k

-- `if !test { return Err(e) }`
abbrev pub guard : {S : Type 0} → Bool → SdError → SdAction S (Unit {0})
guard true e s = (inr tt, s)
guard false e s = (inl e, s)

-- the retries of `Delay::new_read`, `new_write` and `new_command`
abbrev pub default_read_retries : ℕ
default_read_retries = 10000

abbrev pub default_write_retries : ℕ
default_write_retries = 50000

abbrev pub default_command_retries : ℕ
default_command_retries = 10000

-- an answer of the SPI device; all its errors become `Transport`
abbrev pub answered : {S A : Type 0} → Option A × S → (SdError ⊎ A) × S
answered (none, s) = (inl transport, s)
answered (some a, s) = (inr a, s)

abbrev pub written : {S : Type 0} → Bool × S → (SdError ⊎ Unit {0}) × S
written (true, s) = (inr tt, s)
written (false, s) = (inl transport, s)

-- The six bytes of a command, with the check sum and the end bit.
unfoldable pub command_frame : ℕ → ℕ → List ℕ
unfolding crc7
command_frame number arg =
    let buf =
      bit_or 0x40 number
      ∷ arg / 16777216 % 256
      ∷ arg / 65536 % 256
      ∷ arg / 256 % 256
      ∷ arg % 256
      ∷ [] in
    buf ++ (bit_or (crc7 buf * 2 % 256) 1 ∷ [])

abbrev pub is_response : ℕ → Bool
is_response result = bit_and result 0x80 == 0x00

-- the two tests of a command for `CMD0` and `CMD12`, by the command's number
abbrev pub starts_at_once : ℕ → Bool
starts_at_once number = (number == 0) || (number == 12)

-- `crc16(buffer).to_be_bytes()`, or two bytes without a meaning
abbrev pub crc_bytes_of : Bool → List ℕ → List ℕ
unfolding crc16
crc_bytes_of true buffer = crc16 buffer / 256 % 256 ∷ crc16 buffer % 256 ∷ []
crc_bytes_of false buffer = 0xFF ∷ 0xFF ∷ []

module _ {S : Type 0} ⦃spi : SpiDevice S⦄ where
  unfoldable pub transfer_byte : ℕ → SdAction S ℕ
  transfer_byte out s = answered (spi.transfer out s)

  abbrev pub read_byte : SdAction S ℕ
  unfolding transfer_byte
  read_byte = transfer_byte 0xFF

  abbrev pub write_byte : ℕ → SdAction S (Unit {0})
  unfolding transfer_byte
  write_byte out = transfer_byte out >>= λ _. pure tt

  unfoldable pub write_bytes : List ℕ → SdAction S (Unit {0})
  write_bytes out s = written (spi.write out s)

  unfoldable pub transfer_bytes : List ℕ → SdAction S (List ℕ)
  transfer_bytes in_out s = answered (spi.transfer_in_place in_out s)

  abbrev pub wait_10us : SdAction S (Unit {0})
  wait_10us s = (inr tt, spi.delay_us 10 s)

  -- The loops that read a byte until it passes a test, with a `Delay` that has some retries left:
  -- after each byte that does not, `Delay::delay` counts one, and gives up with an error.
  unfoldable pub poll : (ℕ → Bool) → SdError → ℕ → SdAction S ℕ
  poll test e zero = read_byte >>= λ s. if test s then pure s else raise e
  poll test e (suc retries_left) = read_byte >>= λ s.
      let rest = wait_10us >> poll test e retries_left in if test s then pure s else rest

  unfoldable pub wait_not_busy : ℕ → SdAction S (Unit {0})
  unfolding poll
  wait_not_busy retries = poll (λ s. s == 0xFF) timeout_wait_not_busy retries >>= λ _. pure tt

  -- `card_command`
  unfoldable pub card_command : CmdId → ℕ → SdAction S ℕ
  unfolding wait_not_busy write_bytes command_frame poll cmd_number
  card_command command arg = do
    if starts_at_once (cmd_number command) then pure tt else wait_not_busy default_command_retries
    write_bytes (command_frame (cmd_number command) arg)
    if cmd_number command == 12 then (read_byte >>= λ _. pure tt) else pure tt
    poll is_response (timeout_command command) default_command_retries

  -- `card_acmd_after_escape`
  unfoldable pub card_acmd_after_escape : AcmdId → ℕ → SdAction S ℕ
  unfolding wait_not_busy write_bytes command_frame poll acmd_number
  card_acmd_after_escape command arg = do
    wait_not_busy default_command_retries
    write_bytes (command_frame (acmd_number command) arg)
    poll is_response (timeout_acommand command) default_command_retries

  -- `card_acmd`
  unfoldable pub card_acmd : AcmdId → ℕ → SdAction S ℕ
  unfolding card_command card_acmd_after_escape
  card_acmd command arg = card_command cmd55_app_cmd 0 >>= λ _. card_acmd_after_escape command arg

  -- the check of the two bytes after the data
  abbrev pub check_crc : Bool → List ℕ → List ℕ → SdAction S (List ℕ)
  check_crc use_crc buffer crc_bytes =
      let crc = byte crc_bytes 0 * 256 + byte crc_bytes 1 in
      let calc_crc = crc16 buffer in
      if use_crc
      then (if crc == calc_crc then pure buffer else raise (crc_error crc calc_crc))
      else pure buffer

  -- `read_data`, for a buffer of a length: it returns what fills the buffer
  unfoldable pub read_data : Bool → ℕ → SdAction S (List ℕ)
  unfolding poll transfer_bytes crc16
  read_data use_crc len = do
    status ← poll (λ s. if s == 0xFF then false else true) timeout_read_buffer default_read_retries
    guard (status == data_start_block) read_error
    buffer ← transfer_bytes (replicate len 0xFF)
    crc_bytes ← transfer_bytes (0xFF ∷ 0xFF ∷ [])
    check_crc use_crc buffer crc_bytes

  -- `write_data`
  unfoldable pub write_data : Bool → ℕ → List ℕ → SdAction S (Unit {0})
  unfolding transfer_byte write_bytes crc16
  write_data use_crc token buffer = do
    write_byte token
    write_bytes buffer
    write_bytes (crc_bytes_of use_crc buffer)
    status ← read_byte
    guard (bit_and status data_res_mask == data_res_accepted) write_error
