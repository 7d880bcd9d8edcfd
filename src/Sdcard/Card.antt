-- ===== src/Sdcard/Card.antt =====
-- embedded-sdmmc/src/sdcard/spi.rs: the driver of a card, with its initialisation (`SdCardInner`).
use embedded_sdmmc_rs.Common.{
  ℕ, zero, suc, ◌*◌, ◌%◌, Bool, false, List, [], ◌∷◌, Option, none, some, ◌⊎◌, inl, inr, bit_and,
  bit_or, u32_mod,
}
use embedded_sdmmc_rs.Common.{◌==◌, if◌then◌else◌, length}
use embedded_sdmmc_rs.Common.Bytes.{byte}
use embedded_sdmmc_rs.Sdcard.{
  CardType, sd1, sd2, sdhc_sdxc, cmd_number, cmd0_go_idle_state, cmd8_send_if_cond, cmd9_send_csd,
  cmd12_stop_transmission, cmd13_send_status, cmd17_read_single_block, cmd18_read_multiple_block,
  cmd24_write_block, cmd25_write_multiple_block, cmd58_read_ocr, cmd59_crc_on_off, acmd23_pre_erase,
  acmd41_sd_send_op_cond, r1_ready_state, r1_idle_state, r1_illegal_command, data_start_block,
  stop_tran_token, write_multiple_token,
}
use embedded_sdmmc_rs.Sdcard.Csd.{
  Csd, new_csd, card_capacity_blocks, card_capacity_bytes, erase_single_block_enabled,
}
use embedded_sdmmc_rs.Sdcard.Bus.{
  SpiDevice, SdError, cant_enable_crc, timeout_command, timeout_acommand, cmd58_error,
  register_read_error, write_error, card_not_found, SdAction, pure, raise, ◌>>=◌, ◌>>◌, guard,
  default_write_retries, default_command_retries, transfer_byte, read_byte, write_byte,
  transfer_bytes, wait_10us, wait_not_busy, card_command, card_acmd, read_data, write_data,
}

-- `SdCardInner`, with the SPI device and the delay as one state, and the fields of `AcquireOpts`
pub record SdCardInner (S : Type 0) : Type 0 where
  pub spi : S
  pub card_type : Option CardType
  pub use_crc : Bool
  pub acquire_retries : ℕ

-- `SdCard::new_with_options`
pub new_card : {S : Type 0} → S → Bool → ℕ → SdCardInner S
new_card spi use_crc acquire_retries = record {
  spi = spi;
  card_type = none;
  use_crc = use_crc;
  acquire_retries = acquire_retries;
}

-- `SdCard::spi`: the caller gets the bus, and may change it
pub with_spi : {S : Type 0} → (S → S) → SdCardInner S → SdCardInner S
with_spi f m = record m { spi = f m.spi }

-- the address that a command has for a block: in bytes for the cards of standard capacity
unfoldable pub start_index : Option CardType → ℕ → SdError ⊎ ℕ
start_index (some sdhc_sdxc) idx = inr idx
start_index (some _) idx = inr (idx * 512 % u32_mod)
start_index none idx = inl card_not_found

-- `Err(Error::TimeoutCommand(CmdId::CMD0_GoIdleState))`
abbrev pub is_idle_timeout : SdError → Bool
is_idle_timeout (timeout_command c) = cmd_number c == 0
is_idle_timeout _ = false

module _ {S : Type 0} ⦃spi : SpiDevice S⦄ where
  -- `for _ in 0..n { write_byte(0xFF)? }`
  abbrev pub flush_card : ℕ → SdAction S (Unit {0})
  flush_card zero = pure tt
  flush_card (suc n) = write_byte 0xFF >> flush_card n

  -- What follows the command in the loop that enters SPI mode: whether to leave the loop.
  abbrev pub is_idle : (SdError ⊎ ℕ) × S → (SdError ⊎ Bool) × S
  is_idle (inr r, s) = (inr (r == r1_idle_state), s)
  is_idle (inl e, s) =
      if is_idle_timeout e then (flush_card 255 >>= λ _. pure false) s else (inl e, s)

  -- the loop that enters SPI mode, with the retries that are left
  unfoldable pub enter_spi_mode : ℕ → SdAction S (Unit {0})
  unfolding card_command transfer_byte
  enter_spi_mode zero =
      (λ s. is_idle (card_command cmd0_go_idle_state 0 s)) >>= λ idle. guard idle card_not_found
  enter_spi_mode (suc retries_left) =
      (λ s. is_idle (card_command cmd0_go_idle_state 0 s)) >>= λ idle.
      let rest = wait_10us >> enter_spi_mode retries_left in if idle then pure tt else rest

  -- the answer to CMD8: the card's type so far and the argument of ACMD41, if it is settled
  abbrev pub check_version : SdAction S (Option (CardType × ℕ))
  unfolding card_command transfer_bytes
  check_version = do
    r ← card_command cmd8_send_if_cond 0x1AA
    if r == bit_or r1_illegal_command r1_idle_state then pure (some (sd1, 0)) else (do
      buffer ← transfer_bytes (0xFF ∷ 0xFF ∷ 0xFF ∷ 0xFF ∷ [])
      if byte buffer 3 == 0xAA then pure (some (sd2, 0x4000_0000)) else pure none)

  -- the loop around it
  unfoldable pub find_version : ℕ → SdAction S (CardType × ℕ)
  unfolding card_command transfer_bytes
  find_version zero = check_version >>= λ found. elim found [
    | some x ↦ pure x
    | none ↦ raise (timeout_command cmd8_send_if_cond)
  ]
  find_version (suc retries_left) = check_version >>= λ found.
      let rest = wait_10us >> find_version retries_left in
      elim found [ some x ↦ pure x | none ↦ rest ]

  -- `while card_acmd(ACMD41, arg)? != R1_READY_STATE`
  unfoldable pub send_op_cond : ℕ → ℕ → SdAction S (Unit {0})
  unfolding card_acmd
  send_op_cond arg zero = card_acmd acmd41_sd_send_op_cond arg >>= λ r.
      guard (r == r1_ready_state) (timeout_acommand acmd41_sd_send_op_cond)
  send_op_cond arg (suc retries_left) = card_acmd acmd41_sd_send_op_cond arg >>= λ r.
      let rest = wait_10us >> send_op_cond arg retries_left in
      if r == r1_ready_state then pure tt else rest

  -- `if card_type == CardType::SD2`: the operation conditions tell the capacity
  unfoldable pub check_capacity : CardType → SdAction S CardType
  unfolding card_command transfer_bytes
  check_capacity sd2 = do
    r ← card_command cmd58_read_ocr 0
    guard (r == 0) cmd58_error
    buffer ← transfer_bytes (0xFF ∷ 0xFF ∷ 0xFF ∷ 0xFF ∷ [])
    if bit_and (byte buffer 0) 0xC0 == 0xC0 then pure sdhc_sdxc else pure sd2
  check_capacity t = pure t

  -- the command that enables the check sums
  abbrev pub enable_crc : Bool → SdAction S (Unit {0})
  unfolding card_command
  enable_crc use_crc =
      if use_crc
      then (card_command cmd59_crc_on_off 1 >>= λ r. guard (r == r1_idle_state) cant_enable_crc)
      else pure tt

  -- the closure of `acquire`, up to the type that it finds
  unfoldable pub initialise : Bool → ℕ → SdAction S CardType
  unfolding enter_spi_mode find_version send_op_cond check_capacity
  initialise use_crc retries = do
    enter_spi_mode retries
    enable_crc use_crc
    (card_type, arg) ← find_version default_command_retries
    send_op_cond arg default_command_retries
    check_capacity card_type

  -- the loop of a multi-block read
  abbrev pub read_many : Bool → ℕ → SdAction S (List (List ℕ))
  unfolding read_data
  read_many use_crc zero = pure []
  read_many use_crc (suc n) = do
    block ← read_data use_crc 512
    blocks ← read_many use_crc n
    pure (block ∷ blocks)

  -- the loop of a multi-block write
  abbrev pub write_many : Bool → List (List ℕ) → SdAction S (Unit {0})
  unfolding wait_not_busy write_data
  write_many use_crc [] = pure tt
  write_many use_crc (block ∷ blocks) = do
    wait_not_busy default_write_retries
    write_data use_crc write_multiple_token block
    write_many use_crc blocks

  -- `SdCardInner::read` after the address is known: what it fills its blocks with
  unfoldable pub read_at : Bool → ℕ → ℕ → SdAction S (List (List ℕ))
  unfolding card_command read_data
  read_at use_crc count start_idx =
      if count == 1
      then (do
        card_command cmd17_read_single_block start_idx
        block ← read_data use_crc 512
        pure (block ∷ []))
      else (do
        card_command cmd18_read_multiple_block start_idx
        blocks ← read_many use_crc count
        card_command cmd12_stop_transmission 0
        pure blocks)

  -- the two checks of the status after a single block was written
  abbrev pub check_written : SdAction S (Unit {0})
  unfolding card_command transfer_byte
  check_written = do
    r ← card_command cmd13_send_status 0
    guard (r == 0x00) write_error
    s ← read_byte
    guard (s == 0x00) write_error

  -- `SdCardInner::write` after the address is known
  unfoldable pub write_at : Bool → List (List ℕ) → ℕ → SdAction S (Unit {0})
  unfolding card_command write_data wait_not_busy card_acmd transfer_byte
  write_at use_crc (block ∷ []) start_idx = do
    card_command cmd24_write_block start_idx
    write_data use_crc data_start_block block
    wait_not_busy default_write_retries
    check_written
  write_at use_crc blocks start_idx = do
    card_acmd acmd23_pre_erase (length blocks)
    wait_not_busy default_write_retries
    card_command cmd25_write_multiple_block start_idx
    write_many use_crc blocks
    wait_not_busy default_write_retries
    write_byte stop_tran_token

  -- a call on the bus, which leaves the driver's other fields alone
  abbrev pub on_bus : {A : Type 0} → SdAction S A → SdAction (SdCardInner S) A
  on_bus act m = let (r, s) = act m.spi in (r, record m { spi = s })

  -- what `acquire` makes of what its closure found: one more byte is read, whatever comes back
  abbrev pub found_type :
      (SdError ⊎ CardType) × S → SdCardInner S → (SdError ⊎ Unit {0}) × SdCardInner S
  unfolding transfer_byte
  found_type (inr t, s) m =
      (inr tt, record m { spi = (transfer_byte 0xFF s).1; card_type = some t })
  found_type (inl e, s) m = (inl e, record m { spi = (transfer_byte 0xFF s).1 })

  -- `acquire`
  unfoldable pub acquire : SdAction (SdCardInner S) (Unit {0})
  unfolding initialise
  acquire m = found_type (initialise m.use_crc m.acquire_retries m.spi) m

  -- `check_init`
  unfoldable pub check_init : SdAction (SdCardInner S) (Unit {0})
  unfolding acquire
  check_init m = elim m.card_type [ none ↦ acquire m | some t ↦ (inr tt, m) ]

  -- an operation that needs the address of a block
  abbrev pub at_block : {A : Type 0} → ℕ → (ℕ → SdAction S A) → SdAction (SdCardInner S) A
  unfolding start_index
  at_block idx act m = elim (start_index m.card_type idx) [
    | inl e ↦ (inl e, m)
    | inr start_idx ↦ on_bus (act start_idx) m
  ]

  -- `SdCardInner::read` and `BlockDevice::read`
  unfoldable pub read_inner : ℕ → ℕ → SdAction (SdCardInner S) (List (List ℕ))
  unfolding read_at
  read_inner count idx m = at_block idx (read_at m.use_crc count) m

  unfoldable pub sd_read : ℕ → ℕ → SdAction (SdCardInner S) (List (List ℕ))
  unfolding check_init read_inner
  sd_read count idx = check_init >> read_inner count idx

  -- `SdCardInner::write` and `BlockDevice::write`
  unfoldable pub write_inner : List (List ℕ) → ℕ → SdAction (SdCardInner S) (Unit {0})
  unfolding write_at
  write_inner blocks idx m = at_block idx (write_at m.use_crc blocks) m

  unfoldable pub sd_write : List (List ℕ) → ℕ → SdAction (SdCardInner S) (Unit {0})
  unfolding check_init write_inner
  sd_write blocks idx = check_init >> write_inner blocks idx

  abbrev pub parsed : List ℕ → SdAction S Csd
  unfolding new_csd
  parsed csd_raw = elim (new_csd csd_raw) [ inl e ↦ raise register_read_error | inr csd ↦ pure csd ]

  -- `read_csd`
  unfoldable pub read_csd : SdAction (SdCardInner S) Csd
  unfolding card_command read_data new_csd
  read_csd m = elim m.card_type [
    | none ↦ (inl card_not_found, m)
    | some t ↦
        on_bus
          (do
            r ← card_command cmd9_send_csd 0
            guard (r == 0) register_read_error
            csd_raw ← read_data m.use_crc 16
            parsed csd_raw)
          m
  ]

  -- `num_blocks`, `num_bytes` and `erase_single_block_enabled`, with their initialisation
  unfoldable pub num_blocks : SdAction (SdCardInner S) ℕ
  unfolding check_init read_csd card_capacity_blocks
  num_blocks = check_init >> read_csd >>= λ csd. pure (card_capacity_blocks csd)

  unfoldable pub num_bytes : SdAction (SdCardInner S) ℕ
  unfolding check_init read_csd card_capacity_bytes
  num_bytes = check_init >> read_csd >>= λ csd. pure (card_capacity_bytes csd)

  unfoldable pub can_erase_single_block : SdAction (SdCardInner S) Bool
  unfolding check_init read_csd erase_single_block_enabled
  can_erase_single_block = check_init >> read_csd >>= λ csd. pure (erase_single_block_enabled csd)

  -- `get_card_type`
  unfoldable pub get_card_type : SdCardInner S → Option CardType × SdCardInner S
  unfolding check_init
  get_card_type m =
      let (r, m') = check_init m in elim r [ inl e ↦ (none, m') | inr _ ↦ (m'.card_type, m') ]

-- `mark_card_uninit`
unfoldable pub mark_card_uninit : {S : Type 0} → SdCardInner S → SdCardInner S
mark_card_uninit m = record m { card_type = none }

-- `mark_card_as_init`
unfoldable pub mark_card_as_init : {S : Type 0} → CardType → SdCardInner S → SdCardInner S
mark_card_as_init t m = record m { card_type = some t }
