-- ===== src/Sdcard/Bus/Data.antt =====
-- How a block of data is read, after the card has let the driver wait.
use embedded_sdmmc_rs.Common.{
  ℕ, zero, suc, ◌+◌, ◌*◌, ◌≤◌, ◌≡◌, refl, ap, ◌∙◌, arith, Bool, true, false, List, [], ◌∷◌, some,
  ◌⊎◌, inl, inr,
}
use embedded_sdmmc_rs.Common.{◌==◌, ◌||◌, not, if◌then◌else◌, replicate}
use embedded_sdmmc_rs.Common.Bytes.{byte}
use embedded_sdmmc_rs.Sdcard.{data_start_block}
use embedded_sdmmc_rs.Sdcard.Crc.{crc16}
use embedded_sdmmc_rs.Sdcard.Bus.{
  SpiDevice, SdError, crc_error, timeout_read_buffer, read_error, SdAction, ◌>>=◌, ◌>>◌, pure,
  raise, guard, answered, read_byte, transfer_byte, transfer_bytes, wait_10us, poll, read_data,
  check_crc, default_read_retries,
}

-- A chain of steps is run step by step.
>>=-inr :
    {S A B : Type 0} (m : SdAction S A) (f : A → SdAction S B) (s : S) (a : A) (s' : S)
    → m s ≡ (inr a, s')
    → (m >>= f) s ≡ f a s'
>>=-inr m f s a s' e = ap (λ p. elim p.0 [ inl e ↦ (inl e, p.1) | inr a ↦ f a p.1 ]) e

-- the number that the two bytes after the data are
abbrev pub sent_crc : List ℕ → ℕ
sent_crc crc_bytes = byte crc_bytes 0 * 256 + byte crc_bytes 1

-- what the driver makes of the data and the check sum
abbrev pub judged : Bool → List ℕ → List ℕ → SdError ⊎ List ℕ
judged use_crc buffer crc_bytes =
    if not use_crc || (sent_crc crc_bytes == crc16 buffer)
    then inr buffer
    else inl (crc_error (sent_crc crc_bytes) (crc16 buffer))

module _ {S : Type 0} ⦃spi : SpiDevice S⦄ where
  -- The card lets the driver wait for `n` bytes, from one state to another.
  abbrev pub IsWaiting : ℕ → S → S → Type 0
  IsWaiting zero s t = s ≡ t
  IsWaiting (suc n) s t =
      (s1 : S) × (spi.transfer 0xFF s ≡ (some 0xFF, s1)) × IsWaiting n (spi.delay_us 10 s1) t

  read_byte-some :
      (s s1 : S) (b : ℕ) → spi.transfer 0xFF s ≡ (some b, s1) → read_byte s ≡ (inr b, s1)
  unfolding transfer_byte
  read_byte-some s s1 b e = ap answered e

  -- the loop ends with the first byte that passes the test, if there are retries enough
  poll-found :
      (test : ℕ → Bool) (e : SdError) (r n : ℕ) (s t t1 : S) (b : ℕ)
      → n ≤ r
      → test 0xFF ≡ false
      → test b ≡ true
      → IsWaiting n s t
      → spi.transfer 0xFF t ≡ (some b, t1)
      → poll test e r s ≡ (inr b, t1)
  unfolding poll
  poll-found test e zero zero s t t1 b le fails passes waits found =
      ap (poll test e zero) waits
      ∙ >>=-inr read_byte (λ x. if test x then pure x else raise e) t b t1
          (read_byte-some t t1 b found)
      ∙ ap (λ (x : Bool). (if x then pure b else raise e) t1) passes
  poll-found test e zero (suc n) s t t1 b le fails passes waits found = absurd (omega arith)
  poll-found test e (suc r) zero s t t1 b le fails passes waits found =
      ap (poll test e (suc r)) waits
      ∙ >>=-inr read_byte (λ x. if test x then pure x else (wait_10us >> poll test e r)) t b t1
          (read_byte-some t t1 b found)
      ∙ ap (λ (x : Bool). (if x then pure b else (wait_10us >> poll test e r)) t1) passes
  poll-found test e (suc r) (suc n) s t t1 b le fails passes (s1, first, rest) found =
      >>=-inr read_byte (λ x. if test x then pure x else (wait_10us >> poll test e r)) s 0xFF s1
        (read_byte-some s s1 0xFF first)
      ∙ ap (λ (x : Bool). (if x then pure 0xFF else (wait_10us >> poll test e r)) s1) fails
      ∙ poll-found test e r n (spi.delay_us 10 s1) t t1 b (omega arith) fails passes rest found

  transfer_bytes-some :
      (s s1 : S) (out bytes : List ℕ)
      → spi.transfer_in_place out s ≡ (some bytes, s1)
      → transfer_bytes out s ≡ (inr bytes, s1)
  unfolding transfer_bytes
  transfer_bytes-some s s1 out bytes e = ap answered e

  check_crc-judged :
      (use_crc : Bool) (buffer crc_bytes : List ℕ) (s : S)
      → check_crc use_crc buffer crc_bytes s ≡ (judged use_crc buffer crc_bytes, s)
  check_crc-judged false buffer crc_bytes s = refl
  check_crc-judged true buffer crc_bytes s = go (sent_crc crc_bytes == crc16 buffer)
    where
      go :
          (x : Bool)
          → (if x then pure buffer else raise (crc_error (sent_crc crc_bytes) (crc16 buffer))) s
            ≡ (if x then inr buffer else inl (crc_error (sent_crc crc_bytes) (crc16 buffer)), s)
      go true = refl
      go false = refl

  -- A card lets the driver wait for up to 10,000 bytes, and then sends the start token, data and
  -- two bytes more, with no error of the bus. Then `read_data` ends, with the data if check sums
  -- are off or the two bytes are that of the data, and otherwise with `CrcError` and both sums.
  pub read_data-judged :
      (use_crc : Bool) (len n : ℕ) (s0 s1 s2 s3 s4 : S) (buffer crc_bytes : List ℕ)
      → n ≤ 10000
      → IsWaiting n s0 s1
      → spi.transfer 0xFF s1 ≡ (some 0xFE, s2)
      → spi.transfer_in_place (replicate len 0xFF) s2 ≡ (some buffer, s3)
      → spi.transfer_in_place (0xFF ∷ 0xFF ∷ []) s3 ≡ (some crc_bytes, s4)
      → read_data use_crc len s0 ≡ (judged use_crc buffer crc_bytes, s4)
  unfolding read_data
  read_data-judged use_crc len n s0 s1 s2 s3 s4 buffer crc_bytes le waits token sent sum =
      let last =
        λ (bytes : List ℕ). transfer_bytes (0xFF ∷ 0xFF ∷ []) >>= check_crc use_crc bytes in
      let second = λ (u : Unit {0}). transfer_bytes (replicate len 0xFF) >>= last in
      let first = λ (status : ℕ). guard (status == data_start_block) read_error >>= second in
      >>=-inr
        (poll (λ s. if s == 0xFF then false else true) timeout_read_buffer default_read_retries)
        first s0 0xFE s2
        (poll-found (λ s. if s == 0xFF then false else true) timeout_read_buffer
          default_read_retries n s0 s1 s2 0xFE le refl refl waits token)
      ∙ >>=-inr (transfer_bytes (replicate len 0xFF)) last s2 buffer s3
          (transfer_bytes-some s2 s3 (replicate len 0xFF) buffer sent)
      ∙ >>=-inr (transfer_bytes (0xFF ∷ 0xFF ∷ [])) (check_crc use_crc buffer) s3 crc_bytes s4
          (transfer_bytes-some s3 s4 (0xFF ∷ 0xFF ∷ []) crc_bytes sum)
      ∙ check_crc-judged use_crc buffer crc_bytes s4
