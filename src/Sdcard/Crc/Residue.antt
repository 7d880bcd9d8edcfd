-- ===== src/Sdcard/Crc/Residue.antt =====
-- What `crc7` computes: the state of a shift register with feedback.
use embedded_sdmmc_rs.Common.{
  ℕ, zero, suc, ◌*◌, ◌/◌, ◌%◌, ◌^◌, ◌<◌, List, [], ◌∷◌, ◌++◌, ◌≡◌, refl, ap, ap₂, sym, ◌∙◌, subst,
  arith, bit_and, ◌⊎◌, inl, inr, false, bit_xor, Bool, true,
}
use embedded_sdmmc_rs.Common.{◌==◌, ◌&&◌, ltb, ltb→lt, ==_iff, if◌then◌else◌}
use embedded_sdmmc_rs.Common.Bits.{bit_and-mask, bit_and-shifted}
use embedded_sdmmc_rs.Common.Bounded.{all_below, all_below-at}
use embedded_sdmmc_rs.Sdcard.Crc.{add_bit, add_bits, add_bytes, crc7}

-- The register has seven bits. A bit goes in, and where it differs from the one that comes out,
-- the polynomial x^7 + x^3 + 1 is added.
abbrev pub shift_in : ℕ → ℕ → ℕ
shift_in r b = if r / 64 == b then r * 2 % 128 else bit_xor (r * 2 % 128) 9

abbrev pub shift_all : ℕ → List ℕ → ℕ
shift_all r [] = r
shift_all r (b ∷ bs) = shift_all (shift_in r b) bs

-- the `n` low bits of a number, the highest first
abbrev pub low_bits : ℕ → ℕ → List ℕ
low_bits zero v = []
low_bits (suc n) v = v / 2 ^ n % 2 ∷ low_bits n v

-- the bits of a message as they are sent
abbrev pub sent_bits : List ℕ → List ℕ
sent_bits [] = []
sent_bits (d ∷ ds) = low_bits 8 d ++ sent_bits ds

-- the body of the inner loop, by the top bit of the byte
abbrev step : ℕ → ℕ → ℕ
step crc m =
    let crc' = crc * 2 % 256 in
    if bit_xor m (bit_and crc' 0x80) == 0 then crc' else bit_xor crc' 0x09

abbrev is_step : ℕ → ℕ → Bool
is_step b crc = (step crc (b * 128) % 128 == shift_in (crc % 128) b) && ltb (step crc (b * 128)) 256

step-0 : all_below 256 (is_step 0) ≡ true
step-0 = refl

step-1 : all_below 256 (is_step 1) ≡ true
step-1 = refl

-- A register with its own bits shifted in is empty.
is_empty-all : all_below 128 (λ r. shift_all r (low_bits 7 r) == 0) ≡ true
is_empty-all = refl

top_bit : (d : ℕ) → d < 256 → bit_and d 0x80 ≡ d / 128 * 128
top_bit d small = bit_and-shifted 7 d 1 ∙ ap (λ x. x * 128) (bit_and-mask 1 (d / 128) ∙ omega arith)

split_step :
    (b crc : ℕ)
    → is_step b crc ≡ true
    → (step crc (b * 128) % 128 ≡ shift_in (crc % 128) b) × (step crc (b * 128) < 256)
split_step b crc h =
    go (step crc (b * 128) % 128 == shift_in (crc % 128) b) (ltb (step crc (b * 128)) 256) refl refl
      h
  where
    go :
        (x y : Bool)
        → (step crc (b * 128) % 128 == shift_in (crc % 128) b) ≡ x
        → ltb (step crc (b * 128)) 256 ≡ y
        → (x && y) ≡ true
        → (step crc (b * 128) % 128 ≡ shift_in (crc % 128) b) × (step crc (b * 128) < 256)
    go true true p q e = (
      (==_iff (step crc (b * 128) % 128) (shift_in (crc % 128) b)).0 p,
      ltb→lt (step crc (b * 128)) 256 q,
    )
    go true false p q e = cc
    go false y p q e = cc

zero_or_one : (b : ℕ) → b < 2 → (b ≡ 0) ⊎ (b ≡ 1)
zero_or_one b h = ground arith

-- One bit of a byte, through the code and through the register.
add_bit-shift :
    (crc d : ℕ)
    → crc < 256
    → d < 256
    → (add_bit crc d % 128 ≡ shift_in (crc % 128) (d / 128)) × (add_bit crc d < 256)
unfolding add_bit
add_bit-shift crc d small byte =
    subst (λ m. (step crc m % 128 ≡ shift_in (crc % 128) (d / 128)) × (step crc m < 256))
      (sym (top_bit d byte))
      (split_step (d / 128) crc (elim (zero_or_one (d / 128) (omega arith)) [
        | inl e ↦
            subst (λ b. is_step b crc ≡ true) (sym e)
              (all_below-at 256 (is_step 0) step-0 crc small)
        | inr e ↦
            subst (λ b. is_step b crc ≡ true) (sym e)
              (all_below-at 256 (is_step 1) step-1 crc small)
      ]))

abbrev top_bits : ℕ → ℕ → List ℕ
top_bits zero d = []
top_bits (suc n) d = d / 128 ∷ top_bits n (d * 2 % 256)

add_bits-shift :
    (n crc d : ℕ)
    → crc < 256
    → d < 256
    → (add_bits n crc d % 128 ≡ shift_all (crc % 128) (top_bits n d)) × (add_bits n crc d < 256)
unfolding add_bits
add_bits-shift zero crc d small byte = (refl, small)
add_bits-shift (suc n) crc d small byte =
    let first = add_bit-shift crc d small byte in
    let rest = add_bits-shift n (add_bit crc d) (d * 2 % 256) first.1 (omega arith) in
    (rest.0 ∙ ap (λ r. shift_all r (top_bits n (d * 2 % 256))) first.0, rest.1)

∷_eq : (x y : ℕ) (xs ys : List ℕ) → x ≡ y → xs ≡ ys → x ∷ xs ≡ y ∷ ys
∷_eq x y xs ys e es = ap₂ (λ (a : ℕ) (t : List ℕ). a ∷ t) e es

top_bits-low_bits : (d : ℕ) → d < 256 → top_bits 8 d ≡ low_bits 8 d
top_bits-low_bits d byte = ∷_eq _ _ _ _ (omega arith) (
    ∷_eq _ _ _ _ (omega arith) (
      ∷_eq _ _ _ _ (omega arith) (
        ∷_eq _ _ _ _ (omega arith) (
          ∷_eq _ _ _ _ (omega arith) (
            ∷_eq _ _ _ _ (omega arith)
              (∷_eq _ _ _ _ (omega arith) (∷_eq _ _ _ _ (omega arith) refl)))))))

-- every element is a byte
abbrev pub IsMessage : List ℕ → Type 0
IsMessage [] = Unit
IsMessage (d ∷ ds) = (d < 256) × IsMessage ds

shift_all-append : (r : ℕ) (xs ys : List ℕ) → shift_all r (xs ++ ys) ≡ shift_all (shift_all r xs) ys
shift_all-append r [] ys = refl
shift_all-append r (x ∷ xs) ys = shift_all-append (shift_in r x) xs ys

add_bytes-shift :
    (crc : ℕ) (ds : List ℕ)
    → crc < 256
    → IsMessage ds
    → add_bytes crc ds % 128 ≡ shift_all (crc % 128) (sent_bits ds)
unfolding add_bytes
add_bytes-shift crc [] small message = refl
add_bytes-shift crc (d ∷ ds) small message =
    let first = add_bits-shift 8 crc d small message.0 in
    add_bytes-shift (add_bits 8 crc d) ds first.1 message.1
    ∙ ap (λ r. shift_all r (sent_bits ds))
        (first.0 ∙ ap (shift_all (crc % 128)) (top_bits-low_bits d message.0))
    ∙ sym (shift_all-append (crc % 128) (low_bits 8 d) (sent_bits ds))

-- `crc7` of a message of bytes is what the register of the polynomial x^7 + x^3 + 1 holds after
-- its bits, from the top bit of the first byte on, and the bits of the check sum after those of
-- the message leave the register empty.
pub crc7-residue :
    (bytes : List ℕ)
    → IsMessage bytes
    → (crc7 bytes ≡ shift_all 0 (sent_bits bytes))
      × (shift_all 0 (sent_bits bytes ++ low_bits 7 (crc7 bytes)) ≡ 0)
unfolding crc7
crc7-residue bytes message =
    let register = shift_all 0 (sent_bits bytes) in
    let sum : crc7 bytes ≡ add_bytes 0 bytes % 128 = bit_and-mask 7 (add_bytes 0 bytes) in
    let same : crc7 bytes ≡ register = sum ∙ add_bytes-shift 0 bytes (omega arith) message in
    let small : register < 128 = omega (arith, same, sum) in
    (
      same,
      shift_all-append 0 (sent_bits bytes) (low_bits 7 (crc7 bytes))
          ∙ ap (λ r. shift_all register (low_bits 7 r)) same
          ∙ (==_iff (shift_all register (low_bits 7 register)) 0).0
              (all_below-at 128 (λ r. shift_all r (low_bits 7 r) == 0) is_empty-all register small),
    )
