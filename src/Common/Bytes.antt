-- ===== src/Common/Bytes.antt =====
-- `byteorder::LittleEndian` on a slice of bytes: reads and writes of two and of four bytes, and
-- `copy_from_slice` into a part of an array. Offsets are in bounds wherever the code uses them.
use embedded_sdmmc_rs.Common.{ℕ, zero, suc, ◌+◌, ◌*◌, ◌/◌, ◌%◌, ◌<◌, ◌≤◌, ◌≡◌, refl, ◌∙◌}
use embedded_sdmmc_rs.Common.{◌⊎◌, inl, inr, List, [], ◌∷◌, arith, length, get_or, set, take, drop}
use native.Mathlib.Nat.{add-zero}
use embedded_sdmmc_rs.Common.{length-set, get_or-set_self, get_or-set_ne, ap}

-- `data[i]`
abbrev pub byte : List ℕ → ℕ → ℕ
byte d i = get_or d i 0

unfoldable pub read_u16 : List ℕ → ℕ → ℕ
read_u16 d i = byte d i + 256 * byte d (i + 1)

unfoldable pub read_u32 : List ℕ → ℕ → ℕ
read_u32 d i = byte d i + 256 * byte d (i + 1) + 65536 * byte d (i + 2) + 16777216 * byte d (i + 3)

-- `u16::to_le_bytes` and `u32::to_le_bytes`
abbrev pub le_bytes2 : ℕ → List ℕ
le_bytes2 v = v % 256 ∷ v / 256 % 256 ∷ []

abbrev pub le_bytes4 : ℕ → List ℕ
le_bytes4 v = v % 256 ∷ v / 256 % 256 ∷ v / 65536 % 256 ∷ v / 16777216 % 256 ∷ []

-- `d[i..i + bs.len()].copy_from_slice(bs)`
unfoldable pub put_bytes : List ℕ → ℕ → List ℕ → List ℕ
put_bytes d i [] = d
put_bytes d i (b ∷ bs) = put_bytes (set d i b) (i + 1) bs

pub write_u16 : List ℕ → ℕ → ℕ → List ℕ
write_u16 d i v = put_bytes d i (le_bytes2 v)

pub write_u32 : List ℕ → ℕ → ℕ → List ℕ
write_u32 d i v = put_bytes d i (le_bytes4 v)

-- Every element of the slice is a byte.
abbrev pub IsBytes : List ℕ → Type 0
IsBytes d = (i : ℕ) → byte d i < 256

pub length-put_bytes : (bs d : List ℕ) (i : ℕ) → length (put_bytes d i bs) ≡ length d
unfolding put_bytes
length-put_bytes [] d i = refl
length-put_bytes (b ∷ bs) d i = length-put_bytes bs (set d i b) (i + 1) ∙ length-set d i b

pub length-write_u16 : (d : List ℕ) (i v : ℕ) → length (write_u16 d i v) ≡ length d
unfolding write_u16
length-write_u16 d i v = length-put_bytes (le_bytes2 v) d i

pub length-write_u32 : (d : List ℕ) (i v : ℕ) → length (write_u32 d i v) ≡ length d
unfolding write_u32
length-write_u32 d i v = length-put_bytes (le_bytes4 v) d i

pub byte-put_bytes_below : (bs d : List ℕ) (i j : ℕ) → j < i → byte (put_bytes d i bs) j ≡ byte d j
unfolding put_bytes
byte-put_bytes_below [] d i j h = refl
byte-put_bytes_below (b ∷ bs) d i j h =
    byte-put_bytes_below bs (set d i b) (i + 1) j (omega arith)
    ∙ get_or-set_ne d i j b 0 (omega arith)

pub byte-put_bytes_above :
    (bs d : List ℕ) (i j : ℕ) → i + length bs ≤ j → byte (put_bytes d i bs) j ≡ byte d j
unfolding put_bytes
byte-put_bytes_above [] d i j h = refl
byte-put_bytes_above (b ∷ bs) d i j h =
    byte-put_bytes_above bs (set d i b) (i + 1) j (omega arith)
    ∙ get_or-set_ne d i j b 0 (omega arith)

pub byte-put_bytes_self :
    (bs d : List ℕ) (i k : ℕ)
    → k < length bs
    → i + length bs ≤ length d
    → byte (put_bytes d i bs) (i + k) ≡ byte bs k
unfolding put_bytes
byte-put_bytes_self [] d i k h fits = absurd (omega arith)
byte-put_bytes_self (b ∷ bs) d i zero h fits =
    byte-put_bytes_below bs (set d i b) (i + 1) (i + 0) (omega arith)
    ∙ ap (λ j. byte (set d i b) j) (omega arith)
    ∙ get_or-set_self d i b 0 (omega arith)
byte-put_bytes_self (b ∷ bs) d i (suc k) h fits =
    ap (λ j. byte (put_bytes (set d i b) (i + 1) bs) j) (omega arith)
    ∙ byte-put_bytes_self bs (set d i b) (i + 1) k (omega arith) (omega (arith, length-set d i b))

pub read_u16-write_u16_self :
    (d : List ℕ) (i v : ℕ) → i + 1 < length d → v < 65536 → read_u16 (write_u16 d i v) i ≡ v
unfolding read_u16 write_u16
read_u16-write_u16_self d i v h lt = omega (
  arith,
  ap (λ j. byte (put_bytes d i (le_bytes2 v)) j) (add-zero i),
  byte-put_bytes_self (le_bytes2 v) d i 0 (omega arith) (omega arith),
  byte-put_bytes_self (le_bytes2 v) d i 1 (omega arith) (omega arith),
)

pub read_u16-write_u16_ne :
    (d : List ℕ) (i j v : ℕ)
    → (j + 1 < i) ⊎ (i + 1 < j)
    → read_u16 (write_u16 d i v) j ≡ read_u16 d j
unfolding read_u16 write_u16
read_u16-write_u16_ne d i j v (inl below) = omega (
  arith,
  byte-put_bytes_below (le_bytes2 v) d i j (omega arith),
  byte-put_bytes_below (le_bytes2 v) d i (j + 1) (omega arith),
)
read_u16-write_u16_ne d i j v (inr above) = omega (
  arith,
  byte-put_bytes_above (le_bytes2 v) d i j (omega arith),
  byte-put_bytes_above (le_bytes2 v) d i (j + 1) (omega arith),
)

pub read_u32-write_u32_self :
    (d : List ℕ) (i v : ℕ) → i + 3 < length d → v < 4294967296 → read_u32 (write_u32 d i v) i ≡ v
unfolding read_u32 write_u32
read_u32-write_u32_self d i v h lt = omega (
  arith,
  ap (λ j. byte (put_bytes d i (le_bytes4 v)) j) (add-zero i),
  byte-put_bytes_self (le_bytes4 v) d i 0 (omega arith) (omega arith),
  byte-put_bytes_self (le_bytes4 v) d i 1 (omega arith) (omega arith),
  byte-put_bytes_self (le_bytes4 v) d i 2 (omega arith) (omega arith),
  byte-put_bytes_self (le_bytes4 v) d i 3 (omega arith) (omega arith),
)

pub read_u32-write_u32_ne :
    (d : List ℕ) (i j v : ℕ)
    → (j + 3 < i) ⊎ (i + 3 < j)
    → read_u32 (write_u32 d i v) j ≡ read_u32 d j
unfolding read_u32 write_u32
read_u32-write_u32_ne d i j v (inl below) = omega (
  arith,
  byte-put_bytes_below (le_bytes4 v) d i j (omega arith),
  byte-put_bytes_below (le_bytes4 v) d i (j + 1) (omega arith),
  byte-put_bytes_below (le_bytes4 v) d i (j + 2) (omega arith),
  byte-put_bytes_below (le_bytes4 v) d i (j + 3) (omega arith),
)
read_u32-write_u32_ne d i j v (inr above) = omega (
  arith,
  byte-put_bytes_above (le_bytes4 v) d i j (omega arith),
  byte-put_bytes_above (le_bytes4 v) d i (j + 1) (omega arith),
  byte-put_bytes_above (le_bytes4 v) d i (j + 2) (omega arith),
  byte-put_bytes_above (le_bytes4 v) d i (j + 3) (omega arith),
)

put_bytes-later :
    (y : ℕ) (ys : List ℕ) (i : ℕ) (xs : List ℕ)
    → put_bytes (y ∷ ys) (suc i) xs ≡ y ∷ put_bytes ys i xs
unfolding put_bytes
put_bytes-later y ys i [] = refl
put_bytes-later y ys i (x ∷ xs) =
    ap (λ j. put_bytes (y ∷ set ys i x) j xs) (next i) ∙ put_bytes-later y (set ys i x) (i + 1) xs
  where
    next : (i : ℕ) → suc i + 1 ≡ suc (i + 1)
    next i = omega arith

put_bytes-first : (y x : ℕ) (ys xs : List ℕ) → put_bytes (y ∷ ys) 0 (x ∷ xs) ≡ x ∷ put_bytes ys 0 xs
unfolding put_bytes
put_bytes-first y x ys xs = put_bytes-later x ys 0 xs

-- What was put into a slice is found there.
pub take-put_bytes :
    (ys : List ℕ) (i : ℕ) (xs : List ℕ)
    → i + length xs ≤ length ys
    → take (length xs) (drop i (put_bytes ys i xs)) ≡ xs
take-put_bytes ys i [] fits = refl
take-put_bytes [] i (x ∷ xs) fits = absurd (omega arith)
take-put_bytes (y ∷ ys) zero (x ∷ xs) fits =
    ap (take (suc (length xs))) (put_bytes-first y x ys xs)
    ∙ ap (λ (t : List ℕ). x ∷ t) (take-put_bytes ys 0 xs (omega arith))
take-put_bytes (y ∷ ys) (suc i) (x ∷ xs) fits =
    ap (λ (t : List ℕ). take (suc (length xs)) (drop (suc i) t)) (put_bytes-later y ys i (x ∷ xs))
    ∙ take-put_bytes ys i (x ∷ xs) (omega arith)

-- A slice that is replaced as a whole.
pub put_bytes-whole : (ys xs : List ℕ) → length xs ≡ length ys → put_bytes ys 0 xs ≡ xs
unfolding put_bytes
put_bytes-whole [] [] e = refl
put_bytes-whole [] (x ∷ xs) e = absurd (omega arith)
put_bytes-whole (y ∷ ys) [] e = absurd (omega arith)
put_bytes-whole (y ∷ ys) (x ∷ xs) e =
    put_bytes-first y x ys xs ∙ ap (λ (t : List ℕ). x ∷ t) (put_bytes-whole ys xs (omega arith))
