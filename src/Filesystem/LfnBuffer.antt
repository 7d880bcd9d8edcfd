-- ===== src/Filesystem/LfnBuffer.antt =====
-- `LfnBuffer` (embedded-sdmmc/src/filesystem/filename.rs): a long file name, put together from the
-- back out of chunks of 13 UTF-16 code units.
pub mod Overflow
pub mod Plain
pub mod Storing
use embedded_sdmmc_rs.Common.{
  ℕ, zero, suc, ◌+◌, ◌-◌, ◌*◌, ◌/◌, ◌%◌, ◌^◌, Bool, true, false, List, [], ◌∷◌, ◌++◌,
}
use embedded_sdmmc_rs.Common.{
  Option, none, some, ltb, leb, ◌==◌, if◌then◌else◌, ◌&&◌, min, length, set, drop, take,
}
use embedded_sdmmc_rs.Common.Action.{
  Action, Result, ok, err, panic, no_fuel, pure, lift, modify, ◌>>=◌, ◌>>◌,
}

pub record LfnBuffer : Type 0 where
  pub inner : List ℕ
  pub free : ℕ
  pub overflow : Bool
  pub unpaired_surrogate : Option ℕ

-- `LfnBuffer::new`
pub new : List ℕ → LfnBuffer
new storage =
    let len = min (length storage) 65535 in
    record { inner = take len storage; free = len; overflow = false; unpaired_surrogate = none }

-- `clear`
unfoldable pub clear : Action LfnBuffer (Unit {0})
clear b =
    (ok tt, record b { free = length b.inner % 65536; overflow = false; unpaired_surrogate = none })

-- an item of `char::decode_utf16`: a character, or half of a surrogate pair
pub data Decoded : Type 0 where
  char : ℕ → Decoded
  unpaired : ℕ → Decoded

unfoldable pub is_surrogate : ℕ → Bool
is_surrogate u = leb 0xD800 u && leb u 0xDFFF

unfoldable pub is_trailing : ℕ → Bool
is_trailing u = leb 0xDC00 u && leb u 0xDFFF

pub pair : ℕ → ℕ → ℕ
pair high low = 0x10000 + (high - 0xD800) * 0x400 + (low - 0xDC00)

-- `char::decode_utf16`
unfoldable pub decode_utf16 : List ℕ → List Decoded
unfolding is_surrogate is_trailing
decode_utf16 [] = []
decode_utf16 (u ∷ []) = (if is_surrogate u then unpaired u else char u) ∷ []
decode_utf16 (u ∷ v ∷ rest) =
    let single = decode_utf16 (v ∷ rest) in
    let skipped = decode_utf16 rest in
    if is_surrogate u
    then if is_trailing u
      then unpaired u ∷ single
      else if is_trailing v
      then char (pair u v) ∷ skipped
      else unpaired u ∷ single
    else char u ∷ single

-- `char::encode_utf8`
pub encode_utf8 : ℕ → List ℕ
encode_utf8 c =
    if ltb c 0x80
    then c ∷ []
    else if ltb c 0x800
    then (0xC0 + c / 2 ^ 6) ∷ (0x80 + c % 2 ^ 6) ∷ []
    else if ltb c 0x10000
    then (0xE0 + c / 2 ^ 12) ∷ (0x80 + c / 2 ^ 6 % 2 ^ 6) ∷ (0x80 + c % 2 ^ 6) ∷ []
    else (0xF0 + c / 2 ^ 18)
      ∷ (0x80 + c / 2 ^ 12 % 2 ^ 6)
      ∷ (0x80 + c / 2 ^ 6 % 2 ^ 6)
      ∷ (0x80 + c % 2 ^ 6)
      ∷ []

-- the code units up to the first null
unfoldable pub before_null : List ℕ → List ℕ
before_null [] = []
before_null (u ∷ us) = if u == 0 then [] else u ∷ before_null us

pub saved : Option ℕ → List ℕ
saved none = []
saved (some u) = u ∷ []

-- `char_vec.push(ch).expect(...)`, on a vector with room for 13 characters
pub push_char : List ℕ → ℕ → Result (List ℕ)
push_char vec c = if ltb (length vec) 13 then ok (vec ++ (c ∷ [])) else panic

-- the loop over the decoded items; the flag says whether the item is the first one
unfoldable pub collect_chars : List Decoded → Bool → List ℕ → Action LfnBuffer (List ℕ)
unfolding push_char
collect_chars [] is_first vec = pure vec
collect_chars (char c ∷ rest) is_first vec = do
  vec' ← lift (push_char vec c)
  collect_chars rest false vec'
collect_chars (unpaired u ∷ rest) true vec = do
  modify (λ b. record b { unpaired_surrogate = some u })
  collect_chars rest false vec
collect_chars (unpaired u ∷ rest) false vec = do
  vec' ← lift (push_char vec 0xFFFD)
  collect_chars rest false vec'

-- `self.free -= 1`, on a `u16`, and `self.inner[self.free()] = b`, which panics out of bounds. (With
-- overflow checks the subtraction panics at 0. The wrapped 65535 is out of bounds of every buffer
-- that `new` makes, and so the panic is the same.)
store_byte : ℕ → Action LfnBuffer (Unit {0})
store_byte x b =
    let b' : LfnBuffer = record b { free = (b.free + 65535) % 65536 } in
    if ltb b'.free (length b.inner)
    then (ok tt, record b' { inner = set b.inner b'.free x })
    else (panic, b')

-- The bytes of one character, in the order in which they are given, each before the last one.
pub store_bytes : List ℕ → Action LfnBuffer (Unit {0})
unfolding store_byte
store_bytes [] = pure tt
store_bytes (x ∷ xs) = do store_byte x; store_bytes xs

pub reverse_onto : List ℕ → List ℕ → List ℕ
reverse_onto [] ys = ys
reverse_onto (x ∷ xs) ys = reverse_onto xs (x ∷ ys)

-- the loop that stores the characters, which are given last one first
unfoldable pub store_chars : List ℕ → Action LfnBuffer (Unit {0})
unfolding encode_utf8 store_bytes reverse_onto
store_chars [] b = (ok tt, b)
store_chars (c ∷ cs) b =
    let bytes = encode_utf8 c in
    elim (ltb b.free (length bytes)) [
      | true ↦ (ok tt, record b { overflow = true })
      | false ↦ (store_bytes (reverse_onto bytes []) >> store_chars cs) b
    ]

-- `push`
unfoldable pub push : List ℕ → Action LfnBuffer (Unit {0})
unfolding saved before_null decode_utf16 collect_chars store_chars
push buffer b =
    let units = before_null buffer ++ saved b.unpaired_surrogate in
    (collect_chars (decode_utf16 units) true [] >>= λ vec. store_chars (reverse_onto vec []))
      (record b { unpaired_surrogate = none })

-- `as_str`; the slice is in bounds if the free bytes are bytes of the buffer
unfoldable pub as_str : LfnBuffer → List ℕ
as_str b = if b.overflow then [] else drop b.free b.inner
