-- ===== src/Filesystem/LfnBuffer/Overflow.antt =====
-- When `push` panics and when it does not: the vector of characters has room for one chunk alone.
use embedded_sdmmc_rs.Common.{ℕ, ◌+◌, ◌≤◌, ◌≡◌, ◌≢◌, refl, ◌∙◌, ap, arith, length, length-append}
use embedded_sdmmc_rs.Common.{Bool, true, false, List, [], ◌∷◌, ◌++◌, Option, none, some}
use embedded_sdmmc_rs.Common.{lt→ltb, le→ltb, ==_ne, if◌then◌else◌}
use embedded_sdmmc_rs.Common.Bytes.{byte}
use embedded_sdmmc_rs.Common.Action.{Result, ok, panic, ◌>>=◌}
use embedded_sdmmc_rs.Filesystem.LfnBuffer.{
  LfnBuffer, Decoded, char, unpaired, is_surrogate, decode_utf16, before_null, saved, push_char,
  collect_chars, reverse_onto, push,
}
use embedded_sdmmc_rs.Filesystem.LfnBuffer.Storing.{HasRoom, store_chars-ok, push-collected}

-- There are no more items than code units.
decode_utf16-length : (us : List ℕ) → length (decode_utf16 us) ≤ length us
unfolding decode_utf16
decode_utf16-length [] = omega arith
decode_utf16-length (u ∷ []) = omega arith
decode_utf16-length (u ∷ v ∷ rest) =
    ground (arith, decode_utf16-length (v ∷ rest), decode_utf16-length rest)

before_null-length : (us : List ℕ) → length (before_null us) ≤ length us
unfolding before_null
before_null-length [] = omega arith
before_null-length (u ∷ us) = ground (arith, before_null-length us)

-- The loop does not panic while there is room for every item, and at most saves a half.
collect_chars-ok :
    (ds : List Decoded) (is_first : Bool) (vec : List ℕ) (b : LfnBuffer)
    → length vec + length ds ≤ 13
    → (cs : List ℕ) × (o : Option ℕ) × (collect_chars ds is_first vec b
        ≡ (ok cs, record b { unpaired_surrogate = o }))
unfolding collect_chars push_char
collect_chars-ok [] is_first vec b h = (vec, b.unpaired_surrogate, refl)
collect_chars-ok (char c ∷ rest) is_first vec b h =
    rw (lt→ltb (length vec) 13 (omega arith), if◌then◌else◌)
      (collect_chars-ok rest false (vec ++ (c ∷ [])) b (omega (arith, length-append vec (c ∷ []))))
collect_chars-ok (unpaired u ∷ rest) true vec b h =
    collect_chars-ok rest false vec (record b { unpaired_surrogate = some u }) (omega arith)
collect_chars-ok (unpaired u ∷ rest) false vec b h =
    rw (lt→ltb (length vec) 13 (omega arith), if◌then◌else◌)
      (collect_chars-ok rest false (vec ++ (0xFFFD ∷ [])) b
        (omega (arith, length-append vec (0xFFFD ∷ []))))

-- Without a saved half of a surrogate pair, a chunk of at most 13 code units is pushed without a
-- panic onto a buffer whose free bytes are bytes of the buffer, which holds of it afterwards again.
-- The free bytes are no more than before, and the bytes that were stored before are still there.
pub push-ok :
    (us : List ℕ) (b : LfnBuffer)
    → length us ≤ 13
    → HasRoom b
    → b.unpaired_surrogate ≡ none
    → (c : LfnBuffer) × (push us b ≡ (ok tt, c))
      × HasRoom c
      × (c.free ≤ b.free)
      × ((i : ℕ) → b.free ≤ i → byte c.inner i ≡ byte b.inner i)
unfolding saved
push-ok us b h room e =
    let b0 : LfnBuffer = record b { unpaired_surrogate = none } in
    let first = collect_chars-ok (decode_utf16 (before_null us ++ [])) true [] b0 (
      omega (
        arith,
        decode_utf16-length (before_null us ++ []),
        length-append (before_null us) [],
        before_null-length us,
      )) in
    let b1 : LfnBuffer = record b0 { unpaired_surrogate = first.1 } in
    let end =
      store_chars-ok (reverse_onto first.0 []) b1
        (record { inside = room.inside; small = room.small }) in
    (
      end.0,
      push-collected us b none first.0 b1 e first.2 ∙ end.1,
      end.2.room,
      end.2.front,
      end.2.kept,
    )

-- No unit is null, and none is half of a surrogate pair.
abbrev pub IsPlain : List ℕ → Type 0
IsPlain [] = Unit
IsPlain (u ∷ us) = (u ≢ 0) × (is_surrogate u ≡ false) × IsPlain us

before_null-plain : (us : List ℕ) → IsPlain us → before_null us ≡ us
unfolding before_null
before_null-plain [] p = refl
before_null-plain (u ∷ us) p =
    rw (==_ne u 0 p.0, if◌then◌else◌) (ap (λ (t : List ℕ). u ∷ t) (before_null-plain us p.2))

-- the items of plain code units before a half
abbrev items : List ℕ → ℕ → List Decoded
items [] half = unpaired half ∷ []
items (u ∷ us) half = char u ∷ items us half

decode-plain :
    (us : List ℕ) (half : ℕ)
    → IsPlain us
    → is_surrogate half ≡ true
    → decode_utf16 (us ++ (half ∷ [])) ≡ items us half
unfolding decode_utf16
decode-plain [] half p h = rw (h, if◌then◌else◌) refl
decode-plain (u ∷ []) half p h = rw (p.1, if◌then◌else◌) (rw (h, if◌then◌else◌) refl)
decode-plain (u ∷ v ∷ us) half p h =
    rw (p.1, if◌then◌else◌)
      (ap (λ (t : List Decoded). char u ∷ t) (decode-plain (v ∷ us) half p.2 h))

collect_chars-full :
    (us : List ℕ) (half : ℕ) (vec : List ℕ) (b : LfnBuffer)
    → length vec + length us ≡ 13
    → (collect_chars (items us half) false vec b).0 ≡ panic
unfolding collect_chars push_char
collect_chars-full [] half vec b e = rw (le→ltb (length vec) 13 (omega arith), if◌then◌else◌) refl
collect_chars-full (u ∷ us) half vec b e =
    rw (lt→ltb (length vec) 13 (omega arith), if◌then◌else◌)
      (collect_chars-full us half (vec ++ (u ∷ [])) b (omega (arith, length-append vec (u ∷ []))))

-- the first item is a character, and so the flag makes no difference
collect_chars-first :
    (us : List ℕ) (half : ℕ) (b : LfnBuffer)
    → length us ≡ 13
    → (collect_chars (items us half) true [] b).0 ≡ panic
unfolding collect_chars push_char
collect_chars-first [] half b e = absurd (omega arith)
collect_chars-first (u ∷ us) half b e = collect_chars-full us half (u ∷ []) b (omega arith)

-- A panic of the first loop is a panic of `push`.
push-panicked :
    (us : List ℕ) (b : LfnBuffer) (o : Option ℕ)
    → b.unpaired_surrogate ≡ o
    → (collect_chars
        (decode_utf16 (before_null us ++ saved o))
        true
        []
        (record b { unpaired_surrogate = none })).0
      ≡ panic
    → (push us b).0 ≡ panic
unfolding push
push-panicked us b o e run =
    let first : Option ℕ → Result (List ℕ) = λ o.
      (collect_chars (decode_utf16 (before_null us ++ saved o)) true []
        (record b { unpaired_surrogate = none })).0 in
    let q : first b.unpaired_surrogate ≡ panic = ap first e ∙ run in rw (q, push, ◌>>=◌) refl

-- A saved half of a surrogate pair makes a chunk of 13 plain code units panic: the half is a
-- character too many.
pub push-panic :
    (us : List ℕ) (b : LfnBuffer) (half : ℕ)
    → IsPlain us
    → length us ≡ 13
    → b.unpaired_surrogate ≡ some half
    → is_surrogate half ≡ true
    → (push us b).0 ≡ panic
unfolding saved
push-panic us b half p len e h = push-panicked us b (some half) e (
    ap (λ ds. (collect_chars ds true [] (record b { unpaired_surrogate = none })).0)
      (ap (λ (t : List ℕ). decode_utf16 (t ++ (half ∷ []))) (before_null-plain us p)
        ∙ decode-plain us half p h)
    ∙ collect_chars-first us half (record b { unpaired_surrogate = none }) len)
