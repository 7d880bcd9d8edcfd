-- ===== src/Filesystem/LfnBuffer/Storing.antt =====
-- The loop of `push` that stores the characters: every byte that it stores has a place in the buffer.
use embedded_sdmmc_rs.Common.{
  ℕ, ◌+◌, ◌%◌, ◌<◌, ◌≤◌, ◌≡◌, refl, ◌∙◌, ap, arith, length, set, length-set, get_or-set_ne,
}
use embedded_sdmmc_rs.Common.{List, [], ◌∷◌, ◌++◌, Option, none, Bool-cases, inl, inr, true}
use embedded_sdmmc_rs.Common.{ltb, lt→ltb, ltb→le, if◌then◌else◌}
use embedded_sdmmc_rs.Common.Bytes.{byte}
use embedded_sdmmc_rs.Common.Action.{ok, >>=-ok}
use embedded_sdmmc_rs.Filesystem.LfnBuffer.{
  LfnBuffer, decode_utf16, before_null, saved, collect_chars, encode_utf8, store_byte, store_bytes,
  store_chars, reverse_onto, push, clear,
}

-- The free bytes are bytes of the buffer, and their number is a `u16`.
pub record HasRoom (b : LfnBuffer) : Type 0 where
  pub inside : b.free ≤ length b.inner
  pub small : b.free < 65536

pub clear-HasRoom : (b : LfnBuffer) → HasRoom (clear b).1
unfolding clear
clear-HasRoom b = record { inside = omega arith; small = omega arith }

-- `c` is `b` after bytes were stored in front: what was stored before is still there.
pub record HasStored (b c : LfnBuffer) : Type 0 where
  pub room : HasRoom c
  pub front : c.free ≤ b.free
  pub kept : (i : ℕ) → b.free ≤ i → byte c.inner i ≡ byte b.inner i
  pub size : length c.inner ≡ length b.inner
  pub unpaired : c.unpaired_surrogate ≡ b.unpaired_surrogate

stored_nothing : (b : LfnBuffer) → HasRoom b → HasStored b b
stored_nothing b r = record {
  room = r;
  front = omega arith;
  kept = λ i h. refl;
  size = refl;
  unpaired = refl;
}

pub stored_both : (b c d : LfnBuffer) → HasStored b c → HasStored c d → HasStored b d
stored_both b c d first second = record {
  room = second.room;
  front = omega (arith, first.front, second.front);
  kept = λ i h. second.kept i (omega (arith, first.front)) ∙ first.kept i h;
  size = second.size ∙ first.size;
  unpaired = second.unpaired ∙ first.unpaired;
}

store_byte-ok :
    (x : ℕ) (b : LfnBuffer)
    → HasRoom b
    → 1 ≤ b.free
    → (c : LfnBuffer) × (store_byte x b ≡ (ok tt, c)) × HasStored b c × (c.free + 1 ≡ b.free)
unfolding store_byte
store_byte-ok x b r some_free =
    let free = (b.free + 65535) % 65536 in
    let e : free + 1 ≡ b.free = omega (arith, r.small) in
    let inner = set b.inner free x in
    let c : LfnBuffer = record b { free = free; inner = inner } in
    (
      c,
      rw (lt→ltb free (length b.inner) (omega (arith, r.inside)), if◌then◌else◌) refl,
      record {
        room = record {
          inside = omega (arith, r.inside, length-set b.inner free x);
          small = omega (arith, r.small);
        };
        front = omega arith;
        kept = λ i h. get_or-set_ne b.inner free i x 0 (omega arith);
        size = length-set b.inner free x;
        unpaired = refl;
      },
      e,
    )

store_bytes-ok :
    (xs : List ℕ) (b : LfnBuffer)
    → HasRoom b
    → length xs ≤ b.free
    → (c : LfnBuffer) × (store_bytes xs b ≡ (ok tt, c)) × HasStored b c
unfolding store_bytes
store_bytes-ok [] b r enough = (b, refl, stored_nothing b r)
store_bytes-ok (x ∷ xs) b r enough =
    let first = store_byte-ok x b r (omega arith) in
    let rest = store_bytes-ok xs first.0 first.2.room (omega (arith, first.3)) in
    (
      rest.0,
      >>=-ok (store_byte x) (λ _. store_bytes xs) b tt first.0 first.1 ∙ rest.1,
      stored_both b first.0 rest.0 first.2 rest.2,
    )

length-reverse_onto : (xs ys : List ℕ) → length (reverse_onto xs ys) ≡ length xs + length ys
unfolding reverse_onto
length-reverse_onto [] ys = omega arith
length-reverse_onto (x ∷ xs) ys = omega (arith, length-reverse_onto xs (x ∷ ys))

-- What is left out is marked, and the buffer still has what was stored.
overflowed : (b : LfnBuffer) → HasRoom b → HasStored b (record b { overflow = true })
overflowed b r = record {
  room = record { inside = r.inside; small = r.small };
  front = omega arith;
  kept = λ i h. refl;
  size = refl;
  unpaired = refl;
}

-- The test of the free bytes is enough: the loop does not panic.
pub store_chars-ok :
    (cs : List ℕ) (b : LfnBuffer)
    → HasRoom b
    → (c : LfnBuffer) × (store_chars cs b ≡ (ok tt, c)) × HasStored b c
unfolding store_chars
store_chars-ok [] b r = (b, refl, stored_nothing b r)
store_chars-ok (ch ∷ cs) b r = elim (Bool-cases (ltb b.free (length (encode_utf8 ch)))) [
  | inl full ↦ (record b { overflow = true }, rw (full, store_chars) refl, overflowed b r)
  | inr enough ↦
      let bytes = reverse_onto (encode_utf8 ch) [] in
      let first = store_bytes-ok bytes b r (
        omega (
          arith,
          length-reverse_onto (encode_utf8 ch) [],
          ltb→le b.free (length (encode_utf8 ch)) enough,
        )) in
      let rest = store_chars-ok cs first.0 first.2.room in
      (
        rest.0,
        rw (enough, store_chars)
            (>>=-ok (store_bytes bytes) (λ _. store_chars cs) b tt first.0 first.1 ∙ rest.1),
        stored_both b first.0 rest.0 first.2 rest.2,
      )
]

-- `push`, once the result of its first loop is known
pub push-collected :
    (us : List ℕ) (b : LfnBuffer) (o : Option ℕ) (vec : List ℕ) (b0 : LfnBuffer)
    → b.unpaired_surrogate ≡ o
    → collect_chars
        (decode_utf16 (before_null us ++ saved o))
        true
        []
        (record b { unpaired_surrogate = none })
      ≡ (ok vec, b0)
    → push us b ≡ store_chars (reverse_onto vec []) b0
unfolding push
push-collected us b o vec b0 e run =
    let collect =
      λ (o : Option ℕ). collect_chars (decode_utf16 (before_null us ++ saved o)) true [] in
    >>=-ok (collect b.unpaired_surrogate) (λ vec. store_chars (reverse_onto vec []))
      (record b { unpaired_surrogate = none }) vec b0
      (ap (λ (o : Option ℕ). collect o (record b { unpaired_surrogate = none })) e ∙ run)
