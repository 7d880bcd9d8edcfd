-- ===== src/Filesystem/LfnBuffer/Plain.antt =====
-- Chunks without halves of surrogate pairs, which the buffer takes without a panic.
use embedded_sdmmc_rs.Common.{ℕ, ◌+◌, ◌≤◌, ◌≡◌, refl, ◌∙◌, ap, arith, length, length-append}
use embedded_sdmmc_rs.Common.{
  Bool, true, false, List, [], ◌∷◌, ◌++◌, none, map, Bool-cases, inl, inr,
}
use embedded_sdmmc_rs.Common.{lt→ltb, ◌==◌, if◌then◌else◌}
use embedded_sdmmc_rs.Common.Action.{ok}
use embedded_sdmmc_rs.Filesystem.LfnBuffer.{
  LfnBuffer, Decoded, char, is_surrogate, decode_utf16, before_null, saved, push_char,
  collect_chars, reverse_onto, push,
}
use embedded_sdmmc_rs.Filesystem.LfnBuffer.Storing.{HasRoom, store_chars-ok, push-collected}

-- No unit is half of a surrogate pair.
abbrev pub HasNoHalf : List ℕ → Type 0
HasNoHalf [] = Unit
HasNoHalf (u ∷ us) = (is_surrogate u ≡ false) × HasNoHalf us

before_null-HasNoHalf : (us : List ℕ) → HasNoHalf us → HasNoHalf (before_null us)
unfolding before_null
before_null-HasNoHalf [] h = tt
before_null-HasNoHalf (u ∷ us) h = elim (Bool-cases (u == 0)) [
  | inl ends ↦ rw ends tt
  | inr goes_on ↦ rw goes_on (h.0, before_null-HasNoHalf us h.1)
]

before_null_shorter : (us : List ℕ) → length (before_null us) ≤ length us
unfolding before_null
before_null_shorter [] = omega arith
before_null_shorter (u ∷ us) = ground (arith, before_null_shorter us)

decode_utf16-chars : (us : List ℕ) → HasNoHalf us → decode_utf16 (us ++ []) ≡ map char us
unfolding decode_utf16
decode_utf16-chars [] h = refl
decode_utf16-chars (u ∷ []) h = rw (h.0, if◌then◌else◌) refl
decode_utf16-chars (u ∷ v ∷ us) h =
    rw (h.0, if◌then◌else◌)
      (ap (λ (t : List Decoded). char u ∷ t) (decode_utf16-chars (v ∷ us) h.1))

collect_chars-plain :
    (us : List ℕ) (is_first : Bool) (vec : List ℕ) (b : LfnBuffer)
    → length vec + length us ≤ 13
    → collect_chars (map char us) is_first vec b ≡ (ok (vec ++ us), b)
unfolding collect_chars push_char
collect_chars-plain [] is_first vec b h = ap (λ (t : List ℕ). (ok t, b)) (append_nil vec)
  where
    append_nil : (xs : List ℕ) → xs ≡ xs ++ []
    append_nil [] = refl
    append_nil (x ∷ xs) = ap (λ (t : List ℕ). x ∷ t) (append_nil xs)
collect_chars-plain (u ∷ us) is_first vec b h =
    rw (lt→ltb (length vec) 13 (omega arith), if◌then◌else◌)
      (collect_chars-plain us false (vec ++ (u ∷ [])) b (omega (arith, length-append vec (u ∷ [])))
        ∙ ap (λ (t : List ℕ). (ok t, b)) (snoc vec u us))
  where
    snoc : (xs : List ℕ) (b : ℕ) (ys : List ℕ) → (xs ++ (b ∷ [])) ++ ys ≡ xs ++ (b ∷ ys)
    snoc [] b ys = refl
    snoc (x ∷ xs) b ys = ap (λ (t : List ℕ). x ∷ t) (snoc xs b ys)

-- A chunk without halves of pairs is pushed onto a buffer without a saved half, which then has no
-- saved half either.
pub push-plain :
    (us : List ℕ) (b : LfnBuffer)
    → length us ≤ 13
    → HasNoHalf us
    → HasRoom b
    → b.unpaired_surrogate ≡ none
    → (b' : LfnBuffer) × (push us b ≡ (ok tt, b')) × HasRoom b' × (b'.unpaired_surrogate ≡ none)
unfolding saved
push-plain us b short h room e =
    let b0 : LfnBuffer = record b { unpaired_surrogate = none } in
    let run : collect_chars (decode_utf16 (before_null us ++ saved none)) true [] b0
        ≡ (ok (before_null us), b0) =
      ap (λ ds. collect_chars ds true [] b0)
        (decode_utf16-chars (before_null us) (before_null-HasNoHalf us h))
      ∙ collect_chars-plain (before_null us) true [] b0 (omega (arith, before_null_shorter us)) in
    let end =
      store_chars-ok (reverse_onto (before_null us) []) b0
        (record { inside = room.inside; small = room.small }) in
    (end.0, push-collected us b none (before_null us) b0 e run ∙ end.1, end.2.room, end.2.unpaired)
