-- ===== src/Fat/Directory/Change/Slots.antt =====
-- The entries of one block: which is taken by a new name, which is deleted, and what is left of the
-- block.
use native.Mathlib.Decide.{dec_le}
use embedded_sdmmc_rs.Common.{
  ℕ, zero, suc, ◌+◌, ◌-◌, ◌*◌, ◌<◌, ◌≤◌, ◌≡◌, ◌≢◌, refl, ◌∙◌, ap, sym, subst, arith,
}
use embedded_sdmmc_rs.Common.{
  true, false, List, [], ◌∷◌, none, some, ◌⊎◌, inl, inr, Bool-cases, if◌then◌else◌,
}
use embedded_sdmmc_rs.Common.{length, take, drop, set, length-drop}
use embedded_sdmmc_rs.Common.Bytes.{byte, put_bytes}
use embedded_sdmmc_rs.Fat.OnDisk.{is_end, is_valid, matches}
use embedded_sdmmc_rs.Fat.Directory.{chunk}
use embedded_sdmmc_rs.Fat.Directory.Change.{free_slot, named_slot}
use embedded_sdmmc_rs.Filesystem.Filename.{ShortFileName}

drop-set_above : (k n : ℕ) (xs : List ℕ) (v : ℕ) → drop k (set xs (k + n) v) ≡ set (drop k xs) n v
drop-set_above zero n xs v = let e : 0 + n ≡ n = omega arith in ap (λ (i : ℕ). set xs i v) e
drop-set_above (suc k) n [] v = refl
drop-set_above (suc k) n (x ∷ xs) v =
    let e : suc k + n ≡ suc (k + n) = omega arith in
    ap (λ (i : ℕ). drop (suc k) (set (x ∷ xs) i v)) e ∙ drop-set_above k n xs v

drop-set_below : (k n : ℕ) (xs : List ℕ) (v : ℕ) → n < k → drop k (set xs n v) ≡ drop k xs
drop-set_below zero n xs v h = elim h [ ]
drop-set_below (suc k) n [] v h = refl
drop-set_below (suc k) zero (x ∷ xs) v h = refl
drop-set_below (suc k) (suc n) (x ∷ xs) v h = drop-set_below k n xs v (omega arith)

take-set : (m n : ℕ) (xs : List ℕ) (v : ℕ) → m ≤ n → take m (set xs n v) ≡ take m xs
take-set zero n xs v h = refl
take-set (suc m) n [] v h = refl
take-set (suc m) zero (x ∷ xs) v h = elim h [ ]
take-set (suc m) (suc n) (x ∷ xs) v h = ap (λ (t : List ℕ). x ∷ t) (take-set m n xs v (omega arith))

-- A write of one byte changes no other entry.
pub chunk-set :
    (j n : ℕ) (xs : List ℕ) (v : ℕ)
    → (n < j * 32) ⊎ (j * 32 + 32 ≤ n)
    → chunk j (set xs n v) ≡ chunk j xs
chunk-set j n xs v (inl below) = ap (take 32) (drop-set_below (j * 32) n xs v below)
chunk-set j n xs v (inr above) =
    let e : n ≡ j * 32 + (n - j * 32) = omega arith in
    ap (λ (i : ℕ). chunk j (set xs i v)) e
    ∙ ap (take 32) (drop-set_above (j * 32) (n - j * 32) xs v)
    ∙ take-set 32 (n - j * 32) (drop (j * 32) xs) v (omega arith)

-- A write inside entry `i` changes no other entry.
pub chunk-put_bytes_ne :
    (i j m : ℕ) (xs bs : List ℕ)
    → i ≢ j
    → m + length bs ≤ 32
    → chunk j (put_bytes xs (i * 32 + m) bs) ≡ chunk j xs
unfolding put_bytes
chunk-put_bytes_ne i j m xs [] ne h = refl
chunk-put_bytes_ne i j m xs (b ∷ bs) ne h =
    let e : i * 32 + m + 1 ≡ i * 32 + (m + 1) = omega arith in
    ap (λ (k : ℕ). chunk j (put_bytes (set xs (i * 32 + m) b) k bs)) e
    ∙ chunk-put_bytes_ne i j (m + 1) (set xs (i * 32 + m) b) bs ne (omega arith)
    ∙ chunk-set j (i * 32 + m) xs b (side i j m ne (omega arith))
  where
    side : (i j m : ℕ) → i ≢ j → m < 32 → (i * 32 + m < j * 32) ⊎ (j * 32 + 32 ≤ i * 32 + m)
    side i j m ne lt = elim (dec_le (suc i) j) [
      | yes le ↦ inl (omega arith)
      | no gt ↦ inr (omega arith)
    ]

drop-put_bytes :
    (k n : ℕ) (xs bs : List ℕ) → drop k (put_bytes xs (k + n) bs) ≡ put_bytes (drop k xs) n bs
unfolding put_bytes
drop-put_bytes k n xs [] = refl
drop-put_bytes k n xs (b ∷ bs) =
    let e : k + n + 1 ≡ k + (n + 1) = omega arith in
    ap (λ (i : ℕ). drop k (put_bytes (set xs (k + n) b) i bs)) e
    ∙ drop-put_bytes k (n + 1) (set xs (k + n) b) bs
    ∙ ap (λ (t : List ℕ). put_bytes t (n + 1) bs) (drop-set_above k n xs b)

put_bytes-cons : (n y : ℕ) (ys bs : List ℕ) → put_bytes (y ∷ ys) (n + 1) bs ≡ y ∷ put_bytes ys n bs
unfolding put_bytes
put_bytes-cons n y ys [] = refl
put_bytes-cons n y ys (b ∷ bs) =
    let e : n + 1 ≡ suc n = omega arith in
    ap (λ (k : ℕ). put_bytes (set (y ∷ ys) k b) (n + 1 + 1) bs) e
    ∙ put_bytes-cons (n + 1) y (set ys n b) bs

take-put_bytes :
    (ys bs : List ℕ) → length bs ≤ length ys → take (length bs) (put_bytes ys 0 bs) ≡ bs
unfolding put_bytes
take-put_bytes ys [] h = refl
take-put_bytes [] (b ∷ bs) h = elim h [ ]
take-put_bytes (y ∷ ys) (b ∷ bs) h =
    ap (take (suc (length bs))) (put_bytes-cons 0 b ys bs)
    ∙ ap (λ (t : List ℕ). b ∷ t) (take-put_bytes ys bs (omega arith))

-- The bytes that are written over entry `i` are entry `i` afterwards.
pub chunk-put_bytes :
    (i : ℕ) (xs bs : List ℕ)
    → length bs ≡ 32
    → i * 32 + 32 ≤ length xs
    → chunk i (put_bytes xs (i * 32) bs) ≡ bs
chunk-put_bytes i xs bs len fits =
    let z : i * 32 ≡ i * 32 + 0 = omega arith in
    ap (λ (k : ℕ). chunk i (put_bytes xs k bs)) z
    ∙ ap (take 32) (drop-put_bytes (i * 32) 0 xs bs)
    ∙ ap (λ (k : ℕ). take k (put_bytes (drop (i * 32) xs) 0 bs)) (sym len)
    ∙ take-put_bytes (drop (i * 32) xs) bs (omega (arith, length-drop (i * 32) xs))

-- A deleted entry is not valid, and is no end mark.
head-take : (ys : List ℕ) (v : ℕ) → 0 < length ys → byte (take 32 (set ys 0 v)) 0 ≡ v
head-take [] v h = elim h [ ]
head-take (y ∷ ys) v h = refl

pub deleted_entry :
    (i : ℕ) (xs : List ℕ)
    → i * 32 + 32 ≤ length xs
    → (is_valid (chunk i (set xs (i * 32) 0xE5)) ≡ false)
      × (is_end (chunk i (set xs (i * 32) 0xE5)) ≡ false)
unfolding is_valid is_end
deleted_entry i xs fits =
    let z : i * 32 ≡ i * 32 + 0 = omega arith in
    let e : byte (chunk i (set xs (i * 32) 0xE5)) 0 ≡ 0xE5 =
      ap (λ (k : ℕ). byte (chunk i (set xs k 0xE5)) 0) z
      ∙ ap (λ (t : List ℕ). byte (take 32 t) 0) (drop-set_above (i * 32) 0 xs 0xE5)
      ∙ head-take (drop (i * 32) xs) 0xE5 (omega (arith, length-drop (i * 32) xs)) in
    rw e (refl, refl)

pub slot_side : (i j : ℕ) → i ≢ j → (i * 32 < j * 32) ⊎ (j * 32 + 32 ≤ i * 32)
slot_side i j ne = elim (dec_le (suc i) j) [
  | yes le ↦ inl (omega arith)
  | no gt ↦ inr (omega arith)
]

-- The slot that is chosen for a name holds the name.
pub named_slot-first :
    (n i s : ℕ) (name : ShortFileName) (block : List ℕ)
    → named_slot n i name block ≡ some s
    → (i ≤ s) × (s < i + n) × (matches (chunk s block) name ≡ true)
unfolding named_slot
named_slot-first zero i s name block e = cc
named_slot-first (suc n) i s name block e = elim (Bool-cases (is_end (chunk i block))) [
  | inl ends ↦ let none_here : none ≡ some s = rw (ends, if◌then◌else◌) at e in cc
  | inr goes_on ↦
      let e1 = rw (goes_on, if◌then◌else◌) at e in
      elim (Bool-cases (matches (chunk i block) name)) [
        | inl hit ↦
            let here : some i ≡ some s = rw (hit, if◌then◌else◌) at e1 in
            let q : i ≡ s = cc in
            (
              omega (arith, q),
              omega (arith, q),
              subst (λ (k : ℕ). matches (chunk k block) name ≡ true) q hit,
            )
        | inr miss ↦
            let later = named_slot-first n (i + 1) s name block (rw (miss, if◌then◌else◌) at e1) in
            (omega (arith, later.0), omega (arith, later.1), later.2)
      ]
]

-- The first slot that is not in use is the one that is chosen.
pub free_slot-some :
    (n i s : ℕ) (block : List ℕ)
    → i ≤ s
    → s < i + n
    → ((j : ℕ) → i ≤ j → j < s → is_valid (chunk j block) ≡ true)
    → is_valid (chunk s block) ≡ false
    → free_slot n i block ≡ some s
unfolding free_slot
free_slot-some zero i s block low high used free = absurd (omega arith)
free_slot-some (suc n) i s block low high used free = elim (dec_le (suc i) s) [
  | yes later ↦
      rw (used i (omega arith) later, if◌then◌else◌)
        (free_slot-some n (i + 1) s block (omega arith) (omega arith)
          (λ j a b. used j (omega arith) b) free)
  | no here ↦
      let q : i ≡ s = omega arith in
      rw (subst (λ (k : ℕ). is_valid (chunk k block) ≡ false) (sym q) free, if◌then◌else◌)
        (ap some q)
]

-- No slot is chosen for a name that none of the entries before `stop` has, if `stop` is the block's
-- end or an end mark.
pub named_slot-none :
    (n i stop : ℕ) (name : ShortFileName) (block : List ℕ)
    → i ≤ stop
    → stop ≤ i + n
    → ((j : ℕ) → i ≤ j → j < stop → matches (chunk j block) name ≡ false)
    → (stop ≡ i + n) ⊎ (is_end (chunk stop block) ≡ true)
    → named_slot n i name block ≡ none
unfolding named_slot
named_slot-none zero i stop name block low high other last = refl
named_slot-none (suc n) i stop name block low high other last =
    elim (Bool-cases (is_end (chunk i block))) [
      | inl ends ↦ rw (ends, if◌then◌else◌) refl
      | inr goes_on ↦ elim (dec_le (suc i) stop) [
        | yes later ↦
            rw (goes_on, other i (omega arith) later, if◌then◌else◌)
              (named_slot-none n (i + 1) stop name block (omega arith) (omega arith)
                (λ j a b. other j (omega arith) b) (shifted last))
        | no here ↦ elim last [
          | inl e ↦ absurd (omega (arith, e))
          | inr ends ↦
              let q : stop ≡ i = omega arith in
              let both : true ≡ false =
                sym (subst (λ (k : ℕ). is_end (chunk k block) ≡ true) q ends) ∙ goes_on in
              cc
        ]
      ]
    ]
  where
    shifted :
        (stop ≡ i + suc n) ⊎ (is_end (chunk stop block) ≡ true)
        → (stop ≡ i + 1 + n) ⊎ (is_end (chunk stop block) ≡ true)
    shifted (inl e) = inl (omega (arith, e))
    shifted (inr ends) = inr ends
