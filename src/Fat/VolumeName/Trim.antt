-- ===== src/Fat/VolumeName/Trim.antt =====
-- Which labels `create_from_str` makes, and what `name` gives of them.
use embedded_sdmmc_rs.Common.{
  ℕ, zero, suc, ◌+◌, ◌-◌, ◌<◌, ◌≤◌, ◌≡◌, refl, ap, ap₂, sym, ◌∙◌, arith, false, List, [], ◌∷◌, ◌++◌,
  inr,
}
use embedded_sdmmc_rs.Common.{
  lt→ltb, if◌then◌else◌, length, replicate, set, length-append, length-replicate, ==_ne,
}
use embedded_sdmmc_rs.Fat.VolumeName.{
  name, is_ascii_whitespace, is_reserved, fill_name, create_from_str, finish_name,
}

-- No character is reserved.
abbrev pub IsAllowed : List ℕ → Type 0
IsAllowed [] = Unit
IsAllowed (c ∷ cs) = (is_reserved c ≡ false) × IsAllowed cs

-- The last character, if there is one, is no whitespace.
abbrev pub IsTrimmed : List ℕ → Type 0
IsTrimmed [] = Unit
IsTrimmed (c ∷ []) = is_ascii_whitespace c ≡ false
IsTrimmed (c ∷ d ∷ cs) = IsTrimmed (d ∷ cs)

append_assoc : (xs : List ℕ) (c : ℕ) (ys : List ℕ) → (xs ++ (c ∷ [])) ++ ys ≡ xs ++ (c ∷ ys)
append_assoc [] c ys = refl
append_assoc (x ∷ xs) c ys = ap (λ (t : List ℕ). x ∷ t) (append_assoc xs c ys)

set-length : (xs ys : List ℕ) (y c : ℕ) → set (xs ++ (y ∷ ys)) (length xs) c ≡ xs ++ (c ∷ ys)
set-length [] ys y c = refl
set-length (x ∷ xs) ys y c = ap (λ (t : List ℕ). x ∷ t) (set-length xs ys y c)

append_nil : (xs : List ℕ) → xs ++ [] ≡ xs
append_nil [] = refl
append_nil (x ∷ xs) = ap (λ (t : List ℕ). x ∷ t) (append_nil xs)

-- The loop puts the characters after those that are there, over the spaces.
fill_name-allowed :
    (cs xs : List ℕ) (room k : ℕ)
    → length xs + room ≡ 11
    → room ≡ length cs + k
    → IsAllowed cs
    → fill_name cs (length xs) (xs ++ replicate room 32)
      ≡ inr ((xs ++ cs) ++ replicate k 32, length xs + length cs)
unfolding fill_name
fill_name-allowed [] xs room k full fits ok =
    ap₂ (λ (t : List ℕ) n. inr (t, n))
      (ap₂ (λ (a : List ℕ) m. a ++ replicate m 32) (sym (append_nil xs)) (omega arith))
      (omega arith)
fill_name-allowed (c ∷ cs) xs zero k full fits ok = absurd (omega arith)
fill_name-allowed (c ∷ cs) xs (suc room) k full fits ok =
    rw (ok.0, lt→ltb (length xs) 11 (omega arith), if◌then◌else◌)
      (ap₂ (λ (t : List ℕ) n. fill_name cs n t)
          (set-length xs (replicate room 32) 32 c ∙ sym (append_assoc xs c (replicate room 32)))
          (sym (length-append xs (c ∷ [])))
        ∙ fill_name-allowed cs (xs ++ (c ∷ [])) room k (omega (arith, length-append xs (c ∷ [])))
            (omega arith) ok.1
        ∙ ap₂ (λ (t : List ℕ) n. inr (t, n))
            (ap (λ (t : List ℕ). t ++ replicate k 32) (append_assoc xs c cs))
            (omega (arith, length-append xs (c ∷ []))))

name-spaces : (n : ℕ) → name (replicate n 32) ≡ []
unfolding name is_ascii_whitespace
name-spaces zero = refl
name-spaces (suc n) = rw (name-spaces n, name) refl

name-trimmed : (cs : List ℕ) (n : ℕ) → IsTrimmed cs → name (cs ++ replicate n 32) ≡ cs
unfolding name
name-trimmed [] n t = name-spaces n
name-trimmed (c ∷ []) n t = rw (name-spaces n, name) (rw (t, if◌then◌else◌) refl)
name-trimmed (c ∷ d ∷ cs) n t = rw (name-trimmed (d ∷ cs) n t, name) refl

-- A label of one to eleven characters, none of them reserved, of which the last is no whitespace,
-- is accepted, and `name` gives it back.
pub name-create_from_str :
    (cs : List ℕ)
    → 0 < length cs
    → length cs ≤ 11
    → IsAllowed cs
    → IsTrimmed cs
    → (label : List ℕ) × (create_from_str cs ≡ inr label) × (length label ≡ 11) × (name label ≡ cs)
unfolding create_from_str
name-create_from_str cs some_char short allowed trimmed =
    let k = 11 - length cs in
    (
      cs ++ replicate k 32,
      ap finish_name (fill_name-allowed cs [] 11 k refl (omega arith) allowed)
          ∙ rw (==_ne (0 + length cs) 0 (omega arith), if◌then◌else◌) refl,
      omega (arith, length-append cs (replicate k 32), length-replicate {A = ℕ} k 32),
      name-trimmed cs k trimmed,
    )
