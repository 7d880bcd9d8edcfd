-- ===== src/Filesystem/Filename/Parse.antt =====
-- What the parser of short names makes of a string, and that it reads what `Display` prints.
use embedded_sdmmc_rs.Common.{
  ℕ, zero, suc, ◌+◌, ◌-◌, ◌≤◌, ◌<◌, ◌≡◌, refl, ◌∙◌, ap, ap₂, sym, subst, arith,
}
use embedded_sdmmc_rs.Common.{Bool, true, false, List, [], ◌∷◌, ◌++◌, map, inr}
use embedded_sdmmc_rs.Common.{leb, ◌==◌, if◌then◌else◌, ◌&&◌, replicate, set, length}
use embedded_sdmmc_rs.Common.{==_ne, lt→ltb, length-append, length-replicate}
use embedded_sdmmc_rs.Filesystem.Filename.{
  Building, space, dot, base_len, total_len, is_invalid, to_ascii_uppercase, step, steps, then_rest,
  put_char, blank_name, special, finish, create_from_str, contains_char,
}

-- The string can stand for a part of a name: no character is refused, and none is a dot.
abbrev pub IsPart : List ℕ → Type 0
IsPart [] = Unit
IsPart (c ∷ cs) = (is_invalid c ≡ false) × ((c == dot) ≡ false) × IsPart cs

-- the string padded with spaces to `n` bytes
abbrev pub padded : ℕ → List ℕ → List ℕ
padded n s = s ++ replicate (n - length s) space

-- the bytes of a name are those of the string in upper case
abbrev pub upper : List ℕ → List ℕ
upper = map to_ascii_uppercase

set-append :
    (xs : List ℕ) (n c : ℕ)
    → set (xs ++ replicate (suc n) space) (length xs) c ≡ (xs ++ (c ∷ [])) ++ replicate n space
set-append [] n c = refl
set-append (x ∷ xs) n c = ap (λ (t : List ℕ). x ∷ t) (set-append xs n c)

-- the last place of a part, by whether the dot was seen
abbrev limit : Bool → ℕ
limit false = base_len
limit true = total_len

-- the byte `b` is stored at the next place
abbrev stored : ℕ → Building → Building
stored b s = record s { contents = set s.contents s.idx b; idx = s.idx + 1 }

-- A part starts where the dot put it.
abbrev IsLow : Bool → ℕ → Type 0
IsLow false idx = Unit
IsLow true idx = base_len ≤ idx

put_char-stored :
    (b : ℕ) (contents : List ℕ) (idx : ℕ) (dotted : Bool)
    → idx < limit dotted
    → IsLow dotted idx
    → let s : Building = record { contents = contents; idx = idx; seen_dot = dotted } in
      put_char b s ≡ inr (stored b s)
unfolding put_char
put_char-stored b contents idx false lt low = rw (lt→ltb idx 8 lt, if◌then◌else◌) refl
put_char-stored b contents idx true lt low =
    let le : leb 8 idx ≡ true = ground (arith, low) in
    rw (le, ◌&&◌) (rw (lt→ltb idx 11 lt, if◌then◌else◌) refl)

step-stored :
    (c : ℕ) (s : Building)
    → is_invalid c ≡ false
    → (c == dot) ≡ false
    → s.idx < limit s.seen_dot
    → IsLow s.seen_dot s.idx
    → step c s ≡ inr (stored (to_ascii_uppercase c) s)
unfolding step
step-stored c s ok nd lt low =
    rw (ok, nd) (put_char-stored (to_ascii_uppercase c) s.contents s.idx s.seen_dot lt low)

IsLow-next : (dotted : Bool) (idx : ℕ) → IsLow dotted idx → IsLow dotted (idx + 1)
IsLow-next false idx h = tt
IsLow-next true idx h = omega (arith, h)

-- the loop's state after the bytes `xs`, with room for `n` more
abbrev filled : Bool → List ℕ → ℕ → Building
filled dotted xs n = record {
  contents = xs ++ replicate n space;
  idx = length xs;
  seen_dot = dotted;
}

length-snoc : (xs : List ℕ) (c : ℕ) → length (xs ++ (c ∷ [])) ≡ length xs + 1
length-snoc xs c = omega (arith, length-append xs (c ∷ []))

filled-next :
    (dotted : Bool) (xs : List ℕ) (n b : ℕ)
    → stored b (filled dotted xs (suc n)) ≡ filled dotted (xs ++ (b ∷ [])) n
filled-next dotted xs n b =
    ap₂ (λ (t : List ℕ) (i : ℕ). record { contents = t; idx = i; seen_dot = dotted })
      (set-append xs n b) (sym (length-snoc xs b))

append-snoc : (xs : List ℕ) (b : ℕ) (ys : List ℕ) → (xs ++ (b ∷ [])) ++ ys ≡ xs ++ (b ∷ ys)
append-snoc [] b ys = refl
append-snoc (x ∷ xs) b ys = ap (λ (t : List ℕ). x ∷ t) (append-snoc xs b ys)

pub append_nil : (xs : List ℕ) → xs ++ [] ≡ xs
append_nil [] = refl
append_nil (x ∷ xs) = ap (λ (t : List ℕ). x ∷ t) (append_nil xs)

-- The loop stores a part that fits.
steps-part :
    (dotted : Bool) (cs rest xs : List ℕ) (n : ℕ)
    → IsPart cs
    → length cs ≤ n
    → length xs + length cs ≤ limit dotted
    → IsLow dotted (length xs)
    → steps (cs ++ rest) (filled dotted xs n)
      ≡ steps rest (filled dotted (xs ++ upper cs) (n - length cs))
unfolding steps
steps-part dotted [] rest xs n h le fits low =
    ap₂ (λ (t : List ℕ) (k : ℕ). steps rest (filled dotted t k)) (sym (append_nil xs)) (omega arith)
steps-part dotted (c ∷ cs) rest xs zero h le fits low = elim le [ ]
steps-part dotted (c ∷ cs) rest xs (suc n) h le fits low =
    let b = to_ascii_uppercase c in
    rw (step-stored c (filled dotted xs (suc n)) h.0 h.1 (omega arith) low, then_rest)
      (ap (λ s. steps (cs ++ rest) s) (filled-next dotted xs n b)
        ∙ steps-part dotted cs rest (xs ++ (b ∷ [])) n h.2 (omega arith)
            (omega (arith, length-snoc xs b))
            (subst (IsLow dotted) (sym (length-snoc xs b)) (IsLow-next dotted (length xs) low))
        ∙ ap₂ (λ (t : List ℕ) (k : ℕ). steps rest (filled dotted t k)) (append-snoc xs b (upper cs))
            (omega arith))

replicate-add : (n m : ℕ) → replicate (n + m) space ≡ replicate n space ++ replicate m space
replicate-add zero m = ap (λ (k : ℕ). replicate k space) (omega arith)
replicate-add (suc n) m =
    let e : suc n + m ≡ suc (n + m) = omega arith in
    rw e (ap (λ (t : List ℕ). space ∷ t) (replicate-add n m))

pub append_assoc : (xs ys zs : List ℕ) → (xs ++ ys) ++ zs ≡ xs ++ (ys ++ zs)
append_assoc [] ys zs = refl
append_assoc (x ∷ xs) ys zs = ap (λ (t : List ℕ). x ∷ t) (append_assoc xs ys zs)

length-padded : (n : ℕ) (xs : List ℕ) → length xs ≤ n → length (padded n xs) ≡ n
length-padded n xs h = omega (
  arith,
  length-append xs (replicate (n - length xs) space),
  length-replicate (n - length xs) space,
)

length-upper : (xs : List ℕ) → length (upper xs) ≡ length xs
length-upper [] = refl
length-upper (x ∷ xs) = ap suc (length-upper xs)

-- the spaces after a base part are those of its padding, and those of the extension
padded-spaces :
    (xs : List ℕ)
    → length xs ≤ 8
    → xs ++ replicate (11 - length xs) space ≡ padded 8 xs ++ replicate 3 space
padded-spaces xs h =
    let e : 11 - length xs ≡ 8 - length xs + 3 = omega arith in
    ap (λ (k : ℕ). xs ++ replicate k space) e
    ∙ ap (λ (t : List ℕ). xs ++ t) (replicate-add (8 - length xs) 3)
    ∙ sym (append_assoc xs (replicate (8 - length xs) space) (replicate 3 space))

-- A dot after the base part moves on to the extension.
step-dot :
    (xs : List ℕ)
    → 1 ≤ length xs
    → length xs ≤ 8
    → step dot (filled false xs (11 - length xs)) ≡ inr (filled true (padded 8 xs) 3)
unfolding step is_invalid contains_char
step-dot xs low high =
    let a : leb 1 (length xs) ≡ true = ground arith in
    let b : leb (length xs) 8 ≡ true = ground arith in
    rw (a, ◌&&◌)
      (rw (b, if◌then◌else◌)
        (ap inr (
          ap₂ (λ (t : List ℕ) (i : ℕ). record { contents = t; idx = i; seen_dot = true })
            (padded-spaces xs high) (sym (length-padded 8 xs high)))))

special-part : (c : ℕ) (cs : List ℕ) → (c == dot) ≡ false → (special (c ∷ cs)).0 ≡ false
unfolding special
special-part c [] h = h
special-part c (d ∷ []) h = rw h refl
special-part c (d ∷ e ∷ cs) h = refl

not_special :
    (b rest : List ℕ)
    → IsPart b
    → 1 ≤ length b
    → create_from_str (b ++ rest) ≡ finish (steps (b ++ rest) blank_name)
unfolding create_from_str
not_special [] rest h low = absurd (omega arith)
not_special (c ∷ cs) rest h low = rw (special-part c (cs ++ rest) h.1, if◌then◌else◌) refl

finish-filled :
    (dotted : Bool) (xs : List ℕ) (n : ℕ)
    → 1 ≤ length xs
    → finish (inr (filled dotted xs n)) ≡ inr (xs ++ replicate n space)
unfolding finish
finish-filled dotted xs n h = rw (==_ne (length xs) 0 (omega arith)) refl

-- A name of one part, of at most eight characters, is stored in upper case and padded.
pub create_from_str-base :
    (b : List ℕ)
    → IsPart b
    → 1 ≤ length b
    → length b ≤ 8
    → create_from_str b ≡ inr (padded 8 (upper b) ++ replicate 3 space)
unfolding steps
create_from_str-base b h low high =
    let up = upper b in
    let e : 11 - length b ≡ 11 - length up = omega (arith, length-upper b) in
    ap create_from_str (sym (append_nil b))
    ∙ not_special b [] h low
    ∙ ap finish (steps-part false b [] [] 11 h (omega arith) (omega arith) tt)
    ∙ ap (λ (k : ℕ). finish (inr (filled false up k))) e
    ∙ finish-filled false up (11 - length up) (omega (arith, length-upper b))
    ∙ ap inr (padded-spaces up (omega (arith, length-upper b)))

-- A name with a dot after one to eight characters, and at most three characters after the dot,
-- is stored in upper case, each part padded with spaces.
pub create_from_str_lem :
    (b e : List ℕ)
    → IsPart b
    → IsPart e
    → 1 ≤ length b
    → length b ≤ 8
    → length e ≤ 3
    → create_from_str (b ++ (dot ∷ e)) ≡ inr (padded 8 (upper b) ++ padded 3 (upper e))
unfolding steps
create_from_str_lem b e hb he low high short =
    let up = upper b in
    let ue = upper e in
    let k : 11 - length b ≡ 11 - length up = omega (arith, length-upper b) in
    let m : 3 - length e ≡ 3 - length ue = omega (arith, length-upper e) in
    let len = length-padded 8 up (omega (arith, length-upper b)) in
    not_special b (dot ∷ e) hb low
    ∙ ap finish (
        steps-part false b (dot ∷ e) [] 11 hb (omega arith) (omega arith) tt
        ∙ ap (λ (k : ℕ). steps (dot ∷ e) (filled false up k)) k
        ∙ ap (then_rest (steps e))
            (step-dot up (omega (arith, length-upper b)) (omega (arith, length-upper b)))
        ∙ ap (λ (t : List ℕ). steps t (filled true (padded 8 up) 3)) (sym (append_nil e))
        ∙ steps-part true e [] (padded 8 up) 3 he short (omega (arith, len)) (omega (arith, len))
        ∙ ap (λ (k : ℕ). inr (filled true (padded 8 up ++ ue) k)) m)
    ∙ finish-filled true (padded 8 up ++ ue) (3 - length ue)
        (omega (arith, len, length-append (padded 8 up) ue))
    ∙ ap inr (append_assoc (padded 8 up) ue (replicate (3 - length ue) space))
