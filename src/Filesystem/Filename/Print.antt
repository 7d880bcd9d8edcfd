-- ===== src/Filesystem/Filename/Print.antt =====
-- The printed form of a short name, and that it is read back as the same name.
use embedded_sdmmc_rs.Common.{
  ℕ, zero, suc, ◌+◌, ◌-◌, ◌≤◌, ◌<◌, ◌≡◌, ◌≢◌, refl, ◌∙◌, ap, ap₂, subst, arith,
}
use embedded_sdmmc_rs.Common.{false, List, [], ◌∷◌, ◌++◌, ◌⊎◌, inl, inr, Bool-cases}
use embedded_sdmmc_rs.Common.{◌==◌, if◌then◌else◌, replicate, length, ==_ne, ==_iff}
use embedded_sdmmc_rs.Filesystem.Filename.{
  space, dot, is_invalid, contains_char, create_from_str, print, print_from,
}
use embedded_sdmmc_rs.Filesystem.Filename.Parse.{
  IsPart, padded, upper, append_assoc, append_nil, create_from_str-base, create_from_str_lem,
}

-- the printed form of an extension: nothing if it is empty
abbrev pub suffix : List ℕ → List ℕ
suffix [] = []
suffix (c ∷ cs) = dot ∷ c ∷ cs

invalid_space : is_invalid space ≢ false
unfolding is_invalid contains_char
invalid_space x = cc

not_space : (c : ℕ) → is_invalid c ≡ false → (c == space) ≡ false
not_space c h = elim (Bool-cases (c == space)) [
  | inl is_space ↦
      let e : c ≡ space = (==_iff c space).0 is_space in
      absurd (invalid_space (subst (λ (x : ℕ). is_invalid x ≡ false) e h))
  | inr other ↦ other
]

-- A part is printed as it is, before the extension or inside it.
print-part :
    (i : ℕ) (cs rest : List ℕ)
    → IsPart cs
    → (i + length cs ≤ 8) ⊎ (8 < i)
    → print_from i (cs ++ rest) ≡ cs ++ print_from (i + length cs) rest
unfolding print_from
print-part i [] rest h w = ap (λ (k : ℕ). print_from k rest) (omega arith)
print-part i (c ∷ cs) rest h w =
    rw (not_space c h.0, if◌then◌else◌)
      (rw (==_ne i 8 (away w), if◌then◌else◌)
        (ap (λ (t : List ℕ). c ∷ t)
          (print-part (i + 1) cs rest h.2 (next w)
            ∙ ap (λ (k : ℕ). cs ++ print_from k rest) (omega arith))))
  where
    away : (i + length (c ∷ cs) ≤ 8) ⊎ (8 < i) → i ≢ 8
    away (inl le) e = omega arith
    away (inr lt) e = omega arith

    next : (i + length (c ∷ cs) ≤ 8) ⊎ (8 < i) → (i + 1 + length cs ≤ 8) ⊎ (8 < i + 1)
    next (inl le) = inl (omega arith)
    next (inr lt) = inr (omega arith)

print-spaces :
    (i n : ℕ) (rest : List ℕ) → print_from i (replicate n space ++ rest) ≡ print_from (i + n) rest
unfolding print_from
print-spaces i zero rest = ap (λ (k : ℕ). print_from k rest) (omega arith)
print-spaces i (suc n) rest =
    print-spaces (i + 1) n rest ∙ ap (λ (k : ℕ). print_from k rest) (omega arith)

print-end : (i n : ℕ) → print_from i (replicate n space) ≡ []
unfolding print_from
print-end i zero = refl
print-end i (suc n) = print-end (i + 1) n

print-extension : (e : List ℕ) (n : ℕ) → IsPart e → print_from 8 (e ++ replicate n space) ≡ suffix e
unfolding print_from
print-extension [] n h = print-end 8 n
print-extension (c ∷ cs) n h =
    rw (not_space c h.0, if◌then◌else◌)
      (ap (λ (t : List ℕ). dot ∷ c ∷ t)
        (print-part 9 cs (replicate n space) h.2 (inr (omega arith))
          ∙ ap (λ (t : List ℕ). cs ++ t) (print-end (9 + length cs) n)
          ∙ append_nil cs))

-- What is printed of a padded name is its base part and, after a dot, its extension if it has one.
pub print-padded :
    (b e : List ℕ)
    → IsPart b
    → IsPart e
    → length b ≤ 8
    → print (padded 8 b ++ padded 3 e) ≡ b ++ suffix e
unfolding print
print-padded b e hb he high =
    let k = 8 - length b in
    ap (print_from 0) (append_assoc b (replicate k space) (padded 3 e))
    ∙ print-part 0 b (replicate k space ++ padded 3 e) hb (inl (omega arith))
    ∙ ap (λ (t : List ℕ). b ++ t)
        (print-spaces (0 + length b) k (padded 3 e)
          ∙ ap (λ (i : ℕ). print_from i (padded 3 e)) (omega arith)
          ∙ print-extension e (3 - length e) he)

-- A name with a base part and an extension, which may be empty, both in upper case: what is
-- printed of it is parsed as the same name.
pub create_from_str-print :
    (b e : List ℕ)
    → IsPart b
    → IsPart e
    → 1 ≤ length b
    → length b ≤ 8
    → length e ≤ 3
    → upper b ≡ b
    → upper e ≡ e
    → create_from_str (print (padded 8 b ++ padded 3 e)) ≡ inr (padded 8 b ++ padded 3 e)
create_from_str-print b [] hb he low high short ub ue =
    ap create_from_str (print-padded b [] hb he high ∙ append_nil b)
    ∙ create_from_str-base b hb low high
    ∙ ap (λ (t : List ℕ). inr (padded 8 t ++ padded 3 [])) ub
create_from_str-print b (c ∷ cs) hb he low high short ub ue =
    ap create_from_str (print-padded b (c ∷ cs) hb he high)
    ∙ create_from_str_lem b (c ∷ cs) hb he low high short
    ∙ ap₂ (λ (t u : List ℕ). inr (padded 8 t ++ padded 3 u)) ub ue
