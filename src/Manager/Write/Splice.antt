-- ===== src/Manager/Write/Splice.antt =====
-- What a file's bytes are once some were written, as a function of the offset, and the chain of
-- clusters once a block was written.
use embedded_sdmmc_rs.Common.{
  ℕ, zero, suc, ◌+◌, ◌-◌, ◌/◌, ◌%◌, ◌≤◌, ◌<◌, ◌≡◌, ◌≢◌, refl, ap, sym, ◌∙◌, arith, Bool, true,
  false, List, [], ◌∷◌, inl, inr,
}
use embedded_sdmmc_rs.Common.{
  ltb, leb, ltb→lt, ltb→le, ==_ne, ◌&&◌, if◌then◌else◌, length, length-take, length-drop, take,
  drop, get_or, Bool-cases,
}
use embedded_sdmmc_rs.Common.Bytes.{
  put_bytes, byte, byte-put_bytes_below, byte-put_bytes_above, byte-put_bytes_self,
}
use embedded_sdmmc_rs.Cache.View.{Blocks, put_block}
use embedded_sdmmc_rs.Filesystem.Cluster.{ClusterId}
use embedded_sdmmc_rs.Fat.Volume.{FatVolume}
use embedded_sdmmc_rs.Fat.Table.Spec.{entry_block, InTable, decode, entry, entry_in}
use embedded_sdmmc_rs.Fat.Alloc.Chain.{IsChain}
use embedded_sdmmc_rs.Manager.Transfer.Locate.{location}

-- The blocks of a file up to an offset are all different, and none has entries of the table.
pub record IsApart (v : FatVolume) (c : ClusterId) (ns : List ClusterId) (limit : ℕ) : Type 0 where
  pub different :
      (o p : ℕ)
      → o < limit
      → p < limit
      → (location v c ns o).block_idx ≡ (location v c ns p).block_idx
      → o / 512 ≡ p / 512
  pub outside :
      (o x : ℕ)
      → o < limit
      → InTable v v.fat_specific_info x
      → (location v c ns o).block_idx
        ≢ entry_block (v.lba_start + v.fat_start) v.fat_specific_info x

pub put_block-other : (d : Blocks) (i j : ℕ) (b : List ℕ) → i ≢ j → put_block d i b j ≡ d j
put_block-other d i j b ne = ap (λ (x : Bool). if x then b else d j) (==_ne i j ne)

entry-put_block :
    (v : FatVolume) (d : Blocks) (i : ℕ) (b : List ℕ) (c : ClusterId)
    → i ≢ entry_block (v.lba_start + v.fat_start) v.fat_specific_info c
    → decode v.fat_specific_info (entry v v.fat_specific_info (put_block d i b) c)
      ≡ decode v.fat_specific_info (entry v v.fat_specific_info d c)
entry-put_block v d i b c ne =
    let info = v.fat_specific_info in
    ap (λ (b : List ℕ). decode info (entry_in info b c))
      (put_block-other d i (entry_block (v.lba_start + v.fat_start) info c) b ne)

-- A write that is not into the table leaves a chain as it is.
pub IsChain-put_block :
    (v : FatVolume) (d : Blocks) (i : ℕ) (b : List ℕ) (c : ClusterId) (ns : List ClusterId)
    → ((x : ℕ)
        → InTable v v.fat_specific_info x
        → i ≢ entry_block (v.lba_start + v.fat_start) v.fat_specific_info x)
    → IsChain v d c ns
    → IsChain v (put_block d i b) c ns
IsChain-put_block v d i b c [] out h = (h.0, entry-put_block v d i b c (out c h.0) ∙ h.1)
IsChain-put_block v d i b c (n ∷ ns) out h =
    (h.0, entry-put_block v d i b c (out c h.0) ∙ h.1, h.2, IsChain-put_block v d i b n ns out h.3)

-- The byte of the file at an offset, once the bytes of a list were written from `o` on.
abbrev pub byte_after : (ℕ → ℕ) → ℕ → List ℕ → ℕ → ℕ
byte_after before o bytes p =
    if leb o p && ltb p (o + length bytes) then get_or bytes (p - o) 0 else before p

in_range : (o p q : ℕ) → o ≤ p → p < q → (leb o p && ltb p q) ≡ true
in_range o p q h k = ground arith

before_range : (o p q : ℕ) → p < o → (leb o p && ltb p q) ≡ false
before_range o p q h = ground arith

after_range : (o p q : ℕ) → q ≤ p → (leb o p && ltb p q) ≡ false
after_range o p q h = ground arith

get_or-take : (n k : ℕ) (xs : List ℕ) → k < n → get_or (take n xs) k 0 ≡ get_or xs k 0
get_or-take zero k xs lt = absurd (omega arith)
get_or-take (suc n) k [] lt = refl
get_or-take (suc n) zero (x ∷ xs) lt = refl
get_or-take (suc n) (suc k) (x ∷ xs) lt = get_or-take n k xs (omega arith)

get_or-drop : (n k : ℕ) (xs : List ℕ) → get_or (drop n xs) k 0 ≡ get_or xs (n + k) 0
get_or-drop zero k xs = ap (λ j. get_or xs j 0) (omega arith)
get_or-drop (suc n) k [] = refl
get_or-drop (suc n) k (x ∷ xs) = get_or-drop n k xs ∙ ap (λ j. get_or (x ∷ xs) j 0) (suc_add n k)
  where
    suc_add : (a b : ℕ) → suc (a + b) ≡ suc a + b
    suc_add a b = omega arith

module _ (g : ℕ → ℕ) (o : ℕ) (bytes : List ℕ) (p : ℕ) where
  pub byte_after-in : o ≤ p → p < o + length bytes → byte_after g o bytes p ≡ get_or bytes (p - o) 0
  byte_after-in le lt =
      ap (λ (x : Bool). if x then get_or bytes (p - o) 0 else g p)
        (in_range o p (o + length bytes) le lt)

  pub byte_after-before : p < o → byte_after g o bytes p ≡ g p
  byte_after-before lt =
      ap (λ (x : Bool). if x then get_or bytes (p - o) 0 else g p)
        (before_range o p (o + length bytes) lt)

  pub byte_after-past : o + length bytes ≤ p → byte_after g o bytes p ≡ g p
  byte_after-past le =
      ap (λ (x : Bool). if x then get_or bytes (p - o) 0 else g p)
        (after_range o p (o + length bytes) le)

pub nothing_after :
    (g : ℕ → ℕ) (o : ℕ) (bytes : List ℕ) (p : ℕ) → length bytes ≡ 0 → byte_after g o bytes p ≡ g p
nothing_after g o bytes p empty = elim (Bool-cases (ltb p o)) [
  | inl before ↦ byte_after-before g o bytes p (ltb→lt p o before)
  | inr after ↦ let le = ltb→le p o after in byte_after-past g o bytes p (omega (arith, empty))
]

-- Writing the rest after a part is writing all.
pub byte_after-drop :
    (g : ℕ → ℕ) (o n : ℕ) (rest : List ℕ) (p : ℕ)
    → n ≤ length rest
    → byte_after (byte_after g o (take n rest)) (o + n) (drop n rest) p ≡ byte_after g o rest p
byte_after-drop g o n rest p le =
    let first = take n rest in
    let second = drop n rest in
    let taken : length first ≡ n = omega (arith, length-take n rest) in
    let dropped : length second ≡ length rest - n = length-drop n rest in
    let middle = byte_after g o first in
    elim (Bool-cases (ltb p (o + n))) [
      | inl low ↦
          let lt = ltb→lt p (o + n) low in
          byte_after-before middle (o + n) second p lt ∙ elim (Bool-cases (ltb p o)) [
            | inl before ↦
                let lt' = ltb→lt p o before in
                byte_after-before g o first p lt' ∙ sym (byte_after-before g o rest p lt')
            | inr inside ↦
                let le' = ltb→le p o inside in
                byte_after-in g o first p le' (omega (arith, taken))
                ∙ get_or-take n (p - o) rest (omega arith)
                ∙ sym (byte_after-in g o rest p le' (omega arith))
          ]
      | inr high ↦
          let ge = ltb→le p (o + n) high in
          elim (Bool-cases (ltb p (o + length rest))) [
            | inl inside ↦
                let lt = ltb→lt p (o + length rest) inside in
                byte_after-in middle (o + n) second p ge (omega (arith, dropped))
                ∙ get_or-drop n (p - (o + n)) rest
                ∙ ap (λ k. get_or rest k 0) (omega arith)
                ∙ sym (byte_after-in g o rest p (omega arith) lt)
            | inr past ↦
                let le' = ltb→le p (o + length rest) past in
                byte_after-past middle (o + n) second p (omega (arith, dropped))
                ∙ byte_after-past g o first p (omega (arith, taken))
                ∙ sym (byte_after-past g o rest p le')
          ]
    ]

-- A byte of the block that the bytes were put into.
pub byte-in_block :
    (b : List ℕ) (o p : ℕ) (xs : List ℕ) (g : ℕ → ℕ)
    → length b ≡ 512
    → o % 512 + length xs ≤ 512
    → o / 512 ≡ p / 512
    → byte b (p % 512) ≡ g p
    → byte (put_bytes b (o % 512) xs) (p % 512) ≡ byte_after g o xs p
byte-in_block b o p xs g full fits same at = elim (Bool-cases (ltb p o)) [
  | inl before ↦
      let lt = ltb→lt p o before in
      byte-put_bytes_below xs b (o % 512) (p % 512) (omega arith)
      ∙ at
      ∙ sym (byte_after-before g o xs p lt)
  | inr after ↦
      let le = ltb→le p o after in
      elim (Bool-cases (ltb p (o + length xs))) [
        | inl inside ↦
            let lt = ltb→lt p (o + length xs) inside in
            ap (byte (put_bytes b (o % 512) xs)) (omega arith)
            ∙ byte-put_bytes_self xs b (o % 512) (p - o) (omega arith) (omega arith)
            ∙ sym (byte_after-in g o xs p le lt)
        | inr past ↦
            let ge = ltb→le p (o + length xs) past in
            byte-put_bytes_above xs b (o % 512) (p % 512) (omega arith)
            ∙ at
            ∙ sym (byte_after-past g o xs p ge)
      ]
]

-- A byte of another block.
pub byte_after-other_block :
    (o p : ℕ) (xs : List ℕ) (g : ℕ → ℕ)
    → o % 512 + length xs ≤ 512
    → o / 512 ≢ p / 512
    → byte_after g o xs p ≡ g p
byte_after-other_block o p xs g fits differ = elim (Bool-cases (ltb p o)) [
  | inl before ↦ byte_after-before g o xs p (ltb→lt p o before)
  | inr after ↦ let le = ltb→le p o after in byte_after-past g o xs p (omega (arith, differ))
]
