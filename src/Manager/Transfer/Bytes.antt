-- ===== src/Manager/Transfer/Bytes.antt =====
-- The bytes of a file whose clusters are a chain of the table, by their offset.
use native.Mathlib.Nat.{div-add-mod', div-div-eq-div-mul, mul_assoc, mul_comm}
use embedded_sdmmc_rs.Common.{
  ℕ, zero, suc, ◌+◌, ◌*◌, ◌/◌, ◌%◌, ◌≤◌, ◌<◌, ◌≡◌, refl, ap, ap₂, sym, ◌∙◌, arith, List, [], ◌∷◌,
  ◌++◌,
}
use embedded_sdmmc_rs.Common.{length, get_or, take, drop}
use embedded_sdmmc_rs.Cache.View.{Blocks}
use embedded_sdmmc_rs.Filesystem.Cluster.{ClusterId}
use embedded_sdmmc_rs.Fat.Volume.{FatVolume, bytes_per_cluster, cluster_to_block}
use embedded_sdmmc_rs.Fat.Table.Spec.{HasBlocks}
use embedded_sdmmc_rs.Block.{add_blocks}
use embedded_sdmmc_rs.Manager.Transfer.Locate.{location, nth_cluster}

-- A cluster is a number of whole blocks.
abbrev pub HasWholeBlocks : FatVolume → ℕ → Type 0
HasWholeBlocks v m = (0 < m) × (bytes_per_cluster v ≡ m * 512)

-- The block of an offset, by the number of whole blocks before it in the file.
pub block_number : FatVolume → ClusterId → List ClusterId → ℕ → ℕ → ℕ
block_number v c ns m g = add_blocks (cluster_to_block v (nth_cluster c ns (g / m))) (g % m)

pub location-block_number :
    (v : FatVolume) (c : ClusterId) (ns : List ClusterId) (m o : ℕ)
    → HasWholeBlocks v m
    → (location v c ns o).block_idx ≡ block_number v c ns m (o / 512)
unfolding block_number
location-block_number v c ns m o whole =
    let g = o / 512 in
    let q : o / bytes_per_cluster v ≡ g / m =
      ap (λ b. o / b) (whole.1 ∙ mul_comm m 512) ∙ sym (div-div-eq-div-mul o 512 m) in
    let r : o % bytes_per_cluster v / 512 ≡ g % m = omega (
      arith,
      div-add-mod' o (bytes_per_cluster v),
      div-add-mod' g m,
      ap₂ (λ (x y : ℕ). x * y) q whole.1,
      mul_assoc (g / m) m 512,
    ) in
    ap₂ (λ x y. add_blocks (cluster_to_block v (nth_cluster c ns x)) y) q r

module _ (v : FatVolume) (c : ClusterId) (ns : List ClusterId) (d : Blocks) where
  -- the byte at an offset of the file
  abbrev pub file_byte : ℕ → ℕ
  file_byte o = let at = location v c ns o in get_or (d at.block_idx) at.block_offset 0

  -- `n` bytes of the file from an offset on
  abbrev pub file_bytes : ℕ → ℕ → List ℕ
  file_bytes o zero = []
  file_bytes o (suc n) = file_byte o ∷ file_bytes (o + 1) n

  pub file_bytes-append :
      (o n k : ℕ) → file_bytes o n ++ file_bytes (o + n) k ≡ file_bytes o (n + k)
  file_bytes-append o zero k = ap₂ file_bytes (omega arith) (omega arith)
  file_bytes-append o (suc n) k =
      ap (λ (t : List ℕ). file_byte o ∷ t)
        (ap (λ x. file_bytes (o + 1) n ++ file_bytes x k) (omega arith)
          ∙ file_bytes-append (o + 1) n k)
      ∙ ap (file_bytes o) (suc_add n k)
    where
      suc_add : (a b : ℕ) → suc (a + b) ≡ suc a + b
      suc_add a b = omega arith

take-drop :
    (k n : ℕ) (xs : List ℕ)
    → k < length xs
    → take (suc n) (drop k xs) ≡ get_or xs k 0 ∷ take n (drop (suc k) xs)
take-drop k n [] lt = absurd (omega arith)
take-drop zero n (x ∷ xs) lt = refl
take-drop (suc k) n (x ∷ xs) lt = take-drop k n xs (omega arith)

-- The bytes of a block from an offset on are the bytes of the file.
pub block-file_bytes :
    (v : FatVolume) (c : ClusterId) (ns : List ClusterId) (d : Blocks) (m o i n : ℕ)
    → HasWholeBlocks v m
    → HasBlocks d
    → o % 512 + i + n ≤ 512
    → take n (drop (o % 512 + i) (d (location v c ns o).block_idx)) ≡ file_bytes v c ns d (o + i) n
block-file_bytes v c ns d m o i zero whole full fits = refl
block-file_bytes v c ns d m o i (suc n) whole full fits =
    let B = d (location v c ns o).block_idx in
    let same : (location v c ns o).block_idx ≡ (location v c ns (o + i)).block_idx =
      location-block_number v c ns m o whole
      ∙ ap (block_number v c ns m) (omega arith)
      ∙ sym (location-block_number v c ns m (o + i) whole) in
    let next : suc (o % 512 + i) ≡ o % 512 + (i + 1) = omega arith in
    let after : o + (i + 1) ≡ o + i + 1 = omega arith in
    take-drop (o % 512 + i) n B (omega (arith, full (location v c ns o).block_idx))
    ∙ ap₂ (λ (x : ℕ) (xs : List ℕ). x ∷ xs) (ap₂ (λ x y. get_or (d x) y 0) same (omega arith))
        (ap (λ x. take n (drop x B)) next
          ∙ block-file_bytes v c ns d m o (i + 1) n whole full (omega arith)
          ∙ ap (λ x. file_bytes v c ns d x n) after)
