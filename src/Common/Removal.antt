-- ===== src/Common/Removal.antt =====
-- `Vec::swap_remove`, up to the order of the items.
use mathlib.Core.List.{Perm}
use mathlib.Core.List.Perm
use mathlib.Core.Path.{subst}
use embedded_sdmmc_rs.Common.{ℕ, zero, suc, ◌≡◌, refl, List, [], ◌∷◌, some}
use embedded_sdmmc_rs.Common.{get_elem?, set, last_or, init, swap_remove}

module _ {A : Type 0} where
  set-perm :
      (xs : List A) (i : ℕ) (a b : A) → get_elem? xs i ≡ some a → Perm (b ∷ xs) (a ∷ set xs i b)
  set-perm [] i a b e = cc
  set-perm (x ∷ xs) zero a b e =
      let same : x ≡ a = cc in subst (λ y. Perm (b ∷ x ∷ xs) (y ∷ b ∷ xs)) same (Perm.swap x b xs)
  set-perm (x ∷ xs) (suc i) a b e =
      Perm.trans (Perm.swap x b xs)
        (Perm.trans (Perm.cons x (set-perm xs i a b e)) (Perm.swap a x (set xs i b)))

  init-perm : (xs : List A) (d : A) → Perm (d ∷ xs) (last_or xs d ∷ init (d ∷ xs))
  init-perm [] d = Perm.refl (d ∷ [])
  init-perm (x ∷ xs) d =
      Perm.trans (Perm.cons d (init-perm xs x)) (Perm.swap (last_or xs x) d (init (x ∷ xs)))

  last_or-set : (xs : List A) (i : ℕ) (d : A) → last_or (set xs i (last_or xs d)) d ≡ last_or xs d
  last_or-set [] i d = refl
  last_or-set (x ∷ []) zero d = refl
  last_or-set (x ∷ y ∷ xs) zero d = refl
  last_or-set (x ∷ xs) (suc i) d = last_or-set xs i x

  dropped :
      (xs zs : List A) (a z l : A)
      → Perm (l ∷ xs) (a ∷ z ∷ zs)
      → last_or zs z ≡ l
      → Perm xs (a ∷ init (z ∷ zs))
  dropped xs zs a z l p e = Perm.cons_inv (
      Perm.trans p (
        Perm.trans (Perm.cons a (subst (λ y. Perm (z ∷ zs) (y ∷ init (z ∷ zs))) e (init-perm zs z)))
          (Perm.swap l a (init (z ∷ zs)))))

  -- The item at the index is gone, and the others are there, perhaps in another order.
  pub swap_remove-perm :
      (xs : List A) (i : ℕ) (a : A) → get_elem? xs i ≡ some a → Perm xs (a ∷ swap_remove xs i)
  swap_remove-perm [] i a e = cc
  swap_remove-perm (x ∷ xs) zero a e =
      dropped (x ∷ xs) xs a (last_or xs x) (last_or xs x)
        (set-perm (x ∷ xs) zero a (last_or xs x) e) (last_or-set (x ∷ xs) zero x)
  swap_remove-perm (x ∷ xs) (suc i) a e =
      dropped (x ∷ xs) (set xs i (last_or xs x)) a x (last_or xs x)
        (set-perm (x ∷ xs) (suc i) a (last_or xs x) e) (last_or-set xs i x)
