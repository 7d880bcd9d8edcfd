-- ===== src/Common/Bounded.antt =====
-- A Boolean test that holds for every number below a bound, checked number by number.
use embedded_sdmmc_rs.Common.{ℕ, zero, suc, ◌<◌, ◌≡◌, refl, subst, sym, Bool, true, false, ◌&&◌}
use embedded_sdmmc_rs.Common.{arith, inl, inr, ◌⊎◌}

abbrev pub all_below : ℕ → (ℕ → Bool) → Bool
all_below zero p = true
all_below (suc n) p = p n && all_below n p

both : (a b : Bool) → (a && b) ≡ true → (a ≡ true) × (b ≡ true)
both true b h = (refl, h)
both false b h = cc

last_or_below : (i n : ℕ) → i < suc n → (i ≡ n) ⊎ (i < n)
last_or_below i n h = ground arith

pub all_below-at : (n : ℕ) (p : ℕ → Bool) → all_below n p ≡ true → (i : ℕ) → i < n → p i ≡ true
all_below-at zero p h i lt = absurd (omega arith)
all_below-at (suc n) p h i lt =
    let parts = both (p n) (all_below n p) h in
    elim (last_or_below i n lt) [
      | inl last ↦ subst (λ j. p j ≡ true) (sym last) parts.0
      | inr below ↦ all_below-at n p parts.1 i below
    ]
