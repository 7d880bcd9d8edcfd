-- ===== src/Manager/Dirs/Closing.antt =====
-- What closing a directory does to the table of open directories.
use mathlib.Core.List.{Perm}
use embedded_sdmmc_rs.Common.{
  ℕ, suc, ◌≡◌, refl, subst, Bool, true, false, List, [], ◌∷◌, Option, none, some, inl, inr,
}
use embedded_sdmmc_rs.Common.{◌==◌, if◌then◌else◌, ==_iff, get_elem?, Bool-cases}
use embedded_sdmmc_rs.Common.Removal.{swap_remove-perm}
use embedded_sdmmc_rs.Common.Action.{Result, ok, err, panic, no_fuel, bad_handle, ◌>>=◌}
use embedded_sdmmc_rs.Manager.{
  Manager, DirectoryInfo, position, any, get_dir_by_id, or_bad_handle, later,
}
use embedded_sdmmc_rs.Manager.Dirs.{close_dir}

later-none : (o : Option ℕ) → later o ≡ none → o ≡ none
later-none none e = refl
later-none (some i) e = cc

module _ {A : Type 0} (p : A → Bool) where
  -- Where a search finds an item, that item passes the test.
  pub position-some :
      (xs : List A) (i : ℕ)
      → position p xs ≡ some i
      → (x : A) × (get_elem? xs i ≡ some x) × (p x ≡ true)
  unfolding position
  position-some [] i e = cc
  position-some (x ∷ xs) i e = elim (Bool-cases (p x)) [
    | inl hit ↦
        let first : 0 ≡ i = cc (rw (hit, if◌then◌else◌) at e) in
        subst (λ j. (y : A) × (get_elem? (x ∷ xs) j ≡ some y) × (p y ≡ true)) first (x, refl, hit)
    | inr miss ↦ go (position p xs) (position-some xs) i (rw (miss, if◌then◌else◌) at e)
  ]
    where
      go :
          (o : Option ℕ)
          → ((j : ℕ) → o ≡ some j → (y : A) × (get_elem? xs j ≡ some y) × (p y ≡ true))
          → (k : ℕ) → later o ≡ some k
          → (y : A) × (get_elem? (x ∷ xs) k ≡ some y) × (p y ≡ true)
      go none ih k q = cc
      go (some j) ih k q =
          let next : suc j ≡ k = cc in
          subst (λ k. (y : A) × (get_elem? (x ∷ xs) k ≡ some y) × (p y ≡ true)) next (ih j refl)

  -- A search finds nothing only if no item passes the test.
  pub position-none : (xs : List A) → position p xs ≡ none → any p xs ≡ false
  unfolding position any
  position-none [] e = refl
  position-none (x ∷ xs) e = elim (Bool-cases (p x)) [
    | inl hit ↦ cc (rw (hit, if◌then◌else◌) at e)
    | inr miss ↦
        rw (miss, if◌then◌else◌)
          (position-none xs (later-none (position p xs) (rw (miss, if◌then◌else◌) at e)))
  ]

-- What closing leaves: on success the directory with the handle is gone from the table, and the
-- others are there, perhaps in another order. Otherwise no open directory has the handle, the
-- error says so, and nothing changes.
abbrev pub HasClosed : {D : Type 0} → ℕ → Manager D → Result (Unit {0}) × Manager D → Type 0
HasClosed raw s (ok _, m) =
    (d : DirectoryInfo) × (d.raw_directory ≡ raw)
    × Perm s.open_dirs (d ∷ m.open_dirs)
    × (m.open_files ≡ s.open_files)
HasClosed raw s (err e, m) =
    (e ≡ bad_handle) × (m ≡ s) × (any (λ d. d.raw_directory == raw) s.open_dirs ≡ false)
HasClosed raw s (panic, m) = ⊥
HasClosed raw s (no_fuel, m) = ⊥

-- Closing a directory, whether or not its handle is one of an open directory.
pub close_dir-HasClosed : {D : Type 0} (raw : ℕ) (s : Manager D) → HasClosed raw s (close_dir raw s)
unfolding close_dir get_dir_by_id
close_dir-HasClosed raw s = go (position (λ d. d.raw_directory == raw) s.open_dirs) refl
  where
    go :
        (o : Option ℕ)
        → position (λ d. d.raw_directory == raw) s.open_dirs ≡ o
        → HasClosed raw s (close_dir raw s)
    go none q =
        rw (q, or_bad_handle, ◌>>=◌)
          (refl, refl, position-none (λ d. d.raw_directory == raw) s.open_dirs q)
    go (some i) q =
        let d = position-some (λ d. d.raw_directory == raw) s.open_dirs i q in
        rw (q, or_bad_handle, ◌>>=◌)
          (d.0, (==_iff d.0.raw_directory raw).0 d.2, swap_remove-perm s.open_dirs i d.0 d.1, refl)
