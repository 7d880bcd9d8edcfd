-- ===== src/Filesystem/Handles/Unique.antt =====
-- How long the handles of a generator stay different.
use embedded_sdmmc_rs.Common.{ℕ, zero, suc, ◌+◌, ◌%◌, ◌<◌, ◌≡◌, ◌≢◌, arith, u32_mod}
use embedded_sdmmc_rs.Filesystem.Handles.{HandleGenerator, generate}

-- The state after `n` calls of `generate`, and the handle of the call after those.
abbrev after : ℕ → HandleGenerator → HandleGenerator
after zero g = g
after (suc n) g = after n (generate g).1

pub nth_handle : ℕ → HandleGenerator → ℕ
nth_handle n g = (generate (after n g)).0

nth_handle_lem :
    (n : ℕ) (g : HandleGenerator) → g.next_id < u32_mod → nth_handle n g ≡ (g.next_id + n) % u32_mod
unfolding nth_handle generate
nth_handle_lem zero g h = omega arith
nth_handle_lem (suc n) g h = omega (arith, nth_handle_lem n (generate g).1 (omega arith))

-- Any two of 2 ^ 32 successive handles differ, wherever the generator stands.
pub handles_differ :
    (g : HandleGenerator) (m n : ℕ)
    → g.next_id < u32_mod
    → m < n
    → n < u32_mod
    → nth_handle m g ≢ nth_handle n g
handles_differ g m n h lt small = omega (arith, nth_handle_lem m g h, nth_handle_lem n g h)
