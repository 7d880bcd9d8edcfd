-- ===== src/Filesystem/Handles.antt =====
-- embedded-sdmmc/src/filesystem/handles.rs: the generator of handles.
pub mod Unique
use embedded_sdmmc_rs.Common.{ℕ, add32}

pub record HandleGenerator : Type 0 where
  pub next_id : ℕ

pub new : ℕ → HandleGenerator
new offset = record { next_id = offset }

-- `generate`; the counter wraps at 2 ^ 32
unfoldable pub generate : HandleGenerator → ℕ × HandleGenerator
generate g = (g.next_id, record g { next_id = add32 g.next_id 1 })
