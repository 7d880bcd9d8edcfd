-- ===== src/Block/Range.antt =====
-- What the iterator of blockdevice.rs visits, and the rounding of byte counts.
use embedded_sdmmc_rs.Common.{ap, ℕ, zero, suc, ◌+◌, ◌%◌, ◌<◌, ◌≤◌, ◌≡◌, List, [], ◌∷◌}
use embedded_sdmmc_rs.Common.{some, arith, u32_mod}
use embedded_sdmmc_rs.Block.{range, next, new_iter, collect, from_bytes, into_bytes}

-- The numbers from `start` on, `n` of them.
abbrev pub count_from : ℕ → ℕ → List ℕ
count_from start zero = []
count_from start (suc n) = start ∷ count_from (start + 1) n

collect-count_from :
    (n start fuel last : ℕ)
    → n < fuel
    → last < u32_mod
    → start + n ≡ last
    → collect fuel (record { inclusive_end = last; current = start }) ≡ some (count_from start n)
unfolding collect next
collect-count_from n start zero last h small e = elim h [ ]
collect-count_from zero start (suc fuel) last h small e = ground arith
collect-count_from (suc n) start (suc fuel) last h small e =
    ground (arith, collect-count_from n (start + 1) fuel last (omega arith) small (omega arith))

-- A range that ends inside the 32-bit space, as an iterator.
pub range-eq :
    (idx num : ℕ)
    → idx + num < u32_mod
    → range idx num ≡ record { inclusive_end = idx + num; current = idx }
unfolding range new_iter
range-eq idx num h =
    let e : (idx + num) % u32_mod ≡ idx + num = omega arith in
    ap (λ (n : ℕ). record { inclusive_end = n; current = idx }) e

-- A range of `num` blocks that ends inside the 32-bit space visits exactly the `num` blocks from
-- its start, in order: its end is excluded. One round more than blocks is enough.
pub collect-range :
    (idx num fuel : ℕ)
    → idx + num < u32_mod
    → num < fuel
    → collect fuel (range idx num) ≡ some (count_from idx num)
unfolding range new_iter
collect-range idx num fuel small enough =
    collect-count_from num idx fuel ((idx + num) % u32_mod) enough (omega arith) (omega arith)

-- `from_bytes` of a byte count is the least number of blocks that hold that many bytes.
pub from_bytes_least :
    (n : ℕ) → n < u32_mod → (n ≤ into_bytes (from_bytes n)) × (into_bytes (from_bytes n) < n + 512)
unfolding into_bytes from_bytes
from_bytes_least n h = ground arith
