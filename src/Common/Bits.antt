-- ===== src/Common/Bits.antt =====
-- `&` with a mask and `|` of disjoint fields as arithmetic, at every width.
mod Digit
use Digit.{bit_and_digit, bit_or_digit}
use Prim.Native.Nat.{ℕ, zero, suc, ◌+◌, ◌-◌, ◌*◌, ◌/◌, ◌%◌, ◌^◌, ◌≤◌, ◌<◌, bit_and, bit_or}
use mathlib.Core.Path.{◌≡◌, refl, ap}
use native.Mathlib.Nat.{pow-suc, one-le-pow, div-div-eq-div-mul}
use native.Mathlib.Omega.{arith}

-- Both recursions are on a bound of the number.
and_zero_below : (n a : ℕ) → a ≤ n → bit_and a 0 ≡ 0
and_zero_below zero zero h = refl
and_zero_below zero (suc a) h = elim h [ ]
and_zero_below (suc n) zero h = refl
and_zero_below (suc n) (suc a) h =
    omega (arith, bit_and_digit (suc a) 0, and_zero_below n (suc a / 2) (omega arith))

or_zero_below : (n a : ℕ) → a ≤ n → bit_or a 0 ≡ a
or_zero_below zero zero h = refl
or_zero_below zero (suc a) h = elim h [ ]
or_zero_below (suc n) zero h = refl
or_zero_below (suc n) (suc a) h =
    omega (arith, bit_or_digit (suc a) 0, or_zero_below n (suc a / 2) (omega arith))

pub bit_and-zero : (a : ℕ) → bit_and a 0 ≡ 0
bit_and-zero a = and_zero_below a a (omega arith)

pub bit_or-zero : (a : ℕ) → bit_or a 0 ≡ a
bit_or-zero a = or_zero_below a a (omega arith)

twice_pow : (q k : ℕ) → q * 2 ^ suc k ≡ 2 * (q * 2 ^ k)
twice_pow q k = omega (arith, ap (λ (t : ℕ). q * t) (pow-suc 2 k))

-- `(q << k) | r` is a sum when `r` fits in `k` bits.
pub bit_or-disjoint : (k q r : ℕ) → r < 2 ^ k → bit_or (q * 2 ^ k) r ≡ q * 2 ^ k + r
bit_or-disjoint zero q r h = ground (arith, bit_or-zero q)
bit_or-disjoint (suc k) q r h = ground (
  arith,
  twice_pow q k,
  bit_or-disjoint k q (r / 2) (omega arith),
  bit_or_digit (q * 2 ^ suc k) r,
)

mask_of_sum : (k q r : ℕ) → r < 2 ^ k → bit_and (q * 2 ^ k + r) (2 ^ k - 1) ≡ r
mask_of_sum zero q r h = rw bit_and-zero (omega arith)
mask_of_sum (suc k) q r h = ground (
  arith,
  twice_pow q k,
  pow-suc 2 k,
  mask_of_sum k q (r / 2) (omega arith),
  bit_and_digit (q * 2 ^ suc k + r) (2 ^ suc k - 1),
)

-- `a & (2^k - 1)` is the remainder by `2 ^ k`.
pub bit_and-mask : (k a : ℕ) → bit_and a (2 ^ k - 1) ≡ a % 2 ^ k
bit_and-mask k a = ground (arith, one-le-pow k 2, mask_of_sum k (a / 2 ^ k) (a % 2 ^ k))

-- A mask of higher bits acts on the bits above `k`.
pub bit_and-shifted : (k a m : ℕ) → bit_and a (m * 2 ^ k) ≡ bit_and (a / 2 ^ k) m * 2 ^ k
bit_and-shifted zero a m = ground arith
bit_and-shifted (suc k) a m = ground (
  arith,
  twice_pow m k,
  bit_and_digit a (m * 2 ^ suc k),
  bit_and-shifted k (a / 2) m,
  twice_pow (bit_and (a / 2 / 2 ^ k) m) k,
  div-div-eq-div-mul a 2 (2 ^ k),
  pow-suc 2 k,
)
