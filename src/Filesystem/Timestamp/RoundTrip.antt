-- ===== src/Filesystem/Timestamp/RoundTrip.antt =====
-- A timestamp that is stored and read again.
use embedded_sdmmc_rs.Common.{ℕ, ◌+◌, ◌-◌, ◌*◌, ◌/◌, ◌%◌, ◌^◌, ◌<◌, ◌≤◌, ◌≡◌, ◌∙◌, ap, ap₂, arith}
use embedded_sdmmc_rs.Common.{le→ltb, ==_ne, if◌then◌else◌, bit_and, bit_or}
use embedded_sdmmc_rs.Common.Bits.{bit_and-mask, bit_and-shifted, bit_or-disjoint}
use embedded_sdmmc_rs.Common.Bytes.{read_u16}
use embedded_sdmmc_rs.Filesystem.Timestamp.{
  Timestamp, from_fat, fat_time, fat_date, serialize_to_fat, one_lower,
}

-- The date is one that the format of the disk can hold: 1980 to 2097, and the fields in range.
pub record IsDate (t : Timestamp) : Type 0 where
  pub year_low : 10 ≤ t.year_since_1970
  pub year_high : t.year_since_1970 ≤ 127
  pub month : t.zero_indexed_month < 12
  pub day : t.zero_indexed_day < 31
  pub hour : t.hours < 24
  pub minute : t.minutes < 60
  pub second : t.seconds < 60

-- A mask of `n` bits, `k` bits up.
masked : (n k x : ℕ) → bit_and x ((2 ^ n - 1) * 2 ^ k) ≡ x / 2 ^ k % 2 ^ n * 2 ^ k
masked n k x =
    bit_and-shifted k x (2 ^ n - 1) ∙ ap (λ (y : ℕ). y * 2 ^ k) (bit_and-mask n (x / 2 ^ k))

fat_time-eq :
    (t : Timestamp) → IsDate t → fat_time t ≡ t.hours * 2048 + t.minutes * 32 + t.seconds / 2
unfolding fat_time
fat_time-eq t d =
    let h : bit_and (t.hours * 2 ^ 11 % 65536) (0x1F * 2 ^ 11) ≡ t.hours * 2 ^ 11 =
      masked 5 11 (t.hours * 2 ^ 11 % 65536) ∙ omega (arith, d.hour) in
    let m : bit_and (t.minutes * 2 ^ 5 % 65536) (0x3F * 2 ^ 5) ≡ t.minutes * 2 ^ 5 =
      masked 6 5 (t.minutes * 2 ^ 5 % 65536) ∙ omega (arith, d.minute) in
    let s : bit_and (t.seconds / 2) 0x1F ≡ t.seconds / 2 =
      bit_and-mask 5 (t.seconds / 2) ∙ omega (arith, d.second) in
    let j : t.hours * 2 ^ 11 + t.minutes * 2 ^ 5 ≡ (t.hours * 64 + t.minutes) * 2 ^ 5 =
      omega arith in
    ap₂ bit_or
      (ap₂ bit_or h m
        ∙ bit_or-disjoint 11 t.hours (t.minutes * 2 ^ 5) (omega (arith, d.minute))
        ∙ j)
      s
    ∙ bit_or-disjoint 5 (t.hours * 64 + t.minutes) (t.seconds / 2) (omega (arith, d.second))
    ∙ omega arith

fat_date-eq :
    (t : Timestamp)
    → IsDate t
    → fat_date t
      ≡ (t.year_since_1970 - 10) * 512 + (t.zero_indexed_month + 1) * 32 + (t.zero_indexed_day + 1)
unfolding fat_date
fat_date-eq t d =
    let yr = t.year_since_1970 - 10 in
    let mo = t.zero_indexed_month + 1 in
    let dy = t.zero_indexed_day + 1 in
    let y : bit_and (yr * 2 ^ 9 % 65536) 0xFE00 ≡ yr * 2 ^ 9 =
      masked 7 9 (yr * 2 ^ 9 % 65536) ∙ omega (arith, d.year_high) in
    let m : bit_and (mo % 256 * 2 ^ 5 % 65536) 0x01E0 ≡ mo * 2 ^ 5 =
      masked 4 5 (mo % 256 * 2 ^ 5 % 65536) ∙ omega (arith, d.month) in
    let s : bit_and (dy % 256) 0x1F ≡ dy = bit_and-mask 5 (dy % 256) ∙ omega (arith, d.day) in
    let j : yr * 2 ^ 9 + mo * 2 ^ 5 ≡ (yr * 16 + mo) * 2 ^ 5 = omega arith in
    rw (le→ltb t.year_since_1970 10 d.year_low, if◌then◌else◌)
      (ap₂ bit_or (ap₂ bit_or y m ∙ bit_or-disjoint 9 yr (mo * 2 ^ 5) (omega (arith, d.month)) ∙ j)
          s
        ∙ bit_or-disjoint 5 (yr * 16 + mo) dy (omega (arith, d.day))
        ∙ omega arith)

-- the timestamp with its seconds rounded down to an even number
abbrev pub to_even : Timestamp → Timestamp
to_even t = record t { seconds = t.seconds / 2 * 2 }

one_lower-suc : (n : ℕ) → one_lower (n + 1) ≡ n
unfolding one_lower
one_lower-suc n = rw (==_ne (n + 1) 0 (omega arith)) (omega arith)

from_fields :
    (yr mo dy ho mi se : ℕ)
    → yr < 118
    → mo < 12
    → dy < 31
    → ho < 24
    → mi < 60
    → se < 30
    → from_fat (yr * 512 + (mo + 1) * 32 + (dy + 1)) (ho * 2048 + mi * 32 + se) ≡ record {
      year_since_1970 = yr + 10;
      zero_indexed_month = mo;
      zero_indexed_day = dy;
      hours = ho;
      minutes = mi;
      seconds = se * 2;
    }
unfolding from_fat
from_fields yr mo dy ho mi se yb mb db hb ib sb =
    let date = yr * 512 + (mo + 1) * 32 + (dy + 1) in
    let time = ho * 2048 + mi * 32 + se in
    let y : (1980 + date / 2 ^ 9 - 1970) % 256 ≡ yr + 10 = omega arith in
    let m : bit_and (date / 2 ^ 5) 0x0F % 256 ≡ mo + 1 =
      omega (arith, bit_and-mask 4 (date / 2 ^ 5)) in
    let d : bit_and date 0x1F % 256 ≡ dy + 1 = omega (arith, bit_and-mask 5 date) in
    let h : bit_and (time / 2 ^ 11) 0x1F % 256 ≡ ho =
      omega (arith, bit_and-mask 5 (time / 2 ^ 11)) in
    let n : bit_and (time / 2 ^ 5) 0x3F % 256 ≡ mi = omega (arith, bit_and-mask 6 (time / 2 ^ 5)) in
    let s : bit_and (time * 2 ^ 1 % 65536) 0x3F % 256 ≡ se * 2 =
      omega (arith, bit_and-mask 6 (time * 2 ^ 1 % 65536)) in
    λ i. record {
      year_since_1970 = y i;
      zero_indexed_month = (ap one_lower m ∙ one_lower-suc mo) i;
      zero_indexed_day = (ap one_lower d ∙ one_lower-suc dy) i;
      hours = h i;
      minutes = n i;
      seconds = s i;
    }

-- What is stored of a date from 1980 to 2097 is read back as it was, with the seconds rounded down
-- to an even number.
pub from_fat-serialize_to_fat :
    (t : Timestamp)
    → IsDate t
    → from_fat (read_u16 (serialize_to_fat t) 2) (read_u16 (serialize_to_fat t) 0) ≡ to_even t
unfolding read_u16 serialize_to_fat
from_fat-serialize_to_fat t d =
    let yr = t.year_since_1970 - 10 in
    let mo = t.zero_indexed_month in
    let dy = t.zero_indexed_day in
    let date : read_u16 (serialize_to_fat t) 2 ≡ yr * 512 + (mo + 1) * 32 + (dy + 1) =
      omega (arith, fat_date-eq t d, d.year_high, d.month, d.day) in
    let time : read_u16 (serialize_to_fat t) 0 ≡ t.hours * 2048 + t.minutes * 32 + t.seconds / 2 =
      omega (arith, fat_time-eq t d, d.hour, d.minute, d.second) in
    let year : yr + 10 ≡ t.year_since_1970 = omega (arith, d.year_low) in
    ap₂ from_fat date time
    ∙ from_fields yr mo dy t.hours t.minutes (t.seconds / 2) (omega (arith, d.year_high)) d.month
        d.day d.hour d.minute (omega (arith, d.second))
    ∙ ap (λ (x : ℕ). record (to_even t) { year_since_1970 = x }) year
