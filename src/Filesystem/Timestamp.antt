-- ===== src/Filesystem/Timestamp.antt =====
-- embedded-sdmmc/src/filesystem/timestamp.rs: dates and times, and their form on the disk.
pub mod RoundTrip
use embedded_sdmmc_rs.Common.{ℕ, ◌+◌, ◌-◌, ◌*◌, ◌/◌, ◌%◌, ◌^◌, Bool, List, ◌++◌, ◌&&◌}
use embedded_sdmmc_rs.Common.{ltb, leb, ◌==◌, if◌then◌else◌, bit_and, bit_or}
use embedded_sdmmc_rs.Common.Bytes.{le_bytes2}
use Prim.Native.String.{String}

-- All fields are `u8`.
pub record Timestamp : Type 0 where
  pub year_since_1970 : ℕ
  pub zero_indexed_month : ℕ
  pub zero_indexed_day : ℕ
  pub hours : ℕ
  pub minutes : ℕ
  pub seconds : ℕ

-- `if month == 0 { 0 } else { month - 1 }`
one_lower : ℕ → ℕ
one_lower n = if n == 0 then 0 else n - 1

-- `from_fat`, of two `u16`: `as u8` is a remainder, and `<<` drops what leaves 16 bits
pub from_fat : ℕ → ℕ → Timestamp
unfolding one_lower
from_fat date time =
    let year = 1980 + date / 2 ^ 9 in
    let month = bit_and (date / 2 ^ 5) 0x000F % 256 in
    let day = bit_and date 0x001F % 256 in
    record {
      year_since_1970 = (year - 1970) % 256;
      zero_indexed_month = one_lower month;
      zero_indexed_day = one_lower day;
      hours = bit_and (time / 2 ^ 11) 0x001F % 256;
      minutes = bit_and (time / 2 ^ 5) 0x003F % 256;
      seconds = bit_and (time * 2 ^ 1 % 65536) 0x003F % 256;
    }

-- the two numbers that `serialize_to_fat` stores
pub fat_time : Timestamp → ℕ
fat_time t =
    let hours = bit_and (t.hours * 2 ^ 11 % 65536) (0x1F * 2 ^ 11) in
    let minutes = bit_and (t.minutes * 2 ^ 5 % 65536) (0x3F * 2 ^ 5) in
    let seconds = bit_and (t.seconds / 2) 0x1F in bit_or (bit_or hours minutes) seconds

pub fat_date : Timestamp → ℕ
fat_date t =
    let year =
      if ltb t.year_since_1970 10
      then 0
      else bit_and ((t.year_since_1970 - 10) * 2 ^ 9 % 65536) 0xFE00 in
    let month = bit_and ((t.zero_indexed_month + 1) % 256 * 2 ^ 5 % 65536) 0x01E0 in
    let day = bit_and ((t.zero_indexed_day + 1) % 256) 0x001F in bit_or (bit_or year month) day

-- `serialize_to_fat`
unfoldable pub serialize_to_fat : Timestamp → List ℕ
unfolding fat_time fat_date
serialize_to_fat t = le_bytes2 (fat_time t) ++ le_bytes2 (fat_date t)

-- what `from_calendar` returns: a timestamp, or a message
pub data Calendar : Type 0 where
  valid : Timestamp → Calendar
  bad : String → Calendar

-- `(low..=high).contains(&n)`
within : ℕ → ℕ → ℕ → Bool
within low high n = leb low n && leb n high

-- `from_calendar`
pub from_calendar : ℕ → ℕ → ℕ → ℕ → ℕ → ℕ → Calendar
unfolding within
from_calendar year month day hours minutes seconds =
    if within 1970 2097 year
    then if within 1 12 month
      then if within 1 31 day
        then if leb hours 23
          then if leb minutes 59
            then if leb seconds 59
              then valid (record {
                year_since_1970 = (year - 1970) % 256;
                zero_indexed_month = month - 1;
                zero_indexed_day = day - 1;
                hours = hours;
                minutes = minutes;
                seconds = seconds;
              })
              else bad "Bad seconds"
            else bad "Bad minutes"
          else bad "Bad hours"
        else bad "Bad day"
      else bad "Bad month"
    else bad "Bad year"
