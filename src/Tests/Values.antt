-- ===== src/Tests/Values.antt =====
-- The theorems on names, dates, entries, numbers of blocks, attributes and handles.
use embedded_sdmmc_rs.Common.{ℕ, ◌+◌, ◌<◌, ◌≤◌, ◌≡◌, ◌≢◌, refl, arith, inr, true, false}
use embedded_sdmmc_rs.Common.{List, [], ◌∷◌, ◌++◌, some}
use embedded_sdmmc_rs.Common.Bytes.{read_u16}
use embedded_sdmmc_rs.Block.{collect, range, from_bytes, into_bytes}
use embedded_sdmmc_rs.Block.Range.{collect-range, from_bytes_least, count_from}
use embedded_sdmmc_rs.Filesystem.Attributes.{
  is_lfn, is_read_only, is_archive, set_archive, is_directory,
}
use embedded_sdmmc_rs.Filesystem.Attributes.Flags.{set_archive_lem}
use embedded_sdmmc_rs.Filesystem.Handles.{HandleGenerator}
use embedded_sdmmc_rs.Filesystem.Handles.Unique.{handles_differ, nth_handle}
use embedded_sdmmc_rs.Filesystem.Timestamp.{Timestamp, from_fat, serialize_to_fat}
use embedded_sdmmc_rs.Filesystem.Timestamp.RoundTrip.{IsDate, to_even, from_fat-serialize_to_fat}
use embedded_sdmmc_rs.Filesystem.Filename.{
  dot, create_from_str, print, is_invalid, to_ascii_uppercase, contains_char,
}
use embedded_sdmmc_rs.Filesystem.Filename.Parse.{IsPart, padded, upper, create_from_str_lem}
use embedded_sdmmc_rs.Filesystem.Filename.Print.{create_from_str-print}
use embedded_sdmmc_rs.Filesystem.DirEntry.{DirEntry, serialize}
use embedded_sdmmc_rs.Fat.Volume.{fat32}
use embedded_sdmmc_rs.Fat.OnDisk.{get_entry}
use embedded_sdmmc_rs.Fat.OnDisk.RoundTrip.{get_entry-serialize, restored}

collect-range_example : collect 4 (range 7 3) ≡ some (count_from 7 3)
collect-range_example = collect-range 7 3 4 (omega arith) (omega arith)

from_bytes_least_example :
    (513 ≤ into_bytes (from_bytes 513)) × (into_bytes (from_bytes 513) < 513 + 512)
from_bytes_least_example = from_bytes_least 513 (omega arith)

set_archive_example :
    (is_archive (set_archive 33 true) ≡ true)
    × (set_archive 33 false ≡ 33)
    × (is_directory (set_archive 33 true) ≡ is_directory 33)
    × (is_read_only (set_archive 33 true) ≡ is_read_only 33)
    × (is_lfn (set_archive 33 true) ≡ is_lfn 33)
set_archive_example = set_archive_lem 33 (omega arith)

abbrev generator : HandleGenerator
generator = record { next_id = 4294967295 }

handles_differ_example : nth_handle 0 generator ≢ nth_handle 1 generator
handles_differ_example = handles_differ generator 0 1 (omega arith) (omega arith) (omega arith)

abbrev pub some_day : Timestamp
some_day = record {
  year_since_1970 = 48;
  zero_indexed_month = 11;
  zero_indexed_day = 8;
  hours = 19;
  minutes = 21;
  seconds = 39;
}

pub some_day-IsDate : IsDate some_day
some_day-IsDate = record {
  year_low = omega arith;
  year_high = omega arith;
  month = omega arith;
  day = omega arith;
  hour = omega arith;
  minute = omega arith;
  second = omega arith;
}

from_fat-serialize_to_fat_example :
    from_fat (read_u16 (serialize_to_fat some_day) 2) (read_u16 (serialize_to_fat some_day) 0)
    ≡ to_even some_day
from_fat-serialize_to_fat_example = from_fat-serialize_to_fat some_day some_day-IsDate

-- "ab" and "TXT"
abbrev base : List ℕ
base = 0x61 ∷ 0x62 ∷ []

abbrev txt : List ℕ
txt = 0x54 ∷ 0x58 ∷ 0x54 ∷ []

base-IsPart : IsPart base
unfolding is_invalid contains_char
base-IsPart = (refl, refl, (refl, refl, tt))

txt-IsPart : IsPart txt
unfolding is_invalid contains_char
txt-IsPart = (refl, refl, (refl, refl, (refl, refl, tt)))

create_from_str_example :
    create_from_str (base ++ (dot ∷ txt)) ≡ inr (padded 8 (upper base) ++ padded 3 (upper txt))
create_from_str_example =
    create_from_str_lem base txt base-IsPart txt-IsPart (omega arith) (omega arith) (omega arith)

create_from_str-print_example :
    create_from_str (print (padded 8 txt ++ padded 3 [])) ≡ inr (padded 8 txt ++ padded 3 [])
unfolding to_ascii_uppercase
create_from_str-print_example =
    create_from_str-print txt [] txt-IsPart tt (omega arith) (omega arith) (omega arith) refl refl

abbrev pub file_entry : DirEntry
file_entry = record {
  name = padded 8 txt ++ padded 3 txt;
  mtime = some_day;
  ctime = some_day;
  attributes = 0x20;
  cluster = 100000;
  size = 1234567;
  entry_block = 70;
  entry_offset = 64;
}

get_entry-serialize_example :
    get_entry fat32 70 64 (serialize file_entry fat32) ≡ restored file_entry
get_entry-serialize_example = get_entry-serialize fat32 file_entry (record {
  name = refl;
  modified = some_day-IsDate;
  created = some_day-IsDate;
  cluster = omega arith;
  size = omega arith;
})
