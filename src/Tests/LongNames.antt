-- ===== src/Tests/LongNames.antt =====
-- The theorems on long names, on fragments of thirteen letters.
use embedded_sdmmc_rs.Common.{
  ℕ, ◌≡◌, refl, arith, true, false, List, [], ◌∷◌, ◌++◌, Option, none, replicate,
}
use embedded_sdmmc_rs.Common.Action.{ok}
use embedded_sdmmc_rs.Filesystem.Filename.{csum}
use embedded_sdmmc_rs.Filesystem.LfnBuffer.{LfnBuffer, is_surrogate}
use embedded_sdmmc_rs.Filesystem.LfnBuffer.Plain.{HasNoHalf}
use embedded_sdmmc_rs.Fat.OnDisk.{LfnContents, lfn_contents}
use embedded_sdmmc_rs.Fat.Directory.{continue}
use embedded_sdmmc_rs.Fat.Directory.Lfn.{LfnVisitor, Reading, waiting, complete}
use embedded_sdmmc_rs.Fat.Directory.Lfn.Sequence.{run_updates, run_updates-complete}
use embedded_sdmmc_rs.Fat.Directory.ByLfn.{Search, found, scanning}
use embedded_sdmmc_rs.Fat.Directory.ByLfn.Stuck.{
  Entries, search_entries, search_entries-found, search_entries-scanning, ArePassedOver,
  HaveOtherSums,
}
use embedded_sdmmc_rs.Tests.Values.{file_entry}

abbrev letters : List ℕ
letters = replicate 13 0x41

letters-HasNoHalf : HasNoHalf letters
unfolding is_surrogate
letters-HasNoHalf = (
  refl,
  (
    refl,
    (refl, (refl, (refl, (refl, (refl, (refl, (refl, (refl, (refl, (refl, (refl, tt))))))))))),
  ),
)

abbrev first : LfnContents
first = record { is_start = true; sequence = 3; csum = 0x5A; buffer = letters }

abbrev second : LfnContents
second = record { is_start = false; sequence = 2; csum = 0x5A; buffer = letters }

abbrev third : LfnContents
third = record { is_start = false; sequence = 1; csum = 0x5A; buffer = letters }

abbrev empty : LfnBuffer
empty = record { inner = replicate 64 0; free = 64; overflow = false; unpaired_surrogate = none }

run_updates-complete_example :
    (run_updates (first ∷ second ∷ third ∷ []) waiting empty).0 ≡ ok (complete 0x5A)
run_updates-complete_example =
    run_updates-complete 2 first (second ∷ third ∷ []) waiting empty (omega arith) refl refl
      (omega arith) letters-HasNoHalf
      (refl, refl, omega arith, letters-HasNoHalf, (refl, refl, omega arith, letters-HasNoHalf, tt))

-- a closure that keeps the long names it is given, the latest one first
abbrev keep_names : LfnVisitor (List (Option (List ℕ)))
keep_names de name names = (continue, name ∷ names)

abbrev short_bytes : List ℕ
short_bytes = replicate 11 0x41 ++ replicate 21 0x20

abbrev reading : Reading (List (Option (List ℕ)))
reading = record {
  buffer = empty;
  state = complete (csum file_entry.name);
  panicked = false;
  user = [];
}

-- "foo" as the one fragment of a long name
abbrev foo_bytes : List ℕ
foo_bytes =
    0x41 ∷ 0x66 ∷ 0 ∷ 0x6F ∷ 0 ∷ 0x6F ∷ 0 ∷ 0 ∷ 0 ∷ 0xFF ∷ 0xFF ∷ 0x0F ∷ 0 ∷ 0x33 ∷ []
    ++ (replicate 12 0xFF ++ (0 ∷ 0 ∷ replicate 4 0xFF))

-- a file with the long name "foo"
abbrev foo_entries : Entries
foo_entries = (file_entry, foo_bytes) ∷ (file_entry, short_bytes) ∷ []

abbrev foo : List ℕ
foo = 0x66 ∷ 0x6F ∷ 0x6F ∷ []

-- the search for "foo" after the last fragment of another name, which ends with "o"
abbrev scans : Search
scans = record { state = scanning (0x66 ∷ 0x6F ∷ []) 1 0x44; result = none }

foo-ArePassedOver : ArePassedOver foo_entries
unfolding lfn_contents embedded_sdmmc_rs.Filesystem.Attributes.is_lfn
    embedded_sdmmc_rs.Filesystem.Attributes.create_from_fat
foo-ArePassedOver = (refl, (tt, tt))

search_entries-scanning_example : search_entries foo foo_entries scans ≡ scans
search_entries-scanning_example =
    search_entries-scanning foo foo_entries scans (0x66 ∷ 0x6F ∷ []) 1 0x44 refl foo-ArePassedOver

-- the search for "foo" after its long name stood before an entry with another checksum
abbrev found_one : Search
found_one = record { state = found 0x33; result = none }

foo-HaveOtherSums : HaveOtherSums 0x33 foo_entries
unfolding csum
foo-HaveOtherSums = (refl, (refl, tt))

search_entries-found_example : search_entries foo foo_entries found_one ≡ found_one
search_entries-found_example =
    search_entries-found foo 0x33 foo_entries found_one refl foo-HaveOtherSums
