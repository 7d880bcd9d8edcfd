-- ===== src/Fat/Directory/ByLfn.antt =====
-- embedded-sdmmc/src/fat/volume.rs: the search by long name (`find_directory_entry_by_lfn`). A
-- `&str` is the list of its characters' numbers.
pub mod Stuck
use embedded_sdmmc_rs.Common.{
  ℕ, ◌+◌, ◌-◌, ◌%◌, Bool, true, false, List, [], ◌∷◌, Option, none, some, ◌==◌, ◌||◌, not,
  if◌then◌else◌,
}
use embedded_sdmmc_rs.Common.Action.{Action, Result, ok, err, panic, no_fuel}
use embedded_sdmmc_rs.Block.{BlockDevice}
use embedded_sdmmc_rs.Cache.{BlockCache}
use embedded_sdmmc_rs.Filesystem.Cluster.{ClusterId}
use embedded_sdmmc_rs.Filesystem.Filename.{csum}
use embedded_sdmmc_rs.Filesystem.LfnBuffer.{is_surrogate, reverse_onto}
use embedded_sdmmc_rs.Filesystem.DirEntry.{DirEntry}
use embedded_sdmmc_rs.Fat.Volume.{FatVolume}
use embedded_sdmmc_rs.Fat.OnDisk.{LfnContents, lfn_contents}
use embedded_sdmmc_rs.Fat.Directory.{ControlFlow, continue, break, found_or, iterate_dir_internal}

pub data SearchState : Type 0 where
  waiting : SearchState
  scanning : (remaining : List ℕ) (sequence csum : ℕ) → SearchState
  found : (csum : ℕ) → SearchState

-- `str::strip_suffix` for one character
unfoldable pub strip_suffix : List ℕ → ℕ → Option (List ℕ)
strip_suffix [] c = none
strip_suffix (x ∷ []) c = if x == c then some [] else none
strip_suffix (x ∷ y ∷ rest) c = elim (strip_suffix (y ∷ rest) c) [
  | none ↦ none
  | some r ↦ some (x ∷ r)
]

-- `skip_while` for one value
unfoldable pub skip_value : ℕ → List ℕ → List ℕ
skip_value w [] = []
skip_value w (x ∷ xs) = if x == w then skip_value w xs else x ∷ xs

-- The loop over the words of a fragment, the last one first: it ends without a result where the
-- code returns from the closure.
unfoldable pub strip_words : List ℕ → List ℕ → Option (List ℕ)
unfolding strip_suffix
strip_words [] remaining = some remaining
strip_words (w ∷ ws) remaining = elim (is_surrogate w) [
  | true ↦ none
  | false ↦ elim (strip_suffix remaining w) [ none ↦ none | some r ↦ strip_words ws r ]
]

-- the state after a fragment whose words were all stripped
unfoldable pub after_words : List ℕ → ℕ → ℕ → SearchState
after_words remaining sequence sum =
    if sequence == 1
    then elim remaining [ [] ↦ found sum | _ ∷ _ ↦ waiting ]
    else scanning remaining ((sequence + 255) % 256) sum

-- the arm for `Waiting`
unfoldable pub first_fragment : List ℕ → LfnContents → SearchState
unfolding skip_value strip_words after_words
first_fragment match_name c =
    if c.is_start
    then elim (strip_words (skip_value 0 (skip_value 0xFFFF (reverse_onto c.buffer [])))
        match_name) [ none ↦ waiting | some r ↦ after_words r c.sequence c.csum ]
    else waiting

-- the arm for `Scanning`
unfoldable pub next_fragment : List ℕ → ℕ → ℕ → LfnContents → SearchState
unfolding strip_words after_words
next_fragment remaining sequence sum c =
    if c.is_start
    then scanning remaining sequence sum
    else if not (c.sequence == sequence) || not (c.csum == sum)
    then waiting
    else elim (strip_words (reverse_onto c.buffer []) remaining) [
      | none ↦ scanning remaining sequence sum
      | some r ↦ after_words r sequence sum
    ]

pub record Search : Type 0 where
  pub state : SearchState
  pub result : Option DirEntry

-- the arm for `Found`
abbrev check_csum : DirEntry → ℕ → Search → ControlFlow × Search
check_csum de sum s =
    if csum de.name == sum then (break, record s { result = some de }) else (continue, s)

abbrev in_state : SearchState → Search → ControlFlow × Search
in_state t s = (continue, record s { state = t })

-- what the closure does in each state with the long name's part of the entry, if it has one
abbrev pub search_fragment :
    List ℕ → DirEntry → Option LfnContents → SearchState → Search → ControlFlow × Search
search_fragment match_name de (some c) waiting s = in_state (first_fragment match_name c) s
search_fragment match_name de none waiting s = (continue, s)
search_fragment match_name de (some c) (scanning remaining sequence sum) s =
    in_state (next_fragment remaining sequence sum c) s
search_fragment match_name de none (scanning remaining sequence sum) s = (continue, s)
search_fragment match_name de o (found sum) s = check_csum de sum s

-- the closure of `find_directory_entry_by_lfn`
unfoldable pub match_fragment : List ℕ → DirEntry → List ℕ → Search → ControlFlow × Search
unfolding first_fragment next_fragment
match_fragment match_name de bytes s = search_fragment match_name de (lfn_contents bytes) s.state s

module _ {D : Type 0} ⦃dev : BlockDevice D⦄ where
  -- `find_directory_entry_by_lfn`
  pub find_directory_entry_by_lfn : FatVolume → ClusterId → List ℕ → Action (BlockCache D) DirEntry
  unfolding match_fragment
  find_directory_entry_by_lfn v dir match_name cache =
      let (r, x) =
        iterate_dir_internal v dir (match_fragment match_name)
          (record { cache = cache; seen = record { state = waiting; result = none } }) in
      elim r [
        | ok _ ↦ (found_or x.seen.result, x.cache)
        | err e ↦ (err e, x.cache)
        | panic ↦ (panic, x.cache)
        | no_fuel ↦ (no_fuel, x.cache)
      ]
