-- ===== src/Fat/Directory/ByLfn/Stuck.antt =====
-- The search by long name after a long name that it gave up.
use embedded_sdmmc_rs.Common.{
  ℕ, ◌≡◌, refl, ap, sym, ◌∙◌, true, false, List, [], ◌∷◌, Option, none, some, if◌then◌else◌,
}
use embedded_sdmmc_rs.Filesystem.Filename.{csum}
use embedded_sdmmc_rs.Filesystem.DirEntry.{DirEntry}
use embedded_sdmmc_rs.Fat.OnDisk.{LfnContents, lfn_contents}
use embedded_sdmmc_rs.Fat.Directory.{ControlFlow, continue, break}
use embedded_sdmmc_rs.Fat.Directory.ByLfn.{
  Search, found, scanning, match_fragment, next_fragment, search_fragment,
}
use embedded_sdmmc_rs.Common.{◌==◌}

abbrev pub Entries : Type 0
Entries = List (DirEntry × List ℕ)

-- the rest of a walk, after one entry
abbrev then_walk : (Search → Search) → ControlFlow × Search → Search
then_walk rest (continue, s) = rest s
then_walk rest (break, s) = s

-- the closure on the entries of a directory, until it ends the walk
abbrev pub search_entries : List ℕ → Entries → Search → Search
search_entries match_name [] s = s
search_entries match_name (e ∷ es) s =
    then_walk (search_entries match_name es) (match_fragment match_name e.0 e.1 s)

abbrev pub HaveOtherSums : ℕ → Entries → Type 0
HaveOtherSums sum [] = Unit
HaveOtherSums sum (e ∷ es) = ((csum e.0.name == sum) ≡ false) × HaveOtherSums sum es

other_sum :
    (match_name : List ℕ) (de : DirEntry) (o : Option LfnContents) (s : Search) (sum : ℕ)
    → (csum de.name == sum) ≡ false
    → search_fragment match_name de o (found sum) s ≡ (continue, s)
other_sum match_name de none s sum other = rw (other, if◌then◌else◌) refl
other_sum match_name de (some c) s sum other = rw (other, if◌then◌else◌) refl

-- Once the fragments of a long name have matched, the search looks only for a short name with
-- their checksum: over entries that all have other checksums, whatever long names they have, it
-- stays as it is and finds nothing.
pub search_entries-found :
    (match_name : List ℕ) (sum : ℕ) (es : Entries) (s : Search)
    → s.state ≡ found sum
    → HaveOtherSums sum es
    → search_entries match_name es s ≡ s
unfolding match_fragment
search_entries-found match_name sum [] s state other = refl
search_entries-found match_name sum (e ∷ es) s state other =
    ap
      (λ t.
        then_walk (search_entries match_name es)
          (search_fragment match_name e.0 (lfn_contents e.1) t s))
      state
    ∙ ap (then_walk (search_entries match_name es))
        (other_sum match_name e.0 (lfn_contents e.1) s sum other.0)
    ∙ search_entries-found match_name sum es s state other.1

-- what a search that scans passes over: short entries, and the first fragments of long names
abbrev pub IsPassedOver : Option LfnContents → Type 0
IsPassedOver none = Unit
IsPassedOver (some c) = c.is_start ≡ true

abbrev pub ArePassedOver : Entries → Type 0
ArePassedOver [] = Unit
ArePassedOver (e ∷ es) = IsPassedOver (lfn_contents e.1) × ArePassedOver es

passed_over :
    (match_name : List ℕ) (de : DirEntry) (o : Option LfnContents) (s : Search)
    → (remaining : List ℕ) (sequence sum : ℕ) → IsPassedOver o
    → s.state ≡ scanning remaining sequence sum
    → search_fragment match_name de o (scanning remaining sequence sum) s ≡ (continue, s)
unfolding next_fragment
passed_over match_name de none s remaining sequence sum passed state = refl
passed_over match_name de (some c) s remaining sequence sum passed state =
    rw (passed, if◌then◌else◌) (ap (λ t. (continue, record s { state = t })) (sym state))

-- While the search waits for the next fragment of a long name it passes over every file whose
-- long name is one fragment, the file with the name that it looks for too: it stays as it is.
pub search_entries-scanning :
    (match_name : List ℕ) (es : Entries) (s : Search) (remaining : List ℕ) (sequence sum : ℕ)
    → s.state ≡ scanning remaining sequence sum
    → ArePassedOver es
    → search_entries match_name es s ≡ s
unfolding match_fragment
search_entries-scanning match_name [] s remaining sequence sum state passed = refl
search_entries-scanning match_name (e ∷ es) s remaining sequence sum state passed =
    ap
      (λ t.
        then_walk (search_entries match_name es)
          (search_fragment match_name e.0 (lfn_contents e.1) t s))
      state
    ∙ ap (then_walk (search_entries match_name es))
        (passed_over match_name e.0 (lfn_contents e.1) s remaining sequence sum passed.0 state)
    ∙ search_entries-scanning match_name es s remaining sequence sum state passed.1
