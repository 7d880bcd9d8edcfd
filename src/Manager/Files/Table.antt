-- ===== src/Manager/Files/Table.antt =====
-- What the two functions that open a file do to the table of open files.
use embedded_sdmmc_rs.Common.{
  ℕ, ◌<◌, ◌≡◌, refl, ◌∙◌, ap, sym, subst, Bool, true, false, List, Option, none, some,
}
use embedded_sdmmc_rs.Common.{ltb, ltb→lt, not, length, if◌then◌else◌, Bool-cases, inl, inr}
use embedded_sdmmc_rs.Common.Action.{
  Error, not_found, Action, Result, ok, err, panic, no_fuel, guard, lift, pure, ◌>>=◌, ◌>>◌,
  too_many_open_files, file_already_open,
}
use embedded_sdmmc_rs.Block.{BlockDevice}
use embedded_sdmmc_rs.Filesystem.Timestamp.{Timestamp}
use embedded_sdmmc_rs.Filesystem.Filename.{ShortFileName}
use embedded_sdmmc_rs.Filesystem.DirEntry.{DirEntry}
use embedded_sdmmc_rs.Filesystem.Files.{FileInfo, Mode, solve_mode_variant}
use embedded_sdmmc_rs.Filesystem.Attributes.{create_from_fat}
use embedded_sdmmc_rs.Fat.Directory.{find_directory_entry}
use embedded_sdmmc_rs.Fat.Directory.Change.{write_new_directory_entry}
use embedded_sdmmc_rs.Manager.{
  Manager, Limits, DirectoryInfo, file_is_open, get_dir_by_id, get_volume_by_id, dir_at, with_fat,
  on_volume,
}
use embedded_sdmmc_rs.Manager.Dirs.{ToShortFileName, named, dir_and_volume}
use embedded_sdmmc_rs.Manager.Files.{
  open_file_in_dir, open_in_mode, existing, may_create, check_closed, search_with, is_some,
}
use embedded_sdmmc_rs.Manager.Files.Opened.{
  Outcome, Outcome-bind, Outcome-guard, Outcome-keeps, HasOpened, with_fat-keeps,
}
use embedded_sdmmc_rs.Manager.Files.Opening.{SaysMade, open_in_mode-Opened}

-- the table had room for one file more
abbrev pub HasOpenedOne :
    {D : Type 0} → Limits → (FileInfo → Type 0) → List FileInfo → ℕ → Manager D → Type 0
HasOpenedOne lim Made fs handle m = HasOpened Made fs handle m × (length fs < lim.max_files)

-- The search comes to no entry only if it failed and the mode makes files.
existing-none :
    (mode : Mode) (r : Result DirEntry)
    → existing mode r ≡ ok none
    → (may_create mode ≡ true) × (e : Error) × (r ≡ err e)
unfolding existing
existing-none mode (ok entry) q = cc
existing-none mode (err e) q = elim (Bool-cases (may_create mode)) [
  | inl makes ↦ (makes, e, refl)
  | inr never ↦ let bad : err not_found ≡ ok none = rw (never, if◌then◌else◌) at q in cc
]
existing-none mode panic q = cc
existing-none mode no_fuel q = cc

module _ {D : Type 0} ⦃dev : BlockDevice D⦄ where
  -- the search for a short name in a directory, on the volume at an index
  abbrev pub search_at : ℕ → DirectoryInfo → ShortFileName → Action (Manager D) DirEntry
  search_at i d sfn = with_fat i (λ fat. find_directory_entry fat d.cluster sfn)

module _ {D : Type 0} ⦃dev : BlockDevice D⦄ (time_source : ℕ → Timestamp) where
  -- The entry of the file `f` was made by a call in the state `start`: the mode makes files; the
  -- search for the short name in the directory, in the state `looking`, failed; and in the state that
  -- the search left behind, the write of a new entry for that name into that directory returned
  -- the entry of `f`.
  pub record WasMade (raw_dir : ℕ) (short : Result ShortFileName) (mode : Mode) (start : Manager D)
      (f : FileInfo) : Type 0 where
    pub dir : DirectoryInfo
    pub searched : ℕ
    pub written : ℕ
    pub sfn : ShortFileName
    pub failure : Error
    pub looking : Manager D
    pub makes : may_create mode ≡ true
    pub directory : dir_and_volume raw_dir start ≡ (ok (dir, searched), looking)
    pub name : short ≡ ok sfn
    pub absent : (search_at searched dir sfn looking).0 ≡ err failure
    pub volume :
        (get_volume_by_id dir.raw_volume (search_at searched dir sfn looking).1).0 ≡ ok written
    pub made :
        (on_volume written
          (write_new_directory_entry time_source dir.cluster sfn (create_from_fat 0))
          (search_at searched dir sfn looking).1).0
        ≡ ok f.entry
    pub there : f.raw_volume ≡ dir.raw_volume

  -- Where the search came to no entry, a file whose entry is written then was made.
  unfound-WasMade :
      (raw_dir : ℕ) (short : Result ShortFileName) (mode : Mode) (s : Manager D)
      (x : DirectoryInfo × ℕ) (sfn : ShortFileName) (found : Option DirEntry) (s1 : Manager D)
      → dir_and_volume raw_dir s ≡ (ok x, s1)
      → short ≡ ok sfn
      → existing mode (search_at x.1 x.0 sfn s1).0 ≡ ok found
      → SaysMade time_source
          (WasMade raw_dir short mode s)
          x.0
          sfn
          found
          (search_at x.1 x.0 sfn s1).1
  unfound-WasMade raw_dir short mode s x sfn found s1 directory name result i f gone volume made
        there =
      let failed = existing-none mode (search_at x.1 x.0 sfn s1).0 (result ∙ ap ok gone) in
      record {
        dir = x.0;
        searched = x.1;
        written = i;
        sfn = sfn;
        failure = failed.1;
        looking = s1;
        makes = failed.0;
        directory = directory;
        name = name;
        absent = failed.2;
        volume = volume;
        made = made;
        there = there;
      }

module _ {D : Type 0} where
  Outcome-and :
      {B : Type 0} (P : B → Manager D → Type 0) (Q : Type 0) (fs : List FileInfo)
      (out : Result B × Manager D)
      → Q
      → Outcome P fs out
      → Outcome (λ b m. P b m × Q) fs out
  Outcome-and P Q fs (ok b, m) q h = (h, q)
  Outcome-and P Q fs (err e, m) q h = h
  Outcome-and P Q fs (panic, m) q h = h
  Outcome-and P Q fs (no_fuel, m) q h = h

  -- The look-ups change nothing.
  pub dir_and_volume-keeps :
      (raw : ℕ) (s : Manager D) → (dir_and_volume raw s).1.open_files ≡ s.open_files
  unfolding get_dir_by_id get_volume_by_id
  dir_and_volume-keeps raw s =
      let fs = s.open_files in
      let Same = λ (x : DirectoryInfo × ℕ) (m : Manager D). m.open_files ≡ fs in
      let volume = λ (d : DirectoryInfo). get_volume_by_id d.raw_volume >>= λ i. pure (d, i) in
      Outcome-keeps Same fs (dir_and_volume raw s) (λ x m h. h)
        (Outcome-bind Same (get_dir_by_id raw) (λ i. dir_at i >>= volume) s fs refl
          (λ i s1 q1 e1. Outcome-bind Same (dir_at i) volume s1 fs e1 (λ d s2 q2 e2.
            Outcome-bind Same (get_volume_by_id d.raw_volume) (λ i. pure (d, i)) s2 fs e2
              (λ i s3 q3 e3. e3))))

module _ {D : Type 0} ⦃dev : BlockDevice D⦄ (lim : Limits) (time_source : ℕ → Timestamp) where
  check_closed-keeps :
      (volume_id : ℕ) (found : Option DirEntry) (s : Manager D)
      → (check_closed volume_id found s).1 ≡ s
  check_closed-keeps volume_id none s = refl
  check_closed-keeps volume_id (some entry) s = go (file_is_open s volume_id entry)
    where
      go : (b : Bool) → (guard (not b) file_already_open s).1 ≡ s
      go true = refl
      go false = refl

  -- Opening a file by its short name, in every mode: it succeeds only if the table has room, and
  -- then puts one file at the table's end, with the handle that it returns. That file's entry was
  -- not open, or it is new: the mode makes files, the search for the name in the directory failed,
  -- and the entry is the one that the write of a new entry for the name returned then. If the call
  -- fails or panics, the table is as it was.
  pub open_file_in_dir-Opened :
      {N : Type 0} ⦃conv : ToShortFileName N⦄ (raw_dir : ℕ) (name : N) (mode : Mode) (s : Manager D)
      → Outcome
          (HasOpenedOne lim
            (WasMade time_source raw_dir (named (conv.to_short_filename name)) mode s)
            s.open_files)
          s.open_files
          (open_file_in_dir lim time_source raw_dir name mode s)
  unfolding open_file_in_dir
  open_file_in_dir-Opened ⦃conv⦄ raw_dir name mode s =
      let fs = s.open_files in
      let short = named (conv.to_short_filename name) in
      let Made = WasMade time_source raw_dir short mode s in
      let P = HasOpenedOne lim Made fs in
      let search = λ (x : DirectoryInfo × ℕ) (sfn : ShortFileName). search_at x.1 x.0 sfn in
      let find = λ (x : DirectoryInfo × ℕ) (sfn : ShortFileName).
        search_with (search x sfn) (existing mode) in
      let last = λ (x : DirectoryInfo × ℕ) (sfn : ShortFileName) (found : Option DirEntry).
        open_in_mode time_source x.0 x.1 (solve_mode_variant mode (is_some found)) sfn found in
      let fifth = λ (x : DirectoryInfo × ℕ) (sfn : ShortFileName) (found : Option DirEntry).
        check_closed x.0.raw_volume found >> last x sfn found in
      let fourth = λ (x : DirectoryInfo × ℕ) (sfn : ShortFileName). find x sfn >>= fifth x sfn in
      let third = λ (x : DirectoryInfo × ℕ). lift short >>= fourth x in
      let second = dir_and_volume raw_dir >>= third in
      Outcome-guard P (ltb (length fs) lim.max_files) too_many_open_files second s fs refl (λ room.
        Outcome-bind P (dir_and_volume raw_dir) third s fs (dir_and_volume-keeps raw_dir s)
          (λ x s1 q1 e1. Outcome-bind P (lift short) (fourth x) s1 fs e1 (λ sfn s2 q2 e2.
            Outcome-bind P (find x sfn) (fifth x sfn) s2 fs
              (with_fat-keeps x.1 (λ fat. find_directory_entry fat x.0.cluster sfn) s2 ∙ e2)
              (λ found s3 q3 e3.
                let closed = check_closed-keeps x.0.raw_volume found s3 in
                Outcome-bind P (check_closed x.0.raw_volume found) (λ _. last x sfn found) s3 fs
                  (ap (λ m. m.open_files) closed ∙ e3)
                  (λ u s4 q4 e4.
                    let looking : s1 ≡ s2 = ap (λ p. p.1) q2 in
                    let left : (search x sfn s1).1 ≡ s4 =
                      ap (λ s. (search x sfn s).1) looking
                      ∙ ap (λ p. p.1) q3
                      ∙ sym closed
                      ∙ ap (λ p. p.1) q4 in
                    let result = ap (λ s. existing mode (search x sfn s).0) looking in
                    Outcome-and (HasOpened Made fs) (length fs < lim.max_files) fs
                      (last x sfn found s4) (ltb→lt (length fs) lim.max_files room)
                      (open_in_mode-Opened time_source Made x.0 x.1
                        (solve_mode_variant mode (is_some found)) sfn found s4 fs e4
                        (subst (SaysMade time_source Made x.0 sfn found) left (
                          unfound-WasMade time_source raw_dir short mode s x sfn found s1 q1
                            (ap (λ p. p.0) q2) (result ∙ ap (λ p. p.0) q3)))))))))
