-- ===== src/Tests/Handles.antt =====
-- The theorems on the tables of open files and directories, on the manager of Reading with the
-- directory at cluster 2 open.
use mathlib.Core.List.{Perm}
use embedded_sdmmc_rs.Common.{ℕ, ◌≡◌, refl, arith, List, [], ◌∷◌, inr, length}
use embedded_sdmmc_rs.Cache.View.{Blocks}
use embedded_sdmmc_rs.Filesystem.Files.{FileInfo}
use embedded_sdmmc_rs.Filesystem.Files
use embedded_sdmmc_rs.Fat.VolumeName.{name, create_from_str, is_reserved, is_ascii_whitespace}
use embedded_sdmmc_rs.Fat.VolumeName.Trim.{name-create_from_str, IsAllowed, IsTrimmed}
use embedded_sdmmc_rs.Manager.{Manager, Limits, position}
use embedded_sdmmc_rs.Manager.Dirs.{close_dir, short_name, named}
use embedded_sdmmc_rs.Manager.Dirs.Closing.{HasClosed, close_dir-HasClosed}
use embedded_sdmmc_rs.Manager.Files.{open_file_in_dir, close_file, flush_file}
use embedded_sdmmc_rs.Manager.Files.Opened.{Outcome}
use embedded_sdmmc_rs.Manager.Files.Table.{HasOpenedOne, WasMade, open_file_in_dir-Opened}
use embedded_sdmmc_rs.Manager.Files.Closing.{close_file-flushed}
use embedded_sdmmc_rs.Tests.Disk.{memory, txt_name}
use embedded_sdmmc_rs.Tests.Reading.{manager}
use embedded_sdmmc_rs.Tests.Values.{some_day}

abbrev limits : Limits
limits = record { max_dirs = 4; max_files = 4; max_volumes = 1 }

abbrev with_dir : Manager Blocks
with_dir = record manager {
  open_dirs = record { raw_directory = 5001; raw_volume = 5000; cluster = 2 } ∷ [];
}

open_file_in_dir-Opened_example :
    Outcome
      (HasOpenedOne limits
        (WasMade (λ k. some_day) 5001 (named (inr txt_name)) Files.read_only with_dir)
        with_dir.open_files)
      with_dir.open_files
      (open_file_in_dir limits (λ k. some_day) 5001 txt_name Files.read_only with_dir)
open_file_in_dir-Opened_example =
    open_file_in_dir-Opened limits (λ k. some_day) 5001 txt_name Files.read_only with_dir

close_dir-HasClosed_example : HasClosed 5001 with_dir (close_dir 5001 with_dir)
close_dir-HasClosed_example = close_dir-HasClosed 5001 with_dir

close_file-flushed_example :
    ((close_file 5002 with_dir).0 ≡ (flush_file 5002 with_dir).0)
    × (f : FileInfo) × (f.raw_file ≡ 5002)
    × Perm with_dir.open_files (f ∷ (close_file 5002 with_dir).1.open_files)
unfolding flush_file position
close_file-flushed_example = close_file-flushed 5002 0 with_dir refl tt

-- "DISK 1"
abbrev label : List ℕ
label = 0x44 ∷ 0x49 ∷ 0x53 ∷ 0x4B ∷ 0x20 ∷ 0x31 ∷ []

label-IsAllowed : IsAllowed label
unfolding is_reserved
label-IsAllowed = (refl, (refl, (refl, (refl, (refl, (refl, tt))))))

label-IsTrimmed : IsTrimmed label
unfolding is_ascii_whitespace
label-IsTrimmed = refl

name-create_from_str_example :
    (stored : List ℕ) × (create_from_str label ≡ inr stored)
    × (length stored ≡ 11)
    × (name stored ≡ label)
name-create_from_str_example =
    name-create_from_str label (omega arith) (omega arith) label-IsAllowed label-IsTrimmed
