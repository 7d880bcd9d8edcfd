-- ===== src/Manager/Files.antt =====
-- embedded-sdmmc/src/volume_mgr.rs: files are opened, closed, flushed and sought in.
pub mod Opened
pub mod Opening
pub mod Table
pub mod Closing
use embedded_sdmmc_rs.Common.{ℕ, Bool, true, false, List, [], ◌∷◌, ◌++◌, Option, none, some}
use embedded_sdmmc_rs.Common.{◌==◌, ◌&&◌, ◌||◌, not, ltb, if◌then◌else◌, length, swap_remove}
use embedded_sdmmc_rs.Common.Action
use embedded_sdmmc_rs.Common.Action.{
  Action, Result, ok, err, panic, no_fuel, Error, too_many_open_files, not_found, file_already_open,
  file_already_exists, opened_dir_as_file, unsupported, guard, pure, raise, lift, gets, modify,
  ◌>>=◌, ◌>>◌,
}
use embedded_sdmmc_rs.Block.{BlockDevice}
use embedded_sdmmc_rs.Filesystem.Cluster.{ClusterId}
use embedded_sdmmc_rs.Filesystem.Attributes.{create_from_fat, is_directory, is_read_only}
use embedded_sdmmc_rs.Filesystem.Timestamp.{Timestamp}
use embedded_sdmmc_rs.Filesystem.Filename.{ShortFileName}
use embedded_sdmmc_rs.Filesystem.DirEntry.{DirEntry}
use embedded_sdmmc_rs.Filesystem.Files
use embedded_sdmmc_rs.Filesystem.Files.{
  FileInfo, Mode, read_write_append, read_write_truncate, read_write_create,
  read_write_create_or_truncate, read_write_create_or_append, Signed, seek_from_start,
  seek_from_end, seek_from_current, update_length, solve_mode_variant, eof,
}
use embedded_sdmmc_rs.Fat.Alloc.{truncate_cluster_chain}
use embedded_sdmmc_rs.Fat.Directory.{find_directory_entry}
use embedded_sdmmc_rs.Fat.Directory.ByLfn.{find_directory_entry_by_lfn}
use embedded_sdmmc_rs.Fat.Directory.Change.{write_new_directory_entry, write_entry_to_disk}
use embedded_sdmmc_rs.Fat.Mount.{update_info_sector}
use embedded_sdmmc_rs.Manager.{
  Manager, Limits, DirectoryInfo, get_volume_by_id, get_file_by_id, file_at, put_file, generate_id,
  on_volume, with_fat, file_is_open,
}
use embedded_sdmmc_rs.Manager.Dirs.{ToShortFileName, named, dir_and_volume}

-- `mode == Mode::ReadWriteCreate | …`: the modes that make a file that is not there
unfoldable pub may_create : Mode → Bool
may_create read_write_create = true
may_create read_write_create_or_truncate = true
may_create read_write_create_or_append = true
may_create _ = false

unfoldable pub is_mode_read_only : Mode → Bool
is_mode_read_only Mode.read_only = true
is_mode_read_only _ = false

-- What the search for a file comes to: with any error a file that may be created counts as
-- absent, and any other open fails with `NotFound`.
unfoldable pub existing : Mode → Result DirEntry → Result (Option DirEntry)
unfolding may_create
existing mode (ok entry) = ok (some entry)
existing mode (err e) = if may_create mode then ok none else err not_found
existing mode panic = panic
existing mode no_fuel = no_fuel

-- the same for a long name, which cannot be created
unfoldable pub existing_long : Result DirEntry → Result DirEntry
existing_long (ok entry) = ok entry
existing_long (err e) = err not_found
existing_long panic = panic
existing_long no_fuel = no_fuel

-- `Option::is_some`
abbrev pub is_some : Option DirEntry → Bool
is_some none = false
is_some (some _) = true

-- a file that has just been opened
unfoldable pub new_file : ℕ → ℕ → Mode → DirEntry → FileInfo
new_file raw_file raw_volume mode entry = record {
  raw_file = raw_file;
  raw_volume = raw_volume;
  cluster_offset = 0;
  current_cluster = entry.cluster;
  current_offset = 0;
  mode = mode;
  entry = entry;
  dirty = false;
}

-- the file after `update_length(0)`, with its time of change
unfoldable pub emptied : Timestamp → FileInfo → FileInfo
unfolding update_length
emptied now f = let g = update_length 0 f in record g { entry = record g.entry { mtime = now } }

module _ {D : Type 0} where
  -- `push_unchecked`
  abbrev pub push_file : FileInfo → Action (Manager D) (Unit {0})
  push_file f = modify (λ m. record m { open_files = m.open_files ++ (f ∷ []) })

module _ {D : Type 0} ⦃dev : BlockDevice D⦄ where
  -- the file of an entry that exists, as it is opened in a mode
  unfoldable pub opened : (ℕ → Timestamp) → ℕ → Mode → FileInfo → Action (Manager D) FileInfo
  unfolding emptied
  opened time_source i Mode.read_only f = pure f
  opened time_source i read_write_append f = pure (seek_from_end 0 f).1
  opened time_source i read_write_truncate f = do
    on_volume i (truncate_cluster_chain f.entry.cluster)
    let h = emptied (time_source 0) f
    with_fat i (λ fat. write_entry_to_disk fat h.entry)
    pure h
  opened time_source i mode f = raise unsupported

  -- a file that passed the checks is opened
  unfoldable pub open_checked : (ℕ → Timestamp) → ℕ → ℕ → Mode → DirEntry → Action (Manager D) ℕ
  unfolding opened
  open_checked time_source volume_id i mode entry = do
    raw_file ← generate_id
    opened time_source i mode (new_file raw_file volume_id mode entry) >>= λ file.
        push_file file >> pure raw_file

  -- the arm of both functions for a file that exists
  unfoldable pub open_existing : (ℕ → Timestamp) → ℕ → ℕ → Mode → DirEntry → Action (Manager D) ℕ
  unfolding open_checked is_mode_read_only
  open_existing time_source volume_id i mode entry = do
    guard (not (is_read_only entry.attributes && not (is_mode_read_only mode))) Action.read_only
    guard (not (is_directory entry.attributes)) opened_dir_as_file
    is_open ← gets (λ m. file_is_open m volume_id entry)
    guard (not is_open) file_already_open
    open_checked time_source volume_id i (solve_mode_variant mode true) entry

  -- a file that was just created is opened
  unfoldable pub open_created : ℕ → Mode → DirEntry → Action (Manager D) ℕ
  open_created volume_id mode entry = do
    raw_file ← generate_id
    push_file (new_file raw_file volume_id mode entry)
    pure raw_file

  -- the arm for a file that is to be created
  unfoldable pub open_new :
      (ℕ → Timestamp)
      → DirectoryInfo
      → Mode
      → ShortFileName
      → Option DirEntry
      → Action (Manager D) ℕ
  unfolding get_volume_by_id open_created
  open_new time_source d mode sfn (some entry) = raise file_already_exists
  open_new time_source d mode sfn none = do
    i ← get_volume_by_id d.raw_volume
    on_volume i (write_new_directory_entry time_source d.cluster sfn (create_from_fat 0))
        >>= open_created d.raw_volume mode

  -- the match on the mode
  unfoldable pub open_in_mode :
      (ℕ → Timestamp)
      → DirectoryInfo
      → ℕ
      → Mode
      → ShortFileName
      → Option DirEntry
      → Action (Manager D) ℕ
  unfolding open_existing open_new
  open_in_mode time_source d i read_write_create sfn found =
      open_new time_source d read_write_create sfn found
  open_in_mode time_source d i mode sfn (some entry) =
      open_existing time_source d.raw_volume i mode entry
  open_in_mode time_source d i mode sfn none = lift panic

  -- `if let Some(dir_entry) = &dir_entry { if data.file_is_open(…) … }`
  abbrev check_closed : ℕ → Option DirEntry → Action (Manager D) (Unit {0})
  check_closed volume_id none = pure tt
  check_closed volume_id (some entry) = do
    is_open ← gets (λ m. file_is_open m volume_id entry)
    guard (not is_open) file_already_open

  -- the search for an entry, and what a function makes of its result
  abbrev pub search_with :
      {A B : Type 0} → Action (Manager D) A → (Result A → Result B) → Action (Manager D) B
  search_with act f m = let (r, m') = act m in (f r, m')

module _ {D : Type 0} ⦃dev : BlockDevice D⦄ (lim : Limits) (time_source : ℕ → Timestamp) where
  -- `open_file_in_dir`
  unfoldable pub open_file_in_dir :
      {N : Type 0} ⦃conv : ToShortFileName N⦄ → ℕ → N → Mode → Action (Manager D) ℕ
  unfolding existing open_in_mode
  open_file_in_dir ⦃conv⦄ raw_dir name mode = do
    files ← gets (λ m. m.open_files)
    guard (ltb (length files) lim.max_files) too_many_open_files
    (d, i) ← dir_and_volume raw_dir
    sfn ← lift (named (conv.to_short_filename name))
    found ← search_with (with_fat i (λ fat. find_directory_entry fat d.cluster sfn)) (existing mode)
    check_closed d.raw_volume found
    open_in_mode time_source d i (solve_mode_variant mode (is_some found)) sfn found

  -- the match on the mode of `open_long_name_file_in_dir`
  abbrev open_long_in_mode : ℕ → ℕ → Mode → DirEntry → Action (Manager D) ℕ
  open_long_in_mode volume_id i read_write_create entry = raise file_already_exists
  open_long_in_mode volume_id i mode entry = open_existing time_source volume_id i mode entry

  -- `open_long_name_file_in_dir`
  unfoldable pub open_long_name_file_in_dir : ℕ → List ℕ → Mode → Action (Manager D) ℕ
  unfolding existing_long open_existing
  open_long_name_file_in_dir raw_dir name mode = do
    files ← gets (λ m. m.open_files)
    guard (ltb (length files) lim.max_files) too_many_open_files
    (d, i) ← dir_and_volume raw_dir
    entry ←
        search_with (with_fat i (λ fat. find_directory_entry_by_lfn fat d.cluster name))
          existing_long
    is_open ← gets (λ m. file_is_open m d.raw_volume entry)
    guard (not is_open) file_already_open
    open_long_in_mode d.raw_volume i (solve_mode_variant mode true) entry

module _ {D : Type 0} ⦃dev : BlockDevice D⦄ where
  -- the assertion that a file with bytes has a cluster
  abbrev check_cluster : FileInfo → Action (Manager D) (Unit {0})
  check_cluster f =
      lift (if not (f.entry.size == 0) && (f.entry.cluster == 0) then panic else ok tt)

  -- the flush of a file that was written to
  write_metadata : FileInfo → Action (Manager D) (Unit {0})
  unfolding get_volume_by_id
  write_metadata f = do
    i ← get_volume_by_id f.raw_volume
    with_fat i update_info_sector
    check_cluster f
    with_fat i (λ fat. write_entry_to_disk fat f.entry)

  abbrev flush_if_dirty : FileInfo → Action (Manager D) (Unit {0})
  unfolding write_metadata
  flush_if_dirty f = if f.dirty then write_metadata f else pure tt

  -- `flush_file`
  unfoldable pub flush_file : ℕ → Action (Manager D) (Unit {0})
  unfolding get_file_by_id write_metadata
  flush_file raw_file = do i ← get_file_by_id raw_file; file_at i >>= flush_if_dirty

  -- a flush that panics leaves the file in the table
  abbrev unless_panicked :
      Result (Unit {0}) → Action (Manager D) (Unit {0}) → Action (Manager D) (Unit {0})
  unless_panicked (ok _) act = act
  unless_panicked (err e) act = act >> raise e
  unless_panicked panic act = lift panic
  unless_panicked no_fuel act = lift no_fuel

  -- `close_file`: the file is closed whether or not its flush failed
  pub close_file : ℕ → Action (Manager D) (Unit {0})
  unfolding get_file_by_id flush_file
  close_file raw_file m =
      let (flush_result, m') = flush_file raw_file m in
      unless_panicked flush_result
        (do
          i ← get_file_by_id raw_file
          modify (λ m. record m { open_files = swap_remove m.open_files i }))
        m'

  -- a method of an open file
  abbrev pub on_file : {A : Type 0} → ℕ → Action FileInfo A → Action (Manager D) A
  on_file raw_file act = do
    i ← get_file_by_id raw_file
    f ← file_at i
    let out = act f
    put_file i out.1
    lift out.0

  unfoldable pub file_seek_from_start : ℕ → ℕ → Action (Manager D) (Unit {0})
  unfolding get_file_by_id
  file_seek_from_start raw_file offset = on_file raw_file (seek_from_start offset)

  unfoldable pub file_seek_from_current : ℕ → Signed → Action (Manager D) (Unit {0})
  unfolding get_file_by_id
  file_seek_from_current raw_file offset = on_file raw_file (seek_from_current offset)

  unfoldable pub file_seek_from_end : ℕ → ℕ → Action (Manager D) (Unit {0})
  unfolding get_file_by_id
  file_seek_from_end raw_file offset = on_file raw_file (seek_from_end offset)

  unfoldable pub file_eof : ℕ → Action (Manager D) Bool
  unfolding get_file_by_id
  file_eof raw_file = on_file raw_file (gets eof)

  unfoldable pub file_length : ℕ → Action (Manager D) ℕ
  unfolding get_file_by_id
  file_length raw_file = on_file raw_file (gets Files.file_length)

  unfoldable pub file_offset : ℕ → Action (Manager D) ℕ
  unfolding get_file_by_id
  file_offset raw_file = on_file raw_file (gets (λ f. f.current_offset))
