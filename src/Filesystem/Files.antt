-- ===== src/Filesystem/Files.antt =====
-- embedded-sdmmc/src/filesystem/files.rs: an open file, and the mode that it is opened in
-- (`solve_mode_variant` of volume_mgr.rs). `FileError` has one value, which the volume manager turns into
-- the `InvalidOffset` of `Error`.
pub mod Offset
use embedded_sdmmc_rs.Common.{
  ℕ, zero, suc, ◌+◌, ◌-◌, ◌%◌, Bool, true, false, ltb, ◌==◌, if◌then◌else◌, sub32,
}
use embedded_sdmmc_rs.Common.Action.{Action, Result, ok, err, invalid_offset}
use embedded_sdmmc_rs.Filesystem.Cluster.{ClusterId}
use embedded_sdmmc_rs.Filesystem.DirEntry.{DirEntry}

pub data Mode : Type 0 where
  read_only read_write_append read_write_truncate read_write_create : Mode
  read_write_create_or_truncate read_write_create_or_append : Mode

-- `FileInfo`: handles are their numbers
pub record FileInfo : Type 0 where
  pub raw_file : ℕ
  pub raw_volume : ℕ
  pub cluster_offset : ℕ
  pub current_cluster : ClusterId
  pub current_offset : ℕ
  pub mode : Mode
  pub entry : DirEntry
  pub dirty : Bool

-- an `i32`, by its sign and its absolute value
pub data Signed : Type 0 where
  plus : ℕ → Signed
  minus : ℕ → Signed

unfoldable pub eof : FileInfo → Bool
eof f = f.current_offset == f.entry.size

unfoldable pub file_length : FileInfo → ℕ
file_length f = f.entry.size

-- `seek_from_start`
unfoldable pub seek_from_start : ℕ → Action FileInfo (Unit {0})
seek_from_start offset f =
    if ltb f.entry.size offset
    then (err invalid_offset, f)
    else (ok tt, record f { current_offset = offset })

-- `seek_from_end`
unfoldable pub seek_from_end : ℕ → Action FileInfo (Unit {0})
seek_from_end offset f =
    if ltb f.entry.size offset
    then (err invalid_offset, f)
    else (ok tt, record f { current_offset = f.entry.size - offset })

-- `seek_from_current`: the sum of a `u32` and an `i32` does not wrap in an `i64`
unfoldable pub seek_from_current : Signed → Action FileInfo (Unit {0})
seek_from_current (plus n) f =
    if ltb f.entry.size (f.current_offset + n)
    then (err invalid_offset, f)
    else (ok tt, record f { current_offset = (f.current_offset + n) % 4294967296 })
seek_from_current (minus n) f =
    if ltb f.current_offset n
    then (err invalid_offset, f)
    else if ltb f.entry.size (f.current_offset - n)
    then (err invalid_offset, f)
    else (ok tt, record f { current_offset = (f.current_offset - n) % 4294967296 })

-- `left`
unfoldable pub left : FileInfo → ℕ
left f = sub32 f.entry.size f.current_offset

-- `update_length`
unfoldable pub update_length : ℕ → FileInfo → FileInfo
update_length n f = record f { entry = record f.entry { size = n } }

-- `solve_mode_variant`
unfoldable pub solve_mode_variant : Mode → Bool → Mode
solve_mode_variant read_write_create_or_append true = read_write_append
solve_mode_variant read_write_create_or_append false = read_write_create
solve_mode_variant read_write_create_or_truncate true = read_write_truncate
solve_mode_variant read_write_create_or_truncate false = read_write_create
solve_mode_variant m b = m
