-- ===== src/Filesystem/Attributes.antt =====
-- embedded-sdmmc/src/filesystem/attributes.rs: the attribute byte of a directory entry.
pub mod Flags
use embedded_sdmmc_rs.Common.{ℕ, Bool, true, false, if◌then◌else◌, ◌==◌, bit_and, bit_or}

abbrev pub Attributes : Type 0
Attributes = ℕ

abbrev pub read_only : ℕ
read_only = 0x01

abbrev pub hidden : ℕ
hidden = 0x02

abbrev pub system : ℕ
system = 0x04

abbrev pub volume : ℕ
volume = 0x08

abbrev pub directory : ℕ
directory = 0x10

abbrev pub archive : ℕ
archive = 0x20

-- `READ_ONLY | HIDDEN | SYSTEM | VOLUME`
abbrev pub lfn : ℕ
lfn = bit_or (bit_or (bit_or read_only hidden) system) volume

unfoldable pub create_from_fat : ℕ → Attributes
create_from_fat value = value

unfoldable pub set_archive : Attributes → Bool → Attributes
set_archive a flag = bit_or a (if flag then 0x20 else 0x00)

unfoldable pub is_read_only : Attributes → Bool
is_read_only a = bit_and a read_only == read_only

unfoldable pub is_hidden : Attributes → Bool
is_hidden a = bit_and a hidden == hidden

unfoldable pub is_system : Attributes → Bool
is_system a = bit_and a system == system

unfoldable pub is_volume : Attributes → Bool
is_volume a = bit_and a volume == volume

unfoldable pub is_directory : Attributes → Bool
is_directory a = bit_and a directory == directory

unfoldable pub is_archive : Attributes → Bool
is_archive a = bit_and a archive == archive

unfoldable pub is_lfn : Attributes → Bool
is_lfn a = bit_and a lfn == lfn
