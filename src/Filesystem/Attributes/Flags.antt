-- ===== src/Filesystem/Attributes/Flags.antt =====
-- What the tests of an attribute byte mean, and what `set_archive` changes.
use embedded_sdmmc_rs.Common.{ℕ, zero, suc, Bool, true, false, ◌&&◌, ◌<◌, ◌≡◌, refl, ◌==◌, arith}
use embedded_sdmmc_rs.Filesystem.Attributes.{
  set_archive, is_read_only, is_hidden, is_system, is_volume, is_directory, is_archive, is_lfn,
}

-- A test of every byte, by evaluation.
all_bytes : ℕ → (ℕ → Bool) → Bool
all_bytes zero p = true
all_bytes (suc n) p = p n && all_bytes n p

all_bytes_sound : (n : ℕ) (p : ℕ → Bool) (a : ℕ) → all_bytes n p ≡ true → a < n → p a ≡ true
unfolding all_bytes
all_bytes_sound zero p a h lt = elim lt [ ]
all_bytes_sound (suc n) p a h lt = ground (arith, all_bytes_sound n p a)

abbrev same : Bool → Bool → Bool
same true b = b
same false true = false
same false false = true

same-eq : (a b : Bool) → same a b ≡ true → a ≡ b
same-eq true b h = ground arith
same-eq false true h = h
same-eq false false h = refl

abbrev lfn_test : ℕ → Bool
lfn_test a = same (is_lfn a) (is_read_only a && is_hidden a && is_system a && is_volume a)

lfn_table : all_bytes 256 lfn_test ≡ true
unfolding all_bytes is_lfn is_read_only is_hidden is_system is_volume
lfn_table = refl

-- An entry is a long file name fragment exactly when it is read-only, hidden, system and a volume
-- label at once.
is_lfn-eq-and :
    (a : ℕ) → a < 256 → is_lfn a ≡ (is_read_only a && is_hidden a && is_system a && is_volume a)
is_lfn-eq-and a h = same-eq _ _ (all_bytes_sound 256 lfn_test a lfn_table h)

abbrev archive_test : ℕ → Bool
archive_test a =
    is_archive (set_archive a true)
    && (set_archive a false == a)
    && same (is_directory (set_archive a true)) (is_directory a)
    && same (is_read_only (set_archive a true)) (is_read_only a)
    && same (is_lfn (set_archive a true)) (is_lfn a)

archive_table : all_bytes 256 archive_test ≡ true
unfolding all_bytes set_archive is_archive is_directory is_read_only is_lfn
archive_table = refl

-- `set_archive(true)` sets the archive flag and leaves the tests for a directory, for read-only
-- and for a name fragment as they were; `set_archive(false)` changes nothing, a set flag included.
pub set_archive_lem :
    (a : ℕ)
    → a < 256
    → (is_archive (set_archive a true) ≡ true)
      × (set_archive a false ≡ a)
      × (is_directory (set_archive a true) ≡ is_directory a)
      × (is_read_only (set_archive a true) ≡ is_read_only a)
      × (is_lfn (set_archive a true) ≡ is_lfn a)
set_archive_lem a h = ground (
  arith,
  all_bytes_sound 256 archive_test a archive_table h,
  same-eq (is_directory (set_archive a true)) (is_directory a),
  same-eq (is_read_only (set_archive a true)) (is_read_only a),
  same-eq (is_lfn (set_archive a true)) (is_lfn a),
)
