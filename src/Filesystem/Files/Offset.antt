-- ===== src/Filesystem/Files/Offset.antt =====
-- The position in a file stays inside it.
use embedded_sdmmc_rs.Common.{ℕ, ◌+◌, ◌<◌, ◌≤◌, ◌≡◌, arith, u32_mod, ◌==◌, List, [], ◌∷◌}
use embedded_sdmmc_rs.Common.Action.{Result}
use embedded_sdmmc_rs.Filesystem.Files.{
  FileInfo, Signed, plus, minus, seek_from_start, seek_from_end, seek_from_current, left, eof,
}

-- The position lies in the file, whose size is a `u32`.
abbrev pub IsInside : FileInfo → Type 0
IsInside f = (f.current_offset ≤ f.entry.size) × (f.entry.size < u32_mod)

-- The three ways to move a file's position.
pub data Seek : Type 0 where
  from_start : ℕ → Seek
  from_end : ℕ → Seek
  from_current : Signed → Seek

abbrev pub seek : Seek → FileInfo → Result (Unit {0}) × FileInfo
seek (from_start n) f = seek_from_start n f
seek (from_end n) f = seek_from_end n f
seek (from_current n) f = seek_from_current n f

seek-IsInside : (s : Seek) (f : FileInfo) → IsInside f → IsInside (seek s f).1
unfolding seek_from_start seek_from_end seek_from_current
seek-IsInside (from_start n) f h = ground arith
seek-IsInside (from_end n) f h = ground arith
seek-IsInside (from_current (plus n)) f h = ground arith
seek-IsInside (from_current (minus n)) f h = ground arith

-- a sequence of seeks, those that fail included
abbrev pub seek_all : List Seek → FileInfo → FileInfo
seek_all [] f = f
seek_all (s ∷ ss) f = seek_all ss (seek s f).1

seek_all-IsInside : (ss : List Seek) (f : FileInfo) → IsInside f → IsInside (seek_all ss f)
seek_all-IsInside [] f h = h
seek_all-IsInside (s ∷ ss) f h = seek_all-IsInside ss (seek s f).1 (seek-IsInside s f h)

left-eq : (f : FileInfo) → IsInside f → f.current_offset + left f ≡ f.entry.size
unfolding left
left-eq f h = omega arith

eof-eq : (f : FileInfo) → IsInside f → eof f ≡ (left f == 0)
unfolding left eof
eof-eq f h = ground arith

-- After any sequence of seeks, failed ones included, the position of a file lies inside it, what is
-- left and the position add up to the size, and the end of the file is where nothing is left.
pub seek_all_lem :
    (ss : List Seek) (f : FileInfo)
    → IsInside f
    → let g = seek_all ss f in
      IsInside g × (g.current_offset + left g ≡ g.entry.size) × (eof g ≡ (left g == 0))
seek_all_lem ss f h =
    let i = seek_all-IsInside ss f h in (i, left-eq (seek_all ss f) i, eof-eq (seek_all ss f) i)
