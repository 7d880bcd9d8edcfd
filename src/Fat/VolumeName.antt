-- ===== src/Fat/VolumeName.antt =====
-- embedded-sdmmc/src/fat/volume.rs: the label of a volume (`VolumeName`), whose characters are
-- numbers up to 255.
pub mod Trim
use embedded_sdmmc_rs.Common.{ℕ, zero, suc, ◌+◌, Bool, true, false, List, [], ◌∷◌, ◌⊎◌, inl, inr}
use embedded_sdmmc_rs.Common.{◌==◌, ◌||◌, leb, ltb, if◌then◌else◌, set, replicate}
use embedded_sdmmc_rs.Common.Action.{
  FilenameError, invalid_character, name_too_long, filename_empty,
}
use embedded_sdmmc_rs.Filesystem.Filename.{ShortFileName}

-- eleven bytes
abbrev pub VolumeName : Type 0
VolumeName = List ℕ

-- `u8::is_ascii_whitespace`
unfoldable pub is_ascii_whitespace : ℕ → Bool
is_ascii_whitespace b = (b == 32) || (b == 9) || (b == 10) || (b == 12) || (b == 13)

-- The loop of `name`, which takes whitespace off the end: a byte stays if it is no whitespace, or
-- if a byte after it stays.
unfoldable pub name : VolumeName → List ℕ
name [] = []
name (b ∷ bs) = elim (name bs) [
  | [] ↦ if is_ascii_whitespace b then [] else b ∷ []
  | c ∷ cs ↦ b ∷ c ∷ cs
]

-- the characters that `create_from_str` refuses
unfoldable pub is_reserved : ℕ → Bool
is_reserved c =
    leb c 0x1F
    || (c == b'"')
    || (c == b'*')
    || (c == b'+')
    || (c == b',')
    || (c == b'/')
    || (c == b':')
    || (c == b';')
    || (c == b'<')
    || (c == b'=')
    || (c == b'>')
    || (c == b'?')
    || (c == b'[')
    || (c == 0x5C)
    || (c == b']')
    || (c == b'.')
    || (c == b'|')
    || ltb 0xFF c

-- the loop of `create_from_str`
unfoldable pub fill_name : List ℕ → ℕ → VolumeName → FilenameError ⊎ (VolumeName × ℕ)
unfolding is_reserved
fill_name [] idx contents = inr (contents, idx)
fill_name (ch ∷ chs) idx contents =
    let rest = fill_name chs (idx + 1) (set contents idx ch) in
    if is_reserved ch then inl invalid_character else if ltb idx 11 then rest else inl name_too_long

abbrev pub finish_name : FilenameError ⊎ (VolumeName × ℕ) → FilenameError ⊎ VolumeName
finish_name (inl e) = inl e
finish_name (inr (contents, idx)) = if idx == 0 then inl filename_empty else inr contents

-- `VolumeName::create_from_str`
unfoldable pub create_from_str : List ℕ → FilenameError ⊎ VolumeName
unfolding fill_name
create_from_str chs = finish_name (fill_name chs 0 (replicate 11 32))

-- `VolumeName::to_short_filename` and `ShortFileName::to_volume_label`
unfoldable pub to_short_filename : VolumeName → ShortFileName
to_short_filename label = label

unfoldable pub to_volume_label : ShortFileName → VolumeName
to_volume_label sfn = sfn
