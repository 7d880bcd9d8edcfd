-- ===== src/Filesystem/Filename.antt =====
-- embedded-sdmmc/src/filesystem/filename.rs: short (8.3) file names. A `str` is the list of its
-- code points, a name the list of its 11 bytes.
pub mod Parse
pub mod Print
use embedded_sdmmc_rs.Common.{
  ℕ, zero, suc, ◌+◌, ◌-◌, ◌*◌, ◌/◌, ◌%◌, Bool, true, false, List, [], ◌∷◌, ◌++◌,
}
use embedded_sdmmc_rs.Common.{
  ltb, leb, ◌==◌, if◌then◌else◌, ◌&&◌, ◌||◌, not, replicate, set, take, drop,
}
use embedded_sdmmc_rs.Common.{◌⊎◌, inl, inr}
use embedded_sdmmc_rs.Common.Action.{
  FilenameError, invalid_character, filename_empty, name_too_long, misplaced_period,
}

abbrev pub ShortFileName : Type 0
ShortFileName = List ℕ

-- `BASE_LEN` and `TOTAL_LEN`
abbrev pub base_len : ℕ
base_len = 8

abbrev pub total_len : ℕ
total_len = 11

abbrev pub space : ℕ
space = 0x20

abbrev pub dot : ℕ
dot = 0x2E

-- `parent_dir` and `this_dir`
abbrev pub parent_dir : ShortFileName
parent_dir = dot ∷ dot ∷ replicate 9 space

abbrev pub this_dir : ShortFileName
this_dir = dot ∷ replicate 10 space

unfoldable pub contains_char : List ℕ → ℕ → Bool
contains_char [] c = false
contains_char (x ∷ xs) c = if x == c then true else contains_char xs c

-- the characters that `create_from_str` refuses by name: `"*+,/:;<=>?[\] |`
abbrev pub refused : List ℕ
refused =
    0x22 ∷ 0x2A ∷ 0x2B ∷ 0x2C ∷ 0x2F ∷ 0x3A ∷ 0x3B ∷ 0x3C ∷ 0x3D ∷ 0x3E ∷ 0x3F ∷ 0x5B ∷ 0x5C ∷ 0x5D
    ∷ 0x20 ∷ 0x7C ∷ []

-- The two arms that return `InvalidCharacter`.
unfoldable pub is_invalid : ℕ → Bool
unfolding contains_char
is_invalid c = leb c 0x1F || contains_char refused c || ltb 0xFF c

-- `char::to_ascii_uppercase`
unfoldable pub to_ascii_uppercase : ℕ → ℕ
to_ascii_uppercase c = if leb 0x61 c && leb c 0x7A then c - 32 else c

-- the variables of the loop
pub record Building : Type 0 where
  pub contents : List ℕ
  pub idx : ℕ
  pub seen_dot : Bool

-- one byte of the name, in its last arm
put_char : ℕ → Building → FilenameError ⊎ Building
put_char b s =
    let stored = inr (record s { contents = set s.contents s.idx b; idx = s.idx + 1 }) in
    if s.seen_dot
    then if leb base_len s.idx && ltb s.idx total_len then stored else inl name_too_long
    else if ltb s.idx base_len
    then stored
    else inl name_too_long

-- one round of the loop
pub step : ℕ → Building → FilenameError ⊎ Building
unfolding put_char is_invalid to_ascii_uppercase
step ch s =
    if is_invalid ch
    then inl invalid_character
    else if ch == dot
    then if leb 1 s.idx && leb s.idx base_len
      then inr (record s { idx = base_len; seen_dot = true })
      else inl misplaced_period
    else put_char (to_ascii_uppercase ch) s

-- what the rest of the loop does after a round
then_rest :
    (Building → FilenameError ⊎ Building) → FilenameError ⊎ Building → FilenameError ⊎ Building
then_rest f (inl e) = inl e
then_rest f (inr s) = f s

pub steps : List ℕ → Building → FilenameError ⊎ Building
unfolding step then_rest
steps [] s = inr s
steps (ch ∷ chs) s = then_rest (steps chs) (step ch s)

finish : FilenameError ⊎ Building → FilenameError ⊎ ShortFileName
finish (inl e) = inl e
finish (inr s) = if s.idx == 0 then inl filename_empty else inr s.contents

abbrev pub blank_name : Building
blank_name = record { contents = replicate 11 space; idx = 0; seen_dot = false }

-- the special names, before the loop
special : List ℕ → Bool × ShortFileName
special [] = (true, this_dir)
special (c ∷ []) = (c == dot, this_dir)
special (c ∷ d ∷ []) = ((c == dot) && (d == dot), parent_dir)
special (c ∷ d ∷ e ∷ rest) = (false, [])

-- `ShortFileName::create_from_str`
pub create_from_str : List ℕ → FilenameError ⊎ ShortFileName
unfolding special steps finish
create_from_str name =
    let (is_special, sfn) = special name in
    if is_special then inr sfn else finish (steps name blank_name)

-- `bytes_before_space`: the bytes before the first space
pub bytes_before_space : List ℕ → List ℕ
bytes_before_space [] = []
bytes_before_space (b ∷ bs) = if b == space then [] else b ∷ bytes_before_space bs

pub base_name : ShortFileName → List ℕ
unfolding bytes_before_space
base_name sfn = bytes_before_space (take base_len sfn)

pub extension : ShortFileName → List ℕ
unfolding bytes_before_space
extension sfn = bytes_before_space (drop base_len sfn)

-- `u8::rotate_right(1)`
rotate_right1 : ℕ → ℕ
rotate_right1 b = b / 2 + b % 2 * 128

csum_from : ℕ → List ℕ → ℕ
unfolding rotate_right1
csum_from result [] = result
csum_from result (b ∷ bs) = csum_from ((rotate_right1 result + b) % 256) bs

-- `csum`
unfoldable pub csum : ShortFileName → ℕ
unfolding csum_from
csum sfn = csum_from 0 sfn

-- `Display::fmt`, without the padding that a width asks for: the printed characters from byte `i` on
print_from : ℕ → List ℕ → List ℕ
print_from i [] = []
print_from i (c ∷ cs) =
    if c == space
    then print_from (i + 1) cs
    else if i == base_len
    then dot ∷ c ∷ print_from (i + 1) cs
    else c ∷ print_from (i + 1) cs

pub print : ShortFileName → List ℕ
unfolding print_from
print sfn = print_from 0 sfn
