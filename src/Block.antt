-- ===== src/Block.antt =====
-- embedded-sdmmc-types/src/blockdevice.rs: blocks, block numbers and counts, the iterator over a
-- range of blocks, and the interface of a block device.
pub mod Range
use embedded_sdmmc_rs.Common.{ℕ, zero, suc, ◌+◌, ◌/◌, ◌*◌, Bool, List, [], ◌∷◌, Option, none, some}
use embedded_sdmmc_rs.Common.{add32, sub32, mul32, ltb, leb, ◌==◌, if◌then◌else◌, replicate}

-- `Block::LEN` and `Block::LEN_U32`
abbrev pub block_len : ℕ
block_len = 512

-- `Block::new`: a block full of zeros. A block is the list of its bytes.
abbrev pub new_block : List ℕ
new_block = replicate 512 0

-- What a device answers: it did what was asked, or it failed with an error of its own.
pub data Answer : Type 0 where
  done : Answer
  failed : ℕ → Answer

-- `BlockDevice`, for one block at a time, as the cache uses it. `read` fills the buffer that it
-- is given. The device is not under the repository's control: it is a parameter of the model.
pub record BlockDevice (D : Type 0) : Type 0 where
  pub read : List ℕ → ℕ → D → Answer × List ℕ × D
  pub write : List ℕ → ℕ → D → Answer × D

-- `BlockIdx::into_bytes`, a `u64`: it cannot wrap.
pub into_bytes : ℕ → ℕ
into_bytes idx = idx * 512

-- `BlockIdx + BlockCount`, `BlockCount + BlockCount`, and the two subtractions
abbrev pub add_blocks : ℕ → ℕ → ℕ
add_blocks a b = add32 a b

abbrev pub sub_blocks : ℕ → ℕ → ℕ
sub_blocks a b = sub32 a b

-- `BlockCount::from_bytes`
unfoldable pub from_bytes : ℕ → ℕ
from_bytes byte_count =
    let count = byte_count / 512 in if mul32 count 512 == byte_count then count else add32 count 1

-- `BlockCount::offset_bytes`
unfoldable pub offset_bytes : ℕ → ℕ → ℕ
offset_bytes count offset = add32 count (offset / 512)

pub record BlockIter : Type 0 where
  pub inclusive_end : ℕ
  pub current : ℕ

-- `BlockIter::new`
pub new_iter : ℕ → ℕ → BlockIter
new_iter start inclusive_end = record { inclusive_end = inclusive_end; current = start }

-- `Iterator::next`
unfoldable pub next : BlockIter → Option ℕ × BlockIter
next it =
    if leb it.inclusive_end it.current
    then (none, it)
    else (some it.current, record it { current = add_blocks it.current 1 })

-- `BlockIdx::range`
pub range : ℕ → ℕ → BlockIter
unfolding new_iter
range idx num = new_iter idx (add_blocks idx num)

-- A `for` loop over an iterator: the indices that it visits, with fuel for the rounds.
pub collect : ℕ → BlockIter → Option (List ℕ)
collect zero it = none
collect (suc fuel) it =
    let (item, it') = next it in
    elim item [
      | none ↦ some []
      | some idx ↦ elim (collect fuel it') [ none ↦ none | some rest ↦ some (idx ∷ rest) ]
    ]
