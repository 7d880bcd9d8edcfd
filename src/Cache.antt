-- ===== src/Cache.antt =====
-- `BlockCache` (embedded-sdmmc/src/lib.rs): a cache of one block in front of a device.
pub mod View
use embedded_sdmmc_rs.Common.{ℕ, Bool, true, false, List, [], ◌∷◌, Option, none, some}
use embedded_sdmmc_rs.Common.{◌==◌, if◌then◌else◌, replicate, length}
use embedded_sdmmc_rs.Common.Action.{
  Action, Result, ok, err, panic, Error, device_error, ◌>>=◌, ◌>>◌,
}
use embedded_sdmmc_rs.Block.{BlockDevice, Answer, done, failed, new_block}

pub record BlockCache (D : Type 0) : Type 0 where
  pub block_device : D
  pub block : List ℕ
  pub block_idx : Option ℕ

-- `self.block_idx == Some(idx)`
abbrev pub holds : Option ℕ → ℕ → Bool
holds none idx = false
holds (some i) idx = i == idx

module _ {D : Type 0} where
  pub new : D → BlockCache D
  new d = record { block_device = d; block = new_block; block_idx = none }

  -- The caller's change of the block that `read_mut` or `blank_mut` lends.
  unfoldable pub modify_block : (List ℕ → List ℕ) → Action (BlockCache D) (Unit {0})
  modify_block f c = (ok tt, record c { block = f c.block })

  -- `blank_mut`
  pub blank_mut : ℕ → Action (BlockCache D) (Unit {0})
  blank_mut idx c = (ok tt, record c { block = new_block; block_idx = some idx })

  -- `block_device`: the caller gets the device, and the cache forgets its block.
  pub block_device : (D → D) → BlockCache D → BlockCache D
  block_device f c = record c { block_device = f c.block_device; block_idx = none }

module _ {D : Type 0} ⦃dev : BlockDevice D⦄ where
  -- the device's answer to a read of the block that the cache wants
  fetched : ℕ → Answer × List ℕ × D → Result (List ℕ) × BlockCache D
  fetched idx (done, b, d) = (ok b, record { block_device = d; block = b; block_idx = some idx })
  fetched idx (failed e, b, d) =
      (err (device_error e), record { block_device = d; block = b; block_idx = none })

  -- `read` and `read_mut`: the same code, but for the mutability of the reference that it returns
  pub read : ℕ → Action (BlockCache D) (List ℕ)
  unfolding fetched
  read idx c =
      if holds c.block_idx idx
      then (ok c.block, c)
      else fetched idx (dev.read c.block idx c.block_device)

  -- `self.block_device.write(&self.block, idx)`
  pub write_to : ℕ → Action (BlockCache D) (Unit {0})
  write_to idx c =
      let (a, d) = dev.write c.block idx c.block_device in
      elim a [
        | done ↦ (ok tt, record c { block_device = d })
        | failed e ↦ (err (device_error e), record c { block_device = d })
      ]

  -- `write_back`, which panics if no block was read
  pub write_back : Action (BlockCache D) (Unit {0})
  unfolding write_to
  write_back c = elim c.block_idx [ none ↦ (panic, c) | some idx ↦ write_to idx c ]

  pub write_back_with_duplicate : ℕ → Action (BlockCache D) (Unit {0})
  unfolding write_back
  write_back_with_duplicate duplicate = write_back >> write_to duplicate

  -- `if let Some(duplicate) = copy { write_back_with_duplicate(duplicate) } else { write_back() }`
  unfoldable pub write_copies : Option ℕ → Action (BlockCache D) (Unit {0})
  write_copies none = write_back
  write_copies (some duplicate) = write_back_with_duplicate duplicate
