-- ===== src/Manager/Write/Store.antt =====
-- What `write_block` stores, and the file after some bytes were written.
use embedded_sdmmc_rs.Common.{
  ℕ, ◌+◌, ◌≤◌, ◌<◌, ◌≡◌, refl, ap, sym, ◌∙◌, subst, arith, true, List, inl, inr,
}
use embedded_sdmmc_rs.Common.{
  ltb, le→ltb, ◌==◌, ◌&&◌, if◌then◌else◌, length, u32_mod, add32, Bool-cases, length-replicate,
}
use embedded_sdmmc_rs.Common.Bytes.{put_bytes, put_bytes-whole}
use embedded_sdmmc_rs.Common.Action.{Action, Result, ok, pure, ◌>>=◌, ◌>>◌, >>=-ok}
use embedded_sdmmc_rs.Block.{BlockDevice, new_block}
use embedded_sdmmc_rs.Cache.{BlockCache, read, blank_mut, modify_block, write_back}
use embedded_sdmmc_rs.Cache.View.{
  Working, blocks, IsCoherent, Yields, Yields-stored, put_block, read-Yields, modify_read-Yields,
  blank_write-Yields,
}
use embedded_sdmmc_rs.Filesystem.Files.{FileInfo, seek_from_start, update_length}
use embedded_sdmmc_rs.Manager.Transfer.{Place, Found, set_place}
use embedded_sdmmc_rs.Manager.Write.{wrote}

-- the part of a block that is written into
abbrev pub IsRoom : Found → List ℕ → Type 0
IsRoom at bytes = (at.block_offset + at.available ≡ 512) × (length bytes ≤ at.available)

whole_block :
    (at : Found) (bytes : List ℕ)
    → ((at.block_offset == 0) && (length bytes == at.available)) ≡ true
    → IsRoom at bytes
    → (at.block_offset ≡ 0) × (length bytes ≡ 512)
whole_block at bytes e room = ground (arith, room)

module _ {D : Type 0} ⦃dev : BlockDevice D⦄ where
  -- the action on the cache of `write_block`
  abbrev pub store : Found → List ℕ → Action (BlockCache D) (Unit {0})
  store at bytes =
      (if (at.block_offset == 0) && (length bytes == at.available)
        then blank_mut at.block_idx
        else (read at.block_idx >>= λ _. pure tt))
      >>= λ _. modify_block (λ b. put_bytes b at.block_offset bytes) >> write_back

module _ {D : Type 0} ⦃dev : BlockDevice D⦄ (w : Working dev) where
  -- Whether or not the whole block is replaced, the bytes are put into what the device stores.
  pub store-Yields :
      (at : Found) (bytes : List ℕ) (k : BlockCache D)
      → IsCoherent w k
      → IsRoom at bytes
      → length (blocks w k at.block_idx) ≡ 512
      → Yields w (store at bytes k) (ok tt) (
          put_block
            (blocks w k)
            at.block_idx
            (put_bytes (blocks w k at.block_idx) at.block_offset bytes))
  store-Yields at bytes k h room full =
      let put = λ (b : List ℕ). put_bytes b at.block_offset bytes in
      let rest = modify_block put >> write_back in
      elim (Bool-cases ((at.block_offset == 0) && (length bytes == at.available))) [
        | inl all ↦
            let parts = whole_block at bytes all room in
            let same : put new_block ≡ put (blocks w k at.block_idx) =
              ap (λ i. put_bytes new_block i bytes) parts.0
              ∙ put_bytes-whole new_block bytes (parts.1 ∙ sym (length-replicate {A = ℕ} 512 0))
              ∙ sym (put_bytes-whole (blocks w k at.block_idx) bytes (parts.1 ∙ sym full))
              ∙ ap (λ i. put_bytes (blocks w k at.block_idx) i bytes) (sym parts.0) in
            rw (all, if◌then◌else◌)
              (Yields-stored w (blank_write-Yields w at.block_idx put k)
                (ap (put_block (blocks w k) at.block_idx) same))
        | inr part ↦
            let y = read-Yields w at.block_idx k h in
            let fetch : Action (BlockCache D) (Unit {0}) = read at.block_idx >>= λ _. pure tt in
            let k' = (read at.block_idx k).1 in
            let fetched : fetch k ≡ (ok tt, k') =
              >>=-ok (read at.block_idx) (λ _. pure tt) k (blocks w k at.block_idx) k'
                (ap (λ (r : Result (List ℕ)). (r, k')) y.result) in
            rw (part, if◌then◌else◌)
              (subst
                (λ (out : Result (Unit {0}) × BlockCache D).
                  Yields w out (ok tt)
                    (put_block (blocks w k) at.block_idx (put (blocks w k at.block_idx))))
                (sym (>>=-ok fetch (λ _. rest) k tt k' fetched))
                (modify_read-Yields w at.block_idx put k h))
      ]

-- the file after `n` bytes were written at its position, in a cluster with a place
abbrev pub advanced : Place → ℕ → FileInfo → FileInfo
advanced place n f =
    let end = f.current_offset + n in
    record (set_place place f) {
      current_offset = end;
      entry = record f.entry { size = if ltb f.entry.size end then end else f.entry.size };
    }

pub wrote-advanced :
    (place : Place) (n : ℕ) (f : FileInfo)
    → f.current_offset + n < u32_mod
    → wrote n (set_place place f) ≡ (ok tt, advanced place n f)
unfolding wrote seek_from_start update_length
wrote-advanced place n f small =
    let end = f.current_offset + n in
    let new_offset : add32 f.current_offset n ≡ end = omega arith in
    elim (Bool-cases (ltb f.entry.size end)) [
      | inl longer ↦
          rw (new_offset, longer, if◌then◌else◌)
            (rw (le→ltb end end (omega arith), if◌then◌else◌) refl)
      | inr within ↦ rw (new_offset, within, if◌then◌else◌) (rw (within, if◌then◌else◌) refl)
    ]
