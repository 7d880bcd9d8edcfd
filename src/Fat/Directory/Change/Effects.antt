-- ===== src/Fat/Directory/Change/Effects.antt =====
-- What the deletion of an entry, a new entry, and the update of an entry do to the disk.
use embedded_sdmmc_rs.Common.{ℕ, ◌+◌, ◌*◌, ◌<◌, ◌≤◌, ◌≡◌, ◌≢◌, refl, ◌∙◌, ap, arith, length, ◌⊎◌}
use embedded_sdmmc_rs.Common.{true, false, List, some, leb, if◌then◌else◌, ==_self, ==_ne, set}
use embedded_sdmmc_rs.Common.Bytes.{put_bytes}
use embedded_sdmmc_rs.Common.Action.{pure, ok, err, not_found, ◌>>=◌}
use embedded_sdmmc_rs.Block.{BlockDevice}
use embedded_sdmmc_rs.Cache.{BlockCache, read, modify_block, write_back}
use embedded_sdmmc_rs.Cache.View.{
  Blocks, Working, blocks, put_block, IsCoherent, Yields, read-Yields, modify_read-Yields,
  Yields-bind, Yields-stored, lift-Yields,
}
use embedded_sdmmc_rs.Filesystem.Cluster
use embedded_sdmmc_rs.Filesystem.Attributes.{Attributes}
use embedded_sdmmc_rs.Filesystem.Timestamp.{Timestamp}
use embedded_sdmmc_rs.Filesystem.Timestamp.RoundTrip.{IsDate}
use embedded_sdmmc_rs.Filesystem.Filename.{ShortFileName}
use embedded_sdmmc_rs.Filesystem.DirEntry.{DirEntry, new_entry, serialize}
use embedded_sdmmc_rs.Fat.Volume.{FatVolume, FatType, fat16, fat32, get_fat_type}
use embedded_sdmmc_rs.Fat.Table.Spec.{HasBlocks}
use embedded_sdmmc_rs.Fat.OnDisk.{matches, is_end, is_valid, get_entry}
use embedded_sdmmc_rs.Fat.OnDisk.RoundTrip.{
  IsStorable, cluster_bound, restored, get_entry-serialize, length-serialize,
}
use embedded_sdmmc_rs.Fat.Directory.{chunk, entries_per_block}
use embedded_sdmmc_rs.Fat.Directory.Change.{
  free_slot, named_slot, fill_slot, delete_entry_in_block, write_entry_to_disk,
}
use embedded_sdmmc_rs.Fat.Directory.Change.Slots.{
  chunk-set, slot_side, chunk-put_bytes, chunk-put_bytes_ne, deleted_entry, free_slot-some,
  named_slot-first, named_slot-none,
}

slot_fits :
    (d : Blocks) (idx i : ℕ)
    → HasBlocks d
    → i < 0 + entries_per_block
    → i * 32 + 32 ≤ length (d idx)
slot_fits d idx i h lt = omega (arith, h idx)

put_block_self : (d : Blocks) (idx : ℕ) (b : List ℕ) → put_block d idx b idx ≡ b
put_block_self d idx b = rw (==_self idx, if◌then◌else◌) refl

put_block_ne : (d : Blocks) (idx c : ℕ) (b : List ℕ) → idx ≢ c → put_block d idx b c ≡ d c
put_block_ne d idx c b ne = rw (==_ne idx c ne, if◌then◌else◌) refl

other_entry :
    (i j : ℕ) (xs bs : List ℕ)
    → length bs ≡ 32
    → i ≢ j
    → chunk j (put_bytes xs (i * 32) bs) ≡ chunk j xs
other_entry i j xs bs len ne =
    let z : i * 32 ≡ i * 32 + 0 = omega arith in
    ap (λ (o : ℕ). chunk j (put_bytes xs o bs)) z
    ∙ chunk-put_bytes_ne i j 0 xs bs ne (omega (arith, len))

-- A new entry is storable.
stored_entry :
    (t : FatType) (name : ShortFileName) (att : Attributes) (now : Timestamp) (idx offset : ℕ)
    → length name ≡ 11
    → IsDate now
    → let e = new_entry name att Cluster.empty now idx offset in
      get_entry t idx offset (serialize e t) ≡ restored e
unfolding new_entry
stored_entry t name att now idx offset len date =
    get_entry-serialize t (new_entry name att Cluster.empty now idx offset) (record {
      name = len;
      modified = date;
      created = date;
      cluster = bound t;
      size = omega arith;
    })
  where
    bound : (t : FatType) → 0 < cluster_bound t
    bound fat16 = omega arith
    bound fat32 = omega arith

module _ {D : Type 0} ⦃dev : BlockDevice D⦄ (w : Working dev) where
  delete-Yields :
      (name : ShortFileName) (idx i : ℕ) (k : BlockCache D)
      → IsCoherent w k
      → named_slot entries_per_block 0 name (blocks w k idx) ≡ some i
      → Yields w
          (delete_entry_in_block name idx k)
          (ok tt)
          (put_block (blocks w k) idx (set (blocks w k idx) (i * 32) 0xE5))
  unfolding delete_entry_in_block
  delete-Yields name idx i k co e =
      let y = read-Yields w idx k co in
      rw (y.result, ◌>>=◌) (rw e (modify_read-Yields w idx (λ b. set b (i * 32) 0xE5) k co))

  -- On a device that works, the deletion in a block of a name that the block holds succeeds: the
  -- entry `i` that is chosen has the name, and afterwards it is neither valid nor an end mark; the
  -- other entries `j` of the block and the other blocks `b` stay as they were.
  pub delete_entry_in_block_lem :
      (name : ShortFileName) (idx i j b : ℕ) (k : BlockCache D)
      → IsCoherent w k
      → HasBlocks (blocks w k)
      → named_slot entries_per_block 0 name (blocks w k idx) ≡ some i
      → i ≢ j
      → idx ≢ b
      → let out = delete_entry_in_block name idx k in
        (out.0 ≡ ok tt)
        × (matches (chunk i (blocks w k idx)) name ≡ true)
        × (is_valid (chunk i (blocks w out.1 idx)) ≡ false)
        × (is_end (chunk i (blocks w out.1 idx)) ≡ false)
        × (chunk j (blocks w out.1 idx) ≡ chunk j (blocks w k idx))
        × (blocks w out.1 b ≡ blocks w k b)
  delete_entry_in_block_lem name idx i j b k co hb e ne other =
      let d = blocks w k in
      let y = delete-Yields name idx i k co e in
      let s = named_slot-first entries_per_block 0 i name (d idx) e in
      let after : blocks w (delete_entry_in_block name idx k).1 idx ≡ set (d idx) (i * 32) 0xE5 =
        ap (λ (d : Blocks). d idx) y.stored ∙ put_block_self d idx (set (d idx) (i * 32) 0xE5) in
      (
        y.result,
        s.2,
        ap (λ (t : List ℕ). is_valid (chunk i t)) after
            ∙ (deleted_entry i (d idx) (slot_fits d idx i hb s.1)).0,
        ap (λ (t : List ℕ). is_end (chunk i t)) after
            ∙ (deleted_entry i (d idx) (slot_fits d idx i hb s.1)).1,
        ap (chunk j) after ∙ chunk-set j (i * 32) (d idx) 0xE5 (slot_side i j ne),
        ap (λ (d : Blocks). d b) y.stored ∙ put_block_ne d idx b (set (d idx) (i * 32) 0xE5) other,
      )

  -- On a device that works, the deletion in a block of a name reports `NotFound` and changes
  -- nothing, if none of the entries before `stop` has the name, and `stop` is the block's end or the
  -- entry there is an end mark. What stands after an end mark makes no difference.
  pub delete_entry_in_block-none :
      (name : ShortFileName) (idx stop : ℕ) (k : BlockCache D)
      → IsCoherent w k
      → stop ≤ 16
      → ((j : ℕ) → j < stop → matches (chunk j (blocks w k idx)) name ≡ false)
      → (stop ≡ 16) ⊎ (is_end (chunk stop (blocks w k idx)) ≡ true)
      → Yields w (delete_entry_in_block name idx k) (err not_found) (blocks w k)
  unfolding delete_entry_in_block
  delete_entry_in_block-none name idx stop k co le other last =
      let y = read-Yields w idx k co in
      let e =
        named_slot-none entries_per_block 0 stop name (blocks w k idx) (omega arith) le
          (λ j low lt. other j lt) last in
      rw (y.result, ◌>>=◌)
        (rw e (record { result = refl; coherent = y.coherent; stored = y.stored }))

  fill-Yields :
      (v : FatVolume) (name : ShortFileName) (att : Attributes) (now : Timestamp) (idx i : ℕ)
      (k : BlockCache D)
      → IsCoherent w k
      → free_slot entries_per_block 0 (blocks w k idx) ≡ some i
      → let e = new_entry name att Cluster.empty now idx (i * 32) in
        Yields w (fill_slot v name att now idx k) (ok (some e)) (
          put_block
            (blocks w k)
            idx
            (put_bytes (blocks w k idx) (i * 32) (serialize e (get_fat_type v))))
  unfolding fill_slot
  fill-Yields v name att now idx i k co s =
      let e = new_entry name att Cluster.empty now idx (i * 32) in
      let y = read-Yields w idx k co in
      let f : List ℕ → List ℕ = λ b. put_bytes b (i * 32) (serialize e (get_fat_type v)) in
      let z = modify_read-Yields w idx f k co in
      let c1 = (read idx k).1 in
      let c2 : BlockCache D = record c1 { block = f c1.block } in
      rw (y.result, ◌>>=◌)
        (rw s (
          unfold modify_block in
          Yields-bind w write_back (λ _. pure (some e)) c2 tt (ok (some e)) _ _ z
            (Yields-stored w (lift-Yields w (ok (some e)) (write_back c2).1 z.coherent) z.stored)))

  -- On a device that works, if slot `i` of a block is not in use and all slots before it are, then
  -- a new entry goes into slot `i`, and is read back from it as it was made, with the seconds of its
  -- dates rounded down. The other entries `j` of the block and the other blocks `b` stay as they
  -- were.
  pub fill_slot_lem :
      (v : FatVolume) (name : ShortFileName) (att : Attributes) (now : Timestamp) (idx i j b : ℕ)
      (k : BlockCache D)
      → IsCoherent w k
      → HasBlocks (blocks w k)
      → i < 16
      → ((before : ℕ) → before < i → is_valid (chunk before (blocks w k idx)) ≡ true)
      → is_valid (chunk i (blocks w k idx)) ≡ false
      → length name ≡ 11
      → IsDate now
      → i ≢ j
      → idx ≢ b
      → let out = fill_slot v name att now idx k in
        let e = new_entry name att Cluster.empty now idx (i * 32) in
        (out.0 ≡ ok (some e))
        × (get_entry (get_fat_type v) idx (i * 32) (chunk i (blocks w out.1 idx)) ≡ restored e)
        × (chunk j (blocks w out.1 idx) ≡ chunk j (blocks w k idx))
        × (blocks w out.1 b ≡ blocks w k b)
  fill_slot_lem v name att now idx i j b k co hb lt used free len date ne other =
      let d = blocks w k in
      let s =
        free_slot-some entries_per_block 0 i (d idx) (omega arith) lt
          (λ before low lt. used before lt) free in
      let t = get_fat_type v in
      let e = new_entry name att Cluster.empty now idx (i * 32) in
      let y = fill-Yields v name att now idx i k co s in
      let bytes = put_bytes (d idx) (i * 32) (serialize e t) in
      let after : blocks w (fill_slot v name att now idx k).1 idx ≡ bytes =
        ap (λ (d : Blocks). d idx) y.stored ∙ put_block_self d idx bytes in
      (
        y.result,
        ap (λ (x : List ℕ). get_entry t idx (i * 32) (chunk i x)) after
            ∙ ap (get_entry t idx (i * 32)) (
                chunk-put_bytes i (d idx) (serialize e t) (length-serialize e t)
                  (slot_fits d idx i hb lt))
            ∙ stored_entry t name att now idx (i * 32) len date,
        ap (chunk j) after ∙ other_entry i j (d idx) (serialize e t) (length-serialize e t) ne,
        ap (λ (d : Blocks). d b) y.stored ∙ put_block_ne d idx b bytes other,
      )

  write-Yields :
      (v : FatVolume) (e : DirEntry) (k : BlockCache D)
      → IsCoherent w k
      → e.entry_offset + 32 ≤ 512
      → Yields w (write_entry_to_disk v e k) (ok tt) (
          put_block
            (blocks w k)
            e.entry_block
            (put_bytes (blocks w k e.entry_block) e.entry_offset (serialize e (get_fat_type v))))
  unfolding write_entry_to_disk
  write-Yields v e k co fits =
      let y = read-Yields w e.entry_block k co in
      let inside : leb (e.entry_offset + 32) 512 ≡ true = ground arith in
      rw (y.result, ◌>>=◌)
        (rw (inside, if◌then◌else◌)
          (modify_read-Yields w e.entry_block
            (λ b. put_bytes b e.entry_offset (serialize e (get_fat_type v))) k co))

  -- On a device that works, an entry that is written to its place, slot `i` of its block, is read
  -- back from there as it was, with the seconds of its dates rounded down and with cluster 0 of a
  -- directory read as the root. The other entries `j` of the block and the other blocks `b` stay as
  -- they were.
  pub write_entry_to_disk_lem :
      (v : FatVolume) (e : DirEntry) (i j b : ℕ) (k : BlockCache D)
      → IsCoherent w k
      → HasBlocks (blocks w k)
      → IsStorable (get_fat_type v) e
      → e.entry_offset ≡ i * 32
      → i < 16
      → i ≢ j
      → e.entry_block ≢ b
      → let out = write_entry_to_disk v e k in
        (out.0 ≡ ok tt)
        × (get_entry
              (get_fat_type v)
              e.entry_block
              e.entry_offset
              (chunk i (blocks w out.1 e.entry_block))
            ≡ restored e)
        × (chunk j (blocks w out.1 e.entry_block) ≡ chunk j (blocks w k e.entry_block))
        × (blocks w out.1 b ≡ blocks w k b)
  write_entry_to_disk_lem v e i j b k co hb st at lt ne other =
      let d = blocks w k in
      let t = get_fat_type v in
      let idx = e.entry_block in
      let y = write-Yields v e k co (omega (arith, at)) in
      let bytes = put_bytes (d idx) e.entry_offset (serialize e t) in
      let here : bytes ≡ put_bytes (d idx) (i * 32) (serialize e t) =
        ap (λ (o : ℕ). put_bytes (d idx) o (serialize e t)) at in
      let after : blocks w (write_entry_to_disk v e k).1 idx
          ≡ put_bytes (d idx) (i * 32) (serialize e t) =
        ap (λ (d : Blocks). d idx) y.stored ∙ put_block_self d idx bytes ∙ here in
      (
        y.result,
        ap (λ (x : List ℕ). get_entry t idx e.entry_offset (chunk i x)) after
            ∙ ap (get_entry t idx e.entry_offset) (
                chunk-put_bytes i (d idx) (serialize e t) (length-serialize e t)
                  (slot_fits d idx i hb (omega arith)))
            ∙ get_entry-serialize t e st,
        ap (chunk j) after ∙ other_entry i j (d idx) (serialize e t) (length-serialize e t) ne,
        ap (λ (d : Blocks). d b) y.stored ∙ put_block_ne d idx b bytes other,
      )
