-- ===== src/Manager/Write/Round.antt =====
-- What a round of `write` does, in the clusters that the file has: the bytes go into the block of
-- the file's position.
use embedded_sdmmc_rs.Common.{
  ℕ, ◌+◌, ◌-◌, ◌%◌, ◌≤◌, ◌<◌, min, ◌≡◌, refl, ap, sym, ◌∙◌, subst, arith, Bool, true, false, List,
  some,
}
use embedded_sdmmc_rs.Common.{
  ==_self, ◌==◌, if◌then◌else◌, length, length-take, take, drop, get_elem?, set, u32_mod,
}
use embedded_sdmmc_rs.Common.Bytes.{put_bytes, take-put_bytes, length-put_bytes}
use embedded_sdmmc_rs.Common.Action.{Action, Result, ok, pure, ◌>>=◌, ◌>>◌, >>=-ok}
use embedded_sdmmc_rs.Block.{BlockDevice}
use embedded_sdmmc_rs.Cache.{BlockCache}
use embedded_sdmmc_rs.Cache.View.{Working, Blocks, blocks, IsCoherent, put_block}
use embedded_sdmmc_rs.Filesystem.Cluster.{ClusterId}
use embedded_sdmmc_rs.Filesystem.Files.{FileInfo}
use embedded_sdmmc_rs.Fat.Volume.{FatVolume}
use embedded_sdmmc_rs.Fat.Table.Spec.{HasBlocks}
use embedded_sdmmc_rs.Fat.Alloc.Chain.{IsChain}
use embedded_sdmmc_rs.Manager.{Manager, VolumeInfo, at_index, file_at, on_cache}
use embedded_sdmmc_rs.Manager.Transfer.{
  Place, Found, find_data_on_disk, find_data, place_of, set_place,
}
use embedded_sdmmc_rs.Manager.Transfer.Locate.{location, place_in, find_data_on_disk-location}
use embedded_sdmmc_rs.Manager.Transfer.Bytes.{file_bytes, block-file_bytes}
use embedded_sdmmc_rs.Manager.Transfer.Read.{
  IsReading, HasClusters, find_data-of, positive, quotient, get_elem?-set,
}
use embedded_sdmmc_rs.Manager.Write.{write_round, write_block, wrote, finish_round, extend_at_end}
use embedded_sdmmc_rs.Manager.Write.Store.{store, store-Yields, advanced, wrote-advanced}

module _ {D : Type 0} ⦃dev : BlockDevice D⦄ (fi vi : ℕ) where
  -- a round in which every step succeeds
  write_round-of :
      (s : Manager D) (f h : FileInfo) (at : Found) (place : Place) (k1 k2 : BlockCache D)
      (rest : List ℕ) (n : ℕ)
      → get_elem? s.open_files fi ≡ some f
      → find_data vi f (place_of f) s ≡ (ok (ok at, place), record s { block_cache = k1 })
      → min at.available (length rest) ≡ n
      → store at (take n rest) k1 ≡ (ok tt, k2)
      → wrote n (set_place place f) ≡ (ok tt, h)
      → write_round fi vi rest s
        ≡ (ok n, record s { block_cache = k2; open_files = set s.open_files fi h })
  unfolding write_round extend_at_end write_block
  write_round-of s f h at place k1 k2 rest n file found count stored moved =
      let s1 = record s { block_cache = k1 } in
      let s2 = record s { block_cache = k2 } in
      let end : FileInfo → Place → ℕ → Action (Manager D) ℕ =
        λ f p x. finish_round fi (wrote x (set_place p f)) >> pure x in
      let last : FileInfo → Found × Place → ℕ → Action (Manager D) ℕ =
        λ f y x. write_block y.0 (take x rest) >> end f y.1 x in
      let second = λ (f : FileInfo) (r : Result Found × Place).
        extend_at_end vi f r >>= λ y. last f y (min y.0.available (length rest)) in
      >>=-ok (file_at fi) (λ f. find_data vi f (place_of f) >>= second f) s f s
        (ap (λ o. (at_index o, s)) file)
      ∙ >>=-ok (find_data vi f (place_of f)) (second f) s (ok at, place) s1 found
      ∙ ap (λ x. last f (at, place) x s1) count
      ∙ >>=-ok (on_cache (store at (take n rest))) (λ _. end f place n) s1 tt s2
          (ap (λ (o : Result (Unit {0}) × BlockCache D). (o.0, record s { block_cache = o.1 }))
            stored)
      ∙ ap (λ out. (finish_round fi out >> pure n) s2) moved

pub put_block-HasBlocks :
    (d : Blocks) (i : ℕ) (b : List ℕ) → HasBlocks d → length b ≡ 512 → HasBlocks (put_block d i b)
put_block-HasBlocks d i b full e j = go (i == j)
  where
    go : (x : Bool) → length (if x then b else d j) ≡ 512
    go true = e
    go false = full j

put_block_self : (d : Blocks) (i : ℕ) (b : List ℕ) → put_block d i b i ≡ b
put_block_self d i b = ap (λ (x : Bool). if x then b else d i) (==_self i)

module _ {D : Type 0} ⦃dev : BlockDevice D⦄ (w : Working dev) (fi vi : ℕ) (info : VolumeInfo)
    (c : ClusterId) (ns : List ClusterId) (d : Blocks) (m : ℕ) where
  abbrev v : FatVolume
  v = info.volume_type

  -- how many bytes a round writes, and the blocks of the disk after it
  abbrev pub written_size : FileInfo → List ℕ → ℕ
  written_size f rest = min (512 - f.current_offset % 512) (length rest)

  abbrev pub disk_after : FileInfo → List ℕ → Blocks
  disk_after f rest =
      let at = location v c ns f.current_offset in
      put_block d at.block_idx
        (put_bytes (d at.block_idx) at.block_offset (take (written_size f rest) rest))

  -- What a round leaves: the file with the bytes at its position, which has moved past them, and
  -- the size, which has grown if they went past the end; no block but that one has changed.
  pub record HasWritten (s : Manager D) (f : FileInfo) (rest : List ℕ) : Type 0 where
    pub file :
        get_elem? s.open_files fi
        ≡ some (advanced (place_in v c ns f.current_offset) (written_size f rest) f)
    pub volume : get_elem? s.open_volumes vi ≡ some info
    pub coherent : IsCoherent w s.block_cache
    pub stored : blocks w s.block_cache ≡ disk_after f rest
    pub bytes :
        file_bytes v c ns (blocks w s.block_cache) f.current_offset (written_size f rest)
        ≡ take (written_size f rest) rest

  file_bytes-after :
      (f : FileInfo) (rest : List ℕ) (limit : ℕ)
      → HasClusters w fi vi info c ns d m limit
      → file_bytes v c ns (disk_after f rest) f.current_offset (written_size f rest)
        ≡ take (written_size f rest) rest
  file_bytes-after f rest limit has =
      let o = f.current_offset in
      let n = written_size f rest in
      let i = (location v c ns o).block_idx in
      let xs = take n rest in
      let B = put_bytes (d i) (o % 512) xs in
      let len : length xs ≡ n = omega (arith, length-take n rest) in
      let full =
        put_block-HasBlocks d i B has.full (length-put_bytes xs (d i) (o % 512) ∙ has.full i) in
      let fits : o % 512 + length xs ≤ length (d i) = omega (arith, len, has.full i) in
      sym (
        sym (take-put_bytes (d i) (o % 512) xs fits)
        ∙ ap (λ x. take x (drop (o % 512) B)) len
        ∙ ap (λ (b : List ℕ). take n (drop (o % 512) b)) (sym (put_block_self d i B))
        ∙ ap (λ x. take n (drop x (put_block d i B i))) (omega arith)
        ∙ block-file_bytes v c ns (disk_after f rest) m o 0 n has.whole full (omega arith)
        ∙ ap (λ x. file_bytes v c ns (disk_after f rest) x n) (omega arith))

  -- On a device that works, for an open file whose position lies in its clusters, a chain of the
  -- table: a round of `write` succeeds, puts as many bytes as there are, or as the block has room
  -- for, into the block of the position, and leaves all other blocks as they were. Those bytes are
  -- the file's from there on; the position moves past them, and the file grows if that is past its
  -- end.
  pub write_round-HasWritten :
      (s : Manager D) (f : FileInfo) (rest : List ℕ) (limit : ℕ)
      → HasClusters w fi vi info c ns d m limit
      → IsReading w fi vi info c ns d m s f
      → f.current_offset < limit
      → f.current_offset + length rest < u32_mod
      → (s' : Manager D) × (write_round fi vi rest s ≡ (ok (written_size f rest), s'))
        × HasWritten s' f rest
  write_round-HasWritten s f rest limit has r inside small =
      let o = f.current_offset in
      let n = written_size f rest in
      let at = location v c ns o in
      let place = place_in v c ns o in
      let found =
        find_data_on_disk-location w v c ns o r.nth (place_of f) s.block_cache has.placed
          (subst (λ d. IsChain v d c ns) (sym r.stored) has.chain)
          (positive w fi vi info c ns d m has) r.place (quotient w fi vi info c ns d m has inside)
          (omega arith) r.coherent in
      let k1 = found.0 in
      let same : blocks w k1 ≡ d = found.3 ∙ r.stored in
      let y =
        store-Yields w at (take n rest) k1 found.2 (omega arith, omega (arith, length-take n rest))
          (ap (λ (e : Blocks). length (e at.block_idx)) same ∙ has.full at.block_idx) in
      let k2 = (store at (take n rest) k1).1 in
      let h = advanced place n f in
      let after : blocks w k2 ≡ disk_after f rest =
        y.stored
        ∙ ap
            (λ (e : Blocks).
              put_block e at.block_idx (put_bytes (e at.block_idx) at.block_offset (take n rest)))
            same in
      (
        record s { block_cache = k2; open_files = set s.open_files fi h },
        write_round-of fi vi s f h at place k1 k2 rest n r.file
            (find_data-of fi vi s f info at place k1 r.volume
              (ap (λ x. find_data_on_disk v (place_of f) x o s.block_cache) r.first ∙ found.1))
            refl (ap (λ (x : Result (Unit {0})). (x, k2)) y.result)
            (wrote-advanced place n f (omega arith)),
        record {
          file = get_elem?-set s.open_files fi f h r.file;
          volume = r.volume;
          coherent = y.coherent;
          stored = after;
          bytes =
              ap (λ (e : Blocks). file_bytes v c ns e o n) after
              ∙ file_bytes-after f rest limit has;
        },
      )
