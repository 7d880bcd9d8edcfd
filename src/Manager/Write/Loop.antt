-- ===== src/Manager/Write/Loop.antt =====
-- What the loop of `write` does, in the clusters that the file has: its bytes are those of the
-- buffer from its position on, and all others stay as they were.
use embedded_sdmmc_rs.Common.{
  ℕ, zero, suc, ◌+◌, ◌-◌, ◌/◌, ◌%◌, ◌≤◌, ◌<◌, ◌≡◌, ◌≢◌, refl, ap, sym, ◌∙◌, arith, Bool, List, inl,
  inr,
}
use embedded_sdmmc_rs.Common.{
  ltb, leb, ==_iff, ==_ne, ==_false, ◌==◌, ◌&&◌, if◌then◌else◌, length, length-take, length-drop,
  take, drop, get_or, Bool-cases,
}
use embedded_sdmmc_rs.Common.Bytes.{put_bytes, byte, length-put_bytes}
use embedded_sdmmc_rs.Common.Action.{ok, pure, ◌>>=◌, >>=-ok}
use embedded_sdmmc_rs.Block.{BlockDevice}
use embedded_sdmmc_rs.Cache.View.{Working, Blocks, put_block}
use embedded_sdmmc_rs.Filesystem.Cluster.{ClusterId}
use embedded_sdmmc_rs.Filesystem.Files.{FileInfo}
use embedded_sdmmc_rs.Fat.Volume.{FatVolume, bytes_per_cluster}
use embedded_sdmmc_rs.Manager.{Manager, VolumeInfo}
use embedded_sdmmc_rs.Manager.Transfer.Locate.{location, place_in}
use embedded_sdmmc_rs.Manager.Transfer.Bytes.{file_byte, block_number, location-block_number}
use embedded_sdmmc_rs.Manager.Transfer.Read.{IsReading, HasClusters, quotient}
use embedded_sdmmc_rs.Manager.Write.{write_round, write_loop}
use embedded_sdmmc_rs.Manager.Write.Store.{advanced}
use embedded_sdmmc_rs.Manager.Write.Round.{
  written_size, disk_after, HasWritten, write_round-HasWritten, put_block-HasBlocks,
}
use embedded_sdmmc_rs.Manager.Write.Splice.{
  IsApart, put_block-other, IsChain-put_block, byte_after, byte_after-other_block, byte-in_block,
  byte_after-drop, nothing_after,
}

module _ {D : Type 0} ⦃dev : BlockDevice D⦄ (w : Working dev) (fi vi : ℕ) (info : VolumeInfo)
    (c : ClusterId) (ns : List ClusterId) (m : ℕ) where
  abbrev v : FatVolume
  v = info.volume_type

  -- The bytes of the file after one round.
  file_byte-after :
      (d : Blocks) (f : FileInfo) (rest : List ℕ) (limit p : ℕ)
      → HasClusters w fi vi info c ns d m limit
      → IsApart v c ns limit
      → f.current_offset < limit
      → p < limit
      → file_byte v c ns (disk_after w fi vi info c ns d m f rest) p
        ≡ byte_after
            (file_byte v c ns d)
            f.current_offset
            (take (written_size w fi vi info c ns d m f rest) rest)
            p
  file_byte-after d f rest limit p has apart inside lt =
      let o = f.current_offset in
      let n = written_size w fi vi info c ns d m f rest in
      let xs = take n rest in
      let i = (location v c ns o).block_idx in
      let B = put_bytes (d i) (o % 512) xs in
      let len : length xs ≡ n = omega (arith, length-take n rest) in
      elim (Bool-cases (o / 512 == p / 512)) [
        | inl e ↦
            let here : i ≡ (location v c ns p).block_idx =
              location-block_number v c ns m o has.whole
              ∙ ap (block_number v c ns m) ((==_iff (o / 512) (p / 512)).0 e)
              ∙ sym (location-block_number v c ns m p has.whole) in
            let shown : put_block d i B (location v c ns p).block_idx ≡ B =
              ap (λ (x : Bool). if x then B else d (location v c ns p).block_idx)
                ((==_iff i (location v c ns p).block_idx).1 here) in
            ap (λ (b : List ℕ). byte b (p % 512)) shown
            ∙ byte-in_block (d i) o p xs (file_byte v c ns d) (has.full i) (omega (arith, len))
                ((==_iff (o / 512) (p / 512)).0 e) (ap (λ j. byte (d j) (p % 512)) here)
        | inr ne ↦
            let differ = ==_false (o / 512) (p / 512) ne in
            ap (λ (b : List ℕ). byte b (p % 512))
              (put_block-other d i (location v c ns p).block_idx B
                (λ e. differ (apart.different o p inside lt e)))
            ∙ sym (byte_after-other_block o p xs (file_byte v c ns d) (omega (arith, len)) differ)
      ]

  -- the clusters of the file after a round
  HasClusters-after :
      (d : Blocks) (f : FileInfo) (rest : List ℕ) (limit : ℕ)
      → HasClusters w fi vi info c ns d m limit
      → IsApart v c ns limit
      → f.current_offset < limit
      → HasClusters w fi vi info c ns (disk_after w fi vi info c ns d m f rest) m limit
  HasClusters-after d f rest limit has apart inside =
      let o = f.current_offset in
      let i = (location v c ns o).block_idx in
      let xs = take (written_size w fi vi info c ns d m f rest) rest in
      let B = put_bytes (d i) (o % 512) xs in
      record {
        placed = has.placed;
        chain =
            IsChain-put_block v d i B c ns (λ x table. apart.outside o x inside table) has.chain;
        whole = has.whole;
        full =
            put_block-HasBlocks d i B has.full (length-put_bytes xs (d i) (o % 512) ∙ has.full i);
        small = has.small;
        enough = has.enough;
      }

  within_after : (size end : ℕ) → end ≤ (if ltb size end then end else size)
  within_after size end = ground arith

  -- the file is in a state for the next round
  IsReading-after :
      (d : Blocks) (f : FileInfo) (rest : List ℕ) (limit : ℕ) (s s1 : Manager D)
      → HasClusters w fi vi info c ns d m limit
      → IsReading w fi vi info c ns d m s f
      → f.current_offset < limit
      → HasWritten w fi vi info c ns d m s1 f rest
      → IsReading w fi vi info c ns (disk_after w fi vi info c ns d m f rest) m s1 (
          advanced (place_in v c ns f.current_offset) (written_size w fi vi info c ns d m f rest) f)
  IsReading-after d f rest limit s s1 has r inside wrote =
      let end = f.current_offset + written_size w fi vi info c ns d m f rest in
      record {
        file = wrote.file;
        volume = wrote.volume;
        coherent = wrote.coherent;
        stored = wrote.stored;
        nth = f.current_offset / bytes_per_cluster v;
        place = (quotient w fi vi info c ns d m has inside, refl, refl);
        first = r.first;
        within = within_after f.entry.size end;
      }

  write_loop-stop :
      (fuel : ℕ) (rest : List ℕ) (s : Manager D)
      → length rest ≡ 0
      → write_loop (suc fuel) fi vi rest s ≡ (ok tt, s)
  unfolding write_loop
  write_loop-stop fuel rest s empty =
      let next = write_round fi vi rest >>= λ n. write_loop fuel fi vi (drop n rest) in
      ap (λ (x : Bool). (if x then pure tt else next) s) ((==_iff (length rest) 0).1 empty)

  write_loop-next :
      (fuel : ℕ) (rest : List ℕ) (s s1 : Manager D) (n : ℕ)
      → length rest ≢ 0
      → write_round fi vi rest s ≡ (ok n, s1)
      → write_loop (suc fuel) fi vi rest s ≡ write_loop fuel fi vi (drop n rest) s1
  unfolding write_loop
  write_loop-next fuel rest s s1 n some_bytes round =
      let next = λ (n : ℕ). write_loop fuel fi vi (drop n rest) in
      ap (λ (x : Bool). (if x then pure tt else (write_round fi vi rest >>= next)) s)
        (==_ne (length rest) 0 some_bytes)
      ∙ >>=-ok (write_round fi vi rest) next s n s1 round

  -- what the loop leaves, byte by byte
  pub record Looped (d : Blocks) (f : FileInfo) (rest : List ℕ) (limit j : ℕ) (s : Manager D)
      : Type 0 where
    pub after : FileInfo
    pub disk : Blocks
    pub clusters : HasClusters w fi vi info c ns disk m limit
    pub reading : IsReading w fi vi info c ns disk m s after
    pub position : after.current_offset ≡ f.current_offset + length rest
    pub size :
        let end = f.current_offset + length rest in
        after.entry.size ≡ (if ltb f.entry.size end then end else f.entry.size)
    pub byte_at :
        (p : ℕ)
        → p < limit
        → file_byte v c ns disk p ≡ byte_after (file_byte v c ns d) f.current_offset rest p
    pub other : disk j ≡ d j

  grown_twice :
      (size end n : ℕ)
      → (if ltb (if ltb size end then end else size) (end + n)
          then end + n
          else if ltb size end
          then end
          else size)
        ≡ (if ltb size (end + n) then end + n else size)
  grown_twice size end n = ground arith

  not_grown : (size o n : ℕ) → n ≡ 0 → o ≤ size → size ≡ (if ltb size (o + n) then o + n else size)
  not_grown size o n e le = ground arith

  pub write_loop-Looped :
      (fuel : ℕ) (d : Blocks) (f : FileInfo) (rest : List ℕ) (limit j : ℕ) (s : Manager D)
      → length rest < fuel
      → HasClusters w fi vi info c ns d m limit
      → IsApart v c ns limit
      → ((p : ℕ) → p < limit → (location v c ns p).block_idx ≢ j)
      → IsReading w fi vi info c ns d m s f
      → f.current_offset + length rest ≤ limit
      → (s' : Manager D) × (write_loop fuel fi vi rest s ≡ (ok tt, s')) × Looped d f rest limit j s'
  write_loop-Looped zero d f rest limit j s enough has apart out r fits = absurd (omega arith)
  write_loop-Looped (suc fuel) d f rest limit j s enough has apart out r fits =
      elim (Bool-cases (length rest == 0)) [
        | inl empty ↦
            let none_left = (==_iff (length rest) 0).0 empty in
            (
              s,
              write_loop-stop fuel rest s none_left,
              record {
                after = f;
                disk = d;
                clusters = has;
                reading = r;
                position = omega (arith, none_left);
                size = not_grown f.entry.size f.current_offset (length rest) none_left r.within;
                byte_at = λ p lt.
                    sym (nothing_after (file_byte v c ns d) f.current_offset rest p none_left);
                other = refl;
              },
            )
        | inr some_left ↦
            let some_bytes = ==_false (length rest) 0 some_left in
            let inside : f.current_offset < limit = omega (arith, some_bytes) in
            let round =
              write_round-HasWritten w fi vi info c ns d m s f rest limit has r inside
                (omega (arith, has.small)) in
            let n = written_size w fi vi info c ns d m f rest in
            let end = f.current_offset + n in
            let f1 = advanced (place_in v c ns f.current_offset) n f in
            let d1 = disk_after w fi vi info c ns d m f rest in
            let i = (location v c ns f.current_offset).block_idx in
            let dropped : length (drop n rest) ≡ length rest - n = length-drop n rest in
            let taken : n ≤ length rest = omega arith in
            let some_written : 0 < n = omega (arith, some_bytes) in
            let all : end + length (drop n rest) ≡ f.current_offset + length rest =
              omega (arith, dropped) in
            let last =
              write_loop-Looped fuel d1 f1 (drop n rest) limit j round.0 (omega (arith, dropped))
                (HasClusters-after d f rest limit has apart inside) apart out
                (IsReading-after d f rest limit s round.0 has r inside round.2)
                (omega (arith, all)) in
            let l = last.2 in
            (
              last.0,
              write_loop-next fuel rest s round.0 n some_bytes round.1 ∙ last.1,
              record {
                after = l.after;
                disk = l.disk;
                clusters = l.clusters;
                reading = l.reading;
                position = l.position ∙ all;
                size =
                    l.size
                    ∙ grown_twice f.entry.size end (length (drop n rest))
                    ∙ ap (λ x. if ltb f.entry.size x then x else f.entry.size) all;
                byte_at = λ p lt.
                    l.byte_at p lt
                    ∙ ap
                        (λ y.
                          if leb end p && ltb p (end + length (drop n rest))
                          then get_or (drop n rest) (p - end) 0
                          else y)
                        (file_byte-after d f rest limit p has apart inside lt)
                    ∙ byte_after-drop (file_byte v c ns d) f.current_offset n rest p taken;
                other =
                    l.other
                    ∙ put_block-other d i j (put_bytes (d i) (f.current_offset % 512) (take n rest))
                        (out f.current_offset inside);
              },
            )
      ]
