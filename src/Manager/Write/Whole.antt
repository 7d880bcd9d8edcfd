-- ===== src/Manager/Write/Whole.antt =====
-- What `write` does to a file that has clusters enough for it.
use embedded_sdmmc_rs.Common.{
  ℕ, suc, ◌+◌, ◌-◌, ◌≤◌, ◌<◌, ◌≡◌, ◌≢◌, refl, ap, ap₂, ◌∙◌, subst, arith, false, List, inl, inr,
}
use embedded_sdmmc_rs.Common.{ltb, if◌then◌else◌, length, get_or, Bool-cases}
use embedded_sdmmc_rs.Common.Action.{ok}
use embedded_sdmmc_rs.Block.{BlockDevice}
use embedded_sdmmc_rs.Cache.View.{Working, Blocks}
use embedded_sdmmc_rs.Filesystem.Cluster.{ClusterId}
use embedded_sdmmc_rs.Filesystem.Timestamp.{Timestamp}
use embedded_sdmmc_rs.Filesystem.Files.{FileInfo}
use embedded_sdmmc_rs.Fat.Volume.{FatVolume, bytes_per_cluster, reserved_entries}
use embedded_sdmmc_rs.Manager.{Manager, VolumeInfo, get_file_by_id, get_volume_by_id}
use embedded_sdmmc_rs.Manager.Files.{is_mode_read_only}
use embedded_sdmmc_rs.Manager.Transfer.{place_of}
use embedded_sdmmc_rs.Manager.Transfer.Locate.{IsAt, location, zero_mul}
use embedded_sdmmc_rs.Manager.Transfer.Bytes.{file_byte, file_bytes}
use embedded_sdmmc_rs.Manager.Transfer.Read.{IsReading, HasClusters, get_elem?-set}
use embedded_sdmmc_rs.Manager.Write.{write_file, rewind_file}
use embedded_sdmmc_rs.Manager.Write.Splice.{IsApart, byte_after}
use embedded_sdmmc_rs.Manager.Write.Loop.{write_loop-Looped}
use embedded_sdmmc_rs.Manager.Write.Steps.{
  bytes-written, bytes-before, bytes-past, zero_add, changed, archived, made_dirty,
  rewind_file-offset, rewind_file-size, write_file-of,
}

module _ {D : Type 0} ⦃dev : BlockDevice D⦄ (w : Working dev) (fi vi : ℕ) (info : VolumeInfo)
    (c : ClusterId) (ns : List ClusterId) (m : ℕ) where
  abbrev v : FatVolume
  v = info.volume_type

  -- A change of the file keeps it in a state to be read, if its place and its cluster are right.
  IsReading-changed :
      (d : Blocks) (s : Manager D) (f : FileInfo) (g : FileInfo → FileInfo) (k : ℕ)
      → IsReading w fi vi info c ns d m s f
      → IsAt v c ns k (place_of (g f))
      → (g f).entry.cluster ≡ c
      → (g f).current_offset ≤ (g f).entry.size
      → IsReading w fi vi info c ns d m (changed fi g f s) (g f)
  IsReading-changed d s f g k r place first within = record {
    file = get_elem?-set s.open_files fi f (g f) r.file;
    volume = r.volume;
    coherent = r.coherent;
    stored = r.stored;
    nth = k;
    place = place;
    first = first;
    within = within;
  }

  IsReading-rewound :
      (d : Blocks) (s : Manager D) (f : FileInfo)
      → IsReading w fi vi info c ns d m s f
      → IsReading w fi vi info c ns d m (changed fi rewind_file f s) (rewind_file f)
  unfolding rewind_file
  IsReading-rewound d s f r =
      let back =
        λ (f : FileInfo). record f { cluster_offset = 0; current_cluster = f.entry.cluster } in
      elim (Bool-cases (ltb f.current_cluster f.entry.cluster)) [
        | inl rewinds ↦
            rw (rewinds, if◌then◌else◌)
              (IsReading-changed d s f back 0 r
                (omega arith, zero_mul (bytes_per_cluster v), r.first) r.first r.within)
        | inr stays ↦
            rw (stays, if◌then◌else◌)
              (IsReading-changed d s f (λ f. f) r.nth r r.place r.first r.within)
      ]

  -- What `write` leaves: the file's bytes are those of the buffer from its position on, and the
  -- others are as they were; the position has moved past them, and the file has grown if that is
  -- past its end. It is in a state to be read and written again. The block `j` is as it was.
  pub record HasWrittenAll (d : Blocks) (f : FileInfo) (buffer : List ℕ) (limit j : ℕ)
      (s : Manager D) : Type 0 where
    pub after : FileInfo
    pub disk : Blocks
    pub clusters : HasClusters w fi vi info c ns disk m limit
    pub reading : IsReading w fi vi info c ns disk m s after
    pub position : after.current_offset ≡ f.current_offset + length buffer
    pub size :
        let end = f.current_offset + length buffer in
        after.entry.size ≡ (if ltb f.entry.size end then end else f.entry.size)
    pub bytes : file_bytes v c ns disk f.current_offset (length buffer) ≡ buffer
    pub before : file_bytes v c ns disk 0 f.current_offset ≡ file_bytes v c ns d 0 f.current_offset
    pub past :
        let end = f.current_offset + length buffer in
        file_bytes v c ns disk end (limit - end) ≡ file_bytes v c ns d end (limit - end)
    pub other : disk j ≡ d j

  -- On a device that works, for an open file that may be written, whose clusters are a chain of the
  -- table with room for the buffer from its position on, in blocks that are all different and none
  -- of the table's: `write` succeeds, and leaves what `HasWrittenAll` says. A block that is none of
  -- the file's stays as it was.
  pub write_file-HasWrittenAll :
      (time_source : ℕ → Timestamp) (d : Blocks) (raw : ℕ) (buffer : List ℕ) (limit j : ℕ)
      (s : Manager D) (f : FileInfo)
      → HasClusters w fi vi info c ns d m limit
      → IsApart v c ns limit
      → ((p : ℕ) → p < limit → (location v c ns p).block_idx ≢ j)
      → IsReading w fi vi info c ns d m s f
      → get_file_by_id raw s ≡ (ok fi, s)
      → get_volume_by_id f.raw_volume s ≡ (ok vi, s)
      → is_mode_read_only f.mode ≡ false
      → reserved_entries ≤ c
      → f.current_offset + length buffer ≤ limit
      → (s' : Manager D) × (write_file time_source raw buffer s ≡ (ok tt, s'))
        × HasWrittenAll d f buffer limit j s'
  write_file-HasWrittenAll time_source d raw buffer limit j s f has apart out r found volume
        writable above fits =
      let f1 = made_dirty f in
      let f2 = rewind_file f1 in
      let s1 = changed fi made_dirty f s in
      let s2 = changed fi rewind_file f1 s1 in
      let offset : f2.current_offset ≡ f.current_offset = rewind_file-offset f1 in
      let dirty = IsReading-changed d s f made_dirty r.nth r r.place r.first r.within in
      let done =
        write_loop-Looped w fi vi info c ns m (suc (length buffer)) d f2 buffer limit j s2
          (omega arith) has apart out (IsReading-rewound d s1 f1 dirty) (omega (arith, offset)) in
      let l = done.2 in
      let at =
        subst
          (λ o.
            (p : ℕ)
            → p < limit
            → file_byte v c ns l.disk p ≡ byte_after (file_byte v c ns d) o buffer p)
          offset l.byte_at in
      let o = f.current_offset in
      let end = o + length buffer in
      let now = time_source 0 in
      let start : o ≡ o + 0 = omega arith in
      (
        changed fi (archived now) l.after done.0,
        write_file-of time_source fi vi buffer raw s done.0 f l.after found r.file volume writable
            (omega (arith, r.first)) (omega (arith, has.small)) done.1 l.reading.file,
        record {
          after = archived now l.after;
          disk = l.disk;
          clusters = l.clusters;
          reading =
              IsReading-changed l.disk done.0 l.after (archived now) l.reading.nth l.reading
                l.reading.place l.reading.first l.reading.within;
          position = l.position ∙ omega (arith, offset);
          size =
              l.size
              ∙ ap₂ (λ x y. if ltb x (y + length buffer) then y + length buffer else x)
                  (rewind_file-size f1) offset;
          bytes =
              ap (λ p. file_bytes v c ns l.disk p (length buffer)) start
              ∙ bytes-written v c ns d l.disk o buffer limit at (length buffer) 0 buffer
                  (omega arith) (omega arith) refl (λ i. ap (λ k. get_or buffer k 0) (zero_add i));
          before = bytes-before v c ns d l.disk o buffer limit at o 0 (omega arith) (omega arith);
          past =
              bytes-past v c ns d l.disk o buffer limit at (limit - end) end (omega arith)
                (omega arith);
          other = l.other;
        },
      )
