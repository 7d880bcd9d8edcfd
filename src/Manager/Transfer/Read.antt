-- ===== src/Manager/Transfer/Read.antt =====
-- What `read` returns: the bytes of the file, from its position on.
use native.Mathlib.Nat.{div-lt_iff_lt-mul}
use embedded_sdmmc_rs.Common.{
  ℕ, zero, suc, ◌+◌, ◌-◌, ◌*◌, ◌/◌, ◌%◌, ◌≤◌, ◌<◌, min, ◌≡◌, ◌≢◌, refl, ap, sym, ◌∙◌, subst, arith,
  true, false, List, [], ◌∷◌, ◌++◌, some,
}
use embedded_sdmmc_rs.Common.{
  ltb, le→ltb, ==_ne, ◌&&◌, not, if◌then◌else◌, length, take, drop, get_elem?, set, u32_mod,
  Bool-cases, inl, inr,
}
use embedded_sdmmc_rs.Common.Action.{Result, ok, pure, ◌>>=◌, >>=-ok}
use embedded_sdmmc_rs.Block.{BlockDevice}
use embedded_sdmmc_rs.Cache.{BlockCache, read}
use embedded_sdmmc_rs.Cache.View.{Working, Blocks, blocks, IsCoherent, read-Yields}
use embedded_sdmmc_rs.Filesystem.Cluster.{ClusterId}
use embedded_sdmmc_rs.Filesystem.Files.{FileInfo, plus, left, eof, seek_from_current}
use embedded_sdmmc_rs.Fat.Volume.{FatVolume, bytes_per_cluster}
use embedded_sdmmc_rs.Fat.Table.Spec.{IsPlaced, HasBlocks}
use embedded_sdmmc_rs.Fat.Alloc.Chain.{IsChain}
use embedded_sdmmc_rs.Manager.{
  Manager, VolumeInfo, at_index, file_at, on_cache, get_file_by_id, get_volume_by_id,
}
use embedded_sdmmc_rs.Manager.Transfer.{
  Place, Found, find_data_on_disk, find_data, keep_cache, copy_found, copy_block, copied,
  read_round, read_loop, read_file, place_of, set_place,
}
use embedded_sdmmc_rs.Manager.Transfer.Locate.{IsAt, location, place_in, find_data_on_disk-location}
use embedded_sdmmc_rs.Manager.Transfer.Bytes.{
  HasWholeBlocks, file_bytes, file_bytes-append, block-file_bytes,
}

pub get_elem?-set :
    {A : Type 0} (xs : List A) (i : ℕ) (a b : A)
    → get_elem? xs i ≡ some a
    → get_elem? (set xs i b) i ≡ some b
get_elem?-set [] i a b e = cc
get_elem?-set (x ∷ xs) zero a b e = refl
get_elem?-set (x ∷ xs) (suc i) a b e = get_elem?-set xs i a b e

more_to_read :
    (f : FileInfo) (space : ℕ)
    → f.current_offset ≤ f.entry.size
    → (ltb 0 space && not (eof f)) ≡ true
    → (f.current_offset < f.entry.size) × (0 < space)
unfolding eof
more_to_read f space within e = ground arith

nothing_to_read :
    (f : FileInfo) (space : ℕ)
    → (ltb 0 space && not (eof f)) ≡ false
    → min space (f.entry.size - f.current_offset) ≡ 0
unfolding eof
nothing_to_read f space e = ground arith

module _ {D : Type 0} ⦃dev : BlockDevice D⦄ (fi vi : ℕ) where
  pub find_data-of :
      (s : Manager D) (f : FileInfo) (info : VolumeInfo) (at : Found) (place : Place)
      (k : BlockCache D)
      → get_elem? s.open_volumes vi ≡ some info
      → find_data_on_disk info.volume_type
          (place_of f)
          f.entry.cluster
          f.current_offset
          s.block_cache
        ≡ (ok at, (place, k))
      → find_data vi f (place_of f) s ≡ (ok (ok at, place), record s { block_cache = k })
  unfolding find_data
  find_data-of s f info at place k volume found =
      rw (volume, at_index, ◌>>=◌) (ap (λ x. keep_cache x s) found)

  -- a round in which every step succeeds
  read_round-of :
      (s : Manager D) (f g h : FileInfo) (at : Found) (place : Place) (k1 k2 : BlockCache D)
      (B : List ℕ) (space n : ℕ)
      → get_elem? s.open_files fi ≡ some f
      → find_data vi f (place_of f) s ≡ (ok (ok at, place), record s { block_cache = k1 })
      → read at.block_idx k1 ≡ (ok B, k2)
      → min (min at.available space) (left (set_place place f)) ≡ n
      → n ≢ 0
      → seek_from_current (plus n) (set_place place f) ≡ (ok tt, h)
      → read_round fi vi space s ≡ (
        ok (n, take n (drop at.block_offset B)),
        record s {
          block_cache = k2;
          open_files = set (set s.open_files fi (set_place place f)) fi h;
        },
      )
  unfolding read_round
  read_round-of s f g h at place k1 k2 B space n file found block count some_bytes sought =
      let g = set_place place f in
      >>=-ok (file_at fi) (λ f. find_data vi f (place_of f) >>= copy_found fi space f) s f s
        (ap (λ o. (at_index o, s)) file)
      ∙ >>=-ok (find_data vi f (place_of f)) (copy_found fi space f) s (ok at, place)
          (record s { block_cache = k1 }) found
      ∙ >>=-ok (on_cache (read at.block_idx)) (copy_block fi space g at)
          (record s { block_cache = k1; open_files = set s.open_files fi g }) B
          (record s { block_cache = k2; open_files = set s.open_files fi g })
          (ap
            (λ (o : Result (List ℕ) × BlockCache D).
              (o.0, record s { block_cache = o.1; open_files = set s.open_files fi g }))
            block)
      ∙ rw (count, ==_ne n 0 some_bytes, if◌then◌else◌)
          (ap
            (λ out.
              copied fi n at B out
                (record s { block_cache = k2; open_files = set s.open_files fi g }))
            sought)

  read_loop-stop :
      (fuel space : ℕ) (s : Manager D) (f : FileInfo) (bytes : List ℕ)
      → get_elem? s.open_files fi ≡ some f
      → (ltb 0 space && not (eof f)) ≡ false
      → read_loop (suc fuel) fi vi space bytes s ≡ (ok bytes, s)
  unfolding read_loop
  read_loop-stop fuel space s f bytes file ends =
      let next = λ (x : ℕ × List ℕ). read_loop fuel fi vi (space - x.0) (bytes ++ x.1) in
      >>=-ok (file_at fi)
        (λ f. if ltb 0 space && not (eof f) then read_round fi vi space >>= next else pure bytes) s
        f s (ap (λ o. (at_index o, s)) file)
      ∙ rw (ends, if◌then◌else◌) refl

  read_loop-next :
      (fuel space : ℕ) (s s1 : Manager D) (f : FileInfo) (bytes more : List ℕ) (n : ℕ)
      → get_elem? s.open_files fi ≡ some f
      → (ltb 0 space && not (eof f)) ≡ true
      → read_round fi vi space s ≡ (ok (n, more), s1)
      → read_loop (suc fuel) fi vi space bytes s
        ≡ read_loop fuel fi vi (space - n) (bytes ++ more) s1
  unfolding read_loop
  read_loop-next fuel space s s1 f bytes more n file goes_on round =
      let next = λ (x : ℕ × List ℕ). read_loop fuel fi vi (space - x.0) (bytes ++ x.1) in
      >>=-ok (file_at fi)
        (λ f. if ltb 0 space && not (eof f) then read_round fi vi space >>= next else pure bytes) s
        f s (ap (λ o. (at_index o, s)) file)
      ∙ rw (goes_on, if◌then◌else◌) (>>=-ok (read_round fi vi space) next s (n, more) s1 round)

module _ {D : Type 0} ⦃dev : BlockDevice D⦄ (w : Working dev) (fi vi : ℕ) (info : VolumeInfo)
    (c : ClusterId) (ns : List ClusterId) (d : Blocks) (m : ℕ) where
  abbrev v : FatVolume
  v = info.volume_type

  -- The file at `fi` is `f`, with the clusters `c ∷ ns` of the volume at `vi`, and the disk is `d`.
  pub record IsReading (s : Manager D) (f : FileInfo) : Type 0 where
    pub file : get_elem? s.open_files fi ≡ some f
    pub volume : get_elem? s.open_volumes vi ≡ some info
    pub coherent : IsCoherent w s.block_cache
    pub stored : blocks w s.block_cache ≡ d
    pub nth : ℕ
    pub place : IsAt v c ns nth (place_of f)
    pub first : f.entry.cluster ≡ c
    pub within : f.current_offset ≤ f.entry.size

  -- The clusters of the file are a chain that is long enough for its size.
  pub record HasClusters (size : ℕ) : Type 0 where
    pub placed : IsPlaced v v.fat_specific_info
    pub chain : IsChain v d c ns
    pub whole : HasWholeBlocks v m
    pub full : HasBlocks d
    pub small : size < u32_mod
    pub enough : size ≤ (length ns + 1) * bytes_per_cluster v

  -- the file after a read of `n` bytes
  abbrev pub moved : FileInfo → ℕ → FileInfo
  moved f n = record (set_place (place_in v c ns f.current_offset) f) {
    current_offset = f.current_offset + n;
  }

  abbrev round_size : FileInfo → ℕ → ℕ
  round_size f space =
      min (min (512 - f.current_offset % 512) space) (f.entry.size - f.current_offset)

  pub positive : {size : ℕ} → HasClusters size → 0 < bytes_per_cluster v
  positive has = omega (arith, has.whole.0, has.whole.1)

  pub quotient : {o size : ℕ} → HasClusters size → o < size → o / bytes_per_cluster v ≤ length ns
  quotient {o} has inside =
      let low =
        (div-lt_iff_lt-mul {x = o} {y = length ns + 1} (positive has)).1
          (omega (arith, has.enough)) in
      omega (arith, low)

  find_data-location :
      (s : Manager D) (f : FileInfo)
      → HasClusters f.entry.size
      → IsReading s f
      → f.current_offset < f.entry.size
      → (k' : BlockCache D) × (find_data vi f (place_of f) s ≡ (
        ok (ok (location v c ns f.current_offset), place_in v c ns f.current_offset),
        record s { block_cache = k' },
      ))
        × IsCoherent w k'
        × (blocks w k' ≡ d)
  find_data-location s f has r inside =
      let o = f.current_offset in
      let found =
        find_data_on_disk-location w v c ns o r.nth (place_of f) s.block_cache has.placed
          (subst (λ d. IsChain v d c ns) (sym r.stored) has.chain) (positive has) r.place
          (quotient has inside) (omega (arith, has.small)) r.coherent in
      (
        found.0,
        find_data-of fi vi s f info (location v c ns o) (place_in v c ns o) found.0 r.volume
            (ap (λ x. find_data_on_disk v (place_of f) x o s.block_cache) r.first ∙ found.1),
        found.2,
        found.3 ∙ r.stored,
      )

  left-round_size :
      (f : FileInfo) (space : ℕ)
      → HasClusters f.entry.size
      → f.current_offset < f.entry.size
      → min (min (location v c ns f.current_offset).available space) (left f) ≡ round_size f space
  unfolding left
  left-round_size f space has inside =
      ap (min (min (512 - f.current_offset % 512) space)) (omega (arith, has.small))

  seek-moved :
      (f : FileInfo) (n : ℕ)
      → HasClusters f.entry.size
      → f.current_offset + n ≤ f.entry.size
      → seek_from_current (plus n) (set_place (place_in v c ns f.current_offset) f)
        ≡ (ok tt, moved f n)
  unfolding seek_from_current
  seek-moved f n has fits =
      rw (le→ltb f.entry.size (f.current_offset + n) fits, if◌then◌else◌)
        (ap (λ x. (ok tt, record (moved f n) { current_offset = x })) (omega (arith, has.small)))

  read_round-bytes :
      (s : Manager D) (f : FileInfo) (space : ℕ)
      → HasClusters f.entry.size
      → IsReading s f
      → f.current_offset < f.entry.size
      → 0 < space
      → let n = round_size f space in
        (s' : Manager D) × (read_round fi vi space s
          ≡ (ok (n, file_bytes v c ns d f.current_offset n), s'))
        × IsReading s' (moved f n)
  read_round-bytes s f space has r inside room =
      let o = f.current_offset in
      let n = round_size f space in
      let found = find_data-location s f has r inside in
      let at = location v c ns o in
      let y = read-Yields w at.block_idx found.0 found.2 in
      let g = set_place (place_in v c ns o) f in
      let k = (read at.block_idx found.0).1 in
      let plus_zero : o % 512 ≡ o % 512 + 0 = omega arith in
      let plus_zero' : o + 0 ≡ o = omega arith in
      let B = blocks w found.0 at.block_idx in
      (
        record s { block_cache = k; open_files = set (set s.open_files fi g) fi (moved f n) },
        read_round-of fi vi s f g (moved f n) at (place_in v c ns o) found.0 k B space n r.file
              found.1 (ap (λ x. (x, k)) y.result) (left-round_size g space has inside)
              (λ e. omega arith) (seek-moved f n has (omega arith))
            ∙ ap
                (λ (xs : List ℕ). (
                  ok (n, xs),
                  record s {
                    block_cache = k;
                    open_files = set (set s.open_files fi g) fi (moved f n);
                  },
                ))
                (ap (λ (d : Blocks). take n (drop (o % 512) (d at.block_idx))) found.3
                  ∙ ap (λ x. take n (drop x (d at.block_idx))) plus_zero
                  ∙ block-file_bytes v c ns d m o 0 n has.whole has.full (omega arith)
                  ∙ ap (λ x. file_bytes v c ns d x n) plus_zero'),
        record {
          file =
              get_elem?-set (set s.open_files fi g) fi g (moved f n)
                (get_elem?-set s.open_files fi f g r.file);
          volume = r.volume;
          coherent = y.coherent;
          stored = y.stored ∙ found.3;
          nth = o / bytes_per_cluster v;
          place = (quotient has inside, refl, refl);
          first = r.first;
          within = omega arith;
        },
      )

  -- how many bytes a read of some space returns
  abbrev pub count : FileInfo → ℕ → ℕ
  count f space = min space (f.entry.size - f.current_offset)

  -- what a read ends with
  pub record HasRead (s : Manager D) (f : FileInfo) (n : ℕ) : Type 0 where
    pub after : FileInfo
    pub reading : IsReading s after
    pub entry : after.entry ≡ f.entry
    pub position : after.current_offset ≡ f.current_offset + n

  append_nil : (xs : List ℕ) → xs ++ [] ≡ xs
  append_nil [] = refl
  append_nil (x ∷ xs) = ap (λ (t : List ℕ). x ∷ t) (append_nil xs)

  append_assoc : (xs ys zs : List ℕ) → (xs ++ ys) ++ zs ≡ xs ++ (ys ++ zs)
  append_assoc [] ys zs = refl
  append_assoc (x ∷ xs) ys zs = ap (λ (t : List ℕ). x ∷ t) (append_assoc xs ys zs)

  -- what two reads in a row return
  joined :
      (f : FileInfo) (bytes : List ℕ) (n space : ℕ)
      → n ≤ space
      → f.current_offset + n ≤ f.entry.size
      → (bytes ++ file_bytes v c ns d f.current_offset n)
          ++ file_bytes v c ns d (f.current_offset + n) (count (moved f n) (space - n))
        ≡ bytes ++ file_bytes v c ns d f.current_offset (count f space)
  joined f bytes n space le fits =
      append_assoc bytes (file_bytes v c ns d f.current_offset n) _
      ∙ ap (λ (t : List ℕ). bytes ++ t)
          (file_bytes-append v c ns d f.current_offset n (count (moved f n) (space - n))
            ∙ ap (file_bytes v c ns d f.current_offset) (omega arith))

  read_loop-bytes :
      (fuel space : ℕ) (s : Manager D) (f : FileInfo) (bytes : List ℕ)
      → space < fuel
      → HasClusters f.entry.size
      → IsReading s f
      → (s' : Manager D) × (read_loop fuel fi vi space bytes s
          ≡ (ok (bytes ++ file_bytes v c ns d f.current_offset (count f space)), s'))
        × HasRead s' f (count f space)
  read_loop-bytes zero space s f bytes enough has r = absurd (omega arith)
  read_loop-bytes (suc fuel) space s f bytes enough has r =
      elim (Bool-cases (ltb 0 space && not (eof f))) [
        | inl goes_on ↦
            let inside = more_to_read f space r.within goes_on in
            let n = round_size f space in
            let round = read_round-bytes s f space has r inside.0 inside.1 in
            let rest =
              read_loop-bytes fuel (space - n) round.0 (moved f n)
                (bytes ++ file_bytes v c ns d f.current_offset n) (omega (arith, inside)) has
                round.2 in
            (
              rest.0,
              read_loop-next fi vi fuel space s round.0 f bytes
                    (file_bytes v c ns d f.current_offset n) n r.file goes_on round.1
                  ∙ rest.1
                  ∙ ap (λ (t : List ℕ). (ok t, rest.0))
                      (joined f bytes n space (omega arith) (omega (arith, r.within))),
              record {
                after = rest.2.after;
                reading = rest.2.reading;
                entry = rest.2.entry;
                position = rest.2.position ∙ omega (arith, r.within);
              },
            )
        | inr ends ↦
            let zero_count : count f space ≡ 0 = nothing_to_read f space ends in
            (
              s,
              read_loop-stop fi vi fuel space s f bytes r.file ends
                  ∙ ap (λ (t : List ℕ). (ok t, s))
                      (sym (append_nil bytes)
                        ∙ ap (λ x. bytes ++ file_bytes v c ns d f.current_offset x)
                            (sym zero_count)),
              record { after = f; reading = r; entry = refl; position = omega (arith, zero_count) },
            )
      ]

  -- On a device that works, for an open file whose clusters are a chain of the table, long enough
  -- for its size: `read` succeeds, for every size of the buffer. It returns the bytes of the file
  -- from its position on, as many as the buffer has room for or as are left, and the position
  -- moves by their number; no block changes, and the file is in a state to be read again.
  pub read_file-bytes :
      (raw_file buffer_len : ℕ) (s : Manager D) (f : FileInfo)
      → HasClusters f.entry.size
      → IsReading s f
      → get_file_by_id raw_file s ≡ (ok fi, s)
      → get_volume_by_id f.raw_volume s ≡ (ok vi, s)
      → (s' : Manager D) × (read_file raw_file buffer_len s
          ≡ (ok (file_bytes v c ns d f.current_offset (count f buffer_len)), s'))
        × HasRead s' f (count f buffer_len)
  unfolding read_file
  read_file-bytes raw_file buffer_len s f has r file volume =
      let enough : buffer_len < suc buffer_len = omega arith in
      let loop = λ (i : ℕ). read_loop (suc buffer_len) fi i buffer_len [] in
      let done = read_loop-bytes (suc buffer_len) buffer_len s f [] enough has r in
      (
        done.0,
        >>=-ok (get_file_by_id raw_file)
              (λ i. file_at i >>= λ f.
                get_volume_by_id f.raw_volume >>= λ j. read_loop (suc buffer_len) i j buffer_len [])
              s fi s file
            ∙ >>=-ok (file_at fi) (λ f. get_volume_by_id f.raw_volume >>= loop) s f s
                (ap (λ o. (at_index o, s)) r.file)
            ∙ >>=-ok (get_volume_by_id f.raw_volume) loop s vi s volume
            ∙ done.1,
        done.2,
      )
