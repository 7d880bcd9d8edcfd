-- ===== src/Fat/OnDisk/RoundTrip.antt =====
-- A directory entry that is stored and read again.
use embedded_sdmmc_rs.Common.{
  ℕ, suc, ◌+◌, ◌*◌, ◌/◌, ◌%◌, ◌^◌, ◌<◌, ◌≡◌, refl, ◌∙◌, ap, ap₂, sym, arith,
}
use embedded_sdmmc_rs.Common.{List, [], ◌∷◌, ◌++◌, ◌==◌, ◌&&◌, if◌then◌else◌}
use embedded_sdmmc_rs.Common.{
  length, take, replicate, set, bit_and, bit_or, length-append, length-set,
}
use embedded_sdmmc_rs.Common.Bits.{bit_and-mask, bit_or-disjoint}
use embedded_sdmmc_rs.Common.Bytes.{
  length-put_bytes, byte, put_bytes, le_bytes2, le_bytes4, read_u16, read_u32,
}
use embedded_sdmmc_rs.Filesystem.Cluster
use embedded_sdmmc_rs.Filesystem.Cluster.{ClusterId}
use embedded_sdmmc_rs.Filesystem.Attributes
use embedded_sdmmc_rs.Filesystem.Attributes.{create_from_fat}
use embedded_sdmmc_rs.Filesystem.Timestamp.{Timestamp, from_fat, serialize_to_fat}
use embedded_sdmmc_rs.Filesystem.Timestamp.RoundTrip.{IsDate, to_even, from_fat-serialize_to_fat}
use embedded_sdmmc_rs.Filesystem.DirEntry.{DirEntry, serialize}
use embedded_sdmmc_rs.Fat.Volume.{FatType, fat16, fat32}
use embedded_sdmmc_rs.Fat.OnDisk.{get_entry, first_cluster}

-- the cluster numbers that an entry has room for
abbrev pub cluster_bound : FatType → ℕ
cluster_bound fat16 = 65536
cluster_bound fat32 = 4294967296

-- The entry is one that the format has room for.
pub record IsStorable (t : FatType) (e : DirEntry) : Type 0 where
  pub name : length e.name ≡ 11
  pub modified : IsDate e.mtime
  pub created : IsDate e.ctime
  pub cluster : e.cluster < cluster_bound t
  pub size : e.size < 4294967296

-- what is stored behind the name
abbrev tail : DirEntry → List ℕ → List ℕ
tail e hi =
    (e.attributes ∷ 0 ∷ 0 ∷ [])
    ++ serialize_to_fat e.ctime
    ++ (0 ∷ 0 ∷ [])
    ++ hi
    ++ serialize_to_fat e.mtime
    ++ le_bytes2 (bit_and e.cluster 0xFFFF)
    ++ le_bytes4 e.size

abbrev high : FatType → ClusterId → List ℕ
high fat16 c = 0 ∷ 0 ∷ []
high fat32 c = le_bytes2 (bit_and (c / 2 ^ 16) 0xFFFF)

set-append : (xs ys : List ℕ) (i v : ℕ) → set (xs ++ ys) (length xs + i) v ≡ xs ++ set ys i v
set-append [] ys i v = ap (λ (k : ℕ). set ys k v) (omega arith)
set-append (x ∷ xs) ys i v =
    let e : suc (length xs) + i ≡ suc (length xs + i) = omega arith in
    rw e (ap (λ (t : List ℕ). x ∷ t) (set-append xs ys i v))

put_bytes-append :
    (xs ys bs : List ℕ) (i : ℕ) → put_bytes (xs ++ ys) (length xs + i) bs ≡ xs ++ put_bytes ys i bs
unfolding put_bytes
put_bytes-append xs ys [] i = refl
put_bytes-append xs ys (b ∷ bs) i =
    let e : length xs + i + 1 ≡ length xs + (i + 1) = omega arith in
    rw e (
      ap (λ (t : List ℕ). put_bytes t (length xs + (i + 1)) bs) (set-append xs ys i b)
      ∙ put_bytes-append xs (set ys i b) bs (i + 1))

byte-append : (xs ys : List ℕ) (i : ℕ) → byte (xs ++ ys) (length xs + i) ≡ byte ys i
byte-append [] ys i = ap (λ (k : ℕ). byte ys k) (omega arith)
byte-append (x ∷ xs) ys i =
    let e : suc (length xs) + i ≡ suc (length xs + i) = omega arith in rw e (byte-append xs ys i)

take-append : (xs ys : List ℕ) → take (length xs) (xs ++ ys) ≡ xs
take-append [] ys = refl
take-append (x ∷ xs) ys = ap (λ (t : List ℕ). x ∷ t) (take-append xs ys)

snoc : (xs : List ℕ) (b : ℕ) (ys : List ℕ) → (xs ++ (b ∷ [])) ++ ys ≡ xs ++ (b ∷ ys)
snoc [] b ys = refl
snoc (x ∷ xs) b ys = ap (λ (t : List ℕ). x ∷ t) (snoc xs b ys)

-- The first write fills the front of the blank bytes.
put_bytes-blank :
    (bs xs : List ℕ) (m : ℕ)
    → put_bytes (xs ++ replicate (length bs + m) 0) (length xs) bs ≡ xs ++ (bs ++ replicate m 0)
unfolding put_bytes
put_bytes-blank [] xs m = let z : 0 + m ≡ m = omega arith in ap (λ (k : ℕ). xs ++ replicate k 0) z
put_bytes-blank (b ∷ bs) xs m =
    let e : suc (length bs) + m ≡ suc (length bs + m) = omega arith in
    let z : length xs + 0 ≡ length xs = omega arith in
    let rest : List ℕ = replicate (length bs + m) 0 in
    let n : length (xs ++ (b ∷ [])) ≡ length xs + 1 = omega (arith, length-append xs (b ∷ [])) in
    rw e (
      ap (λ (t : List ℕ). put_bytes t (length xs + 1) bs)
        (ap (λ (k : ℕ). set (xs ++ (0 ∷ rest)) k b) (sym z)
          ∙ set-append xs (0 ∷ rest) 0 b
          ∙ sym (snoc xs b rest))
      ∙ ap (λ (k : ℕ). put_bytes ((xs ++ (b ∷ [])) ++ rest) k bs) (sym n)
      ∙ put_bytes-blank bs (xs ++ (b ∷ [])) m
      ∙ snoc xs b (bs ++ replicate m 0))

-- The later writes leave the name alone.
layers :
    (name time time2 hi : List ℕ) (attr cluster size : ℕ)
    → length name ≡ 11
    → put_bytes
        (put_bytes
          (put_bytes
            (put_bytes (put_bytes (set (put_bytes (replicate 32 0) 0 name) 11 attr) 14 time) 20 hi)
            22
            time2)
          26
          (le_bytes2 cluster))
        28
        (le_bytes4 size)
      ≡ name
        ++ put_bytes
            (put_bytes
              (put_bytes (put_bytes (put_bytes (set (replicate 21 0) 0 attr) 3 time) 9 hi) 11 time2)
              15
              (le_bytes2 cluster))
            17
            (le_bytes4 size)
layers name time time2 hi attr cluster size len =
    let at : (k i : ℕ)
        → k ≡ length name + i
        → (ys bs : List ℕ) → put_bytes (name ++ ys) k bs ≡ name ++ put_bytes ys i bs =
      λ k i e ys bs.
        ap (λ (k : ℕ). put_bytes (name ++ ys) k bs) e ∙ put_bytes-append name ys bs i in
    let start : put_bytes (replicate 32 0) 0 name ≡ name ++ replicate 21 0 =
      let full : 32 ≡ length name + 21 = omega arith in
      ap (λ (k : ℕ). put_bytes (replicate k 0) 0 name) full ∙ put_bytes-blank name [] 21 in
    let first : set (name ++ replicate 21 0) 11 attr ≡ name ++ set (replicate 21 0) 0 attr =
      ap (λ (k : ℕ). set (name ++ replicate 21 0) k attr) (omega arith)
      ∙ set-append name (replicate 21 0) 0 attr in
    rw (start, first)
      (rw (at 14 3 (omega arith) _ time) (
        rw (at 20 9 (omega arith) _ hi) (
          rw (at 22 11 (omega arith) _ time2) (
            rw (at 26 15 (omega arith) _ (le_bytes2 cluster))
              (at 28 17 (omega arith) _ (le_bytes4 size))))))

serialize-eq :
    (e : DirEntry) (t : FatType)
    → length e.name ≡ 11
    → serialize e t ≡ e.name ++ tail e (high t e.cluster)
unfolding serialize serialize_to_fat put_bytes
serialize-eq e fat16 len =
    layers e.name (serialize_to_fat e.ctime) (serialize_to_fat e.mtime) (high fat16 e.cluster)
      e.attributes (bit_and e.cluster 0xFFFF) e.size len
serialize-eq e fat32 len =
    layers e.name (serialize_to_fat e.ctime) (serialize_to_fat e.mtime) (high fat32 e.cluster)
      e.attributes (bit_and e.cluster 0xFFFF) e.size len

-- the entry that is read back: dates with even seconds, and `0` of a directory as the root
abbrev pub restored : DirEntry → DirEntry
restored e = record e {
  mtime = to_even e.mtime;
  ctime = to_even e.ctime;
  cluster =
      if (e.cluster == 0) && Attributes.is_directory e.attributes
      then Cluster.root_dir
      else e.cluster;
}

-- the reads behind the name
read_u16-append :
    (xs ys : List ℕ) (k i : ℕ) → k ≡ length xs + i → read_u16 (xs ++ ys) k ≡ read_u16 ys i
unfolding read_u16
read_u16-append xs ys k i e = omega (
  arith,
  ap (λ (j : ℕ). byte (xs ++ ys) j) e,
  byte-append xs ys i,
  ap (λ (j : ℕ). byte (xs ++ ys) j) (next e),
  byte-append xs ys (i + 1),
)
  where
    next : k ≡ length xs + i → k + 1 ≡ length xs + (i + 1)
    next e = omega arith

read_u32-append :
    (xs ys : List ℕ) (k i : ℕ) → k ≡ length xs + i → read_u32 (xs ++ ys) k ≡ read_u32 ys i
unfolding read_u32
read_u32-append xs ys k i e = omega (
  arith,
  ap (λ (j : ℕ). byte (xs ++ ys) j) e,
  byte-append xs ys i,
  ap (λ (j : ℕ). byte (xs ++ ys) j) (next 1),
  byte-append xs ys (i + 1),
  ap (λ (j : ℕ). byte (xs ++ ys) j) (next 2),
  byte-append xs ys (i + 2),
  ap (λ (j : ℕ). byte (xs ++ ys) j) (next 3),
  byte-append xs ys (i + 3),
)
  where
    next : (a : ℕ) → k + a ≡ length xs + (i + a)
    next a = omega (arith, e)

first_cluster-tail :
    (t : FatType) (e : DirEntry) (xs : List ℕ)
    → length xs ≡ 11
    → e.cluster < cluster_bound t
    → first_cluster t (xs ++ tail e (high t e.cluster)) ≡ e.cluster
unfolding first_cluster read_u16 serialize_to_fat
first_cluster-tail fat16 e xs len lt =
    let y = tail e (high fat16 e.cluster) in
    read_u16-append xs y 26 15 (omega arith) ∙ omega (arith, bit_and-mask 16 e.cluster)
first_cluster-tail fat32 e xs len lt =
    let y = tail e (high fat32 e.cluster) in
    let lo : read_u16 (xs ++ y) 26 ≡ e.cluster % 65536 =
      read_u16-append xs y 26 15 (omega arith) ∙ omega (arith, bit_and-mask 16 e.cluster) in
    let hi : read_u16 (xs ++ y) 20 ≡ e.cluster / 65536 =
      read_u16-append xs y 20 9 (omega arith)
      ∙ omega (arith, bit_and-mask 16 (e.cluster / 2 ^ 16)) in
    ap₂ (λ (a b : ℕ). bit_or (a * 2 ^ 16) b) hi lo
    ∙ bit_or-disjoint 16 (e.cluster / 65536) (e.cluster % 65536) (omega arith)
    ∙ omega arith

-- The stored timestamps are read back.
stamp :
    (xs ys : List ℕ) (k i : ℕ) (t : Timestamp)
    → k ≡ length xs + i
    → IsDate t
    → read_u16 ys (i + 2) ≡ read_u16 (serialize_to_fat t) 2
    → read_u16 ys i ≡ read_u16 (serialize_to_fat t) 0
    → from_fat (read_u16 (xs ++ ys) (k + 2)) (read_u16 (xs ++ ys) k) ≡ to_even t
stamp xs ys k i t at d date time =
    let next : k + 2 ≡ length xs + (i + 2) = omega arith in
    ap₂ from_fat (read_u16-append xs ys (k + 2) (i + 2) next ∙ date)
      (read_u16-append xs ys k i at ∙ time)
    ∙ from_fat-serialize_to_fat t d

read_back :
    (t : FatType) (e : DirEntry) (a b : ℕ)
    → IsStorable t e
    → let d = e.name ++ tail e (a ∷ b ∷ []) in
      first_cluster t d ≡ e.cluster → get_entry t e.entry_block e.entry_offset d ≡ restored e
unfolding get_entry read_u16 read_u32 serialize_to_fat create_from_fat
read_back t e a b s c =
    let y = tail e (a ∷ b ∷ []) in
    let d = e.name ++ y in
    let n = s.name in
    let name : take 11 d ≡ e.name = ap (λ (k : ℕ). take k d) (sym n) ∙ take-append e.name y in
    let attr : byte d 11 ≡ e.attributes =
      ap (λ (k : ℕ). byte d k) (omega arith) ∙ byte-append e.name y 0 in
    let size : read_u32 d 28 ≡ e.size =
      read_u32-append e.name y 28 17 (omega arith) ∙ omega (arith, s.size) in
    λ i. record e {
      name = name i;
      mtime = stamp e.name y 22 11 e.mtime (omega arith) s.modified refl refl i;
      ctime = stamp e.name y 14 3 e.ctime (omega arith) s.created refl refl i;
      attributes = attr i;
      cluster = if (c i == 0) && Attributes.is_directory (attr i) then Cluster.root_dir else c i;
      size = size i;
    }

-- A directory entry that the format has room for is read back from the bytes that are stored of it
-- as it was, with two exceptions: the seconds of its dates are rounded down to even numbers, and
-- cluster 0 of a directory becomes the id of the root directory.
pub get_entry-serialize :
    (t : FatType) (e : DirEntry)
    → IsStorable t e
    → get_entry t e.entry_block e.entry_offset (serialize e t) ≡ restored e
get_entry-serialize fat16 e s =
    ap (get_entry fat16 e.entry_block e.entry_offset) (serialize-eq e fat16 s.name)
    ∙ read_back fat16 e _ _ s (first_cluster-tail fat16 e e.name s.name s.cluster)
get_entry-serialize fat32 e s =
    ap (get_entry fat32 e.entry_block e.entry_offset) (serialize-eq e fat32 s.name)
    ∙ read_back fat32 e _ _ s (first_cluster-tail fat32 e e.name s.name s.cluster)

pub length-serialize : (e : DirEntry) (t : FatType) → length (serialize e t) ≡ 32
unfolding serialize
length-serialize e t =
    length-put_bytes _ _ 28
    ∙ length-put_bytes _ _ 26
    ∙ length-put_bytes _ _ 22
    ∙ length-put_bytes _ _ 20
    ∙ length-put_bytes _ _ 14
    ∙ length-set _ 11 e.attributes
    ∙ length-put_bytes e.name (replicate 32 0) 0
