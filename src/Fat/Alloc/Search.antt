-- ===== src/Fat/Alloc/Search.antt =====
-- The search for a free cluster: it ends, and it finds the first free entry.
use native.Mathlib.Nat.{le_refl}
use native.Mathlib.Decide.{dec_le, ℕ_discrete}
use embedded_sdmmc_rs.Common.{
  ℕ, zero, suc, ◌+◌, ◌-◌, ◌*◌, ◌/◌, ◌%◌, ◌^◌, ◌<◌, ◌≤◌, ◌≡◌, ◌≢◌, refl, ◌∙◌,
}
use embedded_sdmmc_rs.Common.{
  subst, ap₂, arith, sym, ltb, leb, if◌then◌else◌, ◌==◌, Bool-cases, inl, inr,
}
use embedded_sdmmc_rs.Common.{u32_mod, mul32, true, false, ltb→le, ltb→lt, ==_iff, ==_false}
use embedded_sdmmc_rs.Common.Bits.{bit_and-mask}
use embedded_sdmmc_rs.Common.Bytes.{read_u16, read_u32}
use embedded_sdmmc_rs.Common.Action.{Action, Result, ok, err, not_enough_space, ◌>>=◌}
use embedded_sdmmc_rs.Block.{BlockDevice}
use embedded_sdmmc_rs.Cache.{BlockCache, read}
use embedded_sdmmc_rs.Cache.View.{Blocks, Working, blocks, IsCoherent, read-Yields}
use embedded_sdmmc_rs.Filesystem.Cluster.{ClusterId}
use embedded_sdmmc_rs.Fat.Volume.{FatVolume, FatSpecificInfo, fat16_info, fat32_info}
use embedded_sdmmc_rs.Fat.Table.Spec.{IsPlaced, InTable, entry, entry_size, table_blocks}
use embedded_sdmmc_rs.Fat.Table.Lookup.{coded_block, coded_block-eq}
use embedded_sdmmc_rs.Fat.Alloc.{
  Scan, found, past, unfinished, read_entry, scan, scan_fuel, search, go_on, find_next_free_cluster,
}

module _ (v : FatVolume) (i : FatSpecificInfo) (d : Blocks) where
  -- None of the `n` clusters from `c` on is free.
  abbrev pub AllUsed : ClusterId → ℕ → Type 0
  AllUsed c zero = Unit
  AllUsed c (suc n) = (entry v i d c ≢ 0) × AllUsed (c + 1) n

  -- What the scan of block `q` of the table, begun at cluster `c`, may come to.
  abbrev Scanned : ℕ → ClusterId → Scan → Type 0
  Scanned q c (found e) =
      (c ≤ e) × (e * entry_size i < (q + 1) * 512) × (entry v i d e ≡ 0) × AllUsed c (e - c)
  Scanned q c (past e) = (c ≤ e) × (e * entry_size i ≡ (q + 1) * 512) × AllUsed c (e - c)
  Scanned q c unfinished = ⊥

module _ (v : FatVolume) (i : FatSpecificInfo) (d : Blocks) where
  pub AllUsed-cons :
      (c e : ClusterId)
      → c < e
      → entry v i d c ≢ 0
      → AllUsed v i d (c + 1) (e - (c + 1))
      → AllUsed v i d c (e - c)
  AllUsed-cons c e lt ne rest =
      let k : suc (e - (c + 1)) ≡ e - c = omega arith in subst (AllUsed v i d c) k (ne, rest)

  AllUsed-none : (c e : ClusterId) → e ≤ c → AllUsed v i d c (e - c)
  AllUsed-none c e h = let k : 0 ≡ e - c = omega arith in subst (AllUsed v i d c) k tt

  Scanned-cons :
      (q c : ℕ) (r : Scan) → entry v i d c ≢ 0 → Scanned v i d q (c + 1) r → Scanned v i d q c r
  Scanned-cons q c (found e) ne s =
      (omega (arith, s.0), s.1, s.2, AllUsed-cons c e (omega (arith, s.0)) ne s.3)
  Scanned-cons q c (past e) ne s =
      (omega (arith, s.0), s.1, AllUsed-cons c e (omega (arith, s.0)) ne s.2)
  Scanned-cons q c unfinished ne s = s

-- the entry that the code reads at an offset of block `q`
read_entry-eq :
    (v : FatVolume) (i : FatSpecificInfo) (d : Blocks) (q off c : ℕ)
    → c * entry_size i ≡ q * 512 + off
    → off < 512
    → read_entry i (d (v.lba_start + v.fat_start + q)) off ≡ entry v i d c
read_entry-eq v (fat16_info _) d q off c e lt =
    ap₂ (λ b o. read_u16 (d (v.lba_start + v.fat_start + b)) o) (omega arith) (omega arith)
read_entry-eq v (fat32_info _) d q off c e lt =
    let o : off ≡ c * 4 % 512 = omega arith in
    let b : q ≡ c * 4 / 512 = omega arith in
    bit_and-mask 28 (read_u32 (d (v.lba_start + v.fat_start + q)) off)
    ∙ ap₂ (λ b o. read_u32 (d (v.lba_start + v.fat_start + b)) o % 2 ^ 28) b o

-- What the loop has to know of the numbers at a round: 2 or 4 bytes to an entry.
record Round (i : FatSpecificInfo) (q off c : ℕ) : Type 0 where
  at : c * entry_size i ≡ q * 512 + off
  off_le : off ≤ 512
  small : (q + 1) * 512 < u32_mod

-- The facts of a round that turn on the width of an entry.
Round-next :
    (i : FatSpecificInfo) (q off c : ℕ)
    → Round i q off c
    → leb off (512 - entry_size i) ≡ true
    → Round i q (off + entry_size i) (c + 1) × (off < 512)
Round-next (fat16_info _) q off c r h = ground arith
Round-next (fat32_info _) q off c r h = ground arith

Round-last :
    (i : FatSpecificInfo) (q off c : ℕ)
    → Round i q off c
    → leb off (512 - entry_size i) ≡ false
    → c * entry_size i ≡ (q + 1) * 512
Round-last (fat16_info _) q off c r h = ground arith
Round-last (fat32_info _) q off c r h = ground arith

Round-small : (i : FatSpecificInfo) (q off c : ℕ) → Round i q off c → (c + 1) % u32_mod ≡ c + 1
Round-small (fat16_info _) q off c r = omega arith
Round-small (fat32_info _) q off c r = omega arith

scan-Scanned :
    (v : FatVolume) (i : FatSpecificInfo) (d : Blocks) (fuel q off c : ℕ)
    → Round i q off c
    → 512 < off + fuel * entry_size i
    → Scanned v i d q c (scan i fuel (d (v.lba_start + v.fat_start + q)) off c)
unfolding scan
scan-Scanned v i d zero q off c r enough = absurd (omega (arith, r.off_le))
scan-Scanned v i d (suc fuel) q off c r enough = elim (Bool-cases (leb off (512 - entry_size i))) [
  | inl fits ↦
      let n = Round-next i q off c r fits in
      let same = read_entry-eq v i d q off c r.at n.1 in
      rw fits (elim (Bool-cases (read_entry i (d (v.lba_start + v.fat_start + q)) off == 0)) [
        | inl free ↦ rw free (
          le_refl c,
          omega (arith, r.at, n.1),
          sym same ∙ (==_iff _ 0).0 free,
          AllUsed-none v i d c c (le_refl c),
        )
        | inr used ↦ rw used (
            rw (Round-small i q off c r) (
              Scanned-cons v i d q c _ (λ e. ==_false _ _ used (same ∙ e))
                (scan-Scanned v i d fuel q (off + entry_size i) (c + 1) n.0
                  (omega (arith, enough)))))
      ])
  | inr over ↦ rw over (le_refl c, Round-last i q off c r over, AllUsed-none v i d c c (le_refl c))
]

module _ (v : FatVolume) (i : FatSpecificInfo) (d : Blocks) where
  pub AllUsed-append :
      (c n m : ℕ) → AllUsed v i d c n → AllUsed v i d (c + n) m → AllUsed v i d c (n + m)
  AllUsed-append c zero m h k =
      let e : c + 0 ≡ c = omega arith in
      let z : m ≡ 0 + m = omega arith in
      subst (AllUsed v i d c) z (subst (λ c. AllUsed v i d c m) e k)
  AllUsed-append c (suc n) m h k =
      let e : c + suc n ≡ c + 1 + n = omega arith in
      let z : suc (n + m) ≡ suc n + m = omega arith in
      subst (AllUsed v i d c) z
        (h.0, AllUsed-append (c + 1) n m h.1 (subst (λ c. AllUsed v i d c m) e k))

  AllUsed-prefix : (c n m : ℕ) → m ≤ n → AllUsed v i d c n → AllUsed v i d c m
  AllUsed-prefix c n zero le h = tt
  AllUsed-prefix c zero (suc m) le h = elim le [ ]
  AllUsed-prefix c (suc n) (suc m) le h = (h.0, AllUsed-prefix (c + 1) n m (omega arith) h.1)

  AllUsed-join :
      (c e f : ClusterId)
      → c ≤ e
      → e ≤ f
      → AllUsed v i d c (e - c)
      → AllUsed v i d e (f - e)
      → AllUsed v i d c (f - c)
  AllUsed-join c e f p q h k =
      let a : e ≡ c + (e - c) = omega arith in
      let z : e - c + (f - e) ≡ f - c = omega arith in
      subst (AllUsed v i d c) z
        (AllUsed-append c (e - c) (f - e) h (subst (λ x. AllUsed v i d x (f - e)) a k))

  AllUsed-suffix : (c n m : ℕ) → AllUsed v i d c (n + m) → AllUsed v i d (c + n) m
  AllUsed-suffix c zero m h =
      let e : c ≡ c + 0 = omega arith in
      let z : 0 + m ≡ m = omega arith in
      subst (λ c. AllUsed v i d c m) e (subst (AllUsed v i d c) z h)
  AllUsed-suffix c (suc n) m h =
      let e : c + 1 + n ≡ c + suc n = omega arith in
      let z : suc n + m ≡ suc (n + m) = omega arith in
      let k : AllUsed v i d c (suc (n + m)) = subst (AllUsed v i d c) z h in
      subst (λ c. AllUsed v i d c m) e (AllUsed-suffix (c + 1) n m k.1)

  pub AllUsed-later :
      (c b e : ClusterId) → c ≤ b → AllUsed v i d c (e - c) → AllUsed v i d b (e - b)
  AllUsed-later c b e le h = elim (dec_le b e) [
    | yes p ↦
        let z : b - c + (e - b) ≡ e - c = omega arith in
        let x : c + (b - c) ≡ b = omega arith in
        subst (λ t. AllUsed v i d t (e - b)) x
          (AllUsed-suffix c (b - c) (e - b) (subst (AllUsed v i d c) (sym z) h))
    | no p ↦ let z : 0 ≡ e - b = omega arith in subst (AllUsed v i d b) z tt
  ]

  pub AllUsed-ne : (c n a : ℕ) → c ≤ a → a < c + n → AllUsed v i d c n → entry v i d a ≢ 0
  AllUsed-ne c zero a le lt h = absurd (omega arith)
  AllUsed-ne c (suc n) a le lt h = elim (ℕ_discrete c a) [
    | yes e ↦ subst (λ c. entry v i d c ≢ 0) e h.0
    | no ne ↦ AllUsed-ne (c + 1) n a (omega arith) (omega arith) h.1
  ]

  -- What the search from `c` up to `e` may come to: the first free cluster, in the table, or the
  -- news that there is none before `e`.
  abbrev pub Searched : ClusterId → ClusterId → Result ClusterId → Type 0
  Searched c e (ok f) = (c ≤ f) × InTable v i f × (entry v i d f ≡ 0) × AllUsed v i d c (f - c)
  Searched c e (err not_enough_space) = AllUsed v i d c (e - c)
  Searched c e _ = ⊥

  Searched-later :
      (c c' e : ClusterId) (r : Result ClusterId)
      → c ≤ c'
      → AllUsed v i d c (c' - c)
      → Searched c' e r
      → Searched c e r
  Searched-later c c' e (ok f) le h s =
      (omega (arith, s.0), s.1, s.2, AllUsed-join c c' f le s.0 h s.3)
  Searched-later c c' e (err not_enough_space) le h s = elim (dec_le c' e) [
    | yes p ↦ AllUsed-join c c' e le p h s
    | no p ↦ AllUsed-prefix c (c' - c) (e - c) (omega arith) h
  ]
  Searched-later c c' e _ le h s = absurd s

-- the numbers of a search that has not reached its end
Round-first :
    (v : FatVolume) (i : FatSpecificInfo) (c e : ClusterId)
    → IsPlaced v i
    → c < e
    → e ≤ v.cluster_count + 2
    → Round i (c * entry_size i / 512) (c * entry_size i % 512) c
      × InTable v i c
      × (c * entry_size i / 512 < table_blocks v i)
Round-first v (fat16_info _) c e p lt le = omega (arith, p.count_small)
Round-first v (fat32_info _) c e p lt le = omega (arith, p.count_small)

width_mono : (i : FatSpecificInfo) (a b : ℕ) → a * entry_size i < b * entry_size i → a < b
width_mono (fat16_info _) a b h = omega arith
width_mono (fat32_info _) a b h = omega arith

offset-eq : (i : FatSpecificInfo) (c : ℕ) → mul32 c (entry_size i) % 512 ≡ c * entry_size i % 512
offset-eq (fat16_info _) c = omega arith
offset-eq (fat32_info _) c = omega arith

fuel_covers : (i : FatSpecificInfo) (off : ℕ) → 512 < off + scan_fuel * entry_size i
fuel_covers (fat16_info _) off = omega arith
fuel_covers (fat32_info _) off = omega arith

module _ {D : Type 0} ⦃dev : BlockDevice D⦄ (w : Working dev) where
  -- How a search ended that began at `c`, over the blocks `d`.
  pub record Ended (v : FatVolume) (i : FatSpecificInfo) (d : Blocks) (c e : ClusterId)
      (out : Result ClusterId × BlockCache D) : Type 0 where
    pub coherent : IsCoherent w out.1
    pub stored : blocks w out.1 ≡ d
    pub searched : Searched v i d c e out.0

  go_on-Ended :
      (v : FatVolume) (i : FatSpecificInfo) (d : Blocks) (q c e : ℕ)
      (rest : ClusterId → Action (BlockCache D) ClusterId) (k : BlockCache D) (r : Scan)
      → q < table_blocks v i
      → c * entry_size i < (q + 1) * 512
      → IsCoherent w k
      → blocks w k ≡ d
      → ((c' : ClusterId) → c < c' → Ended v i d c' e (rest c' k))
      → Scanned v i d q c r
      → Ended v i d c e (go_on rest r k)
  unfolding go_on
  go_on-Ended v i d q c e rest k (found f) low at h st ih s = record {
    coherent = h;
    stored = st;
    searched = (s.0, omega (arith, s.1), s.2, s.3);
  }
  go_on-Ended v i d q c e rest k (past c') low at h st ih s =
      let y = ih c' (width_mono i c c' (omega (arith, s.1))) in
      record {
        coherent = y.coherent;
        stored = y.stored;
        searched = Searched-later v i d c c' e (rest c' k).0 s.0 s.2 y.searched;
      }
  go_on-Ended v i d q c e rest k unfinished low at h st ih s = absurd s

  search-Ended :
      (fuel : ℕ) (v : FatVolume) (i : FatSpecificInfo) (c e : ClusterId) (k : BlockCache D)
      → IsPlaced v i
      → e ≤ v.cluster_count + 2
      → e - c < fuel
      → IsCoherent w k
      → Ended v i (blocks w k) c e (search fuel v i c e k)
  unfolding search coded_block
  search-Ended zero v i c e k p le enough h = elim enough [ ]
  search-Ended (suc fuel) v i c e k p le enough h = elim (Bool-cases (ltb c e)) [
    | inl more ↦
        let f = Round-first v i c e p (ltb→lt c e more) le in
        let q = c * entry_size i / 512 in
        let idx = coded_block v v.fat_start i c in
        let y = read-Yields w idx k h in
        let at : idx ≡ v.lba_start + v.fat_start + q =
          coded_block-eq v v.fat_start i c p.count_small p.first_fits f.1 in
        rw (more, if◌then◌else◌)
          (rw (y.result, ◌>>=◌)
            (go_on-Ended v i (blocks w k) q c e (λ c'. search fuel v i c' e) (read idx k).1
              (scan i scan_fuel (blocks w k idx) (mul32 c (entry_size i) % 512) c) f.2 (omega arith)
              y.coherent y.stored
              (λ c' lt.
                subst (λ d. Ended v i d c' e (search fuel v i c' e (read idx k).1)) y.stored
                  (search-Ended fuel v i c' e (read idx k).1 p le (omega (arith, ltb→lt c e more))
                    y.coherent))
              (subst
                (λ b.
                  Scanned v i (blocks w k) q c
                    (scan i scan_fuel (blocks w k b) (mul32 c (entry_size i) % 512) c))
                (sym at)
                (subst
                  (λ o.
                    Scanned v i (blocks w k) q c
                      (scan i scan_fuel (blocks w k (v.lba_start + v.fat_start + q)) o c))
                  (sym (offset-eq i c))
                  (scan-Scanned v i (blocks w k) scan_fuel q (c * entry_size i % 512) c f.0
                    (fuel_covers i (c * entry_size i % 512)))))))
    | inr done ↦
        rw (done, if◌then◌else◌)
          (record {
            coherent = h;
            stored = refl;
            searched = AllUsed-none v i (blocks w k) c e (ltb→le c e done);
          })
  ]

  pub find_next_free_cluster-Ended :
      (v : FatVolume) (start last : ClusterId) (k : BlockCache D)
      → IsPlaced v v.fat_specific_info
      → last ≤ v.cluster_count + 2
      → IsCoherent w k
      → Ended v v.fat_specific_info (blocks w k) start last (find_next_free_cluster v start last k)
  unfolding find_next_free_cluster
  find_next_free_cluster-Ended v start last k p le h =
      search-Ended (suc (last - start)) v v.fat_specific_info start last k p le (omega arith) h

  -- On a device that works the search for a free cluster always ends. If it finds a cluster, that
  -- is the first one, from `start` on, whose entry is 0; it lies in the blocks of the table. If it
  -- reports that there is no space, no cluster from `start` up to the end is free. No other result
  -- is possible.
  pub find_next_free_cluster-Searched :
      (v : FatVolume) (start last : ClusterId) (k : BlockCache D)
      → IsPlaced v v.fat_specific_info
      → last ≤ v.cluster_count + 2
      → IsCoherent w k
      → Searched v v.fat_specific_info
          (blocks w k)
          start
          last
          (find_next_free_cluster v start last k).0
  find_next_free_cluster-Searched v start last k p le h =
      (find_next_free_cluster-Ended v start last k p le h).searched
