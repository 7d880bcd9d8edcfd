-- ===== src/Fat/Alloc/Allocate.antt =====
-- `alloc_cluster`: what it takes, and what it changes.
use native.Mathlib.Decide.{ℕ_discrete}
use embedded_sdmmc_rs.Common.{ℕ, ◌+◌, ◌-◌, ◌<◌, ◌≤◌, ◌≡◌, ◌≢◌, refl, ◌∙◌, ap, sym, subst, arith}
use embedded_sdmmc_rs.Common.{false, Option, none, some, ◌==◌, if◌then◌else◌}
use embedded_sdmmc_rs.Common.{Bool-cases, inl, inr, ==_ne, ltb, ltb→le}
use embedded_sdmmc_rs.Common.Action.{
  Action, Result, ok, err, not_enough_space, match_result, ◌>>=◌, ◌>>◌,
}
use embedded_sdmmc_rs.Block.{BlockDevice}
use embedded_sdmmc_rs.Cache.{BlockCache}
use embedded_sdmmc_rs.Cache.View.{Blocks, Working, blocks, IsCoherent}
use embedded_sdmmc_rs.Filesystem.Cluster
use embedded_sdmmc_rs.Filesystem.Cluster.{ClusterId}
use embedded_sdmmc_rs.Fat.Volume.{FatVolume, FatSpecificInfo, fat16_info, fat32_info}
use embedded_sdmmc_rs.Fat.Table.{update_fat, encode16, encode32}
use embedded_sdmmc_rs.Fat.Table.Spec.{IsPlaced, InTable, HasBlocks, entry, encode}
use embedded_sdmmc_rs.Fat.Alloc.{
  Mounted, with_volume, find_next_free_cluster, find_wrapping, start_cluster, link, alloc_cluster,
  take_cluster, note_allocated, zero_cluster,
}
use embedded_sdmmc_rs.Fat.Alloc.Search.{
  AllUsed, AllUsed-later, AllUsed-ne, Searched, Ended, find_next_free_cluster-Ended,
}
use embedded_sdmmc_rs.Fat.Alloc.Chain.{table, IsReady, Wrote, update_fat-Wrote}

-- What the search with a second try may come to: a free cluster of the table, or the news that
-- no cluster of the volume is free.
abbrev Wrapped : FatVolume → FatSpecificInfo → Blocks → ClusterId → Result ClusterId → Type 0
Wrapped v i d last (ok f) = InTable v i f × (entry v i d f ≡ 0)
Wrapped v i d last (err not_enough_space) = AllUsed v i d 2 (last - 2)
Wrapped v i d last _ = ⊥

Wrapped-ok :
    (v : FatVolume) (i : FatSpecificInfo) (d : Blocks) (last a : ClusterId) (r : Result ClusterId)
    → 2 ≤ a
    → a < last
    → entry v i d a ≡ 0
    → Wrapped v i d last r
    → (f : ClusterId) × (r ≡ ok f) × InTable v i f × (entry v i d f ≡ 0)
Wrapped-ok v i d last a (ok f) two lt free h = (f, refl, h.0, h.1)
Wrapped-ok v i d last a (err not_enough_space) two lt free h =
    absurd (AllUsed-ne v i d 2 (last - 2) a two (omega arith) h free)
Wrapped-ok v i d last a _ two lt free h = absurd h

Wrapped-Searched :
    (v : FatVolume) (i : FatSpecificInfo) (d : Blocks) (last : ClusterId) (r : Result ClusterId)
    → Searched v i d 2 last r
    → Wrapped v i d last r
Wrapped-Searched v i d last (ok f) s = (s.1, s.2)
Wrapped-Searched v i d last (err not_enough_space) s = s
Wrapped-Searched v i d last _ s = absurd s

module _ {D : Type 0} ⦃dev : BlockDevice D⦄ (w : Working dev) where
  record Tried (v : FatVolume) (d : Blocks) (last : ClusterId)
      (out : Result ClusterId × BlockCache D) : Type 0 where
    coherent : IsCoherent w out.1
    stored : blocks w out.1 ≡ d
    wrapped : Wrapped v v.fat_specific_info d last out.0

  find_wrapping-Tried :
      (v : FatVolume) (start last : ClusterId) (k : BlockCache D)
      → IsPlaced v v.fat_specific_info
      → last ≤ v.cluster_count + 2
      → IsCoherent w k
      → Tried v (blocks w k) last (find_wrapping start last v k)
  unfolding find_wrapping
  find_wrapping-Tried v start last k p le co =
      go (find_next_free_cluster v start last k).0 refl y.searched
    where
      i : FatSpecificInfo
      i = v.fat_specific_info

      k1 : BlockCache D
      k1 = (find_next_free_cluster v start last k).1

      y : Ended w v i (blocks w k) start last (find_next_free_cluster v start last k)
      y = find_next_free_cluster-Ended w v start last k p le co

      go :
          (r : Result ClusterId)
          → (find_next_free_cluster v start last k).0 ≡ r
          → Searched v i (blocks w k) start last r
          → Tried v (blocks w k) last (find_wrapping start last v k)
      go (ok f) e s =
          rw (e, match_result)
            (record { coherent = y.coherent; stored = y.stored; wrapped = (s.1, s.2) })
      go (err not_enough_space) e s =
          rw (e, match_result)
            (elim (Bool-cases (ltb 2 start)) [
              | inl more ↦
                  rw (more, if◌then◌else◌)
                    (let z = find_next_free_cluster-Ended w v 2 last k1 p le y.coherent in
                      record {
                        coherent = z.coherent;
                        stored = z.stored ∙ y.stored;
                        wrapped =
                            subst (λ d. Wrapped v i d last (find_next_free_cluster v 2 last k1).0)
                              y.stored (Wrapped-Searched v i (blocks w k1) last _ z.searched);
                      })
              | inr no_more ↦
                  rw (no_more, if◌then◌else◌)
                    (record {
                      coherent = y.coherent;
                      stored = y.stored;
                      wrapped =
                          AllUsed-later v i (blocks w k) start 2 last (ltb→le 2 start no_more) s;
                    })
            ])
      go _ e s = absurd s

-- the entry of `j` after the cluster `new` was linked to its predecessor
abbrev pub linked : FatSpecificInfo → Option ClusterId → ClusterId → ClusterId → ℕ → ℕ
linked i none new j e = e
linked i (some p) new j e = if p == j then encode i new else e

-- The predecessor of the new cluster, if there is one, is a cluster of the table that is in use.
abbrev pub IsUsed : FatVolume → Blocks → Option ClusterId → Type 0
IsUsed v d none = Unit
IsUsed v d (some p) = InTable v v.fat_specific_info p × (entry v v.fat_specific_info d p ≢ 0)

encode-end_of_file : (i : FatSpecificInfo) → encode i Cluster.end_of_file ≢ 0
unfolding encode16 encode32
encode-end_of_file (fat16_info _) = omega arith
encode-end_of_file (fat32_info _) = omega arith

-- An entry that is free and no predecessor is still free if it is not the new cluster.
still_free :
    (v : FatVolume) (d : Blocks) (prev : Option ClusterId) (f b t : ℕ)
    → IsUsed v d prev
    → entry v v.fat_specific_info d b ≡ 0
    → f ≢ b
    → linked v.fat_specific_info prev f b (if f == b then t else entry v v.fat_specific_info d b)
      ≡ 0
still_free v d none f b t u free ne = rw (==_ne f b ne) free
still_free v d (some p) f b t u free ne =
    rw (==_ne p b (λ e. u.1 (ap (entry v v.fat_specific_info d) e ∙ free))) (rw (==_ne f b ne) free)

InTable-below :
    (v : FatVolume) (i : FatSpecificInfo) (c : ClusterId) → c < v.cluster_count + 2 → InTable v i c
InTable-below v (fat16_info _) c h = omega arith
InTable-below v (fat32_info _) c h = omega arith

module _ {D : Type 0} ⦃dev : BlockDevice D⦄ (w : Working dev) where
  -- the state after the new cluster was linked
  record Linked (s : Mounted D) (prev : Option ClusterId) (new : ClusterId)
      (out : Result (Unit {0}) × Mounted D) : Type 0 where
    result : out.0 ≡ ok tt
    ready : IsReady w out.1
    entries :
        (j : ClusterId)
        → InTable s.volume s.volume.fat_specific_info j
        → entry s.volume s.volume.fat_specific_info (blocks w out.1.cache) j
          ≡ linked s.volume.fat_specific_info prev new j (table w s j)

  Wrote-IsReady :
      (s : Mounted D) (c new : ClusterId)
      → IsReady w s
      → Wrote w s c new (with_volume (λ v. update_fat v c new) s)
      → IsReady w (with_volume (λ v. update_fat v c new) s).1
  Wrote-IsReady s c new r y = record {
    placed = r.placed;
    coherent = y.coherent;
    full_blocks = y.full_blocks;
  }

  link-Linked :
      (s : Mounted D) (prev : Option ClusterId) (new : ClusterId)
      → IsReady w s
      → IsUsed s.volume (blocks w s.cache) prev
      → Linked s prev new (with_volume (link prev new) s)
  unfolding link
  link-Linked s none new r u = record { result = refl; ready = r; entries = λ j ij. refl }
  link-Linked s (some p) new r u =
      let y = update_fat-Wrote w s p new r u.0 in
      record { result = y.result; ready = Wrote-IsReady s p new r y; entries = y.entries }

  -- What an allocation after `prev` came to, in the state `s`.
  pub record Allocated (s : Mounted D) (prev : Option ClusterId) (c : ClusterId)
      (out : Result ClusterId × Mounted D) : Type 0 where
    pub result : out.0 ≡ ok c
    pub was_free : table w s c ≡ 0
    pub inside : InTable s.volume s.volume.fat_specific_info c
    pub entries :
        (j : ClusterId)
        → InTable s.volume s.volume.fat_specific_info j
        → entry s.volume s.volume.fat_specific_info (blocks w out.1.cache) j
          ≡ linked s.volume.fat_specific_info prev c j (
              if c == j then encode s.volume.fat_specific_info Cluster.end_of_file else table w s j)

  -- The search, on the state of a mounted volume that is ready: the state stays ready and its
  -- table as it was.
  search-IsReady :
      (s : Mounted D) (start last : ClusterId)
      → IsReady w s
      → last ≤ s.volume.cluster_count + 2
      → IsReady w (with_volume (find_wrapping start last) s).1
  search-IsReady s start last r le =
      let t = find_wrapping-Tried w s.volume start last s.cache r.placed le r.coherent in
      record {
        placed = r.placed;
        coherent = t.coherent;
        full_blocks = subst HasBlocks (sym t.stored) r.full_blocks;
      }

  -- The predecessor is still in use once the new cluster is marked.
  IsUsed-marked :
      (v : FatVolume) (d e : Blocks) (prev : Option ClusterId) (f t : ℕ)
      → entry v v.fat_specific_info d f ≡ 0
      → ((j : ClusterId)
          → InTable v v.fat_specific_info j
          → entry v v.fat_specific_info e j
            ≡ (if f == j then t else entry v v.fat_specific_info d j))
      → IsUsed v d prev
      → IsUsed v e prev
  IsUsed-marked v d e none f t free h u = tt
  IsUsed-marked v d e (some p) f t free h u = (
    u.0,
    λ z. u.1 (
        sym (
          h p u.0
          ∙ rw (==_ne f p (λ q. u.1 (ap (entry v v.fat_specific_info d) (sym q) ∙ free))) refl)
        ∙ z),
  )

  -- The state after the new cluster is marked as the end of a file and linked.
  abbrev mark : Option ClusterId → ClusterId → Mounted D → Mounted D
  mark prev f s =
      (with_volume (link prev f) (with_volume (λ v. update_fat v f Cluster.end_of_file) s).1).1

  marked :
      (s : Mounted D) (prev : Option ClusterId) (f : ClusterId)
      → IsReady w s
      → IsUsed s.volume (blocks w s.cache) prev
      → InTable s.volume s.volume.fat_specific_info f
      → table w s f ≡ 0
      → Linked
          (with_volume (λ v. update_fat v f Cluster.end_of_file) s).1
          prev
          f
          (with_volume (link prev f) (with_volume (λ v. update_fat v f Cluster.end_of_file) s).1)
  marked s prev f r u inf free =
      let y = update_fat-Wrote w s f Cluster.end_of_file r inf in
      let s2 = (with_volume (λ v. update_fat v f Cluster.end_of_file) s).1 in
      link-Linked s2 prev f (Wrote-IsReady s f Cluster.end_of_file r y) (
        IsUsed-marked s.volume (blocks w s.cache) (blocks w s2.cache) prev f
          (encode s.volume.fat_specific_info Cluster.end_of_file) free y.entries u)

  marked_entries :
      (s : Mounted D) (prev : Option ClusterId) (f j : ClusterId)
      → IsReady w s
      → IsUsed s.volume (blocks w s.cache) prev
      → InTable s.volume s.volume.fat_specific_info f
      → table w s f ≡ 0
      → InTable s.volume s.volume.fat_specific_info j
      → table w (mark prev f s) j
        ≡ linked s.volume.fat_specific_info prev f j
            (if f == j then encode s.volume.fat_specific_info Cluster.end_of_file else table w s j)
  marked_entries s prev f j r u inf free ij =
      (marked s prev f r u inf free).entries j ij
      ∙ ap (linked s.volume.fat_specific_info prev f j)
          ((update_fat-Wrote w s f Cluster.end_of_file r inf).entries j ij)

  -- What the first search of an allocation comes to.
  record Picked (s : Mounted D) (last f : ClusterId) (out : Result ClusterId × Mounted D)
      : Type 0 where
    result : out.0 ≡ ok f
    ready : IsReady w out.1
    inside : InTable s.volume s.volume.fat_specific_info f
    stored : blocks w out.1.cache ≡ blocks w s.cache
    was_free : table w s f ≡ 0

  pick :
      (s : Mounted D) (start last a : ClusterId)
      → IsReady w s
      → 2 ≤ a
      → a < last
      → last ≤ s.volume.cluster_count + 2
      → table w s a ≡ 0
      → (f : ClusterId) × Picked s last f (with_volume (find_wrapping start last) s)
  pick s start last a r two lt le free =
      let t = find_wrapping-Tried w s.volume start last s.cache r.placed le r.coherent in
      let f =
        Wrapped-ok s.volume s.volume.fat_specific_info (blocks w s.cache) last a _ two lt free
          t.wrapped in
      (
        f.0,
        record {
          result = f.1;
          ready = search-IsReady s start last r le;
          inside = f.2;
          stored = t.stored;
          was_free = f.3;
        },
      )

  bind-ok :
      {S A B : Type 0} (m : Action S A) (g : A → Action S B) (s : S) (a : A)
      → (m s).0 ≡ ok a
      → (m >>= g) s ≡ g a (m s).1
  bind-ok m g s a e = rw (e, ◌>>=◌) refl

  then-ok :
      {S B : Type 0} (m : Action S (Unit {0})) (n : Action S B) (s : S)
      → (m s).0 ≡ ok tt
      → (m >> n) s ≡ n (m s).1
  then-ok m n s e = rw (e, ◌>>◌, ◌>>=◌) refl

  -- The rest of an allocation, once the search has picked `f`.
  allocate-Picked :
      (s : Mounted D) (prev : Option ClusterId) (f a b : ClusterId)
      → IsReady w s
      → IsUsed s.volume (blocks w s.cache) prev
      → 2 ≤ a
      → a < b
      → b < s.volume.cluster_count + 2
      → table w s a ≡ 0
      → table w s b ≡ 0
      → let last = Cluster.add_cluster s.volume.cluster_count 2 in
        let start = start_cluster s.volume.next_free_cluster last in
        last ≡ s.volume.cluster_count + 2
        → Picked s last f (with_volume (find_wrapping start last) s)
        → (c : ClusterId) × Allocated s prev c (alloc_cluster prev false s)
  unfolding alloc_cluster take_cluster note_allocated zero_cluster
  allocate-Picked s prev f a b r u two lt inb fa fb e p =
      let v = s.volume in
      let i = v.fat_specific_info in
      let last = Cluster.add_cluster v.cluster_count 2 in
      let start = start_cluster v.next_free_cluster last in
      let s1 = (with_volume (find_wrapping start last) s).1 in
      let u1 = subst (λ d. IsUsed v d prev) (sym p.stored) u in
      let same : (j : ClusterId) → table w s1 j ≡ table w s j =
        λ j. ap (λ d. entry v i d j) p.stored in
      let free1 = same f ∙ p.was_free in
      let y = update_fat-Wrote w s1 f Cluster.end_of_file p.ready p.inside in
      let m = marked s1 prev f p.ready u1 p.inside free1 in
      let s3 = mark prev f s1 in
      let after_link : Action (Mounted D) ClusterId =
        with_volume (find_wrapping f last) >>= note_allocated false f in
      let after_mark = with_volume (link prev f) >> after_link in
      let rest : (x : ClusterId)
          → f ≢ x
          → 2 ≤ x
          → x < last
          → table w s x ≡ 0
          → (g : ClusterId) × Picked s3 last g (with_volume (find_wrapping f last) s3) =
        λ x ne two lt free. pick s3 f last x m.ready two lt (omega (arith, e)) (
          marked_entries s1 prev f x p.ready u1 p.inside free1
            (InTable-below v i x (omega (arith, e)))
          ∙ still_free v (blocks w s1.cache) prev f x (encode i Cluster.end_of_file) u1
              (same x ∙ free) ne) in
      let more =
        elim (ℕ_discrete f a)
          as (λ _. (g : ClusterId) × Picked s3 last g (with_volume (find_wrapping f last) s3)) [
            | yes is_a ↦ rest b (omega arith) (omega arith) (omega (arith, e)) fb
            | no ne ↦ rest a ne two (omega (arith, e)) fa
          ] in
      (
        f,
        subst (Allocated s prev f)
            (sym (
              bind-ok (with_volume (find_wrapping start last)) (take_cluster prev false last) s f
                p.result
              ∙ then-ok (with_volume (λ v. update_fat v f Cluster.end_of_file)) after_mark s1
                  y.result
              ∙ then-ok (with_volume (link prev f)) after_link
                  (with_volume (λ v. update_fat v f Cluster.end_of_file) s1).1 m.result
              ∙ bind-ok (with_volume (find_wrapping f last)) (note_allocated false f) s3 more.0
                  more.1.result))
            (record {
              result = refl;
              was_free = p.was_free;
              inside = p.inside;
              entries = λ j ij.
                  ap (λ d. entry v i d j) more.1.stored
                  ∙ marked_entries s1 prev f j p.ready u1 p.inside free1 ij
                  ∙ ap (λ t. linked i prev f j (if f == j then encode i Cluster.end_of_file else t))
                      (same j);
            }),
      )

  -- On a device that works, with two clusters of the volume free and the predecessor in use, the
  -- allocation (without zeroing) succeeds.
  alloc_cluster-Allocated :
      (s : Mounted D) (prev : Option ClusterId) (a b : ClusterId)
      → IsReady w s
      → IsUsed s.volume (blocks w s.cache) prev
      → 2 ≤ a
      → a < b
      → b < s.volume.cluster_count + 2
      → table w s a ≡ 0
      → table w s b ≡ 0
      → (c : ClusterId) × Allocated s prev c (alloc_cluster prev false s)
  alloc_cluster-Allocated s prev a b r u two lt inb fa fb =
      let v = s.volume in
      let last = Cluster.add_cluster v.cluster_count 2 in
      let e : last ≡ v.cluster_count + 2 = omega (arith, r.placed.count_small) in
      let start = start_cluster v.next_free_cluster last in
      let p = pick s start last a r two (omega (arith, e)) (omega (arith, e)) fa in
      allocate-Picked s prev p.0 a b r u two lt inb fa fb e p.1

  -- An allocation without zeroing, on a device that works, with two clusters `a` and `b` of the
  -- volume free, and with the predecessor (if any) in use: it returns a cluster `c` of the table
  -- that was free, marks it as the end of a file, links the predecessor to it, and leaves every
  -- other entry as it was.
  pub alloc_cluster_lem :
      (s : Mounted D) (prev : Option ClusterId) (a b j : ClusterId)
      → IsReady w s
      → IsUsed s.volume (blocks w s.cache) prev
      → 2 ≤ a
      → a < b
      → b < s.volume.cluster_count + 2
      → table w s a ≡ 0
      → table w s b ≡ 0
      → InTable s.volume s.volume.fat_specific_info j
      → let out = alloc_cluster prev false s in
        let i = s.volume.fat_specific_info in
        (c : ClusterId) × (out.0 ≡ ok c)
        × (table w s c ≡ 0)
        × InTable s.volume i c
        × (entry s.volume i (blocks w out.1.cache) j
            ≡ linked i prev c j (if c == j then encode i Cluster.end_of_file else table w s j))
  alloc_cluster_lem s prev a b j r u two lt last fa fb ij =
      let x = alloc_cluster-Allocated s prev a b r u two lt last fa fb in
      (x.0, x.1.result, x.1.was_free, x.1.inside, x.1.entries j ij)
