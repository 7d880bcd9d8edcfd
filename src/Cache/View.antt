-- ===== src/Cache/View.antt =====
-- The cache over a device that works: what each operation returns, and which blocks the device
-- holds afterwards.
use embedded_sdmmc_rs.Common.{ℕ, true, List, Option, none, some, ◌≡◌, refl, ◌∙◌}
use embedded_sdmmc_rs.Common.{inl, inr, ◌==◌, if◌then◌else◌, Bool-cases, ap, sym}
use embedded_sdmmc_rs.Common.{ap₂, ==_self, ==_iff}
use embedded_sdmmc_rs.Common.Action.{lift, Action, Result, ok, ◌>>=◌, ◌>>◌}
use embedded_sdmmc_rs.Block.{BlockDevice, done, new_block}
use embedded_sdmmc_rs.Cache.{
  BlockCache, holds, read, blank_mut, fetched, modify_block, write_to, write_back,
  write_back_with_duplicate, write_copies,
}

-- What a device stores, by block number, and one block of it replaced.
abbrev pub Blocks : Type 0
Blocks = ℕ → List ℕ

abbrev pub put_block : Blocks → ℕ → List ℕ → Blocks
put_block d idx b j = if idx == j then b else d j

-- The block stored at `idx`, and at its second place if it has one.
abbrev pub put_copies : Blocks → ℕ → Option ℕ → List ℕ → Blocks
put_copies d idx none b = put_block d idx b
put_copies d idx (some j) b = put_block (put_block d idx b) j b

-- A device that does what `BlockDevice` documents, without failing: it stores blocks, a read
-- fills the buffer from the block asked for and changes nothing, a write replaces that block.
pub record Working {D : Type 0} (dev : BlockDevice D) : Type 0 where
  pub contents : D → Blocks
  pub read_done : (b : List ℕ) (i : ℕ) (d : D) → (dev.read b i d).0 ≡ done
  pub read_block : (b : List ℕ) (i : ℕ) (d : D) → (dev.read b i d).1 ≡ contents d i
  pub read_keeps : (b : List ℕ) (i : ℕ) (d : D) → contents (dev.read b i d).2 ≡ contents d
  pub write_done : (b : List ℕ) (i : ℕ) (d : D) → (dev.write b i d).0 ≡ done
  pub write_block :
      (b : List ℕ) (i : ℕ) (d : D) → contents (dev.write b i d).1 ≡ put_block (contents d) i b

module _ {D : Type 0} ⦃dev : BlockDevice D⦄ (w : Working dev) where
  -- The blocks on the device behind a cache.
  abbrev pub blocks : BlockCache D → Blocks
  blocks c = w.contents c.block_device

  -- The block in the cache is the device's.
  abbrev pub IsCoherent : BlockCache D → Type 0
  IsCoherent c = (i : ℕ) → holds c.block_idx i ≡ true → c.block ≡ blocks c i

  -- An action gave the result `r`, and left a coherent cache before a device that stores `d`.
  pub record Yields {A : Type 0} (out : Result A × BlockCache D) (r : Result A) (d : Blocks)
      : Type 0 where
    pub result : out.0 ≡ r
    pub coherent : IsCoherent out.1
    pub stored : blocks out.1 ≡ d

  holds-some : (o : Option ℕ) (i : ℕ) → holds o i ≡ true → o ≡ some i
  holds-some none i h = cc
  holds-some (some x) i h = ap some ((==_iff x i).0 h)

  -- A read returns the device's block, and leaves it in the cache.
  pub read-Yields :
      (idx : ℕ) (c : BlockCache D)
      → IsCoherent c
      → Yields (read idx c) (ok (blocks c idx)) (blocks c)
  unfolding read
  read-Yields idx c h = elim (Bool-cases (holds c.block_idx idx)) [
    | inl hit ↦
        rw (hit, if◌then◌else◌) (record { result = ap ok (h idx hit); coherent = h; stored = refl })
    | inr miss ↦
        rw (miss, if◌then◌else◌)
          (rw (w.read_done _ _ _, fetched)
            (record {
              result = ap ok (w.read_block _ _ _);
              coherent = λ i e.
                  w.read_block _ _ _
                  ∙ sym (ap (λ (g : Blocks). g idx) (w.read_keeps _ _ _))
                  ∙ ap (w.contents _) ((==_iff idx i).0 e);
              stored = w.read_keeps _ _ _;
            }))
  ]

  holds-read : (idx : ℕ) (c : BlockCache D) → holds (read idx c).1.block_idx idx ≡ true
  unfolding read
  holds-read idx c = elim (Bool-cases (holds c.block_idx idx)) [
    | inl hit ↦ rw (hit, if◌then◌else◌) hit
    | inr miss ↦ rw (miss, if◌then◌else◌) (rw (w.read_done _ _ _, fetched) (==_self idx))
  ]

  read-block_idx : (idx : ℕ) (c : BlockCache D) → (read idx c).1.block_idx ≡ some idx
  read-block_idx idx c = holds-some (read idx c).1.block_idx idx (holds-read idx c)

  read-block : (idx : ℕ) (c : BlockCache D) → IsCoherent c → (read idx c).1.block ≡ blocks c idx
  read-block idx c h =
      let y = read-Yields idx c h in
      y.coherent idx (holds-read idx c) ∙ ap (λ (g : Blocks). g idx) y.stored

  write_to-Yields :
      (j : ℕ) (c : BlockCache D)
      → ((i : ℕ) → holds c.block_idx i ≡ true → c.block ≡ put_block (blocks c) j c.block i)
      → Yields (write_to j c) (ok tt) (put_block (blocks c) j c.block)
  unfolding write_to
  write_to-Yields j c h =
      rw (w.write_done _ _ _, write_to)
        (record {
          result = refl;
          coherent = λ i held.
              h i held ∙ sym (ap (λ (g : Blocks). g i) (w.write_block c.block j c.block_device));
          stored = w.write_block _ _ _;
        })

  write_to-block : (j : ℕ) (c : BlockCache D) → (write_to j c).1.block ≡ c.block
  unfolding write_to
  write_to-block j c = rw (w.write_done _ _ _, write_to)

  -- A write back stores the block of the cache where it was read from.
  pub write_back-Yields :
      (idx : ℕ) (c : BlockCache D)
      → c.block_idx ≡ some idx
      → Yields (write_back c) (ok tt) (put_block (blocks c) idx c.block)
  unfolding write_back
  write_back-Yields idx c e =
      rw (e, write_back)
        (write_to-Yields idx c
          λ i held. let here : (idx == i) ≡ true = rw (e, holds) at held in rw here refl)

  write_back-block :
      (idx : ℕ) (c : BlockCache D) → c.block_idx ≡ some idx → (write_back c).1.block ≡ c.block
  unfolding write_back
  write_back-block idx c e = rw (e, write_back) (write_to-block idx c)

  -- It stores the block twice if it is given a second place.
  pub write_back_with_duplicate-Yields :
      (idx j : ℕ) (c : BlockCache D)
      → c.block_idx ≡ some idx
      → Yields
          (write_back_with_duplicate j c)
          (ok tt)
          (put_block (put_block (blocks c) idx c.block) j c.block)
  unfolding write_back_with_duplicate
  write_back_with_duplicate-Yields idx j c e =
      let y = write_back-Yields idx c e in
      let b = write_back-block idx c e in
      let z = write_to-Yields j (write_back c).1 (λ i held. again i held (y.coherent i held)) in
      rw (y.result, ◌>>=◌) (rw (y.stored, b) at z)
    where
      again :
          (i : ℕ)
          → holds (write_back c).1.block_idx i ≡ true
          → (write_back c).1.block ≡ blocks (write_back c).1 i
          → (write_back c).1.block ≡ put_block (blocks (write_back c).1) j (write_back c).1.block i
      again i held h = elim (Bool-cases (j == i)) [ inl eq ↦ rw eq refl | inr ne ↦ rw ne h ]

  -- The action `m` returned `a`, and so `f a` went on from the state that `m` left.
  pub Yields-bind :
      {A B : Type 0} (m : Action (BlockCache D) A) (f : A → Action (BlockCache D) B)
      (c : BlockCache D) (a : A) (r : Result B) (d e : Blocks)
      → Yields (m c) (ok a) d
      → Yields (f a (m c).1) r e
      → Yields ((m >>= f) c) r e
  Yields-bind m f c a r d e y z = rw (y.result, ◌>>=◌) z

  pub Yields-stored :
      {A : Type 0} {out : Result A × BlockCache D} {r : Result A} {d e : Blocks}
      → Yields out r d
      → d ≡ e
      → Yields out r e
  Yields-stored y p = record { result = y.result; coherent = y.coherent; stored = y.stored ∙ p }

  pub write_copies-Yields :
      (idx : ℕ) (copy : Option ℕ) (c : BlockCache D)
      → c.block_idx ≡ some idx
      → Yields (write_copies copy c) (ok tt) (put_copies (blocks c) idx copy c.block)
  unfolding write_copies
  write_copies-Yields idx none c e = write_back-Yields idx c e
  write_copies-Yields idx (some j) c e = write_back_with_duplicate-Yields idx j c e

  -- The way to change a block: read it, change it, write it back, twice if it has a copy.
  pub rewrite_block-Yields :
      (idx : ℕ) (copy : Option ℕ) (f : List ℕ → List ℕ) (c : BlockCache D)
      → IsCoherent c
      → Yields
          ((read idx >>= λ _. modify_block f >> write_copies copy) c)
          (ok tt)
          (put_copies (blocks c) idx copy (f (blocks c idx)))
  rewrite_block-Yields idx copy f c h =
      let y = read-Yields idx c h in
      Yields-bind (read idx) (λ _. modify_block f >> write_copies copy) c (blocks c idx) (ok tt)
        (blocks c) _ y
        (Yields-stored (changed (read idx c).1 (read-block_idx idx c)) (
          ap₂ (λ (d : Blocks) (b : List ℕ). put_copies d idx copy (f b)) y.stored
            (read-block idx c h)))
    where
      changed :
          (c1 : BlockCache D)
          → c1.block_idx ≡ some idx
          → Yields
              ((modify_block f >> write_copies copy) c1)
              (ok tt)
              (put_copies (blocks c1) idx copy (f c1.block))
      changed c1 e =
          unfold modify_block in write_copies-Yields idx copy (record c1 { block = f c1.block }) e

  pub lift-Yields :
      {A : Type 0} (r : Result A) (c : BlockCache D) → IsCoherent c → Yields (lift r c) r (blocks c)
  lift-Yields r c h = record { result = refl; coherent = h; stored = refl }

  pub Yields-result :
      {A : Type 0} {out : Result A × BlockCache D} {r s : Result A} {d : Blocks}
      → Yields out r d
      → r ≡ s
      → Yields out s d
  Yields-result y p = record { result = y.result ∙ p; coherent = y.coherent; stored = y.stored }

  -- A computation on a block that was read.
  pub read_then-Yields :
      {A : Type 0} (idx : ℕ) (g : List ℕ → Result A) (c : BlockCache D)
      → IsCoherent c
      → Yields ((read idx >>= λ b. lift (g b)) c) (g (blocks c idx)) (blocks c)
  read_then-Yields idx g c h =
      let y = read-Yields idx c h in
      Yields-bind (read idx) (λ b. lift (g b)) c (blocks c idx) (g (blocks c idx)) (blocks c)
        (blocks c) y
        (Yields-stored (lift-Yields (g (blocks c idx)) (read idx c).1 y.coherent) y.stored)

  -- A block that was read is changed and written back.
  pub modify_read-Yields :
      (idx : ℕ) (f : List ℕ → List ℕ) (c : BlockCache D)
      → IsCoherent c
      → Yields
          ((modify_block f >> write_back) (read idx c).1)
          (ok tt)
          (put_block (blocks c) idx (f (blocks c idx)))
  modify_read-Yields idx f c h =
      unfold modify_block in
      Yields-stored
        (write_back-Yields idx (record (read idx c).1 { block = f (read idx c).1.block })
          (read-block_idx idx c))
        (ap₂ (λ (d : Blocks) (b : List ℕ). put_block d idx (f b)) (read-Yields idx c h).stored
          (read-block idx c h))

  -- A block that was filled with zeros is changed and written back.
  pub blank_write-Yields :
      (idx : ℕ) (f : List ℕ → List ℕ) (c : BlockCache D)
      → Yields
          ((blank_mut idx >>= λ _. modify_block f >> write_back) c)
          (ok tt)
          (put_block (blocks c) idx (f new_block))
  unfolding blank_mut
  blank_write-Yields idx f c =
      unfold modify_block in
      write_back-Yields idx (record c { block = f new_block; block_idx = some idx }) refl
