-- ===== src/Fat/Directory/Walk.antt =====
-- The walk over a directory, on a device that works: its closure is called for the items of the
-- directory, in order, and for nothing else.
use embedded_sdmmc_rs.Common.{
  ℕ, zero, suc, ◌+◌, ◌*◌, ◌<◌, ◌≤◌, ◌≡◌, refl, sym, subst, arith, u32_mod,
}
use embedded_sdmmc_rs.Common.{List, Option, none, some, Bool-cases, inl, inr}
use embedded_sdmmc_rs.Common.Action
use embedded_sdmmc_rs.Common.Action.{Action, Result, ok, err, match_result, ◌>>=◌}
use embedded_sdmmc_rs.Block.{BlockDevice, BlockIter, next}
use embedded_sdmmc_rs.Block.Range.{count_from}
use embedded_sdmmc_rs.Cache.{read}
use embedded_sdmmc_rs.Cache.View.{Blocks, Working, blocks, IsCoherent, read-Yields}
use embedded_sdmmc_rs.Fat.Volume.{FatType}
use embedded_sdmmc_rs.Fat.OnDisk.{is_end, is_valid, get_entry}
use embedded_sdmmc_rs.Fat.Directory.{
  ControlFlow, continue, break, Visitor, Visit, chunk, entries_per_block, each_entry, visit_block,
  each_block, block_round, unless_some,
}
use embedded_sdmmc_rs.Fat.Directory.Listing.{
  block_items, items_of, join, listing, outcome_of, and_then, outcome-join, after_call,
}

module _ {D S : Type 0} ⦃dev : BlockDevice D⦄ where
  -- the state of a walk after the calls for some items
  abbrev visited : Option (Unit {0}) × S → Visit D S → Result (Option (Unit {0})) × Visit D S
  visited p x = (ok p.0, record x { seen = p.1 })

  after_call-visited :
      (r : ControlFlow × S) (x : Visit D S) (rest : Action (Visit D S) (Option (Unit {0})))
      (f : S → Option (Unit {0}) × S)
      → ((s : S) → rest (record x { seen = s }) ≡ visited (f s) (record x { seen = s }))
      → (elim r.0 as (λ _. Action (Visit D S) (Option (Unit {0}))) [
        | break ↦ Action.pure (some tt)
        | continue ↦ rest
      ])
          (record x { seen = r.1 })
        ≡ visited (after_call r f) x
  after_call-visited (break, s) x rest f h = refl
  after_call-visited (continue, s) x rest f h = h s

  each_entry-visited :
      (func : Visitor S) (t : FatType) (idx : ℕ) (block : List ℕ) (n i : ℕ) (x : Visit D S)
      → each_entry func t idx block n i x
        ≡ visited (outcome_of func (block_items t idx block n i) x.seen) x
  unfolding each_entry
  each_entry-visited func t idx block zero i x = refl
  each_entry-visited func t idx block (suc n) i x =
      let bytes = chunk i block in
      let later = each_entry-visited func t idx block n (i + 1) in
      elim (Bool-cases (is_end bytes)) [
        | inl hit ↦ rw hit refl
        | inr here ↦ rw here (elim (Bool-cases (is_valid bytes)) [
          | inl valid ↦ rw valid (
              after_call-visited (func (get_entry t idx (i * 32) bytes) bytes x.seen) x
                (each_entry func t idx block n (i + 1))
                (outcome_of func (block_items t idx block n (i + 1)))
                (λ s. later (record x { seen = s })))
          | inr unused ↦ rw unused (later x)
        ])
      ]

next-more :
    (start last : ℕ)
    → start < last
    → last < u32_mod
    → next (record { inclusive_end = last; current = start })
      ≡ (some start, record { inclusive_end = last; current = start + 1 })
unfolding next
next-more start last lt small = ground arith

next-end :
    (start last : ℕ)
    → last ≤ start
    → next (record { inclusive_end = last; current = start })
      ≡ (none, record { inclusive_end = last; current = start })
unfolding next
next-end start last le = ground arith

module _ {D S : Type 0} ⦃dev : BlockDevice D⦄ (w : Working dev) where
  -- A part of the walk came to `p`, over the blocks `d`, which it has not changed.
  pub record Visited (out : Result (Option (Unit {0})) × Visit D S) (p : Option (Unit {0}) × S)
      (d : Blocks) : Type 0 where
    pub result : out.0 ≡ ok p.0
    pub seen : out.1.seen ≡ p.1
    pub coherent : IsCoherent w out.1.cache
    pub stored : blocks w out.1.cache ≡ d

  visit_block-Visited :
      (func : Visitor S) (t : FatType) (idx : ℕ) (x : Visit D S)
      → IsCoherent w x.cache
      → Visited
          (visit_block func t idx x)
          (outcome_of func (items_of t idx (blocks w x.cache idx)) x.seen)
          (blocks w x.cache)
  unfolding visit_block items_of
  visit_block-Visited func t idx x h =
      let y = read-Yields w idx x.cache h in
      let x1 : Visit D S = record x { cache = (read idx x.cache).1 } in
      rw (y.result, ◌>>=◌)
        (rw (each_entry-visited func t idx (blocks w x.cache idx) entries_per_block 0 x1)
          (record { result = refl; seen = refl; coherent = y.coherent; stored = y.stored }))

  -- What follows a block: the next ones, unless the walk has stopped.
  pub then-Visited :
      (m rest : Action (Visit D S) (Option (Unit {0}))) (x : Visit D S) (p : Option (Unit {0}) × S)
      (f : S → Option (Unit {0}) × S) (d : Blocks)
      → Visited (m x) p d
      → ((x : Visit D S)
          → IsCoherent w x.cache
          → blocks w x.cache ≡ d
          → Visited (rest x) (f x.seen) d)
      → Visited ((m >>= λ r. unless_some r rest) x) (and_then p f) d
  then-Visited m rest x (some u, s) f d y h =
      rw (y.result, ◌>>=◌)
        (record { result = refl; seen = y.seen; coherent = y.coherent; stored = y.stored })
  then-Visited m rest x (none, s) f d y h =
      rw (y.result, ◌>>=◌)
        (subst (λ (s : S). Visited (rest (m x).1) (f s) d) y.seen (h (m x).1 y.coherent y.stored))

  pub each_block-Visited :
      (func : Visitor S) (t : FatType) (n start fuel last : ℕ) (x : Visit D S) (d : Blocks)
      → n < fuel
      → last < u32_mod
      → start + n ≡ last
      → IsCoherent w x.cache
      → blocks w x.cache ≡ d
      → Visited
          (each_block fuel
            (record { inclusive_end = last; current = start })
            (visit_block func t)
            x)
          (outcome_of func (listing t d (count_from start n)) x.seen)
          d
  unfolding each_block
  each_block-Visited func t n start zero last x d lt small e h st = elim lt [ ]
  each_block-Visited func t zero start (suc fuel) last x d lt small e h st =
      let rest = λ (it : BlockIter). each_block fuel it (visit_block func t) in
      subst (λ r. Visited (block_round r rest (visit_block func t) x) (none, x.seen) d)
        (sym (next-end start last (omega arith)))
        (record { result = refl; seen = refl; coherent = h; stored = st })
  each_block-Visited func t (suc n) start (suc fuel) last x d lt small e h st =
      let rest = λ (it : BlockIter). each_block fuel it (visit_block func t) in
      let items = items_of t start (d start) in
      let more = listing t d (count_from (start + 1) n) in
      let it : BlockIter = record { inclusive_end = last; current = start + 1 } in
      let first =
        subst
          (λ (d : Blocks).
            Visited (visit_block func t start x)
              (outcome_of func (items_of t start (d start)) x.seen) d)
          st (visit_block-Visited func t start x h) in
      subst
        (λ r.
          Visited (block_round r rest (visit_block func t) x)
            (outcome_of func (join items more) x.seen) d)
        (sym (next-more start last (omega arith) small))
        (subst (λ p. Visited (block_round (some start, it) rest (visit_block func t) x) p d)
          (sym (outcome-join func items more x.seen))
          (then-Visited (visit_block func t start) (rest it) x (outcome_of func items x.seen)
            (outcome_of func more) d first
            (λ x.
              each_block-Visited func t n (start + 1) fuel last x d (omega arith) small
                (omega arith))))
