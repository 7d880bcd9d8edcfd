-- ===== src/Fat/Directory/Listing.antt =====
-- What a directory contains, as a list: the valid entries of its blocks up to the end mark, and what
-- a closure that is called for each of them in turn comes to.
use embedded_sdmmc_rs.Common.{
  ℕ, zero, suc, ◌+◌, ◌*◌, ◌<◌, u32_mod, ◌≡◌, refl, ◌∙◌, ap, Bool, true, false, List, [], ◌∷◌, ◌++◌,
}
use embedded_sdmmc_rs.Common.{Option, none, some, if◌then◌else◌}
use embedded_sdmmc_rs.Cache.View.{Blocks}
use embedded_sdmmc_rs.Filesystem.DirEntry.{DirEntry}
use embedded_sdmmc_rs.Filesystem.Filename.{ShortFileName}
use embedded_sdmmc_rs.Fat.Volume.{FatVolume, FatType, cluster_to_block}
use embedded_sdmmc_rs.Filesystem.Cluster.{ClusterId}
use embedded_sdmmc_rs.Block.Range.{count_from}
use embedded_sdmmc_rs.Fat.OnDisk.{is_end, is_valid, get_entry, equal_bytes}
use embedded_sdmmc_rs.Fat.Directory.{
  ControlFlow, continue, break, Visitor, chunk, entries_per_block, match_entry,
}

-- an entry in both its forms
abbrev pub Item : Type 0
Item = DirEntry × List ℕ

-- items, and whether the end mark was reached behind them
abbrev pub Items : Type 0
Items = List Item × Bool

abbrev pub cons : Item → Items → Items
cons e (es, ended) = (e ∷ es, ended)

-- The items of a block, of which `n` entries are left, from entry `i` on.
abbrev pub block_items : FatType → ℕ → List ℕ → ℕ → ℕ → Items
block_items t idx block zero i = ([], false)
block_items t idx block (suc n) i =
    let rest = block_items t idx block n (i + 1) in
    let bytes = chunk i block in
    if is_end bytes
    then ([], true)
    else if is_valid bytes
    then cons (get_entry t idx (i * 32) bytes, bytes) rest
    else rest

abbrev pub join : Items → Items → Items
join (es, true) y = (es, true)
join (es, false) y = (es ++ y.0, y.1)

-- the items of a block
unfoldable pub items_of : FatType → ℕ → List ℕ → Items
items_of t idx block = block_items t idx block entries_per_block 0

-- the items of the blocks of a list
abbrev pub listing : FatType → Blocks → List ℕ → Items
listing t d [] = ([], false)
listing t d (b ∷ bs) = join (items_of t b (d b)) (listing t d bs)

module _ {S : Type 0} where
  abbrev pub after_call : ControlFlow × S → (S → Option (Unit {0}) × S) → Option (Unit {0}) × S
  after_call (break, s) f = (some tt, s)
  after_call (continue, s) f = f s

  -- The calls of a closure for the items in turn, until it breaks off or the end mark is reached:
  -- whether the walk stops, and what the closure has changed.
  abbrev pub outcome : Visitor S → List Item → Bool → S → Option (Unit {0}) × S
  outcome func [] true s = (some tt, s)
  outcome func [] false s = (none, s)
  outcome func (e ∷ es) ended s = after_call (func e.0 e.1 s) (outcome func es ended)

  abbrev pub outcome_of : Visitor S → Items → S → Option (Unit {0}) × S
  outcome_of func x s = outcome func x.0 x.1 s

  -- what follows the items of one block
  abbrev pub and_then : Option (Unit {0}) × S → (S → Option (Unit {0}) × S) → Option (Unit {0}) × S
  and_then (some u, s) f = (some tt, s)
  and_then (none, s) f = f s

  after_call-join :
      (r : ControlFlow × S) (f g h : S → Option (Unit {0}) × S)
      → ((s : S) → f s ≡ and_then (g s) h)
      → after_call r f ≡ and_then (after_call r g) h
  after_call-join (break, s) f g h e = refl
  after_call-join (continue, s) f g h e = e s

  pub outcome-join :
      (func : Visitor S) (x y : Items) (s : S)
      → outcome_of func (join x y) s ≡ and_then (outcome_of func x s) (outcome_of func y)
  outcome-join func ([], true) y s = refl
  outcome-join func ([], false) y s = refl
  outcome-join func (e ∷ es, true) y s =
      after_call-join (func e.0 e.1 s) (outcome func es true) (outcome func es true)
        (outcome_of func y) (outcome-join func (es, true) y)
  outcome-join func (e ∷ es, false) y s =
      after_call-join (func e.0 e.1 s) (outcome func (es ++ y.0) y.1) (outcome func es false)
        (outcome_of func y) (outcome-join func (es, false) y)

-- the first item with a name
abbrev pub first_named : ShortFileName → List Item → Option DirEntry
first_named name [] = none
first_named name (e ∷ es) = if equal_bytes e.0.name name then some e.0 else first_named name es

-- The closure of a search for a name finds the first item that has it.
pub outcome-match_entry :
    (name : ShortFileName) (es : List Item) (ended : Bool)
    → (outcome (λ entry bytes. match_entry name entry) es ended none).1 ≡ first_named name es
unfolding match_entry
outcome-match_entry name [] true = refl
outcome-match_entry name [] false = refl
outcome-match_entry name (e ∷ es) ended =
    split (equal_bytes e.0.name name) (outcome (λ entry bytes. match_entry name entry) es ended)
    ∙ ap (if◌then◌else◌ (equal_bytes e.0.name name) (some e.0)) (outcome-match_entry name es ended)
  where
    split :
        (b : Bool) (f : Option DirEntry → Option (Unit {0}) × Option DirEntry)
        → (after_call (if b then (break, some e.0) else (continue, none)) f).1
          ≡ (if b then some e.0 else (f none).1)
    split true f = refl
    split false f = refl

-- the items of a directory that is a chain of clusters of `size` blocks each
abbrev pub chain_items : FatVolume → FatType → Blocks → ℕ → ClusterId → List ClusterId → Items
chain_items v t d size c [] =
    join (listing t d (count_from (cluster_to_block v c) size)) ([], false)
chain_items v t d size c (n ∷ ns) =
    join (listing t d (count_from (cluster_to_block v c) size)) (chain_items v t d size n ns)

-- The blocks of each cluster of the chain have 32-bit numbers.
abbrev pub IsAddressable : FatVolume → ℕ → ClusterId → List ClusterId → Type 0
IsAddressable v size c [] = cluster_to_block v c + size < u32_mod
IsAddressable v size c (n ∷ ns) =
    (cluster_to_block v c + size < u32_mod) × IsAddressable v size n ns
