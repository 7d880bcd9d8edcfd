-- ===== src/Fat/Directory/Lfn.antt =====
-- embedded-sdmmc/src/fat/volume.rs: the iteration with long names (`iterate_dir_lfn`).
pub mod Sequence
pub mod Pairing
use embedded_sdmmc_rs.Common.{
  ℕ, ◌-◌, Bool, true, false, List, Option, none, some, ltb, leb, ◌==◌, ◌&&◌, if◌then◌else◌,
}
use embedded_sdmmc_rs.Common.Action.{Action, Result, ok, err, panic, no_fuel}
use embedded_sdmmc_rs.Block.{BlockDevice}
use embedded_sdmmc_rs.Cache.{BlockCache}
use embedded_sdmmc_rs.Filesystem.Cluster.{ClusterId}
use embedded_sdmmc_rs.Filesystem.Filename.{csum}
use embedded_sdmmc_rs.Filesystem.LfnBuffer.{LfnBuffer, clear, push, as_str}
use embedded_sdmmc_rs.Filesystem.DirEntry.{DirEntry}
use embedded_sdmmc_rs.Fat.Volume.{FatVolume}
use embedded_sdmmc_rs.Fat.OnDisk.{LfnContents, lfn_contents}
use embedded_sdmmc_rs.Fat.Directory.{ControlFlow, continue, break, Visit, iterate_dir_internal}

pub data SeqState : Type 0 where
  waiting : SeqState
  remaining : (csum next : ℕ) → SeqState
  complete : (csum : ℕ) → SeqState

-- the state after an action on the buffer, which may panic
abbrev pub then_state : SeqState → Result (Unit {0}) × LfnBuffer → Result SeqState × LfnBuffer
then_state s (ok u, b) = (ok s, b)
then_state s (err e, b) = (err e, b)
then_state s (panic, b) = (panic, b)
then_state s (no_fuel, b) = (no_fuel, b)

-- `lfn_buffer.clear(); lfn_buffer.push(&buffer);`
abbrev pub restart : List ℕ → LfnBuffer → Result (Unit {0}) × LfnBuffer
restart units b = push units (clear b).1

-- the last arm of `update`
abbrev pub give_up : LfnBuffer → Result SeqState × LfnBuffer
give_up b = (ok waiting, (clear b).1)

-- the arms for a fragment that is not the first one
unfoldable pub go_on_with : LfnContents → SeqState → LfnBuffer → Result SeqState × LfnBuffer
go_on_with c waiting b = give_up b
go_on_with c (complete sum) b = give_up b
go_on_with c (remaining sum next) b =
    if next == c.sequence
    then if c.sequence == 1
      then then_state (complete sum) (push c.buffer b)
      else if leb 1 c.sequence && ltb c.sequence 0x13
      then then_state (remaining sum (c.sequence - 1)) (push c.buffer b)
      else give_up b
    else give_up b

-- `SeqState::update`
unfoldable pub update : LfnContents → SeqState → LfnBuffer → Result SeqState × LfnBuffer
unfolding go_on_with
update c s b =
    if c.is_start
    then if c.sequence == 1
      then then_state (complete c.csum) (restart c.buffer b)
      else if leb 2 c.sequence && ltb c.sequence 0x14
      then then_state (remaining c.csum (c.sequence - 1)) (restart c.buffer b)
      else give_up b
    else go_on_with c s b

-- What the closure of `iterate_dir_lfn` changes: the buffer, the state, and what the caller's
-- closure changes. A panic of the buffer ends the walk at once.
pub record Reading (S : Type 0) : Type 0 where
  pub buffer : LfnBuffer
  pub state : SeqState
  pub panicked : Bool
  pub user : S

-- The caller's closure is given the long name of an entry, if it has one.
abbrev pub LfnVisitor : Type 0 → Type 0
LfnVisitor S = DirEntry → Option (List ℕ) → S → ControlFlow × S

unfoldable pub long_name : SeqState → DirEntry → LfnBuffer → Option (List ℕ)
long_name (complete sum) de b = if sum == csum de.name then some (as_str b) else none
long_name s de b = none

module _ {S : Type 0} where
  abbrev updated : Reading S → Result SeqState × LfnBuffer → ControlFlow × Reading S
  updated r (ok s, b) = (continue, record r { state = s; buffer = b })
  updated r (_, b) = (break, record r { panicked = true; buffer = b })

  abbrev pass_on : Reading S → ControlFlow × S → ControlFlow × Reading S
  pass_on r (flow, s) = (flow, record r { user = s })

  unfoldable pub with_contents :
      LfnVisitor S → DirEntry → Option LfnContents → Reading S → ControlFlow × Reading S
  unfolding long_name
  with_contents func de (some c) r = updated r (update c r.state r.buffer)
  with_contents func de none r = pass_on r (func de (long_name r.state de r.buffer) r.user)

  -- the closure of `iterate_dir_lfn`
  unfoldable pub read_fragment :
      LfnVisitor S → DirEntry → List ℕ → Reading S → ControlFlow × Reading S
  unfolding with_contents
  read_fragment func de bytes r = with_contents func de (lfn_contents bytes) r

module _ {D S : Type 0} ⦃dev : BlockDevice D⦄ where
  abbrev unless_panicked :
      Result (Unit {0}) × Visit D (Reading S) → Result (Unit {0}) × Visit D (Reading S)
  unless_panicked (r, x) = (if x.seen.panicked then panic else r, x)

  -- `iterate_dir_lfn`
  pub iterate_dir_lfn :
      FatVolume
      → ClusterId
      → LfnVisitor S
      → LfnBuffer
      → S
      → BlockCache D
      → Result (Unit {0}) × Visit D (Reading S)
  unfolding read_fragment
  iterate_dir_lfn v dir func buffer user cache = unless_panicked (
      iterate_dir_internal v dir (read_fragment func) (record {
        cache = cache;
        seen = record { buffer = buffer; state = waiting; panicked = false; user = user };
      }))
