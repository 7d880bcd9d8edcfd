-- ===== src/Fat/Directory/Lfn/Sequence.antt =====
-- Which sequences of fragments make a long name: `SeqState::update` over several fragments.
use embedded_sdmmc_rs.Common.{ℕ, zero, suc, ◌-◌, ◌≤◌, ◌≡◌, refl, ◌∙◌, ap, arith, length}
use embedded_sdmmc_rs.Common.{true, false, List, [], ◌∷◌, none}
use embedded_sdmmc_rs.Common.{lt→ltb, le→leb, ==_self, ==_ne, ◌&&◌, if◌then◌else◌}
use embedded_sdmmc_rs.Common.Action.{Result, ok, err, panic, no_fuel}
use embedded_sdmmc_rs.Filesystem.LfnBuffer.{LfnBuffer, clear, push}
use embedded_sdmmc_rs.Filesystem.LfnBuffer.Storing.{HasRoom, clear-HasRoom}
use embedded_sdmmc_rs.Filesystem.LfnBuffer.Plain.{HasNoHalf, push-plain}
use embedded_sdmmc_rs.Fat.OnDisk.{LfnContents}
use embedded_sdmmc_rs.Fat.Directory.Lfn.{
  SeqState, remaining, complete, then_state, go_on_with, update,
}

-- the rest of a run, after one update
abbrev then_run :
    (SeqState → LfnBuffer → Result SeqState × LfnBuffer)
    → Result SeqState × LfnBuffer
    → Result SeqState × LfnBuffer
then_run rest (ok s, b) = rest s b
then_run rest (err e, b) = (err e, b)
then_run rest (panic, b) = (panic, b)
then_run rest (no_fuel, b) = (no_fuel, b)

-- the updates for fragments that stand one after the other in a directory
abbrev pub run_updates : List LfnContents → SeqState → LfnBuffer → Result SeqState × LfnBuffer
run_updates [] s b = (ok s, b)
run_updates (c ∷ cs) s b = then_run (run_updates cs) (update c s b)

-- Fragments that are not first ones, numbered from n down to 1.
abbrev pub IsCountdown : ℕ → List LfnContents → Type 0
IsCountdown zero [] = Unit
IsCountdown zero (c ∷ cs) = ⊥
IsCountdown (suc n) [] = ⊥
IsCountdown (suc n) (c ∷ cs) =
    (c.is_start ≡ false)
    × (c.sequence ≡ suc n)
    × (length c.buffer ≤ 13)
    × HasNoHalf c.buffer
    × IsCountdown n cs

-- the state that waits for n more fragments
abbrev waiting_for : ℕ → ℕ → SeqState
waiting_for sum zero = complete sum
waiting_for sum (suc n) = remaining sum (suc n)

clear-unpaired : (b : LfnBuffer) → (clear b).1.unpaired_surrogate ≡ none
unfolding clear
clear-unpaired b = refl

pred_suc : (n : ℕ) → suc n - 1 ≡ n
pred_suc n = omega arith

update-next :
    (c : LfnContents) (sum n : ℕ) (b : LfnBuffer)
    → suc n ≤ 18
    → c.is_start ≡ false
    → c.sequence ≡ suc n
    → (b' : LfnBuffer) → push c.buffer b ≡ (ok tt, b')
    → update c (remaining sum (suc n)) b ≡ (ok (waiting_for sum n), b')
unfolding update go_on_with
update-next c sum zero b le later number b' pushed =
    rw (later, number) (ap (then_state (complete sum)) pushed)
update-next c sum (suc n) b le later number b' pushed =
    rw
      (
        later,
        number,
        ==_self (suc (suc n)),
        ==_ne (suc (suc n)) 1 (omega arith),
        le→leb 1 (suc (suc n)) (omega arith),
        lt→ltb (suc (suc n)) 0x13 (omega arith),
        if◌then◌else◌,
        ◌&&◌,
        pred_suc (suc n),
      )
      (ap (then_state (remaining sum (suc n))) pushed)

update-first :
    (c : LfnContents) (n : ℕ) (s : SeqState) (b : LfnBuffer)
    → suc n ≤ 19
    → c.is_start ≡ true
    → c.sequence ≡ suc n
    → (b' : LfnBuffer) → push c.buffer (clear b).1 ≡ (ok tt, b')
    → update c s b ≡ (ok (waiting_for c.csum n), b')
unfolding update
update-first c zero s b le first number b' pushed =
    rw (first, number) (ap (then_state (complete c.csum)) pushed)
update-first c (suc n) s b le first number b' pushed =
    rw
      (
        first,
        number,
        ==_ne (suc (suc n)) 1 (omega arith),
        le→leb 2 (suc (suc n)) (omega arith),
        lt→ltb (suc (suc n)) 0x14 (omega arith),
        if◌then◌else◌,
        ◌&&◌,
        pred_suc (suc n),
      )
      (ap (then_state (remaining c.csum (suc n))) pushed)

run_updates-countdown :
    (n : ℕ) (cs : List LfnContents) (sum : ℕ) (b : LfnBuffer)
    → n ≤ 18
    → IsCountdown n cs
    → HasRoom b
    → b.unpaired_surrogate ≡ none
    → (b' : LfnBuffer) × (run_updates cs (waiting_for sum n) b ≡ (ok (complete sum), b'))
run_updates-countdown zero [] sum b le down room e = (b, refl)
run_updates-countdown zero (c ∷ cs) sum b le down room e = elim down [ ]
run_updates-countdown (suc n) [] sum b le down room e = elim down [ ]
run_updates-countdown (suc n) (c ∷ cs) sum b le down room e =
    let pushed = push-plain c.buffer b down.2 down.3 room e in
    let rest = run_updates-countdown n cs sum pushed.0 (omega arith) down.4 pushed.2 pushed.3 in
    (
      rest.0,
      ap (then_run (run_updates cs)) (update-next c sum n b le down.0 down.1 pushed.0 pushed.1)
          ∙ rest.1,
    )

-- A first fragment with number n + 1, at most 19, then fragments numbered from n down to 1, all
-- of them chunks of at most 13 units without halves of surrogate pairs: from every state and
-- every buffer the updates end without a panic in `Complete` with the first fragment's checksum.
pub run_updates-complete :
    (n : ℕ) (c : LfnContents) (cs : List LfnContents) (s : SeqState) (b : LfnBuffer)
    → suc n ≤ 19
    → c.is_start ≡ true
    → c.sequence ≡ suc n
    → length c.buffer ≤ 13
    → HasNoHalf c.buffer
    → IsCountdown n cs
    → (run_updates (c ∷ cs) s b).0 ≡ ok (complete c.csum)
run_updates-complete n c cs s b le first number short halves down =
    let pushed =
      push-plain c.buffer (clear b).1 short halves (clear-HasRoom b) (clear-unpaired b) in
    let rest = run_updates-countdown n cs c.csum pushed.0 (omega arith) down pushed.2 pushed.3 in
    ap (λ p. (then_run (run_updates cs) p).0)
      (update-first c n s b le first number pushed.0 pushed.1)
    ∙ ap (λ p. p.0) rest.1
