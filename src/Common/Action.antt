-- ===== src/Common/Action.antt =====
-- Fallible, stateful code: an action takes the state and returns a result and the new state, which
-- comes back after an error too, since what was written stays written. `Error` is the library's
-- own error type (embedded-sdmmc/src/lib.rs); the error value of a device is carried as a number.
use Prim.Native.String.{String}
use embedded_sdmmc_rs.Common.{ℕ, Bool, true, false, ◌≡◌, ap}

-- `FilenameError` (embedded-sdmmc/src/filesystem/filename.rs)
pub data FilenameError : Type 0 where
  invalid_character filename_empty name_too_long misplaced_period utf8_error : FilenameError

pub data Error : Type 0 where
  device_error : ℕ → Error
  format_error : String → Error
  no_such_volume : Error
  filename_error : FilenameError → Error
  too_many_open_volumes too_many_open_dirs too_many_open_files : Error
  bad_handle not_found file_already_open dir_already_open : Error
  opened_dir_as_file opened_file_as_dir delete_non_empty_dir : Error
  volume_still_in_use volume_already_open unsupported end_of_file bad_cluster : Error
  conversion_error not_enough_space allocation_error unterminated_fat_chain : Error
  read_only file_already_exists : Error
  bad_block_size : ℕ → Error
  invalid_offset disk_full dir_already_exists lock_error : Error

-- A call returns a value or an error, panics, or (in the model of a loop) is out of fuel.
pub data Result (A : Type 0) : Type 0 where
  ok : A → Result A
  err : Error → Result A
  panic : Result A
  no_fuel : Result A

abbrev pub Action : Type 0 → Type 0 → Type 0
Action S A = S → Result A × S

module _ {S A : Type 0} where
  abbrev pub pure : A → Action S A
  pure a s = (ok a, s)

  abbrev pub raise : Error → Action S A
  raise e s = (err e, s)

  abbrev pub gets : (S → A) → Action S A
  gets f s = (ok (f s), s)

  -- a pure computation that may fail
  abbrev pub lift : Result A → Action S A
  lift r s = (r, s)

infixl 5 ◌>>=◌ ◌>>◌
abbrev pub ◌>>=◌ : {S A B : Type 0} → Action S A → (A → Action S B) → Action S B
◌>>=◌ m f s =
    let (r, s') = m s in
    elim r [ ok a ↦ f a s' | err e ↦ (err e, s') | panic ↦ (panic, s') | no_fuel ↦ (no_fuel, s') ]

abbrev pub ◌>>◌ : {S B : Type 0} → Action S (Unit {0}) → Action S B → Action S B
m >> k = m >>= λ _. k

abbrev pub modify : {S : Type 0} → (S → S) → Action S (Unit {0})
modify f s = (ok tt, f s)

-- `match m { Ok(a) => f(a), Err(e) => g(e) }`
abbrev pub match_result :
    {S A B : Type 0} → Action S A → (A → Action S B) → (Error → Action S B) → Action S B
match_result m f g s =
    let (r, s') = m s in
    elim r [ ok a ↦ f a s' | err e ↦ g e s' | panic ↦ (panic, s') | no_fuel ↦ (no_fuel, s') ]

-- `if test { return Err(e) }`
abbrev pub guard : {S : Type 0} → Bool → Error → Action S (Unit {0})
guard true e s = (ok tt, s)
guard false e s = (err e, s)

-- An action on a part of the state.
abbrev pub zoom : {S P A : Type 0} → (S → P) → (P → S → S) → Action P A → Action S A
zoom get put m s = let (r, p) = m (get s) in (r, put p s)

-- A chain of steps is run step by step.
pub >>=-ok :
    {S A B : Type 0} (m : Action S A) (f : A → Action S B) (s : S) (a : A) (s' : S)
    → m s ≡ (ok a, s')
    → (m >>= f) s ≡ f a s'
>>=-ok {S} {A} {B} m f s a s' e =
    ap
      (λ (p : Result A × S). elim p.0 [
        | ok a ↦ f a p.1
        | err x ↦ (err x, p.1)
        | panic ↦ (panic, p.1)
        | no_fuel ↦ (no_fuel, p.1)
      ])
      e
