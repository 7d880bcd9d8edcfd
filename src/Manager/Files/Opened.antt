-- ===== src/Manager/Files/Opened.antt =====
-- What opening a file does to the table of open files, on every branch.
use embedded_sdmmc_rs.Common.{
  ℕ, ◌≡◌, refl, ap, ◌⊎◌, Bool, true, false, List, [], ◌∷◌, ◌++◌, Option, none, some,
}
use embedded_sdmmc_rs.Common.{get_elem?}
use embedded_sdmmc_rs.Common.Action.{
  Action, Result, ok, err, panic, no_fuel, Error, guard, ◌>>=◌, ◌>>◌,
}
use embedded_sdmmc_rs.Block.{BlockDevice}
use embedded_sdmmc_rs.Cache.{BlockCache}
use embedded_sdmmc_rs.Filesystem.Files.{FileInfo}
use embedded_sdmmc_rs.Fat.Volume.{FatVolume}
use embedded_sdmmc_rs.Fat.Alloc.{Mounted}
use embedded_sdmmc_rs.Manager.{Manager, VolumeInfo, any, is_entry, at_index, on_volume, with_fat}

-- The file's entry was not open: no open file has its place on the same volume.
abbrev pub IsNew : List FileInfo → FileInfo → Type 0
IsNew fs f = any (is_entry f.raw_volume f.entry) fs ≡ false

module _ {D : Type 0} where
  -- On success the outcome has a property; otherwise the table of open files is `fs`.
  abbrev pub Outcome :
      {B : Type 0} → (B → Manager D → Type 0) → List FileInfo → Result B × Manager D → Type 0
  Outcome P fs (ok b, m) = P b m
  Outcome P fs (err e, m) = m.open_files ≡ fs
  Outcome P fs (panic, m) = m.open_files ≡ fs
  Outcome P fs (no_fuel, m) = m.open_files ≡ fs

  -- There is one file more, which has the handle that is returned, and whose entry was not open, or
  -- was made by this call in the way that `Made` says.
  abbrev pub HasOpened : (FileInfo → Type 0) → List FileInfo → ℕ → Manager D → Type 0
  HasOpened Made fs handle m =
      (f : FileInfo) × (m.open_files ≡ fs ++ (f ∷ []))
      × (f.raw_file ≡ handle)
      × (IsNew fs f ⊎ Made f)

  -- A step that leaves the table as it is may come first.
  pub Outcome-bind :
      {A B : Type 0} (P : B → Manager D → Type 0) (m : Action (Manager D) A)
      (f : A → Action (Manager D) B) (s : Manager D) (fs : List FileInfo)
      → (m s).1.open_files ≡ fs
      → ((a : A) (s' : Manager D) → m s ≡ (ok a, s') → s'.open_files ≡ fs → Outcome P fs (f a s'))
      → Outcome P fs ((m >>= f) s)
  Outcome-bind {A} P m f s fs keeps next = go (m s).0 refl
    where
      go : (r : Result A) → (m s).0 ≡ r → Outcome P fs ((m >>= f) s)
      go (ok a) q = rw (q, ◌>>=◌) (next a (m s).1 (ap (λ r. (r, (m s).1)) q) keeps)
      go (err e) q = rw (q, ◌>>=◌) keeps
      go panic q = rw (q, ◌>>=◌) keeps
      go no_fuel q = rw (q, ◌>>=◌) keeps

  -- A property that says that the table is `fs` says so of every outcome.
  pub Outcome-keeps :
      {B : Type 0} (P : B → Manager D → Type 0) (fs : List FileInfo) (out : Result B × Manager D)
      → ((b : B) (m : Manager D) → P b m → m.open_files ≡ fs)
      → Outcome P fs out
      → out.1.open_files ≡ fs
  Outcome-keeps P fs (ok b, m) says h = says b m h
  Outcome-keeps P fs (err e, m) says h = h
  Outcome-keeps P fs (panic, m) says h = h
  Outcome-keeps P fs (no_fuel, m) says h = h

  -- A test may come first.
  pub Outcome-guard :
      {B : Type 0} (P : B → Manager D → Type 0) (b : Bool) (x : Error) (k : Action (Manager D) B)
      (s : Manager D) (fs : List FileInfo)
      → s.open_files ≡ fs
      → (b ≡ true → Outcome P fs (k s))
      → Outcome P fs ((guard b x >> k) s)
  Outcome-guard P true x k s fs e next = next refl
  Outcome-guard P false x k s fs e next = e

module _ {D A : Type 0} ⦃dev : BlockDevice D⦄ where
  pub on_volume-keeps :
      (i : ℕ) (act : Action (Mounted D) A) (s : Manager D)
      → (on_volume i act s).1.open_files ≡ s.open_files
  on_volume-keeps i act s = go (get_elem? s.open_volumes i) refl
    where
      go :
          (o : Option VolumeInfo)
          → get_elem? s.open_volumes i ≡ o
          → (on_volume i act s).1.open_files ≡ s.open_files
      go none q = rw (q, at_index, ◌>>=◌) refl
      go (some info) q = rw (q, at_index, ◌>>=◌) refl

  pub with_fat-keeps :
      (i : ℕ) (act : FatVolume → Action (BlockCache D) A) (s : Manager D)
      → (with_fat i act s).1.open_files ≡ s.open_files
  with_fat-keeps i act s = go (get_elem? s.open_volumes i) refl
    where
      go :
          (o : Option VolumeInfo)
          → get_elem? s.open_volumes i ≡ o
          → (with_fat i act s).1.open_files ≡ s.open_files
      go none q = rw (q, at_index, ◌>>=◌) refl
      go (some info) q = rw (q, at_index, ◌>>=◌) refl
