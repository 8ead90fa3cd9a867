-- ===== src/Act.antt =====
-- Actions on the world: the disk, and the number of system calls made so far. What was done before
-- an error stays done, so the world comes back beside an error too. A call fails when `fails` says
-- so for its number, with an error of no special kind and no effect.
pub mod After
pub mod Steps
pub mod Keeps
use ferrobucket.Base.{ℕ, suc, Bool, true, false, Option, if◌then◌else◌}
use ferrobucket.Error.{Outcome, ok, err, IoError, other, StorageError, io, Result}
use ferrobucket.Disk.{Disk}
use ferrobucket.Disk.Calls.{Call}

pub record World : Type 0 where
  pub disk : Disk
  pub calls : ℕ

abbrev pub Act : Type 0 → Type 0 → Type 0
Act E A = World → Outcome E A × World

abbrev pub Fs : Type 0 → Type 0
Fs A = Act StorageError A

abbrev pub Io : Type 0 → Type 0
Io A = Act IoError A

module _ {E A : Type 0} where
  abbrev pub pure : A → Act E A
  pure a w = (ok a, w)

  abbrev pub fail : E → Act E A
  fail e w = (err e, w)

  -- `?` on a plain result
  abbrev pub lift : Outcome E A → Act E A
  lift r w = (r, w)

  -- The outcome as a value, for a `match`.
  abbrev pub attempt : {F : Type 0} → Act E A → Act F (Outcome E A)
  attempt m w = let (r, w') = m w in (ok r, w')

module _ {E A B : Type 0} where
  abbrev pub continue : Outcome E A → (A → Act E B) → World → Outcome E B × World
  continue (ok a) f w = f a w
  continue (err e) f w = (err e, w)

  infixl 5 ◌>>=◌ ◌>>◌
  unfoldable pub ◌>>=◌ : Act E A → (A → Act E B) → Act E B
  ◌>>=◌ m f w = let (r, w') = m w in continue r f w'

  abbrev pub ◌>>◌ : Act E A → Act E B → Act E B
  m >> n = m >>= λ _. n

module _ {E F A : Type 0} where
  abbrev pub err_as : (E → F) → Outcome E A → Outcome F A
  err_as f (ok a) = ok a
  err_as f (err e) = err (f e)

  -- `map_err`
  abbrev pub map_err : (E → F) → Act E A → Act F A
  map_err f m w = let (r, w') = m w in (err_as f r, w')

-- `let _ = …`
abbrev pub ignore : {E A : Type 0} → Act E A → Act E (Unit {0})
ignore m w = (ok tt, (m w).1)

abbrev pub apply_call :
    {A : Type 0} → World → Outcome IoError (A × Disk) → Outcome IoError A × World
apply_call w (ok (a, d)) = (ok a, record { disk = d; calls = suc w.calls })
apply_call w (err e) = (err e, record { disk = w.disk; calls = suc w.calls })

module _ (fails : ℕ → Bool) where
  unfoldable pub call : {A : Type 0} → Call A → Io A
  call f w = if fails w.calls then apply_call w (err other) else apply_call w (f w.disk)

  -- Many system calls in one: where one of them fails, `left` tells what they leave.
  unfoldable pub call_left : {A : Type 0} → (ℕ → Disk → Disk) → Call A → Io A
  call_left left f w =
      if fails w.calls
      then (err other, record { disk = left w.calls w.disk; calls = suc w.calls })
      else apply_call w (f w.disk)

  -- `map_err(StorageError::Io)`
  unfoldable pub call_io : {A : Type 0} → Call A → Fs A
  call_io f = map_err io (call f)
