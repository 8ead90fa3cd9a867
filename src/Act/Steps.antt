-- ===== src/Act/Steps.antt =====
-- Running an action whose calls do not fail, step by step.
use ferrobucket.Base.{ℕ, ◌≤◌, ◌≡◌, Bool, false, suc}
use ferrobucket.Error.{ok, err, IoError}
use ferrobucket.Disk.{Disk}
use ferrobucket.Disk.Calls.{Call}
use ferrobucket.Act.{World, Act, ◌>>=◌, map_err, call, call_io}

-- No call from the `n`-th on fails of itself.
abbrev pub Quiet : (ℕ → Bool) → ℕ → Type 0
Quiet fails n = (m : ℕ) → n ≤ m → fails m ≡ false

module _ {E A B : Type 0} where
  pub >>=-step :
      (m : Act E A) (f : A → Act E B) (w : World) {a : A} {w₁ : World}
      → m w ≡ (ok a, w₁)
      → (m >>= f) w ≡ f a w₁
  unfolding ◌>>=◌
  >>=-step m f w h = rw h

  pub >>=-stop :
      (m : Act E A) (f : A → Act E B) (w : World) {e : E} {w₁ : World}
      → m w ≡ (err e, w₁)
      → (m >>= f) w ≡ (err e, w₁)
  unfolding ◌>>=◌
  >>=-stop m f w h = rw h

module _ (fails : ℕ → Bool) {A : Type 0} (f : Call A) (w : World) where
  pub call-done :
      {a : A} {d : Disk}
      → fails w.calls ≡ false
      → f w.disk ≡ ok (a, d)
      → call fails f w ≡ (ok a, record { disk = d; calls = suc w.calls })
  unfolding call
  call-done q h = rw (q, h)

  pub call-refused :
      {e : IoError}
      → fails w.calls ≡ false
      → f w.disk ≡ err e
      → call fails f w ≡ (err e, record { disk = w.disk; calls = suc w.calls })
  unfolding call
  call-refused q h = rw (q, h)

  pub map_err-done :
      {E : Type 0} (g : IoError → E) {a : A} {d : Disk}
      → fails w.calls ≡ false
      → f w.disk ≡ ok (a, d)
      → map_err g (call fails f) w ≡ (ok a, record { disk = d; calls = suc w.calls })
  unfolding call
  map_err-done g q h = rw (q, h)

  pub map_err-refused :
      {E : Type 0} (g : IoError → E) {e : IoError}
      → fails w.calls ≡ false
      → f w.disk ≡ err e
      → map_err g (call fails f) w ≡ (err (g e), record { disk = w.disk; calls = suc w.calls })
  unfolding call
  map_err-refused g q h = rw (q, h)

  pub call_io-done :
      {a : A} {d : Disk}
      → fails w.calls ≡ false
      → f w.disk ≡ ok (a, d)
      → call_io fails f w ≡ (ok a, record { disk = d; calls = suc w.calls })
  unfolding call_io call
  call_io-done q h = rw (q, h)
