-- ===== src/Act/Keeps.antt =====
-- Actions that keep a property of the disk, whether they succeed or fail.
use ferrobucket.Base.{ℕ, ◌≡◌, Bool, true, false, if◌then◌else◌}
use ferrobucket.Error.{Outcome, ok, err}
use ferrobucket.Disk.{Disk}
use ferrobucket.Disk.Calls.{Call}
use ferrobucket.Act.{World, Act, ◌>>=◌, lift, attempt, call, call_io}
use ferrobucket.Act.After.{
  After, AfterAt, After-mono, After-bind, After-call, After-call_io, After-attempt,
}

module _ (P : Disk → Type 0) where
  abbrev pub Keeps : {E A : Type 0} → Act E A → World → Type 0
  Keeps m w = After (λ _ w'. P w'.disk) (λ _ w'. P w'.disk) m w

  module _ {E A : Type 0} where
    pub Keeps-done : (r : Outcome E A) (w : World) → P w.disk → Keeps (lift r) w
    Keeps-done (ok a) w p = record { at = p }
    Keeps-done (err e) w p = record { at = p }

    pub Keeps-attempt :
        {F : Type 0} {m : Act E A} {w : World} → Keeps m w → Keeps {E = F} (attempt m) w
    Keeps-attempt {F} {m} {w} h =
        After-mono (After-attempt {N = λ _ w'. P w'.disk} h) (λ o w' k. both o w' k) (λ _ _ x. x)
      where
        both :
            (o : Outcome E A) (w' : World)
            → AfterAt (λ _ v. P v.disk) (λ _ v. P v.disk) o w'
            → P w'.disk
        both (ok a) w' k = k
        both (err e) w' k = k

    pub Keeps-bind :
        {B : Type 0} {m : Act E A} {f : A → Act E B} {w : World}
        → Keeps m w
        → ((a : A) (w₁ : World) → P w₁.disk → Keeps (f a) w₁)
        → Keeps (m >>= f) w
    Keeps-bind h k = After-bind (After-mono h (λ a w₁ p. k a w₁ p) (λ _ _ x. x))

    pub Keeps-if :
        (b : Bool) {m n : Act E A} {w : World}
        → Keeps m w
        → Keeps n w
        → Keeps (if b then m else n) w
    Keeps-if true hm hn = hm
    Keeps-if false hm hn = hn

  module _ (fails : ℕ → Bool) {A : Type 0} (f : Call A) where
    pub Keeps-call :
        (w : World)
        → P w.disk
        → ((a : A) (d : Disk) → f w.disk ≡ ok (a, d) → P d)
        → Keeps (call fails f) w
    Keeps-call w p h = After-call fails f h (λ e. p)

    pub Keeps-call_io :
        (w : World)
        → P w.disk
        → ((a : A) (d : Disk) → f w.disk ≡ ok (a, d) → P d)
        → Keeps (call_io fails f) w
    Keeps-call_io w p h = After-call_io fails f h (λ e. p)
