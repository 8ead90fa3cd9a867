-- ===== src/Act/After.antt =====
-- Reasoning about an action by what holds after it, on success and on an error.
use ferrobucket.Base.{
  ℕ, ◌⊎◌, ◌≡◌, refl, subst, Bool, true, false, not, Bool-cases, inl, inr, if◌then◌else◌, suc,
}
use ferrobucket.Error.{Outcome, ok, err, IoError, StorageError, io, other}
use ferrobucket.Disk.{Disk}
use ferrobucket.Disk.Calls.{Call}
use ferrobucket.Act.{
  World, Act, continue, ◌>>=◌, attempt, lift, err_as, map_err, ignore, call, call_left, call_io,
  apply_call,
}

module _ {E A : Type 0} where
  abbrev pub AfterAt : (A → World → Type 0) → (E → World → Type 0) → Outcome E A → World → Type 0
  AfterAt Q R (ok a) w = Q a w
  AfterAt Q R (err e) w = R e w

  -- `Q` holds if the action succeeded, `R` if it failed.
  pub record After (Q : A → World → Type 0) (R : E → World → Type 0) (m : Act E A) (w : World)
      : Type 0 where
    pub at : AfterAt Q R (m w).0 (m w).1

  AfterAt-mono :
      (Q Q' : A → World → Type 0) (R R' : E → World → Type 0) (r : Outcome E A) (w : World)
      → ((a : A) (w : World) → Q a w → Q' a w)
      → ((e : E) (w : World) → R e w → R' e w)
      → AfterAt Q R r w
      → AfterAt Q' R' r w
  AfterAt-mono Q Q' R R' (ok a) w f g h = f a w h
  AfterAt-mono Q Q' R R' (err e) w f g h = g e w h

  AfterAt-any : (r : Outcome E A) (w : World) → AfterAt (λ _ _. Unit {0}) (λ _ _. Unit {0}) r w
  AfterAt-any (ok a) w = tt
  AfterAt-any (err e) w = tt

  -- Of every action at least this is known.
  pub After-any : (m : Act E A) (w : World) → After (λ _ _. Unit {0}) (λ _ _. Unit {0}) m w
  After-any m w = record { at = AfterAt-any (m w).0 (m w).1 }

  pub AfterAt-both :
      (P : World → Type 0) (r : Outcome E A) (w : World) → AfterAt (λ _. P) (λ _. P) r w → P w
  AfterAt-both P (ok a) w h = h
  AfterAt-both P (err e) w h = h

  module _ {Q : A → World → Type 0} {R : E → World → Type 0} {m : Act E A} {w : World}
      (h : After Q R m w) where
    pub After-mono :
        {Q' : A → World → Type 0} {R' : E → World → Type 0}
        → ((a : A) (w : World) → Q a w → Q' a w)
        → ((e : E) (w : World) → R e w → R' e w)
        → After Q' R' m w
    After-mono {Q'} {R'} f g = record { at = AfterAt-mono Q Q' R R' (m w).0 (m w).1 f g h.at }

    -- What is known of an action that succeeded.
    pub After-ok : {a : A} → (m w).0 ≡ ok a → Q a (m w).1
    After-ok e = subst (λ o. AfterAt Q R o (m w).1) e h.at

    pub After-err : {x : E} → (m w).0 ≡ err x → R x (m w).1
    After-err e = subst (λ o. AfterAt Q R o (m w).1) e h.at

module _ {E A B : Type 0} where
  After-continue :
      (Q : B → World → Type 0) (R : E → World → Type 0) (r : Outcome E A) (f : A → Act E B)
      (w : World)
      → AfterAt (λ a w₁. After Q R (f a) w₁) R r w
      → AfterAt Q R (continue r f w).0 (continue r f w).1
  After-continue Q R (ok a) f w h = h.at
  After-continue Q R (err e) f w h = h

  pub After-bind :
      {Q : B → World → Type 0} {R : E → World → Type 0} {m : Act E A} {f : A → Act E B} {w : World}
      → After (λ a w₁. After Q R (f a) w₁) R m w
      → After Q R (m >>= f) w
  unfolding ◌>>=◌
  After-bind {Q} {R} {m} {f} {w} h = record { at = After-continue Q R (m w).0 f (m w).1 h.at }

module _ {E A : Type 0} {Q : A → World → Type 0} {R : E → World → Type 0} where
  -- An attempt never fails.
  pub After-attempt :
      {F : Type 0} {N : F → World → Type 0} {m : Act E A} {w : World}
      → After Q R m w
      → After (λ o w'. AfterAt Q R o w') N (attempt m) w
  After-attempt h = record { at = h.at }

module _ {E A : Type 0} {P : World → Type 0} where
  -- An ignored outcome leaves what holds on both.
  pub After-ignore :
      {N : E → World → Type 0} {m : Act E A} {w : World}
      → After (λ _. P) (λ _. P) m w
      → After (λ _. P) N (ignore m) w
  After-ignore {m = m} {w = w} h = record { at = AfterAt-both P (m w).0 (m w).1 h.at }

module _ (fails : ℕ → Bool) {A : Type 0} where
  After-apply_call :
      (Q : A → World → Type 0) (R : IoError → World → Type 0) (w : World)
      (r : Outcome IoError (A × Disk))
      → ((a : A) (d : Disk) → r ≡ ok (a, d) → Q a (record { disk = d; calls = suc w.calls }))
      → ((e : IoError) → R e (record { disk = w.disk; calls = suc w.calls }))
      → AfterAt Q R (apply_call w r).0 (apply_call w r).1
  After-apply_call Q R w (ok (a, d)) q r = q a d refl
  After-apply_call Q R w (err e) q r = r e

  -- A call either does what it does on the disk, or fails and leaves the disk as it was.
  pub After-call :
      {Q : A → World → Type 0} {R : IoError → World → Type 0} (f : Call A) {w : World}
      → ((a : A) (d : Disk) → f w.disk ≡ ok (a, d) → Q a (record { disk = d; calls = suc w.calls }))
      → ((e : IoError) → R e (record { disk = w.disk; calls = suc w.calls }))
      → After Q R (call fails f) w
  unfolding call
  After-call {Q} {R} f {w} q r = elim (Bool-cases (fails w.calls)) [
    | inl broken ↦ record { at = rw broken (r other) }
    | inr fine ↦ record { at = rw fine (After-apply_call Q R w (f w.disk) q r) }
  ]

  After-err_as :
      (Q : A → World → Type 0) (R : StorageError → World → Type 0) (r : Outcome IoError A)
      (w : World)
      → AfterAt Q (λ e w'. R (io e) w') r w
      → AfterAt Q R (err_as io r) w
  After-err_as Q R (ok a) w h = h
  After-err_as Q R (err e) w h = h

  pub After-call_io :
      {Q : A → World → Type 0} {R : StorageError → World → Type 0} (f : Call A) {w : World}
      → ((a : A) (d : Disk) → f w.disk ≡ ok (a, d) → Q a (record { disk = d; calls = suc w.calls }))
      → ((e : IoError) → R (io e) (record { disk = w.disk; calls = suc w.calls }))
      → After Q R (call_io fails f) w
  unfolding call_io
  After-call_io {Q} {R} f {w} q r = record {
    at =
        After-err_as Q R (call fails f w).0 (call fails f w).1
          (After-call {Q = Q} {R = λ e w'. R (io e) w'} f {w = w} q r).at;
  }

module _ {E A : Type 0} where
  pub After-lift :
      {Q : A → World → Type 0} {R : E → World → Type 0} (r : Outcome E A) {w : World}
      → ((a : A) → r ≡ ok a → Q a w)
      → ((e : E) → r ≡ err e → R e w)
      → After Q R (lift r) w
  After-lift (ok a) q r = record { at = q a refl }
  After-lift (err e) q r = record { at = r e refl }

module _ {E A : Type 0} {Q : A → World → Type 0} {R : E → World → Type 0} where
  pub After-unless :
      (b : Bool) {m n : Act E A} {w : World}
      → After Q R m w
      → After Q R n w
      → After Q R (if not b then m else n) w
  After-unless true hm hn = hn
  After-unless false hm hn = hm

After-err_as_with :
    {E F A : Type 0} (Q : A → World → Type 0) (R : F → World → Type 0) (g : E → F) (r : Outcome E A)
    (w : World)
    → AfterAt Q (λ e w'. R (g e) w') r w
    → AfterAt Q R (err_as g r) w
After-err_as_with Q R g (ok a) w h = h
After-err_as_with Q R g (err e) w h = h

module _ {E F A : Type 0} {Q : A → World → Type 0} {R : F → World → Type 0} where
  pub After-map_err :
      (g : E → F) {m : Act E A} {w : World}
      → After Q (λ e w'. R (g e) w') m w
      → After Q R (map_err g m) w
  After-map_err g {m} {w} h = record { at = After-err_as_with Q R g (m w).0 (m w).1 h.at }

module _ (fails : ℕ → Bool) {A : Type 0} where
  After-refused :
      (Q : A → World → Type 0) (R : IoError → World → Type 0) (w : World)
      (r : Outcome IoError (A × Disk))
      → ((a : A) (d : Disk) → r ≡ ok (a, d) → Q a (record { disk = d; calls = suc w.calls }))
      → ((e : IoError) → r ≡ err e → R e (record { disk = w.disk; calls = suc w.calls }))
      → AfterAt Q R (apply_call w r).0 (apply_call w r).1
  After-refused Q R w (ok (a, d)) q r = q a d refl
  After-refused Q R w (err e) q r = r e refl

  -- A call of many leaves what it has done.
  pub After-call_left :
      {Q : A → World → Type 0} {R : IoError → World → Type 0} (left : ℕ → Disk → Disk) (f : Call A)
      {w : World}
      → ((a : A) (d : Disk) → f w.disk ≡ ok (a, d) → Q a (record { disk = d; calls = suc w.calls }))
      → ((e : IoError) → f w.disk ≡ err e → R e (record { disk = w.disk; calls = suc w.calls }))
      → R other (record { disk = left w.calls w.disk; calls = suc w.calls })
      → After Q R (call_left fails left f) w
  unfolding call_left
  After-call_left {Q} {R} left f {w} q r broken_off = elim (Bool-cases (fails w.calls)) [
    | inl broken ↦ record { at = rw broken broken_off }
    | inr fine ↦ record { at = rw fine (After-refused Q R w (f w.disk) q r) }
  ]

  -- A call fails with the error of the disk, or with one of no special kind.
  pub After-call_why :
      {Q : A → World → Type 0} {R : IoError → World → Type 0} (f : Call A) {w : World}
      → ((a : A) (d : Disk) → f w.disk ≡ ok (a, d) → Q a (record { disk = d; calls = suc w.calls }))
      → ((e : IoError)
          → (f w.disk ≡ err e) ⊎ (e ≡ other)
          → R e (record { disk = w.disk; calls = suc w.calls }))
      → After Q R (call fails f) w
  unfolding call
  After-call_why {Q} {R} f {w} q r = elim (Bool-cases (fails w.calls)) [
    | inl broken ↦ record { at = rw broken (r other (inr refl)) }
    | inr fine ↦ record { at = rw fine (After-refused Q R w (f w.disk) q (λ e h. r e (inl h))) }
  ]
