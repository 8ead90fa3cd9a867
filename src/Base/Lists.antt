-- ===== src/Base/Lists.antt =====
-- Lists measured and cut by native numbers, under the library's names.
use Prim.Native.Nat.{ℕ, zero, suc, ◌+◌, ◌-◌, ◌≤◌, min}
use mathlib.Core.Path.{◌≡◌, refl}
use mathlib.Core.Bool.{Bool, true, false}
use mathlib.Core.Option.{Option, none, some}
use mathlib.Core.List.{List, [], ◌∷◌, ◌++◌}
use mathlib.Core.Logic.{inl, inr}
use native.Mathlib.Omega.{arith}
use ferrobucket.Base.Tests.{if◌then◌else◌, Bool-cases}

module _ {ℓ} {A : Type ℓ} where
  abbrev pub length : List A → ℕ
  length [] = 0
  length (x ∷ xs) = suc (length xs)

  abbrev pub take : ℕ → List A → List A
  take zero xs = []
  take (suc n) [] = []
  take (suc n) (x ∷ xs) = x ∷ take n xs

  abbrev pub drop : ℕ → List A → List A
  drop zero xs = xs
  drop (suc n) [] = []
  drop (suc n) (x ∷ xs) = drop n xs

  abbrev pub get_elem? : List A → ℕ → Option A
  get_elem? [] i = none
  get_elem? (x ∷ xs) zero = some x
  get_elem? (x ∷ xs) (suc i) = get_elem? xs i

  pub length-append : (xs ys : List A) → length (xs ++ ys) ≡ length xs + length ys
  length-append [] ys = omega arith
  length-append (x ∷ xs) ys = omega (arith, length-append xs ys)

  pub take-append-drop : (n : ℕ) (xs : List A) → take n xs ++ drop n xs ≡ xs
  take-append-drop zero xs = refl
  take-append-drop (suc n) [] = refl
  take-append-drop (suc n) (x ∷ xs) = rw (take-append-drop n xs)

  pub length-take : (n : ℕ) (xs : List A) → length (take n xs) ≡ min n (length xs)
  length-take zero xs = omega arith
  length-take (suc n) [] = omega arith
  length-take (suc n) (x ∷ xs) = omega (arith, length-take n xs)

  pub length-drop : (n : ℕ) (xs : List A) → length (drop n xs) ≡ length xs - n
  length-drop zero xs = omega arith
  length-drop (suc n) [] = omega arith
  length-drop (suc n) (x ∷ xs) = omega (arith, length-drop n xs)

  pub take_all : (n : ℕ) (xs : List A) → length xs ≤ n → take n xs ≡ xs
  take_all zero [] h = refl
  take_all zero (x ∷ xs) h = absurd (omega arith)
  take_all (suc n) [] h = refl
  take_all (suc n) (x ∷ xs) h = rw (take_all n xs (omega arith))

  pub drop-length_append : (xs ys : List A) → drop (length xs) (xs ++ ys) ≡ ys
  drop-length_append [] ys = refl
  drop-length_append (x ∷ xs) ys = drop-length_append xs ys

  abbrev pub all : (A → Bool) → List A → Bool
  all p [] = true
  all p (x ∷ xs) = elim (p x) [ true ↦ all p xs | false ↦ false ]

module _ {ℓ κ} {A : Type ℓ} (P : A → Type κ) where
  abbrev pub All : List A → Type κ
  All [] = Unit
  All (x ∷ xs) = P x × All xs

  pub All-append : (xs ys : List A) → All xs → All ys → All (xs ++ ys)
  All-append [] ys h k = k
  All-append (x ∷ xs) ys (hx, h) k = (hx, All-append xs ys h k)

  pub All-append_one : (x : A) (xs : List A) → All xs → P x → All (xs ++ x ∷ [])
  All-append_one x [] h px = (px, tt)
  All-append_one x (y ∷ ys) (py, h) px = (py, All-append_one x ys h px)

module _ {ℓ} {A : Type ℓ} where
  -- `Vec::retain` and `Iterator::filter` with a Boolean test
  unfoldable pub retain : (A → Bool) → List A → List A
  retain p [] = []
  retain p (x ∷ xs) = let rest = retain p xs in if p x then x ∷ rest else rest

module _ {ℓ} {A : Type ℓ} (p : A → Bool) where
  pub retain-keep : (x : A) (xs : List A) → p x ≡ true → retain p (x ∷ xs) ≡ x ∷ retain p xs
  unfolding retain
  retain-keep x xs h = rw h

  pub retain-skip : (x : A) (xs : List A) → p x ≡ false → retain p (x ∷ xs) ≡ retain p xs
  unfolding retain
  retain-skip x xs h = rw h

  pub retain-All : (xs : List A) → All (λ x. p x ≡ true) xs → retain p xs ≡ xs
  retain-All [] h = unfold retain in refl
  retain-All (x ∷ xs) (hx, h) = rw (retain-keep x xs hx, retain-All xs h)

  pub All-retain {κ} : (P : A → Type κ) (xs : List A) → All P xs → All P (retain p xs)
  All-retain P [] h = unfold retain in h
  All-retain P (x ∷ xs) (hx, h) = elim (Bool-cases (p x)) [
    | inl e ↦ rw (retain-keep x xs e) (hx, All-retain P xs h)
    | inr e ↦ rw (retain-skip x xs e) (All-retain P xs h)
  ]

  -- What is kept passes the test.
  pub All-retained : (xs : List A) → All (λ x. p x ≡ true) (retain p xs)
  unfolding retain
  All-retained [] = tt
  All-retained (x ∷ xs) = elim (Bool-cases (p x)) [
    | inl e ↦ rw e (e, All-retained xs)
    | inr e ↦ rw e (All-retained xs)
  ]

  pub length-retain : (xs : List A) → length (retain p xs) ≤ length xs
  unfolding retain
  length-retain [] = omega arith
  length-retain (x ∷ xs) = ground (arith, length-retain xs)

module _ {ℓ} {A : Type ℓ} (p q : A → Bool) where
  pub retain_comm : (xs : List A) → retain p (retain q xs) ≡ retain q (retain p xs)
  unfolding retain
  retain_comm [] = refl
  retain_comm (x ∷ xs) = ground (arith, retain_comm xs)

  -- A test that is stronger than the one before it makes that one idle.
  pub retain-retain :
      ((x : A) → p x ≡ true → q x ≡ true) → (xs : List A) → retain p (retain q xs) ≡ retain p xs
  unfolding retain
  retain-retain h [] = refl
  retain-retain h (x ∷ xs) = ground (arith, h x, retain-retain h xs)
