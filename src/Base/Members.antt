-- ===== src/Base/Members.antt =====
-- Where an element stands in a list.
use Prim.Native.Nat.{ℕ, zero, suc}
use mathlib.Core.Path.{◌≡◌, refl, ap, ◌∙◌, subst}
use mathlib.Core.Logic.{◌⊎◌, inl, inr}
use mathlib.Core.Bool.{Bool, true, false}
use mathlib.Core.List.{List, [], ◌∷◌, map}
use ferrobucket.Base.Tests.{if◌then◌else◌, Bool-cases}
use ferrobucket.Base.Lists.{All, take, retain, retain-keep, retain-skip}

module _ {A : Type 0} (a : A) where
  abbrev pub In : List A → Type 0
  In [] = ⊥
  In (x ∷ xs) = (x ≡ a) ⊎ In xs

  pub In-if : (b : Bool) (x : A) (xs : List A) → In xs → In (if b then x ∷ xs else xs)
  In-if true x xs there = inr there
  In-if false x xs there = there

  pub In-retain : (p : A → Bool) (xs : List A) → p a ≡ true → In xs → In (retain p xs)
  In-retain p [] h there = absurd there
  In-retain p (x ∷ xs) h (inl e) = rw (retain-keep p x xs (ap p e ∙ h)) (inl e)
  In-retain p (x ∷ xs) h (inr there) = elim (Bool-cases (p x)) [
    | inl keep ↦ rw (retain-keep p x xs keep) (inr (In-retain p xs h there))
    | inr skip ↦ rw (retain-skip p x xs skip) (In-retain p xs h there)
  ]

pub In-map : {A B : Type 0} (f : A → B) (a : A) (xs : List A) → In a xs → In (f a) (map f xs)
In-map f a [] there = absurd there
In-map f a (x ∷ xs) (inl e) = inl (ap f e)
In-map f a (x ∷ xs) (inr there) = inr (In-map f a xs there)

-- What holds of every element holds of each.
pub All-In : {A : Type 0} (P : A → Type 0) (a : A) (xs : List A) → All P xs → In a xs → P a
All-In P a [] h there = absurd there
All-In P a (x ∷ xs) (hx, h) (inl e) = subst P e hx
All-In P a (x ∷ xs) (hx, h) (inr there) = All-In P a xs h there

-- What holds of each element holds of all.
pub In-All : {A : Type 0} (P : A → Type 0) (xs : List A) → ((a : A) → In a xs → P a) → All P xs
In-All P [] h = tt
In-All P (x ∷ xs) h = (h x (inl refl), In-All P xs (λ a there. h a (inr there)))

pub All-mono :
    {A : Type 0} {P Q : A → Type 0} → ((a : A) → P a → Q a) → (xs : List A) → All P xs → All Q xs
All-mono f [] h = tt
All-mono f (x ∷ xs) (hx, h) = (f x hx, All-mono f xs h)

pub All-take : {A : Type 0} (P : A → Type 0) (n : ℕ) (xs : List A) → All P xs → All P (take n xs)
All-take P zero xs h = tt
All-take P (suc n) [] h = tt
All-take P (suc n) (x ∷ xs) (hx, h) = (hx, All-take P n xs h)
