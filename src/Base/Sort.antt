-- ===== src/Base/Sort.antt =====
-- `slice::sort`, as insertion by a Boolean order. Any correct sort agrees with it on distinct items.
use mathlib.Core.List.{Perm}
use mathlib.Core.List.Perm
use mathlib.Core.Path.{◌≡◌, refl}
use Prim.Native.Nat.{suc}
use mathlib.Core.Logic.{◌≢◌, inl, inr}
use mathlib.Core.Bool.{Bool, true, false}
use mathlib.Core.List.{List, [], ◌∷◌, ◌++◌}
use native.Mathlib.Omega.{arith}
use ferrobucket.Base.Tests.{if◌then◌else◌, Bool-cases}
use ferrobucket.Base.Members.{In}
use ferrobucket.Base.Lists.{All, All-append_one, length}

abbrev pub Ascending : {A : Type 0} → (A → A → Bool) → List A → Type 0
Ascending lt [] = Unit
Ascending lt (x ∷ xs) = All (λ y. lt x y ≡ true) xs × Ascending lt xs

abbrev pub Distinct : {A : Type 0} → List A → Type 0
Distinct [] = Unit
Distinct (x ∷ xs) = All (λ y. x ≢ y) xs × Distinct xs

module _ {A : Type 0} (lt : A → A → Bool) where
  unfoldable pub insert : A → List A → List A
  insert k [] = k ∷ []
  insert k (x ∷ xs) = if lt x k then x ∷ insert k xs else k ∷ x ∷ xs

  unfoldable pub sort : List A → List A
  unfolding insert
  sort [] = []
  sort (x ∷ xs) = insert x (sort xs)

  insert-perm : (k : A) (xs : List A) → Perm (insert k xs) (k ∷ xs)
  unfolding insert
  insert-perm k [] = Perm.refl _
  insert-perm k (x ∷ xs) = elim (Bool-cases (lt x k)) [
    | inl h ↦ rw h (Perm.trans (Perm.cons x (insert-perm k xs)) (Perm.swap k x xs))
    | inr h ↦ rw h (Perm.refl _)
  ]

  pub sort-perm : (xs : List A) → Perm (sort xs) xs
  unfolding sort
  sort-perm [] = Perm.refl []
  sort-perm (x ∷ xs) = Perm.trans (insert-perm x (sort xs)) (Perm.cons x (sort-perm xs))

  length-insert : (k : A) (xs : List A) → length (insert k xs) ≡ suc (length xs)
  unfolding insert
  length-insert k [] = refl
  length-insert k (x ∷ xs) = ground (arith, length-insert k xs)

  pub length-sort : (xs : List A) → length (sort xs) ≡ length xs
  unfolding sort
  length-sort [] = refl
  length-sort (x ∷ xs) = omega (arith, length-insert x (sort xs), length-sort xs)

  In-insert : (a k : A) (xs : List A) → In a (k ∷ xs) → In a (insert k xs)
  unfolding insert
  In-insert a k [] there = there
  In-insert a k (x ∷ xs) there = elim (Bool-cases (lt x k)) [
    | inl h ↦ rw h (pushed (In-insert a k xs) there)
    | inr h ↦ rw h there
  ]
    where
      pushed : (In a (k ∷ xs) → In a (insert k xs)) → In a (k ∷ x ∷ xs) → In a (x ∷ insert k xs)
      pushed further (inl e) = inr (further (inl e))
      pushed further (inr (inl e)) = inl e
      pushed further (inr (inr there)) = inr (further (inr there))

  pub In-sort : (a : A) (xs : List A) → In a xs → In a (sort xs)
  unfolding sort
  In-sort a [] there = absurd there
  In-sort a (x ∷ xs) (inl e) = In-insert a x (sort xs) (inl e)
  In-sort a (x ∷ xs) (inr there) = In-insert a x (sort xs) (inr (In-sort a xs there))

  module _ {κ} (P : A → Type κ) where
    All-insert : (k : A) (xs : List A) → P k → All P xs → All P (insert k xs)
    unfolding insert
    All-insert k [] pk h = (pk, tt)
    All-insert k (x ∷ xs) pk (px, h) = elim (Bool-cases (lt x k)) [
      | inl e ↦ rw e (px, All-insert k xs pk h)
      | inr e ↦ rw e (pk, (px, h))
    ]

    pub All-sort : (xs : List A) → All P xs → All P (sort xs)
    unfolding sort
    All-sort [] h = tt
    All-sort (x ∷ xs) (px, h) = All-insert x (sort xs) px (All-sort xs h)

  module _ (lt_trans : (a b c : A) → lt a b ≡ true → lt b c ≡ true → lt a c ≡ true)
      (lt_total : (a b : A) → lt a b ≡ false → lt b a ≡ false → a ≡ b) where
    lt_of_not : (a b : A) → b ≢ a → lt a b ≡ false → lt b a ≡ true
    lt_of_not a b ne h = elim (Bool-cases (lt b a)) [
      | inl e ↦ e
      | inr e ↦ absurd (ne (lt_total b a e h))
    ]

    All-lt_trans :
        (a b : A) (xs : List A)
        → lt a b ≡ true
        → All (λ y. lt b y ≡ true) xs
        → All (λ y. lt a y ≡ true) xs
    All-lt_trans a b [] h k = tt
    All-lt_trans a b (x ∷ xs) h (kx, k) = (lt_trans a b x h kx, All-lt_trans a b xs h k)

    insert-Ascending :
        (k : A) (xs : List A) → All (λ y. k ≢ y) xs → Ascending lt xs → Ascending lt (insert k xs)
    unfolding insert
    insert-Ascending k [] ne h = (tt, tt)
    insert-Ascending k (x ∷ xs) (nx, ne) (hx, h) = elim (Bool-cases (lt x k)) [
      | inl e ↦ rw e (All-insert (λ y. lt x y ≡ true) k xs e hx, insert-Ascending k xs ne h)
      | inr e ↦
          let k_lt_x : lt k x ≡ true = lt_of_not x k nx e in
          rw e ((k_lt_x, All-lt_trans k x xs k_lt_x hx), (hx, h))
    ]

    -- Distinct items are sorted strictly.
    pub sort-Ascending : (xs : List A) → Distinct xs → Ascending lt (sort xs)
    unfolding sort
    sort-Ascending [] d = tt
    sort-Ascending (x ∷ xs) (ne, d) =
        insert-Ascending x (sort xs) (All-sort (λ y. x ≢ y) xs ne) (sort-Ascending xs d)

module _ {A : Type 0} (lt : A → A → Bool) where
  insert-first :
      (lt_asym : (a b : A) → lt a b ≡ true → lt b a ≡ false)
      → (k : A) (xs : List A) → All (λ y. lt k y ≡ true) xs
      → insert lt k xs ≡ k ∷ xs
  unfolding insert
  insert-first lt_asym k [] h = refl
  insert-first lt_asym k (x ∷ xs) (hx, h) = rw (lt_asym k x hx) refl

  -- What is ascending is sorted already.
  pub sort_of-Ascending :
      ((a b : A) → lt a b ≡ true → lt b a ≡ false)
      → (xs : List A) → Ascending lt xs
      → sort lt xs ≡ xs
  unfolding sort
  sort_of-Ascending lt_asym [] h = refl
  sort_of-Ascending lt_asym (x ∷ xs) (hx, h) =
      rw (sort_of-Ascending lt_asym xs h) (insert-first lt_asym x xs hx)

  pub Ascending-append_one :
      (x : A) (xs : List A)
      → Ascending lt xs
      → All (λ y. lt y x ≡ true) xs
      → Ascending lt (xs ++ x ∷ [])
  Ascending-append_one x [] h below = (tt, tt)
  Ascending-append_one x (y ∷ ys) (hy, h) (by, below) =
      (All-append_one (λ z. lt y z ≡ true) x ys hy by, Ascending-append_one x ys h below)
