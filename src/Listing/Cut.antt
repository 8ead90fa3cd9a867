-- ===== src/Listing/Cut.antt =====
-- A text up to the end of the first delimiter in it.
use mathlib.Core.Option as Option
use ferrobucket.Base.{
  ℕ, zero, suc, ◌+◌, ◌≤◌, ◌≡◌, refl, true, false, Option, none, some, [], ◌∷◌, length, take, arith,
  Bool-cases, ◌⊎◌, inl, inr, ap, subst, ◌∙◌, sym,
}
use ferrobucket.Base.Text.{Bytes, starts_with, find, str_lt}

-- A text between two that start with `p` starts with it.
pub starts_with-between :
    (p a b c : Bytes)
    → str_lt a b ≡ true
    → str_lt c b ≡ false
    → starts_with a p ≡ true
    → starts_with c p ≡ true
    → starts_with b p ≡ true
unfolding starts_with str_lt
starts_with-between [] a b c h k ha hc = refl
starts_with-between (x ∷ p) [] b c h k ha hc = ground arith
starts_with-between (x ∷ p) (y ∷ a) b [] h k ha hc = ground arith
starts_with-between (x ∷ p) (y ∷ a) [] (z ∷ c) h k ha hc = ground arith
starts_with-between (x ∷ p) (y ∷ a) (w ∷ b) (z ∷ c) h k ha hc =
    ground (arith, starts_with-between p a b c)

-- Two prefixes of one text: the shorter is one of the longer.
starts_with-shorter :
    (x s p : Bytes) (n : ℕ)
    → starts_with x (take n s) ≡ true
    → starts_with x p ≡ true
    → length p ≤ n
    → n ≤ length s
    → starts_with s p ≡ true
unfolding starts_with
starts_with-shorter x s [] n h k long fits = refl
starts_with-shorter [] s (c ∷ p) n h k long fits = ground arith
starts_with-shorter (d ∷ x) [] (c ∷ p) n h k long fits = absurd (omega (arith, long, fits))
starts_with-shorter (d ∷ x) (e ∷ s) (c ∷ p) zero h k long fits = absurd (omega (arith, long))
starts_with-shorter (d ∷ x) (e ∷ s) (c ∷ p) (suc n) h k long fits =
    ground (arith, starts_with-shorter x s p n)

take-starts_with : (s d : Bytes) → starts_with s d ≡ true → take (length d) s ≡ d
unfolding starts_with
take-starts_with s [] h = refl
take-starts_with [] (c ∷ d) h = ground arith
take-starts_with (e ∷ s) (c ∷ d) h = ground (arith, take-starts_with s d)

starts_with-fits : (s d : Bytes) → starts_with s d ≡ true → length d ≤ length s
unfolding starts_with
starts_with-fits s [] h = omega arith
starts_with-fits [] (c ∷ d) h = ground arith
starts_with-fits (e ∷ s) (c ∷ d) h = ground (arith, starts_with-fits s d)

pub starts_with-take : (n : ℕ) (s : Bytes) → starts_with s (take n s) ≡ true
unfolding starts_with
starts_with-take zero s = refl
starts_with-take (suc n) [] = refl
starts_with-take (suc n) (c ∷ s) = ground (arith, starts_with-take n s)

find_later :
    (r : Option ℕ) (pos : ℕ) → Option.map suc r ≡ some pos → (n : ℕ) × (r ≡ some n) × (pos ≡ suc n)
find_later none pos h = absurd (cc)
find_later (some n) pos h = (n, refl, ground arith)

-- The first delimiter is at the start, or in the rest.
find_cases :
    (c : ℕ) (s d : Bytes) (pos : ℕ)
    → find (c ∷ s) d ≡ some pos
    → ((starts_with (c ∷ s) d ≡ true) × (pos ≡ 0))
      ⊎ ((starts_with (c ∷ s) d ≡ false) × ((n : ℕ) × (find s d ≡ some n) × (pos ≡ suc n)))
unfolding find
find_cases c s d pos h = elim (Bool-cases (starts_with (c ∷ s) d)) [
  | inl here ↦ inl (here, (ground (arith, here, h)))
  | inr later ↦ inr (later, find_later (find s d) pos (rw later at h))
]

suc_plus : (n m : ℕ) → suc n + m ≡ suc (n + m)
suc_plus n m = omega arith

find-fits : (s d : Bytes) (pos : ℕ) → find s d ≡ some pos → pos + length d ≤ length s
find-fits [] [] pos h = unfold find starts_with in ground arith
find-fits [] (x ∷ d) pos h = unfold find starts_with in absurd (cc)
find-fits (c ∷ s) d pos h = elim (find_cases c s d pos h) [
  | inl (here, e) ↦ let fits = starts_with-fits (c ∷ s) d here in omega (arith, e, fits)
  | inr (later, (n, found, e)) ↦ let fits = find-fits s d n found in omega (arith, e, fits)
]

take-at : (s d : Bytes) (pos : ℕ) → pos ≡ 0 → take (pos + length d) s ≡ take (length d) s
take-at s d pos e = rw e (ap (λ n. take n s) (omega arith))

abbrev pub Cut : Bytes → Bytes → Bytes → ℕ → Type 0
Cut s d x pos = (find x d ≡ some pos) × (take (pos + length d) x ≡ take (pos + length d) s)

found_here : (x d : Bytes) → starts_with x d ≡ true → find x d ≡ some 0
unfolding find
found_here [] d h = rw h refl
found_here (y ∷ x) d h = rw h refl

Cut-here :
    (s d x : Bytes) (pos : ℕ)
    → starts_with s d ≡ true
    → pos ≡ 0
    → starts_with x (take (pos + length d) s) ≡ true
    → Cut s d x pos
Cut-here s d x pos here e k =
    let whole : take (pos + length d) s ≡ d = take-at s d pos e ∙ take-starts_with s d here in
    let same : starts_with x d ≡ true = subst (λ p. starts_with x p ≡ true) whole k in
    (
      found_here x d same ∙ ap some (sym e),
      take-at x d pos e ∙ take-starts_with x d same ∙ sym whole,
    )

Cut-later :
    (c : ℕ) (s d : Bytes) (y : ℕ) (x : Bytes) (n : ℕ)
    → starts_with (c ∷ s) d ≡ false
    → find s d ≡ some n
    → starts_with (y ∷ x) (c ∷ take (n + length d) s) ≡ true
    → y ≡ c
    → Cut s d x n
    → (find (y ∷ x) d ≡ some (suc n)) × (y ∷ take (n + length d) x ≡ c ∷ take (n + length d) s)
unfolding find
Cut-later c s d y x n later found k e (at_n, same) =
    let fits = find-fits s d n found in
    let not_here : starts_with (y ∷ x) d ≡ false = elim (Bool-cases (starts_with (y ∷ x) d)) [
      | inl here ↦
          let in_s =
            starts_with-shorter (y ∷ x) (c ∷ s) d (suc (n + length d)) k here (omega arith)
              (omega (arith, fits)) in
          absurd (cc)
      | inr other ↦ other
    ] in
    (rw (not_here, at_n) refl, cc)

further :
    (c : ℕ) (s d x : Bytes) (n pos : ℕ)
    → starts_with (c ∷ s) d ≡ false
    → find s d ≡ some n
    → pos ≡ suc n
    → starts_with x (c ∷ take (n + length d) s) ≡ true
    → ((x : Bytes) → starts_with x (take (n + length d) s) ≡ true → Cut s d x n)
    → Cut (c ∷ s) d x pos
further c s d [] n pos later found e k rest = unfold starts_with in absurd (cc)
further c s d (y ∷ x) n pos later found e k rest =
    let width : pos + length d ≡ suc (n + length d) = omega (arith, e) in
    let (first, k') : (y ≡ c) × (starts_with x (take (n + length d) s) ≡ true) =
      unfold starts_with in (ground (arith, k), ground (arith, k)) in
    let (at_n, same) = Cut-later c s d y x n later found k first (rest x k') in
    (
      at_n ∙ ap some (sym e),
      ap (λ m. take m (y ∷ x)) width ∙ same ∙ sym (ap (λ m. take m (c ∷ s)) width),
    )

-- A text that starts with another one up to the end of the first delimiter has its first delimiter
-- in the same place.
pub find-Cut :
    (s d x : Bytes) (pos : ℕ)
    → find s d ≡ some pos
    → starts_with x (take (pos + length d) s) ≡ true
    → Cut s d x pos
find-Cut [] [] x pos h k =
    Cut-here [] [] x pos (unfold starts_with in refl) (unfold find starts_with in ground arith) k
find-Cut [] (b ∷ d) x pos h k = unfold find starts_with in absurd (cc)
find-Cut (c ∷ s) d x pos h k = elim (find_cases c s d pos h) [
  | inl (here, e) ↦ Cut-here (c ∷ s) d x pos here e k
  | inr (later, (n, found, e)) ↦
      let width : pos + length d ≡ suc (n + length d) = omega (arith, e) in
      let after : starts_with x (c ∷ take (n + length d) s) ≡ true =
        subst (λ m. starts_with x (take m (c ∷ s)) ≡ true) width k in
      further c s d x n pos later found e after (λ x. find-Cut s d x n found)
]
