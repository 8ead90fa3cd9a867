-- ===== src/Base/Text/Split.antt =====
-- Splitting at a separator: the first part and the others.
use Prim.Native.Nat.{ℕ}
use mathlib.Core.Path.{◌≡◌, refl, ap, ◌∙◌}
use mathlib.Core.Logic.{◌≢◌}
use mathlib.Core.List.{List, [], ◌∷◌, ◌++◌}
use native.Mathlib.Omega.{arith}
use ferrobucket.Base.Tests.{◌==◌, if◌then◌else◌}
use ferrobucket.Base.Lists.{All}
use ferrobucket.Base.Text.{Bytes, split, join_with}

module _ (sep : ℕ) where
  unfoldable pub first_part : Bytes → Bytes
  first_part [] = []
  first_part (c ∷ s) = if c == sep then [] else c ∷ first_part s

  unfoldable pub rest_parts : Bytes → List Bytes
  rest_parts [] = []
  rest_parts (c ∷ s) = let rest = rest_parts s in if c == sep then first_part s ∷ rest else rest

  pub split-parts : (s : Bytes) → split sep s ≡ first_part s ∷ rest_parts s
  unfolding split first_part rest_parts
  split-parts [] = refl
  split-parts (c ∷ s) = ground (arith, split-parts s)

  pub split-Lacks : (s : Bytes) → All (λ c. c ≢ sep) s → split sep s ≡ s ∷ []
  unfolding split
  split-Lacks [] h = refl
  split-Lacks (c ∷ s) h = ground (arith, h.0, split-Lacks s h.1)

  -- What stands before a separator is the first part.
  pub split-append :
      (s t : Bytes) → All (λ c. c ≢ sep) s → split sep (s ++ sep ∷ t) ≡ s ∷ split sep t
  unfolding split
  split-append [] t h = ground arith
  split-append (c ∷ s) t h = ground (arith, h.0, split-append s t h.1)

  -- Texts without the separator are got back from their joining.
  pub split-join_with :
      (p : Bytes) (ps : List Bytes)
      → All (λ q. All (λ c. c ≢ sep) q) (p ∷ ps)
      → split sep (join_with sep (p ∷ ps)) ≡ p ∷ ps
  unfolding join_with
  split-join_with p [] (hp, h) = split-Lacks p hp
  split-join_with p (q ∷ ps) (hp, h) =
      split-append p (join_with sep (q ∷ ps)) hp ∙ ap (λ r. p ∷ r) (split-join_with q ps h)
