-- ===== src/Base/Text.antt =====
-- Text as the list of its bytes, and the operations of `str` that the program uses.
pub mod Order
pub mod Search
pub mod Split
pub mod Utf8
pub mod Trim
use Prim.Native.Nat.{ℕ, ◌+◌, suc, zero}
use Prim.Native.Char.{code}
use Prim.Native.String.{String}
use mathlib.Core.Path.{◌≡◌, refl, ap₂}
use mathlib.Core.Logic.{◌↔◌}
use mathlib.Core.Bool.{Bool, true, false, ◌&&◌, ◌||◌}
use mathlib.Core.Option
use mathlib.Core.Option.{Option, none, some}
use mathlib.Core.List.{List, [], ◌∷◌, ◌++◌}
use native.Mathlib.Omega.{arith}
use ferrobucket.Base.Tests.{ltb, ◌==◌, ==_iff, if◌then◌else◌}

abbrev pub Bytes : Type 0
Bytes = List ℕ

-- The code points of a literal: its bytes, since the literals are ASCII.
abbrev pub codes : String → Bytes
codes String.[] = []
codes (String.◌∷◌ c s) = code c ∷ codes s

module _ {A : Type 0} where
  -- `==` on sequences, from `==` on their items
  unfoldable pub list_eq : (A → A → Bool) → List A → List A → Bool
  list_eq eq [] [] = true
  list_eq eq [] (y ∷ ys) = false
  list_eq eq (x ∷ xs) [] = false
  list_eq eq (x ∷ xs) (y ∷ ys) = eq x y && list_eq eq xs ys

  pub list_eq_iff :
      (eq : A → A → Bool)
      → ((x y : A) → (eq x y ≡ true) ↔ (x ≡ y))
      → (xs ys : List A) → (list_eq eq xs ys ≡ true) ↔ (xs ≡ ys)
  unfolding list_eq
  list_eq_iff eq h [] [] = ground arith
  list_eq_iff eq h [] (y ∷ ys) = ground arith
  list_eq_iff eq h (x ∷ xs) [] = ground arith
  list_eq_iff eq h (x ∷ xs) (y ∷ ys) = ground (arith, h x y, list_eq_iff eq h xs ys)

unfoldable pub str_eq : Bytes → Bytes → Bool
unfolding list_eq
str_eq = list_eq ◌==◌

pub str_eq_iff : (s t : Bytes) → (str_eq s t ≡ true) ↔ (s ≡ t)
unfolding str_eq
str_eq_iff = list_eq_iff ◌==◌ ==_iff

pub str_eq_refl : (s : Bytes) → str_eq s s ≡ true
str_eq_refl s = (str_eq_iff s s).1 refl

unfoldable pub starts_with : Bytes → Bytes → Bool
starts_with s [] = true
starts_with [] (c ∷ p) = false
starts_with (d ∷ s) (c ∷ p) = d == c && starts_with s p

unfoldable pub ends_with : Bytes → Bytes → Bool
unfolding str_eq
ends_with [] p = str_eq [] p
ends_with (c ∷ s) p = str_eq (c ∷ s) p || ends_with s p

-- The position of the first occurrence.
unfoldable pub find : Bytes → Bytes → Option ℕ
unfolding starts_with
find [] p = if starts_with [] p then some 0 else none
find (c ∷ s) p = if starts_with (c ∷ s) p then some 0 else Option.map suc (find s p)

unfoldable pub contains : Bytes → Bytes → Bool
unfolding starts_with
contains [] p = starts_with [] p
contains (c ∷ s) p = starts_with (c ∷ s) p || contains s p

-- The byte order of `Ord for str`.
unfoldable pub str_lt : Bytes → Bytes → Bool
str_lt s [] = false
str_lt [] (b ∷ t) = true
str_lt (a ∷ s) (b ∷ t) = ltb a b || a == b && str_lt s t

abbrev pub cons_head : ℕ → List Bytes → List Bytes
cons_head c [] = (c ∷ []) ∷ []
cons_head c (p ∷ ps) = (c ∷ p) ∷ ps

-- `str::split` at one ASCII character.
unfoldable pub split : ℕ → Bytes → List Bytes
split sep [] = [] ∷ []
split sep (c ∷ s) = let rest = split sep s in if c == sep then [] ∷ rest else cons_head c rest

-- `join` of a list of texts with one ASCII character
unfoldable pub join_with : ℕ → List Bytes → Bytes
join_with sep [] = []
join_with sep (p ∷ []) = p
join_with sep (p ∷ q ∷ ps) = p ++ sep ∷ join_with sep (q ∷ ps)
