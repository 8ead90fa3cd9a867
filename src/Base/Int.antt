-- ===== src/Base/Int.antt =====
-- Signed integers over the native numbers, as far as part numbers need them.
use Prim.Native.Nat.{ℕ, zero, suc}
use mathlib.Core.Bool.{Bool, true, false}
use ferrobucket.Base.Tests.{ltb}

-- `negsuc n` is -(n + 1).
pub data ℤ : Type 0 where
  pos : ℕ → ℤ
  negsuc : ℕ → ℤ

infix 50 ◌<ℤ◌
unfoldable pub ◌<ℤ◌ : ℤ → ℤ → Bool
pos a <ℤ pos b = ltb a b
pos a <ℤ negsuc b = false
negsuc a <ℤ pos b = true
negsuc a <ℤ negsuc b = ltb b a

-- `n <= 0`
unfoldable pub is_not_positive : ℤ → Bool
is_not_positive (pos zero) = true
is_not_positive (pos (suc n)) = false
is_not_positive (negsuc n) = true
