-- ===== src/Base/Decimal.antt =====
-- `to_string` of integers.
pub mod Value
use Prim.Native.Nat.{ℕ, zero, suc, ◌+◌, ◌/◌, ◌%◌}
use mathlib.Core.Bool.{true, false}
use mathlib.Core.List.{[], ◌∷◌}
use ferrobucket.Base.Tests.{ltb}
use ferrobucket.Base.Text.{Bytes}
use ferrobucket.Base.Int.{ℤ, pos, negsuc}

-- The digits in front of `out`; a number has fewer digits than `suc` of itself.
digits : ℕ → ℕ → Bytes → Bytes
digits zero n out = out
digits (suc fuel) n out = elim (ltb n 10) [
  | true ↦ (b'0' + n) ∷ out
  | false ↦ digits fuel (n / 10) ((b'0' + n % 10) ∷ out)
]

unfoldable pub show : ℕ → Bytes
unfolding digits
show n = digits (suc n) n []

unfoldable pub to_string : ℤ → Bytes
unfolding show
to_string (pos n) = show n
to_string (negsuc n) = b'-' ∷ show (suc n)
