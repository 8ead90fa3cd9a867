-- ===== src/Base/Text/Trim.antt =====
-- `trim`, `to_ascii_lowercase` and the last part of a split.
use Prim.Native.Nat.{ℕ, ◌+◌}
use mathlib.Core.Bool.{Bool, true, false, ◌&&◌, ◌||◌}
use mathlib.Core.List.{List, [], ◌∷◌, map, reverse}
use ferrobucket.Base.Tests.{leb, ◌==◌, if◌then◌else◌}
use ferrobucket.Base.Text.{Bytes}

-- White space in ASCII: tab to carriage return, and space.
abbrev pub is_space : ℕ → Bool
is_space c = c == b' ' || leb 9 c && leb c 13

unfoldable pub trim_start : Bytes → Bytes
trim_start [] = []
trim_start (c ∷ s) = let rest = trim_start s in if is_space c then rest else c ∷ s

-- `str::trim` on ASCII text
unfoldable pub trim : Bytes → Bytes
unfolding trim_start
trim s = reverse (trim_start (reverse (trim_start s)))

abbrev pub lower : ℕ → ℕ
lower c = if leb b'A' c && leb c b'Z' then c + 32 else c

unfoldable pub to_ascii_lowercase : Bytes → Bytes
to_ascii_lowercase = map lower

abbrev pub is_empty : Bytes → Bool
is_empty [] = true
is_empty (c ∷ s) = false

-- `rsplit(…).next()` and `split(…).next_back()`: there is always a part.
abbrev pub last_part : List Bytes → Bytes
last_part [] = []
last_part (p ∷ []) = p
last_part (p ∷ q ∷ ps) = last_part (q ∷ ps)

abbrev pub head_part : List Bytes → Bytes
head_part [] = []
head_part (p ∷ ps) = p
