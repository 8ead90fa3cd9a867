-- ===== src/Base/Text/Search.antt =====
-- What the searches find.
use mathlib.Core.Path.{◌≡◌, refl}
use mathlib.Core.Bool.{true}
use mathlib.Core.List.{[], ◌∷◌, ◌++◌}
use native.Mathlib.Omega.{arith}
use ferrobucket.Base.Lists.{length, drop}
use ferrobucket.Base.Text.{Bytes, starts_with}

pub starts_with-append : (p s : Bytes) → starts_with (p ++ s) p ≡ true
unfolding starts_with
starts_with-append [] s = refl
starts_with-append (c ∷ p) s = ground (arith, starts_with-append p s)

pub starts_with_split : (s p : Bytes) → starts_with s p ≡ true → s ≡ p ++ drop (length p) s
unfolding starts_with
starts_with_split s [] h = refl
starts_with_split [] (c ∷ p) h = ground arith
starts_with_split (d ∷ s) (c ∷ p) h = ground (arith, starts_with_split s p)
