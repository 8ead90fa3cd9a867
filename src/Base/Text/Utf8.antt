-- ===== src/Base/Text/Utf8.antt =====
-- Well-formed UTF-8, as `str::from_utf8` checks it.
use Prim.Native.Nat.{ℕ, zero, suc, ◌≤◌, ◌<◌}
use mathlib.Core.Path.{◌≡◌, refl}
use mathlib.Core.Bool.{Bool, true, false, ◌&&◌}
use mathlib.Core.Option.{Option, none, some}
use mathlib.Core.List.{[], ◌∷◌}
use native.Mathlib.Omega.{arith}
use ferrobucket.Base.Tests.{leb, ltb, ◌==◌, if◌then◌else◌}
use ferrobucket.Base.Lists.{All}
use ferrobucket.Base.Text.{Bytes}

-- How many bytes continue a first byte, and the range of the first of them.
lead : ℕ → Option (ℕ × ℕ × ℕ)
lead b =
    if ltb b 0x80
    then some (0, 0, 0)
    else if leb 0xc2 b && leb b 0xdf
    then some (1, 0x80, 0xbf)
    else if b == 0xe0
    then some (2, 0xa0, 0xbf)
    else if b == 0xed
    then some (2, 0x80, 0x9f)
    else if leb 0xe1 b && leb b 0xef
    then some (2, 0x80, 0xbf)
    else if b == 0xf0
    then some (3, 0x90, 0xbf)
    else if leb 0xf1 b && leb b 0xf3
    then some (3, 0x80, 0xbf)
    else if b == 0xf4
    then some (3, 0x80, 0x8f)
    else none

-- `need` bytes are due, the next one from `lo` to `hi`.
scan : ℕ → ℕ → ℕ → Bytes → Bool
unfolding lead
scan zero lo hi [] = true
scan (suc need) lo hi [] = false
scan zero lo hi (b ∷ s) = elim (lead b) [ none ↦ false | some (n, l, h) ↦ scan n l h s ]
scan (suc need) lo hi (b ∷ s) = (leb lo b && leb b hi) && scan need 0x80 0xbf s

unfoldable pub is_utf8 : Bytes → Bool
unfolding scan
is_utf8 = scan 0 0 0

-- The text is the content of a `str`.
abbrev pub IsStr : Bytes → Type 0
IsStr s = is_utf8 s ≡ true

lead_bounds : (b n l h : ℕ) → lead b ≡ some (n, l, h) → (b < 256) × (h ≤ 0xbf)
unfolding lead
lead_bounds b n l h e = ground arith

scan-IsByte :
    (need lo hi : ℕ) (s : Bytes) → hi ≤ 0xbf → scan need lo hi s ≡ true → All (λ b. b < 256) s
scan-IsByte zero lo hi [] k e = tt
scan-IsByte (suc need) lo hi [] k e = tt
scan-IsByte zero lo hi (b ∷ s) k e =
    go (lead b) refl (λ n l h. scan-IsByte n l h s) (unfold scan in e)
  where
    go :
        (o : Option (ℕ × ℕ × ℕ))
        → lead b ≡ o
        → ((n l h : ℕ) → h ≤ 0xbf → scan n l h s ≡ true → All (λ c. c < 256) s)
        → (elim o [ none ↦ false | some (n, l, h) ↦ scan n l h s ]) ≡ true
        → All (λ c. c < 256) (b ∷ s)
    go none eq ih e' = absurd (ground arith)
    go (some (n, l, h)) eq ih e' =
        ((lead_bounds b n l h eq).0, ih n l h (lead_bounds b n l h eq).1 e')
scan-IsByte (suc need) lo hi (b ∷ s) k e =
    let (here, rest) : ((b < 256) × (scan need 0x80 0xbf s ≡ true)) = unfold scan in ground arith in
    (here, scan-IsByte need 0x80 0xbf s (omega arith) rest)

-- The content of a `str` is a list of bytes.
pub IsStr-IsByte : (s : Bytes) → IsStr s → All (λ b. b < 256) s
unfolding is_utf8
IsStr-IsByte s h = scan-IsByte 0 0 0 s (omega arith) h

lead-ascii : (b : ℕ) → b < 128 → lead b ≡ some (0, 0, 0)
unfolding lead
lead-ascii b h = ground arith

scan-ascii : (lo hi : ℕ) (s : Bytes) → All (λ b. b < 128) s → scan 0 lo hi s ≡ true
unfolding scan
scan-ascii lo hi [] h = refl
scan-ascii lo hi (b ∷ s) (hb, h) = rw (scan, lead-ascii b hb) (scan-ascii 0 0 s h)

-- ASCII is text.
pub ascii-IsStr : (s : Bytes) → All (λ b. b < 128) s → IsStr s
unfolding is_utf8
ascii-IsStr s h = scan-ascii 0 0 s h
