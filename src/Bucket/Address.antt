-- ===== src/Bucket/Address.antt =====
-- Names with the form of an IPv4 address: four decimal numbers up to 255 between dots.
use ferrobucket.Base.{
  ℕ, ◌+◌, ◌-◌, ◌*◌, ◌≡◌, ◌≤◌, refl, Bool, true, false, not, ◌&&◌, List, [], ◌∷◌, arith, all, leb,
  length, ltb, ◌==◌, Option, none, if◌then◌else◌, ◌∙◌, inl, inr, Bool-cases,
}
use ferrobucket.Base.Text.{Bytes, str_eq, split}
use ferrobucket.Bucket.{is_digit, parse_u8, is_some, is_octet, is_ipv4_formatted}

-- The number that the digits write behind `n`.
unfoldable pub value : ℕ → Bytes → ℕ
value n [] = n
value n (c ∷ s) = value (n * 10 + (c - 48)) s

unfoldable pub is_number : Bytes → Bool
is_number p = leb 1 (length p) && all (λ c. leb 48 c && leb c 57) p && leb (value 0 p) 255

unfoldable pub is_address : List Bytes → Bool
is_address (a ∷ b ∷ c ∷ d ∷ []) = is_number a && is_number b && is_number c && is_number d
is_address _ = false

value-grows : (n : ℕ) (s : Bytes) → n ≤ value n s
unfolding value
value-grows n [] = omega arith
value-grows n (c ∷ s) = let tail = value-grows (n * 10 + (c - 48)) s in omega (arith, tail)

is_some-if : (b : Bool) (r : Option ℕ) → is_some (if b then none else r) ≡ (not b && is_some r)
is_some-if true r = refl
is_some-if false r = refl

is_some-parse_u8 : (n : ℕ) (s : Bytes) → n ≤ 255 → is_some (parse_u8 n s) ≡ leb (value n s) 255
unfolding parse_u8 value
is_some-parse_u8 n [] small = ground arith
is_some-parse_u8 n (c ∷ s) small =
    let m = n * 10 + (c - 48) in
    is_some-if (ltb 255 m) (parse_u8 m s) ∙ elim (Bool-cases (leb m 255)) [
      | inl h ↦ let rest = is_some-parse_u8 m s (ground (arith, h)) in ground (arith, rest, h)
      | inr h ↦ let grown = value-grows m s in ground (arith, grown, h)
    ]

is_octet-is_number : (p : Bytes) → is_octet p ≡ is_number p
unfolding is_octet is_number is_digit str_eq
is_octet-is_number [] = refl
is_octet-is_number (c ∷ s) = rw (is_some-parse_u8 0 (c ∷ s) (omega arith)) (ground arith)

four : (ps : List Bytes) → (length ps == 4 && all is_octet ps) ≡ is_address ps
unfolding is_address
four [] = refl
four (a ∷ []) = refl
four (a ∷ b ∷ []) = refl
four (a ∷ b ∷ c ∷ []) = refl
four (a ∷ b ∷ c ∷ d ∷ []) =
    grind (
      arith,
      is_octet-is_number a,
      is_octet-is_number b,
      is_octet-is_number c,
      is_octet-is_number d,
    )
four (a ∷ b ∷ c ∷ d ∷ e ∷ ps) = ground arith

pub is_ipv4_formatted_exact : (name : Bytes) → is_ipv4_formatted name ≡ is_address (split b'.' name)
unfolding is_ipv4_formatted
is_ipv4_formatted_exact name = four (split b'.' name)
