-- ===== src/Bucket/Labels.antt =====
-- A dotted name against its labels, the parts between its dots.
use ferrobucket.Base.{ℕ, ◌≡◌, refl, Bool, not, ◌&&◌, ◌||◌, List, [], ◌∷◌, arith, all, ◌==◌, leb}
use ferrobucket.Base.Text.{Bytes, codes, str_eq, starts_with, ends_with, contains, split}
use ferrobucket.Base.Text.Split.{first_part, rest_parts, split-parts}
use ferrobucket.Bucket.{is_name_byte, is_lowercase, is_digit}

unfoldable pub is_label_byte : ℕ → Bool
is_label_byte b = leb b'a' b && leb b b'z' || leb b'0' b && leb b b'9' || b == b'-'

-- A part with something in it, of lower-case letters, digits and hyphens.
unfoldable pub is_label : Bytes → Bool
is_label l = not (str_eq l []) && all is_label_byte l

abbrev no_empty : List Bytes → Bool
no_empty ps = all (λ p. not (str_eq p [])) ps

abbrev first_of_name : Bytes → Bytes
first_of_name = first_part b'.'

abbrev rest_of_name : Bytes → List Bytes
rest_of_name = rest_parts b'.'

first_part-empty :
    (s : Bytes) → str_eq (first_of_name s) [] ≡ (str_eq s [] || starts_with s (codes "."))
unfolding first_part str_eq starts_with
first_part-empty [] = refl
first_part-empty (c ∷ s) = ground arith

-- Empty labels behind the first are two dots in a row, or a dot at the end.
rest_parts-empty :
    (s : Bytes)
    → no_empty (rest_of_name s) ≡ (not (contains s (codes "..")) && not (ends_with s (codes ".")))
unfolding rest_parts contains ends_with starts_with str_eq
rest_parts-empty [] = refl
rest_parts-empty (c ∷ s) = ground (arith, first_part-empty s, rest_parts-empty s)

first_part-bytes :
    (s : Bytes)
    → all is_name_byte s
      ≡ (all is_label_byte (first_of_name s) && all (all is_label_byte) (rest_of_name s))
unfolding first_part rest_parts is_name_byte is_label_byte is_lowercase is_digit
first_part-bytes [] = refl
first_part-bytes (c ∷ s) = ground (arith, first_part-bytes s)

all-is_label : (ps : List Bytes) → all is_label ps ≡ (no_empty ps && all (all is_label_byte) ps)
unfolding is_label
all-is_label [] = refl
all-is_label (p ∷ ps) = ground (arith, all-is_label ps)

-- The four tests on dots and characters say that every part between dots is a label.
pub split-is_label :
    (c : ℕ) (s : Bytes)
    → all is_label (split b'.' (c ∷ s)) ≡ (
        all is_name_byte (c ∷ s)
        && (not (starts_with (c ∷ s) (codes ".")) && not (ends_with (c ∷ s) (codes ".")))
        && not (contains (c ∷ s) (codes "..")))
unfolding str_eq
split-is_label c s = rw (split-parts b'.' (c ∷ s)) (
    ground (
      arith,
      all-is_label (first_of_name (c ∷ s) ∷ rest_of_name (c ∷ s)),
      first_part-bytes (c ∷ s),
      rest_parts-empty (c ∷ s),
      first_part-empty (c ∷ s),
    ))
