-- ===== src/Bucket/Rules.antt =====
-- Which bucket names are valid, and what a valid name is good for.
use ferrobucket.Base.{
  ℕ, ◌≡◌, ◌≢◌, ◌≤◌, ap, refl, Bool, true, not, ◌&&◌, [], ◌∷◌, arith, All, all, leb, length, ◌||◌,
  ◌++◌, if◌then◌else◌,
}
use ferrobucket.Base.Text.{Bytes, codes, str_eq, starts_with, ends_with, split}
use ferrobucket.Error.{ok, err, invalid_bucket_name}
use ferrobucket.FilePath.{FilePath, join, IsPlain, join-IsPlain}
use ferrobucket.Bucket.{validate_bucket_name, is_reserved, is_name_byte}
use ferrobucket.Bucket.Labels.{is_label, split-is_label}
use ferrobucket.Bucket.Address.{is_address, is_ipv4_formatted_exact}

-- The rules by labels: 3 to 63 bytes, every part between dots a label, no hyphen at either end of
-- the name, and not an IPv4 address.
unfoldable pub is_valid : Bytes → Bool
is_valid name =
    leb 3 (length name)
    && leb (length name) 63
    && all is_label (split b'.' name)
    && not (starts_with name (codes "-"))
    && not (ends_with name (codes "-"))
    && not (is_address (split b'.' name))

-- Bucket name validation refuses `ui` and `pkg` as reserved by the server. It accepts the other
-- names of 3 to 63 bytes whose parts between dots are not empty and have only lower-case letters,
-- digits and hyphens, unless the name starts or ends with a hyphen or is four decimal numbers up to
-- 255, and it refuses the rest.
pub validate_bucket_name_exact :
    (name : Bytes)
    → validate_bucket_name name ≡ (
        if str_eq name (codes "ui") || str_eq name (codes "pkg")
        then err (
            invalid_bucket_name (
              codes "'"
              ++ (name ++ codes "' is reserved by the server and cannot be used as a bucket name")))
        else if is_valid name
        then ok tt
        else err (invalid_bucket_name name))
unfolding validate_bucket_name is_valid is_reserved
validate_bucket_name_exact [] = unfold str_eq in refl
validate_bucket_name_exact (c ∷ s) =
    rw (split-is_label c s, ← is_ipv4_formatted_exact (c ∷ s)) (ground arith)

name_byte_no_slash : (c : ℕ) → is_name_byte c ≡ true → c ≢ b'/'
unfolding is_name_byte
name_byte_no_slash c h = ground arith

name_no_slash : (s : Bytes) → all is_name_byte s ≡ true → All (λ c. c ≢ b'/') s
name_no_slash [] h = tt
name_no_slash (c ∷ s) h = (name_byte_no_slash c (ground arith), name_no_slash s (ground arith))

valid_bytes : (name : Bytes) → validate_bucket_name name ≡ ok tt → all is_name_byte name ≡ true
unfolding validate_bucket_name
valid_bytes name h = ground arith

valid_length : (name : Bytes) → validate_bucket_name name ≡ ok tt → 3 ≤ length name
unfolding validate_bucket_name
valid_length name h = ground arith

pub valid-IsPlain : (name : Bytes) → validate_bucket_name name ≡ ok tt → IsPlain name
valid-IsPlain name h =
    let long : 3 ≤ length name = valid_length name h in
    record {
      no_slash = name_no_slash name (valid_bytes name h);
      not_empty = λ e. absurd (omega (arith, long, ap length e));
      not_dot = λ e. absurd (omega (arith, long, ap length e));
      not_dot_dot = λ e. absurd (omega (arith, long, ap length e));
    }

-- The directory of a bucket with a valid name is an entry of the data directory itself: no name
-- that passes validation leads elsewhere.
pub join_valid :
    (root : FilePath) (name : Bytes)
    → validate_bucket_name name ≡ ok tt
    → join root name ≡ name ∷ root
join_valid root name h = join-IsPlain root name (valid-IsPlain name h)
