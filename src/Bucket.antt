-- ===== src/Bucket.antt =====
-- crates/storage/src/fs.rs: the names of buckets.
pub mod Labels
pub mod Address
pub mod Rules
use ferrobucket.Base.{
  ℕ, ◌+◌, ◌-◌, ◌*◌, Bool, not, true, false, ◌&&◌, ◌||◌, Option, none, some, List, [], ◌∷◌, ◌++◌,
  all, ltb, leb, ◌==◌, length, if◌then◌else◌, ◌≡◌, refl,
}
use ferrobucket.Base.Text.{Bytes, codes, str_eq, starts_with, ends_with, contains, split}
use ferrobucket.Error.{Result, ok, err, invalid_bucket_name}

-- `["ui", "pkg"].contains(&name)`
unfoldable pub is_reserved : Bytes → Bool
is_reserved name = str_eq name (codes "ui") || str_eq name (codes "pkg")

abbrev pub reserved_message : Bytes → Bytes
reserved_message name =
    codes "'" ++ (name ++ codes "' is reserved by the server and cannot be used as a bucket name")

unfoldable pub is_digit : ℕ → Bool
is_digit b = leb b'0' b && leb b b'9'

unfoldable pub is_lowercase : ℕ → Bool
is_lowercase b = leb b'a' b && leb b b'z'

-- `parse::<u8>` on digits: it fails once the number passes 255.
unfoldable pub parse_u8 : ℕ → Bytes → Option ℕ
parse_u8 n [] = some n
parse_u8 n (c ∷ s) =
    let m = n * 10 + (c - b'0') in let rest = parse_u8 m s in if ltb 255 m then none else rest

abbrev pub is_some : Option ℕ → Bool
is_some none = false
is_some (some n) = true

unfoldable pub is_octet : Bytes → Bool
unfolding is_digit parse_u8
is_octet p = not (str_eq p []) && all is_digit p && is_some (parse_u8 0 p)

unfoldable pub is_ipv4_formatted : Bytes → Bool
unfolding is_octet
is_ipv4_formatted name = let parts = split b'.' name in length parts == 4 && all is_octet parts

unfoldable pub is_name_byte : ℕ → Bool
unfolding is_lowercase is_digit
is_name_byte b = is_lowercase b || is_digit b || b == b'-' || b == b'.'

unfoldable pub validate_bucket_name : Bytes → Result (Unit {0})
validate_bucket_name name =
    if is_reserved name
    then err (invalid_bucket_name (reserved_message name))
    else if ltb (length name) 3 || ltb 63 (length name)
    then err (invalid_bucket_name name)
    else (let valid_chars = all is_name_byte name in
        let no_leading_trailing_hyphen =
          not (starts_with name (codes "-")) && not (ends_with name (codes "-")) in
        let no_leading_trailing_dot =
          not (starts_with name (codes ".")) && not (ends_with name (codes ".")) in
        let no_consecutive_dots = not (contains name (codes "..")) in
        let not_ip_formatted = not (is_ipv4_formatted name) in
        if not valid_chars
          || not no_leading_trailing_hyphen
          || not no_leading_trailing_dot
          || not no_consecutive_dots
          || not not_ip_formatted
        then err (invalid_bucket_name name)
        else ok tt)
