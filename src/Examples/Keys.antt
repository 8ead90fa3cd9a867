-- ===== src/Examples/Keys.antt =====
-- Keys, bucket names and ranges.
use ferrobucket.Base.{◌≡◌, refl, ◌↔◌, [], ◌∷◌, some, none, ◌++◌, ◌||◌, if◌then◌else◌}
use ferrobucket.Base.Text.{Bytes, codes, str_eq, starts_with, ends_with, contains, split}
use ferrobucket.Base.Text.Utf8.{IsStr, is_utf8}
use ferrobucket.Error.{ok, err, invalid_bucket_name}
use ferrobucket.Encode.{encode_key, decode_key, is_traversal_unsafe, is_alphanumeric, hex_digit}
use ferrobucket.Encode.RoundTrip.{decode_key-encode_key}
use ferrobucket.Encode.Traversal.{is_traversal_unsafe_exact, has_nul, has_dot_dot}
use ferrobucket.Bucket.{
  validate_bucket_name, is_reserved, is_ipv4_formatted, is_octet, parse_u8, is_name_byte, is_digit,
  is_lowercase,
}
use ferrobucket.Bucket.Rules.{is_valid, validate_bucket_name_exact}
use ferrobucket.Layout.{FsStorage, object_path}
use ferrobucket.Layout.Contained.{object_path_valid}
use ferrobucket.Range.{full, open_end, ResolvedRange, resolve}
use ferrobucket.Range.Window.{Asked, Within, resolve_exact, resolve_refused}
use ferrobucket.Examples.Hosts.{percent, percent_encode, set_add}

abbrev pub key : Bytes
key = codes "a/b"

abbrev pub name : Bytes
name = codes "a%2Fb"

pub key-IsStr : IsStr key
unfolding is_utf8
key-IsStr = refl

pub encode_key-at : encode_key percent key ≡ ok name
unfolding percent encode_key is_traversal_unsafe contains starts_with ends_with str_eq
    is_alphanumeric hex_digit percent_encode set_add
encode_key-at = refl

decode_key-encode_key_example : decode_key percent name ≡ ok key
decode_key-encode_key_example = decode_key-encode_key percent key name key-IsStr encode_key-at

is_traversal_unsafe_exact_example :
    is_traversal_unsafe (codes "a/../b")
    ≡ (has_nul (codes "a/../b") || has_dot_dot (split b'/' (codes "a/../b")))
is_traversal_unsafe_exact_example = is_traversal_unsafe_exact (codes "a/../b")

abbrev pub bucket : Bytes
bucket = codes "my-bucket"

abbrev pub self : FsStorage
self = record { data_root = codes "data" ∷ [] }

pub bucket-valid : validate_bucket_name bucket ≡ ok tt
unfolding validate_bucket_name is_reserved is_ipv4_formatted is_octet parse_u8 is_name_byte is_digit
    is_lowercase contains starts_with ends_with str_eq split
bucket-valid = refl

validate_bucket_name_exact_example : validate_bucket_name (codes "1.2.3.4") ≡ (
    if str_eq (codes "1.2.3.4") (codes "ui") || str_eq (codes "1.2.3.4") (codes "pkg")
    then err (
        invalid_bucket_name (
          codes "'"
          ++ (codes "1.2.3.4"
              ++ codes "' is reserved by the server and cannot be used as a bucket name")))
    else if is_valid (codes "1.2.3.4")
    then ok tt
    else err (invalid_bucket_name (codes "1.2.3.4")))
validate_bucket_name_exact_example = validate_bucket_name_exact (codes "1.2.3.4")

object_path_valid_example :
    object_path self bucket name ≡ name ∷ codes "objects" ∷ bucket ∷ codes "data" ∷ []
object_path_valid_example =
    object_path_valid self bucket bucket-valid percent key name key-IsStr encode_key-at (λ e. cc)

abbrev window : ResolvedRange
window = record { start = 2; length = 3 }

resolve-at : resolve (full 2 9) 5 ≡ some window
unfolding resolve
resolve-at = refl

resolve_exact_example : Within window 4 ↔ Asked (full 2 9) 5 4
resolve_exact_example = resolve_exact (full 2 9) 5 window 4 resolve-at

resolve-none : resolve (open_end 5) 5 ≡ none
unfolding resolve
resolve-none = refl

resolve_refused_example : ¬ (Asked (open_end 5) 5 7)
resolve_refused_example = resolve_refused (open_end 5) 5 resolve-none 7
