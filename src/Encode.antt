-- ===== src/Encode.antt =====
-- crates/storage/src/encode.rs: object keys as flat file names.
-- The `percent_encoding` crate is a parameter with its documented behaviour, byte by byte; a set of
-- ASCII characters is its membership test. In that crate `AsciiSet::add` adds a character to those
-- that are escaped.
pub mod Percent
pub mod Traversal
pub mod RoundTrip
pub mod FileName
use ferrobucket.Base.{
  ℕ, ◌<◌, ◌/◌, ◌%◌, ◌+◌, ◌-◌, ◌≡◌, ◌≢◌, Bool, not, ◌&&◌, ◌||◌, Option, List, [], ◌∷◌, ◌++◌, All,
  ltb, leb, ◌==◌, length, if◌then◌else◌,
}
use ferrobucket.Base.Text.{Bytes, codes, str_eq, starts_with, ends_with, contains}
use ferrobucket.Base.Text.Utf8.{is_utf8}
use ferrobucket.Error.{Result, ok, err, key_too_long, invalid_key}

abbrev pub AsciiSet : Type 0
AsciiSet = ℕ → Bool

unfoldable pub is_alphanumeric : ℕ → Bool
is_alphanumeric c =
    (leb b'0' c && leb c b'9') || (leb b'A' c && leb c b'Z') || (leb b'a' c && leb c b'z')

-- An upper-case hexadecimal digit.
unfoldable pub hex_digit : ℕ → ℕ
hex_digit n = if ltb n 10 then n + b'0' else n - 10 + b'A'

-- `%` and the two digits of a byte
abbrev pub escape : ℕ → Bytes
escape c = b'%' ∷ hex_digit (c / 16) ∷ hex_digit (c % 16) ∷ []

pub record PercentEncoding : Type 0 where
  pub non_alphanumeric : AsciiSet
  pub add : AsciiSet → ℕ → AsciiSet
  pub encode : Bytes → AsciiSet → Bytes
  pub decode : Bytes → Bytes
  pub non_alphanumeric_lem : (c : ℕ) → c < 128 → non_alphanumeric c ≡ not (is_alphanumeric c)
  pub add_lem : (set : AsciiSet) (b c : ℕ) → add set b c ≡ (c == b || set c)
  pub encode-nil : (set : AsciiSet) → encode [] set ≡ []
  pub encode-cons :
      (set : AsciiSet) (c : ℕ) (s : Bytes)
      → c < 256
      → encode (c ∷ s) set ≡ (if leb 128 c || set c then escape c else c ∷ []) ++ encode s set
  pub decode-nil : decode [] ≡ []
  pub decode-plain : (c : ℕ) (s : Bytes) → c ≢ b'%' → decode (c ∷ s) ≡ c ∷ decode s
  pub decode-escape : (c : ℕ) (s : Bytes) → c < 256 → decode (escape c ++ s) ≡ c ∷ decode s

unfoldable pub is_traversal_unsafe : Bytes → Bool
is_traversal_unsafe s =
    contains s (0 ∷ [])
    || str_eq s (codes "..")
    || starts_with s (codes "../")
    || contains s (codes "/../")
    || ends_with s (codes "/..")

module _ (percent : PercentEncoding) where
  abbrev pub key_encode_set : AsciiSet
  key_encode_set =
      percent.add (percent.add (percent.add (percent.add percent.non_alphanumeric b'-') b'_') b'.')
        b'~'

  unfoldable pub encode_key : Bytes → Result Bytes
  encode_key key =
      let encoded = percent.encode key key_encode_set in
      if ltb 255 (length encoded)
      then err (key_too_long key)
      else if is_traversal_unsafe key
      then err invalid_key
      else ok encoded

  unfoldable pub decode_key : Bytes → Result Bytes
  decode_key encoded =
      let decoded = percent.decode encoded in
      if not (is_utf8 decoded)
      then err invalid_key
      else if is_traversal_unsafe decoded
      then err invalid_key
      else ok decoded
