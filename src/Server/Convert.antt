-- ===== src/Server/Convert.antt =====
-- crates/server/src/s3_impl.rs: conversions between the types of the protocol and of the storage
-- layer, with Rust's casts between integers written out.
use ferrobucket.Base.{ℕ, ◌-◌, ◌%◌, ◌^◌, Option, none, some, List, [], ◌∷◌, ltb, if◌then◌else◌}
use ferrobucket.Base.Text.{Bytes}
use ferrobucket.Base.Int.{ℤ, pos, negsuc}
use ferrobucket.Error.{Outcome, ok, err, other}
use ferrobucket.Range.{ByteRange, full, open_end, suffix}
use ferrobucket.Persist.{Body}

pub data ETag : Type 0 where
  strong : Bytes → ETag

-- `s3s::dto::Range`
pub data Range : Type 0 where
  int : ℕ → Option ℕ → Range
  suffix_of : ℕ → Range

unfoldable pub s3_range_to_byte_range : Range → ByteRange
s3_range_to_byte_range (int first none) = open_end first
s3_range_to_byte_range (int first (some last)) = full first last
s3_range_to_byte_range (suffix_of length) = suffix length

-- A `StreamingBlob`: chunks, or errors of the transport.
abbrev pub StreamingBlob : Type 0 → Type 0
StreamingBlob E = List (Outcome E Bytes)

unfoldable pub body_to_stream : {E : Type 0} → StreamingBlob E → Body
body_to_stream [] = []
body_to_stream (ok chunk ∷ blob) = ok chunk ∷ body_to_stream blob
body_to_stream (err e ∷ blob) = err other ∷ body_to_stream blob

-- A time is the same number on both sides.
abbrev pub to_s3_timestamp : ℕ → ℕ
to_s3_timestamp dt = dt

-- `as i64` of a `u64`
unfoldable pub as_i64 : ℕ → ℤ
as_i64 n = if ltb n (2 ^ 63) then pos n else negsuc (2 ^ 64 - 1 - n)

-- `as i32` of a `usize`
unfoldable pub as_i32 : ℕ → ℤ
as_i32 n = let m = n % 2 ^ 32 in if ltb m (2 ^ 31) then pos m else negsuc (2 ^ 32 - 1 - m)

-- `as usize` of an `i32`, on a machine of 64 bits
unfoldable pub as_usize : ℤ → ℕ
as_usize (pos n) = n
as_usize (negsuc n) = 2 ^ 64 - 1 - n

-- `if v.is_empty() { None } else { Some(v) }`
abbrev pub unless_empty : {A : Type 0} → List A → Option (List A)
unless_empty [] = none
unless_empty (x ∷ xs) = some (x ∷ xs)
