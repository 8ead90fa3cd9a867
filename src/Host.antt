-- ===== src/Host.antt =====
-- What the storage layer takes from outside: crates (`serde_json`, `md5`, `percent_encoding`,
-- `base64`, `tempfile`, `uuid`), the clock, and the failures of system calls.
use ferrobucket.Base.{ℕ, ◌≡◌, ◌≢◌, Bool, true, ◌&&◌, ◌||◌, Option, some, ◌++◌, [], All, leb, ◌==◌}
use ferrobucket.Base.Text.{Bytes, codes, starts_with}
use ferrobucket.Error.{IoError}
use ferrobucket.FilePath.{FilePath}
use ferrobucket.Base.Text.Utf8.{IsStr}
use ferrobucket.Encode.{PercentEncoding}
use ferrobucket.Listing.Page.{Base64}
use ferrobucket.Meta.{ObjectMeta, BucketInfo, MultipartMeta}

-- `serde_json` on a record: what was written is read back.
pub record Json (A : Type 0) : Type 0 where
  pub to_vec : A → Bytes
  pub from_slice : Bytes → Option A
  pub from_slice-to_vec : (a : A) → from_slice (to_vec a) ≡ some a

-- The streaming hash: its state depends on the bytes hashed so far, and not on how they were cut.
pub record Md5 (H : Type 0) : Type 0 where
  pub new : H
  pub update : H → Bytes → H
  pub finalize : H → Bytes
  pub update-nil : (h : H) → update h [] ≡ h
  pub update-append : (h : H) (s t : Bytes) → update (update h s) t ≡ update h (s ++ t)

-- A byte of an identifier in its hyphenated form, whose digits are hexadecimal.
abbrev pub is_uuid_byte : ℕ → Bool
is_uuid_byte c = leb b'0' c && leb c b'9' || leb b'a' c && leb c b'f' || c == b'-'

-- Names, times and failures are numbered by the system calls made before. What is left of a removal
-- that fails half done `survives`, and a write that fails has written the first `short` bytes.
-- `to_string_lossy` reads a file name as text.
pub record Host (H : Type 0) : Type 0 where
  pub percent : PercentEncoding
  pub base64 : Base64
  pub md5 : Md5 H
  pub object_json : Json ObjectMeta
  pub bucket_json : Json BucketInfo
  pub multipart_json : Json MultipartMeta
  pub fails : ℕ → Bool
  pub survives : ℕ → FilePath → Bool
  pub short : ℕ → ℕ
  pub now_utc : ℕ → ℕ
  pub new_v4 : ℕ → Bytes
  pub new_v4_lem : (n : ℕ) → (new_v4 n ≢ []) × All (λ c. is_uuid_byte c ≡ true) (new_v4 n)
  pub temp_name : ℕ → Bytes
  pub io_text : IoError → Bytes
  pub to_string_lossy : Bytes → Bytes
  pub to_string_lossy_lem : (name : Bytes) → IsStr name → to_string_lossy name ≡ name
  pub temp_name_prefix : (n : ℕ) → starts_with (temp_name n) (codes ".tmp") ≡ true
