-- ===== src/Listing.antt =====
-- crates/storage/src/list.rs: the pure part of ListObjectsV2, from the sorted keys to one page.
-- The vector `emitted` is kept newest first while the loop runs, so that `last_mut` is its head.
pub mod Cut
pub mod Once
pub mod Group
pub mod Resume
pub mod Members
pub mod Page
use mathlib.Core.List.{reverse}
use ferrobucket.Base.{
  ℕ, ◌+◌, ◌-◌, Bool, true, false, Option, none, some, List, [], ◌∷◌, ◌++◌, map, ltb, retain, length,
  take, drop, if◌then◌else◌,
}
use ferrobucket.Base.Text.{Bytes, str_eq, str_lt, starts_with, find}

pub data Item : Type 0 where
  object common_prefix : Bytes → Item

pub record Emitted : Type 0 where
  pub item : Item
  pub last_key : Bytes

-- What one key is listed as: the delimiter is searched behind the request's prefix.
unfoldable pub classify : Bytes → Option Bytes → Bytes → Item
classify prefix none key = object key
classify prefix (some delimiter) key =
    let remainder = drop (length prefix) key in
    elim (find remainder delimiter) [
      | none ↦ object key
      | some delim_pos ↦ common_prefix (prefix ++ take (delim_pos + length delimiter) remainder)
    ]

-- `matches!(&e.item, Item::CommonPrefix(x) if *x == cp)`, for an item that may be an object.
unfoldable pub same_prefix : Item → Item → Bool
same_prefix (common_prefix x) (common_prefix cp) = str_eq x cp
same_prefix (common_prefix x) (object k) = false
same_prefix (object k) j = false

-- One round of the loop over the keys.
unfoldable pub emit : Bytes → Option Bytes → List Emitted → Bytes → List Emitted
emit prefix delimiter [] key = record { item = classify prefix delimiter key; last_key = key } ∷ []
emit prefix delimiter (e ∷ emitted) key =
    if same_prefix e.item (classify prefix delimiter key)
    then record e { last_key = key } ∷ emitted
    else record { item = classify prefix delimiter key; last_key = key } ∷ e ∷ emitted

unfoldable pub emit_all : Bytes → Option Bytes → List Emitted → List Bytes → List Emitted
emit_all prefix delimiter emitted [] = emitted
emit_all prefix delimiter emitted (key ∷ keys) =
    emit_all prefix delimiter (emit prefix delimiter emitted key) keys

unfoldable pub emitted_of : Bytes → Option Bytes → List Bytes → List Emitted
unfolding emit_all emit
emitted_of prefix delimiter keys = reverse (emit_all prefix delimiter [] keys)

-- `k > after`
unfoldable pub resume_after : Option Bytes → List Bytes → List Bytes
resume_after none keys = keys
resume_after (some after) keys = retain (str_lt after) keys

unfoldable pub filter_prefix : Option Bytes → List Bytes → List Bytes
filter_prefix none keys = keys
filter_prefix (some prefix) keys = retain (λ k. starts_with k prefix) keys
