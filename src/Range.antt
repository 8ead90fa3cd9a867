-- ===== src/Range.antt =====
-- crates/storage/src/range.rs: byte ranges and their resolution against an object's length.
pub mod Window
use ferrobucket.Base.{ℕ, ◌+◌, ◌-◌, min, Option, none, some, ◌==◌, ltb, leb, if◌then◌else◌, ◌||◌}

-- The three forms of an HTTP `Range` header, as `ByteRangeKind`.
pub data ByteRange : Type 0 where
  full : ℕ → ℕ → ByteRange
  open_end : ℕ → ByteRange
  suffix : ℕ → ByteRange

pub record ResolvedRange : Type 0 where
  pub start : ℕ
  pub length : ℕ

-- `last - first + 1` runs only where `first <= last`, so no subtraction stops at 0.
unfoldable pub resolve : ByteRange → ℕ → Option ResolvedRange
resolve (full first last) object_len =
    if object_len == 0 || leb object_len first
    then none
    else (let clamped_last = min last (object_len - 1) in
        if ltb clamped_last first
        then none
        else some (record { start = first; length = clamped_last - first + 1 }))
resolve (open_end first) object_len =
    if object_len == 0 || leb object_len first
    then none
    else some (record { start = first; length = object_len - first })
resolve (suffix n) object_len =
    let clamped_n = min n object_len in
    some (record { start = object_len - clamped_n; length = clamped_n })
