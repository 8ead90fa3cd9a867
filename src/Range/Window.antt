-- ===== src/Range/Window.antt =====
-- The window of a resolved range is exactly the part of the object that was asked for.
use ferrobucket.Base.{ℕ, ◌+◌, ◌≤◌, ◌<◌, ◌≡◌, ◌↔◌, none, some, arith}
use ferrobucket.Range.{ByteRange, full, open_end, suffix, ResolvedRange, resolve}

-- The byte at index `i` of an object of `len` bytes is one that the client asked for.
abbrev pub Asked : ByteRange → ℕ → ℕ → Type 0
Asked (full first last) len i = (first ≤ i) × (i ≤ last) × (i < len)
Asked (open_end first) len i = (first ≤ i) × (i < len)
Asked (suffix n) len i = (len ≤ i + n) × (i < len)

abbrev pub Within : ResolvedRange → ℕ → Type 0
Within w i = (w.start ≤ i) × (i < w.start + w.length)

-- A resolved window ends within the object.
pub resolve_bounds :
    (r : ByteRange) (len : ℕ) (w : ResolvedRange)
    → resolve r len ≡ some w
    → w.start + w.length ≤ len
unfolding resolve
resolve_bounds (full first last) len w h = ground arith
resolve_bounds (open_end first) len w h = ground arith
resolve_bounds (suffix n) len w h = ground arith

-- A byte is in a resolved window exactly if the client asked for it and the object has it.
pub resolve_exact :
    (r : ByteRange) (len : ℕ) (w : ResolvedRange) (i : ℕ)
    → resolve r len ≡ some w
    → Within w i ↔ Asked r len i
unfolding resolve
resolve_exact (full first last) len w i h = ground arith
resolve_exact (open_end first) len w i h = ground arith
resolve_exact (suffix n) len w i h = ground arith

-- A range that does not resolve asks for no byte that the object has.
pub resolve_refused : (r : ByteRange) (len : ℕ) → resolve r len ≡ none → (i : ℕ) → ¬ (Asked r len i)
unfolding resolve
resolve_refused (full first last) len h i = ground arith
resolve_refused (open_end first) len h i = ground arith
resolve_refused (suffix n) len h i = ground arith
