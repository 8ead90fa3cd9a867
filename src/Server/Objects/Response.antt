-- ===== src/Server/Objects/Response.antt =====
-- The headers of the answer to GetObject against its body.
use ferrobucket.Base.{
  ℕ, zero, suc, ◌+◌, ◌≤◌, ◌≡◌, ◌≢◌, inl, inr, refl, sym, ap, ◌∙◌, Option, none, some, arith, length,
  take, drop, length-take, length-drop, ltb, Bool-cases,
}
use ferrobucket.Base.Text.{Bytes}
use ferrobucket.Error.{Outcome, ok, StorageError}
use ferrobucket.Meta.{ObjectMeta}
use ferrobucket.Range.{ResolvedRange, resolve}
use ferrobucket.Range.Window.{resolve_bounds}
use ferrobucket.Storage.Objects.RoundTrip.{served, window}
use ferrobucket.Server.Convert.{Range, int, suffix_of, s3_range_to_byte_range, as_i64}
use ferrobucket.Server.Objects.{get_response}
use mathlib.Core.Option

-- Only an empty object, or a suffix of no bytes, has an empty window.
empty_window :
    (r : Range) (size : ℕ) (w : ResolvedRange)
    → r ≢ suffix_of 0
    → resolve (s3_range_to_byte_range r) size ≡ some w
    → w.length ≤ 0
    → size ≡ 0
unfolding resolve s3_range_to_byte_range
empty_window (int first none) size w ne h z = ground arith
empty_window (int first (some last)) size w ne h z = ground arith
empty_window (suffix_of zero) size w ne h z = absurd (ne refl)
empty_window (suffix_of (suc n)) size w ne h z = ground arith

length-window :
    (start len : ℕ) (content : Bytes)
    → start + len ≤ length content
    → length (take len (drop start content)) ≡ len
length-window start len content h =
    omega (arith, length-take len (drop start content), length-drop start content)

pub same_pair :
    {m m' : ObjectMeta} {s s' : Bytes}
    → ◌≡◌ {A = Outcome StorageError (ObjectMeta × Bytes)} (ok (m, s)) (ok (m', s'))
    → (m ≡ m') × (s ≡ s')
same_pair h = (cc, cc)

-- The headers of the answer for a resolved window, and the body that goes with it.
window_exact :
    (r : Range) (meta meta' : ObjectMeta) (content stream : Bytes) (o : Option ResolvedRange)
    → meta.size ≡ length content
    → r ≢ suffix_of 0
    → resolve (s3_range_to_byte_range r) meta.size ≡ o
    → window meta content o ≡ ok (meta', stream)
    → (get_response (some r) (meta', stream)).output.content_length ≡ some (as_i64 (length stream))
unfolding get_response
window_exact r meta meta' content stream none size ne h e = absurd cc
window_exact r meta meta' content stream (some w) size ne h e =
    let (same, cut) : ((meta ≡ meta') × (take w.length (drop w.start content) ≡ stream)) =
      same_pair e in
    let fits : w.start + w.length ≤ length content =
      omega (arith, resolve_bounds (s3_range_to_byte_range r) meta.size w h, size) in
    let long : length stream ≡ w.length =
      ap length (sym cut) ∙ length-window w.start w.length content fits in
    rw (← same, h, long)
      (elim (Bool-cases (ltb 0 w.length)) [
        | inl some_bytes ↦ rw some_bytes refl
        | inr no_bytes ↦ rw no_bytes (
            ap (λ n. some (as_i64 n))
              (omega (arith, empty_window r meta.size w ne h (ground arith))))
      ])

-- For an object whose recorded size is its length, and every request that get_object serves, with a
-- range or without, except a suffix of no bytes, Content-Length in the answer is the length of the
-- body.
pub content_length-get_response :
    (range : Option Range) (meta meta' : ObjectMeta) (content stream : Bytes)
    → meta.size ≡ length content
    → range ≢ some (suffix_of 0)
    → served meta content (Option.map s3_range_to_byte_range range) ≡ ok (meta', stream)
    → (get_response range (meta', stream)).output.content_length ≡ some (as_i64 (length stream))
unfolding get_response
content_length-get_response none meta meta' content stream size ne h =
    let (same, cut) : ((meta ≡ meta') × (content ≡ stream)) = same_pair h in
    ap (λ n. some (as_i64 n)) (ap (λ m. m.size) (sym same) ∙ size ∙ ap length cut)
content_length-get_response (some r) meta meta' content stream size ne h =
    window_exact r meta meta' content stream _ size (λ e. ne (ap some e)) refl h
