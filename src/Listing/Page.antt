-- ===== src/Listing/Page.antt =====
-- crates/storage/src/list.rs: the continuation tokens, and one page of a listing from the decoded
-- file names. The base64 codec is the `base64` crate's: a parameter with its round trip.
pub mod Walk
pub mod Complete
pub mod Cap
use mathlib.Core.Option
use ferrobucket.Base.{
  ℕ, ◌-◌, ◌≡◌, Bool, Option, none, some, List, map, ltb, length, take, get_elem?, All, ◌<◌,
  if◌then◌else◌, [],
}
use ferrobucket.Base.Text.{Bytes, str_lt}
use ferrobucket.Base.Text.Utf8.{is_utf8}
use ferrobucket.Base.Sort.{sort}
use ferrobucket.Error.{Result, ok, err, invalid_continuation_token, ◌>>=◌}
use ferrobucket.Listing.{Item, Emitted, emitted_of, resume_after, filter_prefix}

-- `URL_SAFE_NO_PAD`: any bytes encode, and decoding takes the encoding back.
pub record Base64 : Type 0 where
  pub encode : Bytes → Bytes
  pub decode : Bytes → Option Bytes
  pub decode-encode : (s : Bytes) → All (λ b. b < 256) s → decode (encode s) ≡ some s

pub record ListV2Req : Type 0 where
  pub prefix : Option Bytes
  pub delimiter : Option Bytes
  pub continuation_token : Option Bytes
  pub max_keys : Option ℕ

pub record Page : Type 0 where
  pub items : List Item
  pub next_continuation_token : Option Bytes
  pub is_truncated : Bool

unfoldable pub clamp : ℕ → ℕ → ℕ → ℕ
clamp x lo hi = if ltb x lo then lo else if ltb hi x then hi else x

unfoldable pub max_keys_of : ListV2Req → ℕ
unfolding clamp
max_keys_of req = clamp (Option.get_or req.max_keys 1000) 1 1000

unfoldable pub prefix_str : ListV2Req → Bytes
prefix_str req = Option.get_or req.prefix []

module _ (base64 : Base64) where
  unfoldable pub encode_continuation_token : Bytes → Bytes
  encode_continuation_token last_key = base64.encode last_key

  unfoldable pub decode_continuation_token : Bytes → Result Bytes
  decode_continuation_token token = elim (base64.decode token) [
    | none ↦ err invalid_continuation_token
    | some bytes ↦ if is_utf8 bytes then ok bytes else err invalid_continuation_token
  ]

  unfoldable pub decode_token : Option Bytes → Result (Option Bytes)
  unfolding decode_continuation_token
  decode_token none = ok none
  decode_token (some token) = do after ← decode_continuation_token token; ok (some after)

  -- Step 6: the cap, and the token behind the last item of a page that is cut.
  unfoldable pub cut : ℕ → List Emitted → Page
  unfolding encode_continuation_token
  cut max_keys emitted = record {
    items = map (λ e. e.item) (take max_keys emitted);
    next_continuation_token =
        (if ltb max_keys (length emitted)
          then Option.map (λ e. encode_continuation_token e.last_key)
              (get_elem? emitted (max_keys - 1))
          else none);
    is_truncated = ltb max_keys (length emitted);
  }

  -- Steps 2 to 6, on the keys as the directory gave them.
  unfoldable pub list_page : List Bytes → ListV2Req → Result Page
  list_page keys req = do
    after ← decode_token req.continuation_token
    ok (
        cut (max_keys_of req) (
          emitted_of (prefix_str req) req.delimiter
            (filter_prefix req.prefix (resume_after after (sort str_lt keys)))))
