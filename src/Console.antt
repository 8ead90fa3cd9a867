-- ===== src/Console.antt =====
-- crates/server/src/ui: the routes that the console in the browser calls. A response is what the
-- handlers set of it; a response without a body has an empty one.
pub mod ContentType
pub mod Upload
pub mod Download
pub mod RoundTrip
pub mod ServerFns
use ferrobucket.Base.{ℕ, Option, none, [], ◌≡◌, All, ◌≤◌, ◌<◌, Bool, true}
use ferrobucket.Base.Text.{Bytes}
use ferrobucket.Error.{Outcome, ok, err}
use ferrobucket.Act.{World, Act}

pub record Response : Type 0 where
  pub status : ℕ
  pub etag : Option Bytes
  pub body : Bytes

-- `StatusCode::OK`, `BAD_REQUEST`, `NOT_FOUND`
abbrev pub status_ok : ℕ
status_ok = 200

abbrev pub bad_request : ℕ
bad_request = 400

abbrev pub not_found_status : ℕ
not_found_status = 404

abbrev pub text_response : ℕ → Bytes → Response
text_response status text = record { status = status; etag = none; body = text }

abbrev pub Handler : Type 0 → Type 0
Handler R = World → R × World

module _ {E A R : Type 0} where
  abbrev pub respond : (A → R) → (E → R) → Outcome E A → R
  respond f g (ok a) = f a
  respond f g (err e) = g e

  -- `match state.storage.….await`
  unfoldable pub answer : Act E A → (A → R) → (E → R) → Handler R
  answer m f g w = let (r, w') = m w in (respond f g r, w')
