-- ===== src/Ui/Transfer/Routed.antt =====
-- The browser in front of the server: a request that is answered has been handled.
use ferrobucket.Base.{
  ℕ, ◌^◌, ◌<◌, ◌≡◌, ◌≢◌, all, refl, sym, ◌∙◌, Bool, true, false, ◌&&◌, leb, Option, none, some, [],
  All, arith, if◌then◌else◌,
}
use ferrobucket.Base.Text.{Bytes, codes, split}
use ferrobucket.Base.Int.{pos}
use ferrobucket.Error.{Outcome, ok, err, StorageError}
use ferrobucket.Act.{World, Fs}
use ferrobucket.Host.{Host, is_uuid_byte}
use ferrobucket.Layout.{FsStorage}
use ferrobucket.Persist.Body.{content_of}
use ferrobucket.Server.Convert.{StreamingBlob, body_to_stream}
use ferrobucket.Console.{Response, answer, respond}
use ferrobucket.Console.Upload.{Web, UploadParams, upload_handler, refused}
use ferrobucket.Ui.Transfer.{
  Browser, Payload, blob, text, Fetched, Query, create, part, complete, abort, request_url, fetched,
  body_text, parts_json, post_text, post_blob,
}
use ferrobucket.Ui.Links.{is_unreserved}
use ferrobucket.Ui.Transfer.Numbers.{numbers}

-- What the router reads from the address of a request.
unfoldable pub params_of : Query → UploadParams
params_of create = record { upload_id = none; part_number = none; action = some (codes "create") }
params_of (part upload_id n) = record {
  upload_id = some upload_id;
  part_number = some (pos n);
  action = none;
}
params_of (complete upload_id) = record {
  upload_id = some upload_id;
  part_number = none;
  action = some (codes "complete");
}
params_of (abort upload_id) = record {
  upload_id = some upload_id;
  part_number = none;
  action = some (codes "abort");
}

-- Requests with an identifier of the generator and a number that an `i32` holds.
abbrev pub Sendable : Query → Type 0
Sendable create = Unit
Sendable (part upload_id n) = All (λ c. is_uuid_byte c ≡ true) upload_id × (n < 2 ^ 31)
Sendable (complete upload_id) = All (λ c. is_uuid_byte c ≡ true) upload_id
Sendable (abort upload_id) = All (λ c. is_uuid_byte c ≡ true) upload_id

-- `fetch` names the type of a text, and none for a cut of a file.
abbrev pub header_of : Option Payload → Option Bytes
header_of none = none
header_of (some (blob b)) = none
header_of (some (text t)) = some (codes "text/plain;charset=UTF-8")

abbrev pub payload_bytes : Option Payload → Bytes
payload_bytes none = []
payload_bytes (some (blob b)) = b
payload_bytes (some (text t)) = t

-- `Response.ok`
abbrev pub is_success : ℕ → Bool
is_success status = leb 200 status && leb status 299

-- The console does not escape the key in an address. It arrives as it is only where an address holds
-- its bytes as they are and no part of it is `.` or `..`, which a browser takes out of the address.
pub record Addressable (key : Bytes) : Type 0 where
  pub plain : all is_unreserved key ≡ true
  pub kept : All (λ p. (p ≢ codes ".") × (p ≢ codes "..")) (split b'/' key)

-- For such a key, and the name of a bucket, the addresses are read back, the bodies arrive as they are sent, in
-- whatever chunks, and an answer is that of the handler. Requests and answers may be lost.
pub record Routed {H E : Type 0} (host : Host H) (web : Web E) (storage : FsStorage)
    (bucket key : Bytes) (browser : Browser World) : Type 0 where
  pub addressable : Addressable key
  pub chunks : Bytes → StreamingBlob E
  pub chunks_lem : (b : Bytes) → content_of (body_to_stream (chunks b)) ≡ b
  pub answered :
      (q : Query) (payload : Option Payload) (w : World) {r : Fetched}
      → Sendable q
      → (browser.fetch (request_url bucket key q) payload w).0 ≡ some r
      → let h =
          upload_handler host web storage bucket key
            (params_of q)
            (header_of payload)
            (chunks (payload_bytes payload))
            w in
        ((browser.fetch (request_url bucket key q) payload w).1 ≡ h.1)
        × (r.ok_status ≡ is_success h.0.status)
        × (r.text ≡ some h.0.body)
  pub json_lem : (k : ℕ) → k < 2 ^ 31 → web.from_slice (parts_json (numbers k)) ≡ ok (numbers k)

fetched-ok :
    (o : Option Fetched) {t : Bytes}
    → fetched o ≡ ok t
    → (r : Fetched) × (o ≡ some r) × (r.ok_status ≡ true) × (r.text ≡ some t)
fetched-ok none h = absurd cc
fetched-ok (some r) h = (r, refl, ground arith, text_there r.ok_status r.text h)
  where
    text_there :
        (b : Bool) (t : Option Bytes) {x : Bytes}
        → (if b then body_text t else err tt) ≡ ok x
        → t ≡ some x
    text_there true none e = absurd cc
    text_there true (some t) e = cc
    text_there false t e = absurd cc

module _ {H E : Type 0} (host : Host H) (web : Web E) (storage : FsStorage) where
  -- A success is the answer of an operation that succeeded.
  pub answer-ok :
      {A : Type 0} (m : Fs A) (f : A → Response) (w : World)
      → let h = answer m f (refused host web storage) w in
        is_success h.0.status ≡ true → (a : A) × ((m w).0 ≡ ok a) × (h ≡ (f a, (m w).1))
  unfolding answer
  answer-ok {A} m f w h = decided (m w).0 (m w).1 h
    where
      decided :
          (r : Outcome StorageError A) (w' : World)
          → is_success (respond f (refused host web storage) r).status ≡ true
          → (a : A) × (r ≡ ok a)
            × ◌≡◌ {A = Response × World} (respond f (refused host web storage) r, w') (f a, w')
      decided (ok a) w' e = (a, refl, refl)
      decided (err e) w' s = absurd (ground arith)

  module _ (bucket key : Bytes) (browser : Browser World)
      (routed : Routed host web storage bucket key browser) where
    abbrev pub handled : Query → Option Payload → World → Response × World
    handled q payload w =
        upload_handler host web storage bucket key (params_of q) (header_of payload)
          (routed.chunks (payload_bytes payload)) w

    pub post_text-ok :
        (q : Query) (payload : Option Payload) (w : World) {t : Bytes}
        → Sendable q
        → (post_text browser (request_url bucket key q) payload w).0 ≡ ok t
        → ((post_text browser (request_url bucket key q) payload w).1 ≡ (handled q payload w).1)
          × (is_success (handled q payload w).0.status ≡ true)
          × (t ≡ (handled q payload w).0.body)
    unfolding post_text
    post_text-ok q payload w sendable h =
        let (r, answer_came, good, there) = fetched-ok _ h in
        let (same, status, body) = routed.answered q payload w sendable answer_came in
        (same, sym status ∙ good, cc)

    pub post_blob-ok :
        (q : Query) (chunk : Bytes) (w : World) {t : Bytes}
        → Sendable q
        → (post_blob browser chunk (request_url bucket key q) w).0 ≡ ok t
        → ((post_blob browser chunk (request_url bucket key q) w).1
            ≡ (handled q (some (blob chunk)) w).1)
          × (is_success (handled q (some (blob chunk)) w).0.status ≡ true)
    unfolding post_blob post_text
    post_blob-ok q chunk w sendable h =
        let (same, good, body) = post_text-ok q (some (blob chunk)) w sendable h in (same, good)
