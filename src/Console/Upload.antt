-- ===== src/Console/Upload.antt =====
-- crates/server/src/ui/upload.rs: the upload route.
use ferrobucket.Base.{ℕ, ◌*◌, ◌≡◌, Option, none, some, List, [], ◌++◌, if◌then◌else◌}
use ferrobucket.Base.Text.{Bytes, codes, str_eq}
use ferrobucket.Base.Int.{ℤ}
use ferrobucket.Error.{Outcome, ok, err, StorageError}
use ferrobucket.Host.{Host}
use ferrobucket.Layout.{FsStorage}
use ferrobucket.Persist.Body.{content_of}
use ferrobucket.Storage.Objects
use ferrobucket.Storage.Uploads
use ferrobucket.Server.Errors.{error_text}
use ferrobucket.Server.Convert.{StreamingBlob, body_to_stream}
use ferrobucket.Console.{Response, Handler, text_response, status_ok, bad_request, answer}
use ferrobucket.Console.ContentType.{resolve_content_type}

-- What the handler takes from outside: `axum::body::to_bytes`, which collects a body up to a limit,
-- and `serde_json::from_slice` at a list of `i32`; the errors are their texts.
pub record Web (E : Type 0) : Type 0 where
  pub to_bytes : StreamingBlob E → ℕ → Outcome Bytes Bytes
  pub from_slice : Bytes → Outcome Bytes (List ℤ)
  pub to_bytes_lem :
      (body : StreamingBlob E) (limit : ℕ) {content : Bytes}
      → to_bytes body limit ≡ ok content
      → content_of (body_to_stream body) ≡ content

pub record UploadParams : Type 0 where
  pub upload_id : Option Bytes
  pub part_number : Option ℤ
  pub action : Option Bytes

-- The arms of the `match`, in its order.
pub data Arm : Type 0 where
  create complete abort : Arm
  part : Bytes → ℤ → Arm
  single : Arm

abbrev pub part_or_single : Option Bytes → Option ℤ → Arm
part_or_single (some upload_id) (some part_number) = part upload_id part_number
part_or_single (some upload_id) none = single
part_or_single none number = single

unfoldable pub arm_of : UploadParams → Arm
arm_of params = elim params.action [
  | none ↦ part_or_single params.upload_id params.part_number
  | some action ↦
      (if str_eq action (codes "create")
        then create
        else if str_eq action (codes "complete")
        then complete
        else if str_eq action (codes "abort")
        then abort
        else part_or_single params.upload_id params.part_number)
]

abbrev pub missing_upload_id : Response
missing_upload_id = text_response bad_request (codes "missing uploadId")

module _ {H E : Type 0} (host : Host H) (web : Web E) (storage : FsStorage) where
  -- `(StatusCode::BAD_REQUEST, e.to_string())`
  abbrev pub refused : StorageError → Response
  refused e = text_response bad_request (error_text host.io_text e)

  abbrev pub reply : Response → Handler Response
  reply r w = (r, w)

  abbrev pub parsed_parts : Outcome Bytes (List ℤ) → Outcome Response (List ℤ)
  parsed_parts (err e) = err (text_response bad_request (codes "invalid parts JSON: " ++ e))
  parsed_parts (ok parts) = ok parts

  abbrev pub read_parts : Outcome Bytes Bytes → Outcome Response (List ℤ)
  read_parts (err e) = err (text_response bad_request (codes "failed to read body: " ++ e))
  read_parts (ok bytes) = parsed_parts (web.from_slice bytes)

  -- The body of a completion is a JSON array of part numbers.
  unfoldable pub parts_of : StreamingBlob E → Outcome Response (List ℤ)
  parts_of body = read_parts (web.to_bytes body (1024 * 1024))

  abbrev pub complete_with : Bytes → Bytes → Outcome Response (List ℤ) → Handler Response
  complete_with key upload_id (err r) = reply r
  complete_with key upload_id (ok parts) =
      answer (Uploads.complete_multipart_upload host storage key upload_id parts)
        (λ meta. text_response status_ok []) refused

  abbrev pub complete_upload : Bytes → Option Bytes → StreamingBlob E → Handler Response
  complete_upload key none body = reply missing_upload_id
  complete_upload key (some upload_id) body = complete_with key upload_id (parts_of body)

  abbrev pub abort_upload : Option Bytes → Handler Response
  abort_upload none = reply missing_upload_id
  abort_upload (some upload_id) =
      answer (Uploads.abort_multipart_upload host storage upload_id)
        (λ _. text_response status_ok []) refused

  unfoldable pub dispatch :
      Arm → Bytes → Bytes → UploadParams → Option Bytes → StreamingBlob E → Handler Response
  unfolding parts_of
  dispatch create bucket key params header body =
      answer
        (Uploads.create_multipart_upload host storage bucket key (resolve_content_type key header))
        (λ upload_id. text_response status_ok upload_id) refused
  dispatch complete bucket key params header body = complete_upload key params.upload_id body
  dispatch abort bucket key params header body = abort_upload params.upload_id
  dispatch (part upload_id part_number) bucket key params header body =
      answer (Uploads.upload_part host storage upload_id part_number (body_to_stream body))
        (λ etag. record { status = status_ok; etag = some etag; body = [] }) refused
  dispatch single bucket key params header body =
      answer
        (Objects.put_object host storage bucket key (body_to_stream body)
          (resolve_content_type key header))
        (λ meta. text_response status_ok []) refused

  unfoldable pub upload_handler :
      Bytes → Bytes → UploadParams → Option Bytes → StreamingBlob E → Handler Response
  upload_handler bucket key params header body =
      dispatch (arm_of params) bucket key params header body
