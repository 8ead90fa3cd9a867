-- ===== src/Server/Objects.antt =====
-- crates/server/src/s3_impl.rs: the handlers on objects.
pub mod Response
pub mod DeleteMany
use ferrobucket.Base.{
  ℕ, ◌+◌, ◌-◌, Bool, true, false, Option, none, some, List, [], ◌∷◌, ◌++◌, ltb, if◌then◌else◌,
}
use ferrobucket.Base.Text.{Bytes, codes}
use ferrobucket.Base.Int.{ℤ}
use ferrobucket.Base.Decimal.{show}
use ferrobucket.Error.{Outcome, ok, err, StorageError, no_such_key}
use ferrobucket.Act.{World, Act, pure, lift, attempt, map_err, ◌>>=◌, ◌>>◌}
use ferrobucket.Meta.{ObjectMeta}
use ferrobucket.Host.{Host}
use ferrobucket.Range.{ResolvedRange, resolve}
use ferrobucket.Layout.{FsStorage}
use ferrobucket.Storage.Objects
use ferrobucket.Server.{S3, S3Response, new, with_status}
use ferrobucket.Server.Errors.{
  S3Error, map_storage_err, s3_error_with, code_invalid_request, error_text,
}
use ferrobucket.Server.Convert.{
  ETag, strong, Range, s3_range_to_byte_range, StreamingBlob, body_to_stream, to_s3_timestamp,
  as_i64, unless_empty,
}
use mathlib.Core.Option

pub record PutObjectInput (E : Type 0) : Type 0 where
  pub bucket : Bytes
  pub key : Bytes
  pub body : Option (StreamingBlob E)
  pub content_type : Option Bytes

pub record PutObjectOutput : Type 0 where
  pub e_tag : Option ETag

pub record GetObjectOutput : Type 0 where
  pub body : Option Bytes
  pub e_tag : Option ETag
  pub content_type : Option Bytes
  pub content_length : Option ℤ
  pub last_modified : Option ℕ
  pub accept_ranges : Option Bytes
  pub content_range : Option Bytes

pub record HeadObjectOutput : Type 0 where
  pub e_tag : Option ETag
  pub content_type : Option Bytes
  pub content_length : Option ℤ
  pub last_modified : Option ℕ

-- An entry of the error list of DeleteObjects.
pub record DeleteError : Type 0 where
  pub code : Bytes
  pub key : Bytes
  pub message : Bytes

pub record DeleteObjectsOutput : Type 0 where
  pub deleted : Option (List Bytes)
  pub errors : Option (List DeleteError)

-- `ok_or_else` on the body of a request
abbrev pub blob_of : {E : Type 0} → Option (StreamingBlob E) → Outcome S3Error (StreamingBlob E)
blob_of none = err (s3_error_with code_invalid_request (codes "missing body"))
blob_of (some blob) = ok blob

-- `bytes {start}-{end}/{full_size}`; only for a window that is not empty.
unfoldable pub content_range_of : ResolvedRange → ℕ → Bytes
content_range_of resolved full_size =
    codes "bytes "
    ++ (show resolved.start
        ++ b'-' ∷ (show (resolved.start + (resolved.length - 1)) ++ b'/' ∷ show full_size))

-- The headers of an answer with the whole object.
abbrev pub full_output : ObjectMeta → Bytes → GetObjectOutput
full_output meta blob = record {
  body = some blob;
  e_tag = some (strong meta.etag);
  content_type = some meta.content_type;
  content_length = some (as_i64 meta.size);
  last_modified = some (to_s3_timestamp meta.last_modified);
  accept_ranges = some (codes "bytes");
  content_range = none;
}

abbrev pub window_response : GetObjectOutput → ℕ → Option ResolvedRange → S3Response GetObjectOutput
window_response output full_size none = new output
window_response output full_size (some resolved) =
    if ltb 0 resolved.length
    then with_status
        (record output {
          content_range = some (content_range_of resolved full_size);
          content_length = some (as_i64 resolved.length);
        })
        206
    else new output

-- The answer to GetObject, from what the storage layer gave back.
unfoldable pub get_response : Option Range → ObjectMeta × Bytes → S3Response GetObjectOutput
get_response none (meta, stream) = new (full_output meta stream)
get_response (some r) (meta, stream) =
    window_response (full_output meta stream) meta.size
      (resolve (s3_range_to_byte_range r) meta.size)

-- A key that was not there counts as deleted.
abbrev pub failure_of : Outcome StorageError (Unit {0}) → Option StorageError
failure_of (ok _) = none
failure_of (err (no_such_key _)) = none
failure_of (err e) = some e

-- `if !quiet { deleted.push(key) }`
abbrev pub noted : Bool → List Bytes → Bytes → List Bytes
noted true deleted key = deleted
noted false deleted key = deleted ++ key ∷ []

module _ {H : Type 0} (host : Host H) (storage : FsStorage) where
  unfoldable pub put_object : {E : Type 0} → PutObjectInput E → S3 PutObjectOutput
  put_object input = do
    blob ← lift (blob_of input.body)
    meta ← map_err map_storage_err (
        Objects.put_object host storage input.bucket input.key (body_to_stream blob)
          input.content_type)
    pure (new (record { e_tag = some (strong meta.etag) }))

  unfoldable pub get_object : Bytes → Bytes → Option Range → S3 GetObjectOutput
  get_object bucket key range = do
    found ←
        map_err map_storage_err
          (Objects.get_object host storage bucket key (Option.map s3_range_to_byte_range range))
    pure (get_response range found)

  unfoldable pub head_object : Bytes → Bytes → S3 HeadObjectOutput
  head_object bucket key = do
    meta ← map_err map_storage_err (Objects.head_object host storage bucket key)
    pure (
        new (record {
          e_tag = some (strong meta.etag);
          content_type = some meta.content_type;
          content_length = some (as_i64 meta.size);
          last_modified = some (to_s3_timestamp meta.last_modified);
        }))

  unfoldable pub delete_object : Bytes → Bytes → S3 (Unit {0})
  delete_object bucket key = do
    map_err map_storage_err (Objects.delete_object host storage bucket key)
    pure (new tt)

  abbrev pub delete_error : Bytes → StorageError → DeleteError
  delete_error key e = record {
    code = codes "InternalError";
    key = key;
    message = error_text host.io_text e;
  }

  -- The loop of DeleteObjects: no failure ends it.
  unfoldable pub delete_each :
      Bytes
      → Bool
      → List Bytes
      → List DeleteError
      → List Bytes
      → Act S3Error (List Bytes × List DeleteError)
  delete_each bucket quiet deleted errors [] = pure (deleted, errors)
  delete_each bucket quiet deleted errors (key ∷ keys) = do
    removed ← attempt (Objects.delete_object host storage bucket key)
    elim (failure_of removed) [
      | none ↦ delete_each bucket quiet (noted quiet deleted key) errors keys
      | some e ↦ delete_each bucket quiet deleted (errors ++ delete_error key e ∷ []) keys
    ]

  unfoldable pub delete_objects : Bytes → Option Bool → List Bytes → S3 DeleteObjectsOutput
  delete_objects bucket quiet objects = do
    done ← delete_each bucket (Option.get_or quiet false) [] [] objects
    pure (new (record { deleted = unless_empty done.0; errors = unless_empty done.1 }))
