-- ===== src/Server/Uploads.antt =====
-- crates/server/src/s3_impl.rs: the handlers on multipart uploads.
use ferrobucket.Base.{Option, none, some, List, [], ◌∷◌, ◌++◌}
use ferrobucket.Base.Text.{Bytes}
use ferrobucket.Base.Int.{ℤ}
use ferrobucket.Act.{pure, lift, map_err, ◌>>=◌, ◌>>◌}
use ferrobucket.Host.{Host}
use ferrobucket.Layout.{FsStorage}
use ferrobucket.Storage.Uploads
use ferrobucket.Server.{S3, new}
use ferrobucket.Server.Errors.{map_storage_err}
use ferrobucket.Server.Convert.{ETag, strong, StreamingBlob, body_to_stream}
use ferrobucket.Server.Objects.{blob_of}
use mathlib.Core.Option

pub record CreateMultipartUploadOutput : Type 0 where
  pub bucket : Option Bytes
  pub key : Option Bytes
  pub upload_id : Option Bytes

pub record UploadPartOutput : Type 0 where
  pub e_tag : Option ETag

pub record CompleteMultipartUploadOutput : Type 0 where
  pub bucket : Option Bytes
  pub key : Option Bytes
  pub e_tag : Option ETag
  pub location : Option Bytes

-- `filter_map(|p| p.part_number)`: a part without a number is left out.
unfoldable pub part_numbers : List (Option ℤ) → List ℤ
part_numbers [] = []
part_numbers (none ∷ parts) = part_numbers parts
part_numbers (some n ∷ parts) = n ∷ part_numbers parts

module _ {H : Type 0} (host : Host H) (storage : FsStorage) where
  unfoldable pub create_multipart_upload :
      Bytes → Bytes → Option Bytes → S3 CreateMultipartUploadOutput
  create_multipart_upload bucket key content_type = do
    upload_id ←
        map_err map_storage_err
          (Uploads.create_multipart_upload host storage bucket key content_type)
    pure (new (record { bucket = some bucket; key = some key; upload_id = some upload_id }))

  unfoldable pub upload_part :
      {E : Type 0} → Bytes → Bytes → ℤ → Option (StreamingBlob E) → S3 UploadPartOutput
  upload_part bucket upload_id part_number body = do
    blob ← lift (blob_of body)
    etag ←
        map_err map_storage_err
          (Uploads.upload_part host storage upload_id part_number (body_to_stream blob))
    pure (new (record { e_tag = some (strong etag) }))

  -- `multipart_upload` holds the part numbers of its parts, if it has any.
  unfoldable pub complete_multipart_upload :
      Bytes → Bytes → Bytes → Option (Option (List (Option ℤ))) → S3 CompleteMultipartUploadOutput
  complete_multipart_upload bucket key upload_id multipart_upload = do
    let parts = part_numbers (Option.get_or (Option.get_or multipart_upload none) [])
    meta ←
        map_err map_storage_err (Uploads.complete_multipart_upload host storage key upload_id parts)
    pure (
        new (record {
          bucket = some bucket;
          key = some key;
          e_tag = some (strong meta.etag);
          location = some (b'/' ∷ (bucket ++ b'/' ∷ key));
        }))

  unfoldable pub abort_multipart_upload : Bytes → Bytes → S3 (Unit {0})
  abort_multipart_upload bucket upload_id = do
    map_err map_storage_err (Uploads.abort_multipart_upload host storage upload_id)
    pure (new tt)
