-- ===== src/Server/Buckets.antt =====
-- crates/server/src/s3_impl.rs: the handlers on buckets.
use ferrobucket.Base.{ℕ, Bool, false, Option, some, List, [], ◌∷◌, map, ◌||◌, if◌then◌else◌}
use ferrobucket.Base.Text.{Bytes, str_eq}
use ferrobucket.Act.{pure, fail, map_err, ◌>>=◌, ◌>>◌}
use ferrobucket.Meta.{BucketInfo}
use ferrobucket.Host.{Host}
use ferrobucket.Layout.{FsStorage}
use ferrobucket.Storage.Buckets
use ferrobucket.Server.{S3, new}
use ferrobucket.Server.Errors.{map_storage_err, s3_error, code_no_such_bucket}
use ferrobucket.Server.Convert.{to_s3_timestamp}

pub record Bucket : Type 0 where
  pub name : Option Bytes
  pub creation_date : Option ℕ

pub record ListBucketsOutput : Type 0 where
  pub buckets : Option (List Bucket)

unfoldable pub any_named : Bytes → List BucketInfo → Bool
any_named bucket [] = false
any_named bucket (b ∷ infos) = str_eq b.name bucket || any_named bucket infos

module _ {H : Type 0} (host : Host H) (storage : FsStorage) where
  unfoldable pub create_bucket : Bytes → S3 (Unit {0})
  create_bucket bucket = do
    map_err map_storage_err (Buckets.create_bucket host storage bucket)
    pure (new tt)

  unfoldable pub delete_bucket : Bytes → S3 (Unit {0})
  delete_bucket bucket = do
    map_err map_storage_err (Buckets.delete_bucket host storage bucket)
    pure (new tt)

  unfoldable pub list_buckets : S3 ListBucketsOutput
  list_buckets = do
    infos ← map_err map_storage_err (Buckets.list_buckets host storage)
    pure (
        new (record {
          buckets = some (
              map
                (λ b. record {
                  name = some b.name;
                  creation_date = some (to_s3_timestamp b.created_at);
                })
                infos);
        }))

  -- Existence is looked up in the list of all buckets.
  unfoldable pub head_bucket : Bytes → S3 (Unit {0})
  head_bucket bucket = do
    infos ← map_err map_storage_err (Buckets.list_buckets host storage)
    if any_named bucket infos then pure (new tt) else fail (s3_error code_no_such_bucket)
