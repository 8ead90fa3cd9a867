-- ===== src/Storage/Listings.antt =====
-- crates/storage/src/list.rs, fs.rs: ListObjectsV2 over the files of a bucket.
pub mod Cap
pub mod Decoded
pub mod Found
use ferrobucket.Base.{Bool, not, Option, List, [], ◌∷◌, ◌++◌, if◌then◌else◌}
use ferrobucket.Base.Text.{Bytes, codes, str_lt}
use ferrobucket.Base.Sort.{sort}
use ferrobucket.Error.{ok, err, no_such_bucket}
use ferrobucket.FilePath.{FilePath, join}
use ferrobucket.Disk.Calls.{read_dir}
use ferrobucket.Act.{Fs, pure, fail, lift, attempt, ◌>>=◌, ◌>>◌, call}
use ferrobucket.Meta.{ObjectMeta}
use ferrobucket.Host.{Host}
use ferrobucket.Encode.{encode_key, decode_key}
use ferrobucket.Listing.{Item, object, common_prefix}
use ferrobucket.Listing.Page.{ListV2Req, list_page}
use ferrobucket.Bucket.{validate_bucket_name}
use ferrobucket.Layout.{FsStorage, bucket_path, objects_dir, meta_dir}
use ferrobucket.Persist.{read_sidecar}
use ferrobucket.Storage.{exists}
use ferrobucket.Storage.Buckets.{absent_as}

pub record ListV2Res : Type 0 where
  pub objects : List ObjectMeta
  pub common_prefixes : List Bytes
  pub next_continuation_token : Option Bytes
  pub is_truncated : Bool

module _ {H : Type 0} (host : Host H) where
  -- File names that do not decode are skipped.
  unfoldable pub decode_names : List Bytes → List Bytes
  decode_names [] = []
  decode_names (fname ∷ names) =
      let rest = decode_names names in
      elim (decode_key host.percent (host.to_string_lossy fname)) [
        | ok key ↦ key ∷ rest
        | err e ↦ rest
      ]

  -- The objects and the common prefixes among the items, in their order.
  unfoldable pub resolve_items : FilePath → List Item → Fs (List ObjectMeta × List Bytes)
  resolve_items dir [] = pure ([], [])
  resolve_items dir (object key ∷ items) = do
    encoded ← lift (encode_key host.percent key)
    meta ← read_sidecar host (join dir (encoded ++ codes ".json"))
    rest ← resolve_items dir items
    pure (meta ∷ rest.0, rest.1)
  resolve_items dir (common_prefix cp ∷ items) = do
    rest ← resolve_items dir items
    pure (rest.0, cp ∷ rest.1)

  module _ (self : FsStorage) where
    unfoldable pub list_keys : Bytes → ListV2Req → Fs ListV2Res
    list_keys bucket req = do
      listed ← attempt (call host.fails (read_dir (objects_dir self bucket)))
      names ← absent_as [] listed
      page ← lift (list_page host.base64 (decode_names names) req)
      found ← resolve_items (meta_dir self bucket) page.items
      pure (record {
        objects = found.0;
        common_prefixes = sort str_lt found.1;
        next_continuation_token = page.next_continuation_token;
        is_truncated = page.is_truncated;
      })

    unfoldable pub list_objects_v2 : Bytes → ListV2Req → Fs ListV2Res
    list_objects_v2 bucket req = do
      lift (validate_bucket_name bucket)
      there ← exists host (bucket_path self bucket)
      if not there then fail (no_such_bucket bucket) else list_keys bucket req
