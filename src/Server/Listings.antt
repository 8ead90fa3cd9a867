-- ===== src/Server/Listings.antt =====
-- crates/server/src/s3_impl.rs: the handler of ListObjectsV2.
pub mod KeyCount
use ferrobucket.Base.{ℕ, ◌+◌, Bool, Option, none, some, List, [], ◌∷◌, map, length}
use ferrobucket.Base.Text.{Bytes}
use ferrobucket.Base.Int.{ℤ}
use ferrobucket.Act.{World, pure, map_err, ◌>>=◌, ◌>>◌}
use ferrobucket.Meta.{ObjectMeta}
use ferrobucket.Host.{Host}
use ferrobucket.Layout.{FsStorage}
use ferrobucket.Listing.Page.{ListV2Req}
use ferrobucket.Storage.Listings
use ferrobucket.Storage.Listings.{ListV2Res}
use ferrobucket.Server.{S3, S3Response, new}
use ferrobucket.Server.Errors.{map_storage_err}
use ferrobucket.Server.Convert.{
  ETag, strong, to_s3_timestamp, as_i64, as_i32, as_usize, unless_empty,
}
use mathlib.Core.Option

pub record ListObjectsV2Input : Type 0 where
  pub bucket : Bytes
  pub prefix : Option Bytes
  pub delimiter : Option Bytes
  pub max_keys : Option ℤ
  pub continuation_token : Option Bytes

pub record Object : Type 0 where
  pub key : Option Bytes
  pub size : Option ℤ
  pub e_tag : Option ETag
  pub last_modified : Option ℕ

pub record ListObjectsV2Output : Type 0 where
  pub contents : Option (List Object)
  pub common_prefixes : Option (List Bytes)
  pub is_truncated : Option Bool
  pub next_continuation_token : Option Bytes
  pub key_count : Option ℤ
  pub name : Option Bytes

unfoldable pub list_req : ListObjectsV2Input → ListV2Req
list_req input = record {
  prefix = input.prefix;
  delimiter = input.delimiter;
  continuation_token = input.continuation_token;
  max_keys = Option.map as_usize input.max_keys;
}

abbrev pub object_entry : ObjectMeta → Object
object_entry o = record {
  key = some o.key;
  size = some (as_i64 o.size);
  e_tag = some (strong o.etag);
  last_modified = some (to_s3_timestamp o.last_modified);
}

-- An empty list is left out of the answer.
unfoldable pub list_output : Bytes → ListV2Res → ListObjectsV2Output
list_output bucket res = record {
  contents = unless_empty (map object_entry res.objects);
  common_prefixes = unless_empty res.common_prefixes;
  is_truncated = some res.is_truncated;
  next_continuation_token = res.next_continuation_token;
  key_count = some (as_i32 (length res.objects + length res.common_prefixes));
  name = some bucket;
}

module _ {H : Type 0} (host : Host H) (storage : FsStorage) where
  unfoldable pub list_objects_v2 : ListObjectsV2Input → S3 ListObjectsV2Output
  list_objects_v2 input = do
    res ←
        map_err map_storage_err
          (Listings.list_objects_v2 host storage input.bucket (list_req input))
    pure (new (list_output input.bucket res))
