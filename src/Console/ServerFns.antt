-- ===== src/Console/ServerFns.antt =====
-- crates/ui/src/server_fns/{buckets,objects,presign,settings}.rs: what the pages of the console ask
-- the server. An error of the storage layer is passed on as its text.
pub mod Counts
pub mod Probe
use ferrobucket.Base.{
  ℕ, ◌+◌, ◌%◌, ◌^◌, Bool, true, false, Option, none, some, List, [], ◌∷◌, ◌++◌, map, length, drop,
  if◌then◌else◌,
}
use mathlib.Core.Option as Option
use ferrobucket.Base.Text.{Bytes, codes, starts_with}
use ferrobucket.Error.{Outcome, ok, err, StorageError, IoError}
use ferrobucket.FilePath.{FilePath, join, display}
use ferrobucket.Disk.Calls.{remove_file}
use ferrobucket.Persist.Partial.{write}
use ferrobucket.Act.{Act, pure, attempt, ignore, map_err, ◌>>=◌, ◌>>◌, call}
use ferrobucket.Meta.{ObjectMeta, BucketInfo}
use ferrobucket.Host.{Host}
use ferrobucket.Layout.{FsStorage}
use ferrobucket.Listing.Page.{ListV2Req}
use ferrobucket.Presign.{presign_url, Crypto}
use ferrobucket.Server.Errors.{error_text}
use ferrobucket.Storage.Buckets as Buckets
use ferrobucket.Storage.Objects as Objects
use ferrobucket.Storage.Listings.{list_objects_v2, ListV2Res}

pub record AppState : Type 0 where
  pub storage : FsStorage
  pub endpoint : Bytes
  pub region : Bytes
  pub access_key_id : Option Bytes
  pub secret_key : Bytes
  pub data_root : FilePath
  pub anonymous : Bool

pub record BucketRow : Type 0 where
  pub name : Bytes
  pub created : Bytes
  pub object_count : ℕ
  pub total_size : ℕ

pub record ObjectRow : Type 0 where
  pub key : Bytes
  pub size : ℕ
  pub last_modified : Bytes
  pub is_folder : Bool

pub record ObjectListing : Type 0 where
  pub folders : List Bytes
  pub objects : List ObjectRow
  pub next_token : Option Bytes
  pub prefix : Bytes

pub record ObjectDetail : Type 0 where
  pub key : Bytes
  pub size : ℕ
  pub content_type : Bytes
  pub etag : Bytes
  pub last_modified : Bytes

pub record ConnectionInfo : Type 0 where
  pub endpoint : Bytes
  pub region : Bytes
  pub access_key_id : Option Bytes
  pub force_path_style : Bool
  pub data_dir : Bytes

pub record StatusInfo : Type 0 where
  pub writable : Bool
  pub message : Bytes

abbrev pub flat_req : ListV2Req
flat_req = record { prefix = none; delimiter = none; continuation_token = none; max_keys = none }

-- The sum of u64 sizes, which wraps.
abbrev pub size_sum : List ObjectMeta → ℕ
size_sum [] = 0
size_sum (o ∷ objects) = (o.size + size_sum objects) % 2 ^ 64

abbrev pub build_connection_info : AppState → ConnectionInfo
build_connection_info state = record {
  endpoint = state.endpoint;
  region = state.region;
  access_key_id = state.access_key_id;
  force_path_style = true;
  data_dir = display state.data_root;
}

-- The time of a record, printed by the time crate.
module _ {H : Type 0} (host : Host H) (rfc3339 : ℕ → Bytes) (state : AppState) where
  abbrev pub as_text : StorageError → Bytes
  as_text = error_text host.io_text

  abbrev pub bucket_row : BucketInfo → ListV2Res → BucketRow
  bucket_row bucket listing = record {
    name = bucket.name;
    created = rfc3339 bucket.created_at;
    object_count = length listing.objects;
    total_size = size_sum listing.objects;
  }

  unfoldable pub bucket_rows : List BucketInfo → Act Bytes (List BucketRow)
  bucket_rows [] = pure []
  bucket_rows (bucket ∷ buckets) = do
    listing ← map_err as_text (list_objects_v2 host state.storage bucket.name flat_req)
    rows ← bucket_rows buckets
    pure (bucket_row bucket listing ∷ rows)

  unfoldable pub list_buckets_fn : Act Bytes (List BucketRow)
  list_buckets_fn = do
    buckets ← map_err as_text (Buckets.list_buckets host state.storage)
    bucket_rows buckets

  abbrev pub create_bucket_fn : Bytes → Act Bytes (Unit {0})
  create_bucket_fn name = map_err as_text (Buckets.create_bucket host state.storage name)

  abbrev pub delete_bucket_fn : Bytes → Act Bytes (Unit {0})
  delete_bucket_fn name = map_err as_text (Buckets.delete_bucket host state.storage name)

  abbrev pub object_row : ObjectMeta → ObjectRow
  object_row o = record {
    key = o.key;
    size = o.size;
    last_modified = rfc3339 o.last_modified;
    is_folder = false;
  }

  abbrev pub folder_req : Option Bytes → Option Bytes → ListV2Req
  folder_req prefix token = record {
    prefix = prefix;
    delimiter = some (codes "/");
    continuation_token = token;
    max_keys = none;
  }

  unfoldable pub list_objects_fn : Bytes → Option Bytes → Option Bytes → Act Bytes ObjectListing
  list_objects_fn bucket prefix token = do
    res ← map_err as_text (list_objects_v2 host state.storage bucket (folder_req prefix token))
    pure (record {
      folders = res.common_prefixes;
      objects = map object_row res.objects;
      next_token = res.next_continuation_token;
      prefix = Option.get_or prefix [];
    })

  unfoldable pub head_object_fn : Bytes → Bytes → Act Bytes ObjectDetail
  head_object_fn bucket key = do
    meta ← map_err as_text (Objects.head_object host state.storage bucket key)
    pure (record {
      key = meta.key;
      size = meta.size;
      content_type = meta.content_type;
      etag = meta.etag;
      last_modified = rfc3339 meta.last_modified;
    })

  abbrev pub delete_object_fn : Bytes → Bytes → Act Bytes (Unit {0})
  delete_object_fn bucket key =
      map_err as_text (Objects.delete_object host state.storage bucket key)

-- The request is signed for the host that the server listens on, without the scheme.
abbrev pub host_of : Bytes → Bytes
host_of endpoint =
    if starts_with endpoint (codes "https://")
    then drop 8 endpoint
    else if starts_with endpoint (codes "http://")
    then drop 7 endpoint
    else endpoint

abbrev pub healthy : StatusInfo
healthy = record {
  writable = true;
  message = codes "Server up " ++ (226 ∷ 128 ∷ 148 ∷ codes " data directory present and writable");
}

abbrev pub unhealthy : StatusInfo
unhealthy = record { writable = false; message = codes "Data directory not writable" }

module _ (state : AppState) where
  abbrev pub presign_fn : Crypto → ℕ → Bytes → Bytes → Bytes
  presign_fn crypto now bucket key =
      presign_url crypto now (codes "GET") (host_of state.endpoint) (b'/' ∷ (bucket ++ b'/' ∷ key))
        900 (Option.get_or state.access_key_id []) state.secret_key state.region

  abbrev pub probe_path : FilePath
  probe_path = join state.data_root (codes ".ferrobucket-writable-probe")

  module _ {H : Type 0} (host : Host H) where
    abbrev pub probed : Outcome IoError (Unit {0}) → Act Bytes StatusInfo
    probed (ok _) = do removed ← attempt (call host.fails (remove_file probe_path)); pure healthy
    probed (err _) = pure unhealthy

    unfoldable pub probe_writable : Act Bytes StatusInfo
    probe_writable = do written ← attempt (write host probe_path (codes "probe")); probed written
