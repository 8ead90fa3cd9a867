-- ===== src/Storage/Objects.antt =====
-- crates/storage/src/fs.rs: the object operations.
pub mod Put
pub mod Delete
pub mod Gone
pub mod RoundTrip
use mathlib.Core.Option
use ferrobucket.Base.{
  ℕ, Bool, true, false, not, Option, none, some, List, [], ◌∷◌, take, drop, if◌then◌else◌,
}
use ferrobucket.Base.Text.{Bytes, codes}
use ferrobucket.Error.{
  Outcome, ok, err, IoError, not_found, StorageError, io, no_such_bucket, no_such_key,
  range_not_satisfiable, ok_or,
}
use ferrobucket.FilePath.{FilePath, display}
use ferrobucket.Disk.Calls.{read, remove_file}
use ferrobucket.Act.{World, Fs, pure, fail, lift, attempt, map_err, ◌>>=◌, ◌>>◌, call, call_io}
use ferrobucket.Meta.{ObjectMeta}
use ferrobucket.Host.{Host}
use ferrobucket.Encode.{encode_key}
use ferrobucket.Range.{ByteRange, ResolvedRange, resolve}
use ferrobucket.Bucket.{validate_bucket_name}
use ferrobucket.Layout.{FsStorage, bucket_path, objects_dir, object_path, meta_path}
use ferrobucket.Persist.{Body, flush, write_object_body, write_sidecar, read_sidecar, not_found_as}
use ferrobucket.Storage.{exists}
use ferrobucket.Storage.Buckets.{absent_as}

abbrev pub default_content_type : Bytes
default_content_type = codes "application/octet-stream"

module _ {H : Type 0} (host : Host H) where
  -- The metadata of a new object; the clock is read here.
  abbrev pub object_meta : Bytes → Option Bytes → Bytes × ℕ → Fs ObjectMeta
  object_meta key content_type r w = (
    ok (record {
      key = key;
      size = r.1;
      content_type = Option.get_or content_type default_content_type;
      etag = r.0;
      last_modified = host.now_utc w.calls;
    }),
    w,
  )

  -- A body that is read from an open file: all of it, as the file is when it is opened.
  unfoldable pub stream_object : FilePath → Fs Bytes
  stream_object path =
      map_err (not_found_as (no_such_key (display path))) (call host.fails (read path))

  -- `seek` changes nothing on the disk.
  unfoldable pub stream_range : Bytes → FilePath → ResolvedRange → Fs Bytes
  stream_range key path resolved = do
    content ← map_err (not_found_as (no_such_key key)) (call host.fails (read path))
    call_io host.fails flush
    pure (take resolved.length (drop resolved.start content))

  module _ (self : FsStorage) where
    unfoldable pub put_object : Bytes → Bytes → Body → Option Bytes → Fs ObjectMeta
    put_object bucket key body content_type = do
      lift (validate_bucket_name bucket)
      there ← exists host (bucket_path self bucket)
      if not there then fail (no_such_bucket bucket) else do
        encoded_key ← lift (encode_key host.percent key)
        written ←
            write_object_body host (objects_dir self bucket) (object_path self bucket encoded_key)
              body
        meta ← object_meta key content_type written
        write_sidecar host (meta_path self bucket encoded_key) meta
        pure meta

    unfoldable pub body_of : Bytes → Bytes → Bytes → ObjectMeta → Option ByteRange → Fs Bytes
    body_of bucket key encoded_key meta none = stream_object (object_path self bucket encoded_key)
    body_of bucket key encoded_key meta (some byte_range) = do
      resolved ← lift (ok_or (resolve byte_range meta.size) range_not_satisfiable)
      stream_range key (object_path self bucket encoded_key) resolved

    unfoldable pub get_object : Bytes → Bytes → Option ByteRange → Fs (ObjectMeta × Bytes)
    get_object bucket key range = do
      lift (validate_bucket_name bucket)
      encoded_key ← lift (encode_key host.percent key)
      meta ← read_sidecar host (meta_path self bucket encoded_key)
      stream ← body_of bucket key encoded_key meta range
      pure (meta, stream)

    unfoldable pub head_object : Bytes → Bytes → Fs ObjectMeta
    head_object bucket key = do
      lift (validate_bucket_name bucket)
      encoded_key ← lift (encode_key host.percent key)
      read_sidecar host (meta_path self bucket encoded_key)

    unfoldable pub delete_object : Bytes → Bytes → Fs (Unit {0})
    delete_object bucket key = do
      lift (validate_bucket_name bucket)
      encoded_key ← lift (encode_key host.percent key)
      map_err (not_found_as (no_such_key key))
          (call host.fails (remove_file (object_path self bucket encoded_key)))
      gone ← attempt (call host.fails (remove_file (meta_path self bucket encoded_key)))
      absent_as tt gone
