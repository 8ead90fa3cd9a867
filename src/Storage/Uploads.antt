-- ===== src/Storage/Uploads.antt =====
-- crates/storage/src/fs.rs: multipart uploads.
pub mod Abort
pub mod Create
pub mod Part
pub mod Assemble
pub mod Complete
use ferrobucket.Base.{ℕ, ◌+◌, ◌%◌, ◌^◌, not, Option, List, [], ◌∷◌, ◌++◌, length, if◌then◌else◌}
use ferrobucket.Base.Text.{Bytes, codes}
use ferrobucket.Base.Int.{ℤ, ◌<ℤ◌, is_not_positive}
use ferrobucket.Base.Decimal.{show, to_string}
use ferrobucket.Base.Sort.{sort}
use ferrobucket.Error.{ok, no_such_bucket, no_such_upload, invalid_part_number, io}
use ferrobucket.FilePath.{FilePath, join}
use ferrobucket.Disk.Calls.{create_dir_all, read, append}
use ferrobucket.Act.{Fs, pure, fail, lift, ignore, map_err, ◌>>=◌, ◌>>◌, call, call_io}
use ferrobucket.Meta.{ObjectMeta}
use ferrobucket.Host.{Host}
use ferrobucket.Etag
use ferrobucket.Encode.{encode_key}
use ferrobucket.Bucket.{validate_bucket_name}
use ferrobucket.Layout.{
  FsStorage, bucket_path, objects_dir, meta_path, uploads_root, upload_dir, part_path,
}
use ferrobucket.Persist.Partial.{clear_dir}
use ferrobucket.Persist.{
  Body, flush, persist, write_body, write_sidecar, write_multipart_meta, read_multipart_meta,
  not_found_as,
}
use ferrobucket.Storage.{exists}
use ferrobucket.Storage.Objects.{object_meta}

module _ {H : Type 0} (host : Host H) where
  -- A fresh identifier from the generator.
  abbrev pub new_upload_id : Fs Bytes
  new_upload_id w = (ok (host.new_v4 w.calls), w)

  -- The parts' files in turn, each opened when the one before it has been copied.
  unfoldable pub copy_parts : FilePath → FilePath → H → ℕ → List ℤ → Fs (H × ℕ)
  copy_parts staging_dir tmp hasher bytes_written [] = pure (hasher, bytes_written)
  copy_parts staging_dir tmp hasher bytes_written (part_num ∷ parts) = do
    chunk ← call_io host.fails (read (join staging_dir (to_string part_num)))
    call_io host.fails (append tmp chunk)
    copy_parts staging_dir tmp (Etag.update host.md5 hasher chunk)
        ((bytes_written + length chunk) % 2 ^ 64) parts

  unfoldable pub write_parts : FilePath → List ℤ → FilePath → Fs (Bytes × ℕ)
  write_parts staging_dir parts tmp = do
    copied ← copy_parts staging_dir tmp (Etag.new host.md5) 0 parts
    call_io host.fails flush
    pure (Etag.finalize host.md5 copied.0 ++ b'-' ∷ show (length parts), copied.1)

  module _ (self : FsStorage) where
    unfoldable pub create_multipart_upload : Bytes → Bytes → Option Bytes → Fs Bytes
    create_multipart_upload bucket key content_type = do
      lift (validate_bucket_name bucket)
      there ← exists host (bucket_path self bucket)
      if not there then fail (no_such_bucket bucket) else do
        upload_id ← new_upload_id
        call_io host.fails (create_dir_all (upload_dir self upload_id))
        write_multipart_meta host (join (upload_dir self upload_id) (codes "_meta.json"))
            (record { bucket = bucket; key = key; content_type = content_type })
        pure upload_id

    unfoldable pub upload_part : Bytes → ℤ → Body → Fs Bytes
    upload_part upload_id part_number body =
        if is_not_positive part_number then fail (invalid_part_number part_number) else do
          there ← exists host (upload_dir self upload_id)
          if not there then fail (no_such_upload upload_id) else do
            written ←
                persist host (upload_dir self upload_id) (part_path self upload_id part_number)
                  (write_body host body)
            pure written.0

    unfoldable pub complete_multipart_upload : Bytes → Bytes → List ℤ → Fs ObjectMeta
    complete_multipart_upload key upload_id parts = do
      mp_meta ← read_multipart_meta host (join (upload_dir self upload_id) (codes "_meta.json"))
      let sorted_parts = sort ◌<ℤ◌ parts
      call_io host.fails (create_dir_all (objects_dir self mp_meta.bucket))
      encoded_key ← lift (encode_key host.percent key)
      written ←
          persist host (objects_dir self mp_meta.bucket)
            (join (objects_dir self mp_meta.bucket) encoded_key)
            (write_parts (upload_dir self upload_id) sorted_parts)
      meta ← object_meta host mp_meta.key mp_meta.content_type written
      write_sidecar host (meta_path self mp_meta.bucket encoded_key) meta
      ignore (map_err io (clear_dir host (uploads_root self) (upload_dir self upload_id)))
      pure meta

    unfoldable pub abort_multipart_upload : Bytes → Fs (Unit {0})
    abort_multipart_upload upload_id =
        map_err (not_found_as (no_such_upload upload_id))
          (clear_dir host (uploads_root self) (upload_dir self upload_id))
