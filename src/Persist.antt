-- ===== src/Persist.antt =====
-- The write path that crates/storage/src/{fs,meta,multipart}.rs share: a new temporary file in the
-- target's directory, written in full, then renamed onto the target; and the readers of sidecars.
-- `keep` and the blocking thread pool do not fail here; a serialiser of these records cannot.
pub mod Partial
pub mod Atomic
pub mod Body
use ferrobucket.Base.{
  ℕ, ◌+◌, ◌%◌, ◌^◌, ◌∷◌, Bool, true, false, Option, none, some, List, [], length, if◌then◌else◌,
}
use ferrobucket.Base.Text.{Bytes}
use ferrobucket.FilePath.{FilePath, parent, display}
use ferrobucket.Error.{
  Outcome, ok, err, IoError, not_found, already_exists, invalid_data, other, StorageError, io,
  no_such_key, no_such_upload,
}
use ferrobucket.Disk.{Disk}
use ferrobucket.Disk.Calls.{Call, create_new, append, rename, remove_file, read}
use ferrobucket.Act.{
  World, Act, Fs, pure, fail, attempt, ignore, map_err, ◌>>=◌, ◌>>◌, call, call_io,
}
use ferrobucket.Meta.{ObjectMeta, MultipartMeta}
use ferrobucket.Etag
use ferrobucket.Host.{Host, Json}

-- A body as its stream delivers it: chunks, or an error that ends the transfer.
abbrev pub Body : Type 0
Body = List (Outcome IoError Bytes)

-- `flush` changes nothing that a reader can see.
abbrev pub flush : Call (Unit {0})
flush d = ok (tt, d)

abbrev pub not_found_as : StorageError → IoError → StorageError
not_found_as missing not_found = missing
not_found_as missing e = io e

abbrev pub parsed : {A : Type 0} → Option A → Fs A
parsed none = fail (io invalid_data)
parsed (some a) = pure a

module _ {H : Type 0} (host : Host H) where
  abbrev pub temp_path : FilePath → World → FilePath
  temp_path dir w = host.temp_name w.calls ∷ dir

  abbrev pub next_temp : FilePath → Fs FilePath
  next_temp dir w = (ok (temp_path dir w), w)

  -- `tempfile_in` and `keep`
  unfoldable pub create_temp : FilePath → Fs FilePath
  create_temp dir = do tmp ← next_temp dir; call_io host.fails (create_new tmp); pure tmp

  -- `let _ = remove_file(&tmp_path)`, then the error
  unfoldable pub clean_up : {A : Type 0} → FilePath → StorageError → Fs A
  clean_up tmp e = do ignore (call_io host.fails (remove_file tmp)); fail e

  unfoldable pub settle : {A : Type 0} → FilePath → A → Outcome IoError (Unit {0}) → Fs A
  settle tmp a (ok _) = pure a
  settle tmp a (err e) = clean_up tmp (io e)

  unfoldable pub move_into_place :
      {A : Type 0} → FilePath → FilePath → Outcome StorageError A → Fs A
  move_into_place tmp target (err e) = clean_up tmp e
  move_into_place tmp target (ok a) = do
    moved ← attempt (call host.fails (rename tmp target))
    settle tmp a moved

  unfoldable pub persist : {A : Type 0} → FilePath → FilePath → (FilePath → Fs A) → Fs A
  persist dir target write_all = do
    tmp ← create_temp dir
    written ← attempt (write_all tmp)
    move_into_place tmp target written

  -- One round hashes, counts in `u64`, and writes.
  unfoldable pub write_chunks : FilePath → H → ℕ → Body → Fs (H × ℕ)
  write_chunks tmp hasher bytes_written [] = pure (hasher, bytes_written)
  write_chunks tmp hasher bytes_written (err e ∷ body) = fail (io e)
  write_chunks tmp hasher bytes_written (ok chunk ∷ body) = do
    call_io host.fails (append tmp chunk)
    write_chunks tmp (Etag.update host.md5 hasher chunk) ((bytes_written + length chunk) % 2 ^ 64)
        body

  unfoldable pub write_body : Body → FilePath → Fs (Bytes × ℕ)
  write_body body tmp = do
    (hasher, bytes_written) ← write_chunks tmp (Etag.new host.md5) 0 body
    call_io host.fails flush
    pure (Etag.finalize host.md5 hasher, bytes_written)

  -- The object's file is `encoded_key` in `objects_dir`.
  unfoldable pub write_object_body : FilePath → FilePath → Body → Fs (Bytes × ℕ)
  write_object_body objects_dir target body = persist objects_dir target (write_body body)

  unfoldable pub write_json : Bytes → FilePath → Fs (Unit {0})
  write_json json tmp = do call_io host.fails (append tmp json); call_io host.fails flush; pure tt

  unfoldable pub write_sidecar : FilePath → ObjectMeta → Fs (Unit {0})
  write_sidecar path meta = persist (parent path) path (write_json (host.object_json.to_vec meta))

  unfoldable pub write_multipart_meta : FilePath → MultipartMeta → Fs (Unit {0})
  write_multipart_meta path meta =
      persist (parent path) path (write_json (host.multipart_json.to_vec meta))

  unfoldable pub read_sidecar : FilePath → Fs ObjectMeta
  read_sidecar path = do
    bytes ← map_err (not_found_as (no_such_key (display path))) (call host.fails (read path))
    parsed (host.object_json.from_slice bytes)

  unfoldable pub read_multipart_meta : FilePath → Fs MultipartMeta
  read_multipart_meta path = do
    bytes ← map_err (not_found_as (no_such_upload (display path))) (call host.fails (read path))
    parsed (host.multipart_json.from_slice bytes)
