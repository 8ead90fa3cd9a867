-- ===== src/Storage/Buckets.antt =====
-- crates/storage/src/fs.rs: the bucket operations.
pub mod Keep
pub mod Create
pub mod Listed
use ferrobucket.Base.{not, Option, none, some, List, [], ◌∷◌, map, retain, if◌then◌else◌}
use ferrobucket.Base.Text.{Bytes, codes}
use ferrobucket.Error.{
  Outcome, ok, err, IoError, not_found, already_exists, invalid_data, io, no_such_bucket,
  bucket_not_empty, bucket_already_exists,
}
use ferrobucket.FilePath.{FilePath, join, parent}
use ferrobucket.Disk.Calls.{
  Call, is_dir, is_nil, read, read_dir, create_dir, create_dir_all, remove_dir, remove_file,
}
use ferrobucket.Act.{Fs, pure, fail, lift, attempt, map_err, ◌>>=◌, ◌>>◌, call, call_io}
use ferrobucket.Meta.{BucketInfo}
use ferrobucket.Host.{Host}
use ferrobucket.Bucket.{validate_bucket_name}
use ferrobucket.Layout.{FsStorage, bucket_path, objects_dir, meta_dir}
use ferrobucket.Persist.Partial.{write}
use ferrobucket.Storage.{exists}

-- A failure to list a directory that is not there is an empty listing.
abbrev pub absent_as : {A : Type 0} → A → Outcome IoError A → Fs A
absent_as a (ok b) = pure b
absent_as a (err not_found) = pure a
absent_as a (err e) = fail (io e)

-- The entries that are directories.
unfoldable pub read_dirs : FilePath → Call (List FilePath)
read_dirs p d = elim (read_dir p d) [
  | err e ↦ err e
  | ok (names, d') ↦ ok (retain (λ q. is_dir q d) (map (λ c. c ∷ p) names), d')
]

module _ {H : Type 0} (host : Host H) where
  abbrev pub parsed_info : Option BucketInfo → Fs BucketInfo
  parsed_info none = fail (io invalid_data)
  parsed_info (some info) = pure info

  unfoldable pub read_infos : List FilePath → Fs (List BucketInfo)
  read_infos [] = pure []
  read_infos (dir ∷ entries) = do
    found ← attempt (call host.fails (read (join dir (codes ".bucket.json"))))
    elim found [
      | ok bytes ↦ (do
        info ← parsed_info (host.bucket_json.from_slice bytes)
        buckets ← read_infos entries
        pure (info ∷ buckets))
      | err e ↦ elim e [ not_found ↦ read_infos entries | other_kind ↦ fail (io other_kind) ]
    ]

  abbrev pub left_behind : Bytes → IoError → Outcome IoError (List Bytes) → Fs (Unit {0})
  left_behind name e (err _) = fail (io e)
  left_behind name e (ok names) = if is_nil names then fail (io e) else fail (bucket_not_empty name)

  abbrev pub guarded : FilePath → Bytes → Outcome IoError (Unit {0}) → Fs (Unit {0})
  guarded dir name (ok _) = pure tt
  guarded dir name (err not_found) = pure tt
  guarded dir name (err e) = do
    left ← attempt (call host.fails (read_dir dir))
    left_behind name e left

  unfoldable pub remove_dir_guarded : FilePath → Bytes → Fs (Unit {0})
  remove_dir_guarded dir name = do
    removed ← attempt (call host.fails (remove_dir dir))
    guarded dir name removed

  module _ (self : FsStorage) where
    unfoldable pub list_buckets : Fs (List BucketInfo)
    list_buckets = do
      listed ← attempt (call host.fails (read_dirs self.data_root))
      entries ← absent_as [] listed
      read_infos entries

    abbrev pub claimed : Bytes → Outcome IoError (Unit {0}) → Fs (Unit {0})
    claimed name (ok _) = pure tt
    claimed name (err already_exists) = fail (bucket_already_exists name)
    claimed name (err e) = fail (io e)

    -- The clock is read once, when the record of the bucket is made.
    abbrev pub bucket_info : Bytes → Fs BucketInfo
    bucket_info name w = (ok (record { name = name; created_at = host.now_utc w.calls }), w)

    unfoldable pub create_bucket : Bytes → Fs (Unit {0})
    create_bucket name = do
      lift (validate_bucket_name name)
      let bucket_dir = bucket_path self name
      call_io host.fails (create_dir_all (parent bucket_dir))
      made ← attempt (call host.fails (create_dir bucket_dir))
      claimed name made
      call_io host.fails (create_dir_all (objects_dir self name))
      call_io host.fails (create_dir_all (meta_dir self name))
      info ← bucket_info name
      map_err io
          (write host (join bucket_dir (codes ".bucket.json")) (host.bucket_json.to_vec info))

    unfoldable pub delete_bucket : Bytes → Fs (Unit {0})
    delete_bucket name = do
      lift (validate_bucket_name name)
      let bucket_dir = bucket_path self name
      there ← exists host bucket_dir
      if not there then fail (no_such_bucket name) else do
        listed ← attempt (call host.fails (read_dir (objects_dir self name)))
        names ← absent_as [] listed
        if not (is_nil names) then fail (bucket_not_empty name) else do
          remove_dir_guarded (objects_dir self name) name
          remove_dir_guarded (meta_dir self name) name
          gone ← attempt (call host.fails (remove_file (join bucket_dir (codes ".bucket.json"))))
          absent_as tt gone
          removed ← attempt (call host.fails (remove_dir bucket_dir))
          absent_as tt removed
