-- ===== src/Layout.antt =====
-- crates/storage/src/fs.rs: where `FsStorage` keeps things under its data directory.
pub mod Contained
pub mod Staging
use ferrobucket.Base.{◌++◌}
use ferrobucket.Base.Text.{Bytes, codes}
use ferrobucket.Base.Int.{ℤ}
use ferrobucket.Base.Decimal.{to_string}
use ferrobucket.FilePath.{FilePath, join}

pub record FsStorage : Type 0 where
  pub data_root : FilePath

module _ (self : FsStorage) where
  unfoldable pub bucket_path : Bytes → FilePath
  bucket_path name = join self.data_root name

  unfoldable pub objects_dir : Bytes → FilePath
  unfolding bucket_path
  objects_dir bucket = join (bucket_path bucket) (codes "objects")

  unfoldable pub meta_dir : Bytes → FilePath
  unfolding bucket_path
  meta_dir bucket = join (bucket_path bucket) (codes "meta")

  unfoldable pub object_path : Bytes → Bytes → FilePath
  unfolding objects_dir
  object_path bucket encoded_key = join (objects_dir bucket) encoded_key

  unfoldable pub meta_path : Bytes → Bytes → FilePath
  unfolding meta_dir
  meta_path bucket encoded_key = join (meta_dir bucket) (encoded_key ++ codes ".json")

  unfoldable pub uploads_root : FilePath
  uploads_root = join self.data_root (codes ".uploads")

  -- A part `..` of the identifier is taken back by name, as the operating system does it where
  -- `.uploads` is a directory.
  unfoldable pub upload_dir : Bytes → FilePath
  unfolding uploads_root
  upload_dir upload_id = join uploads_root upload_id

  unfoldable pub part_path : Bytes → ℤ → FilePath
  unfolding upload_dir
  part_path upload_id part_number = join (upload_dir upload_id) (to_string part_number)
