-- ===== src/Meta.antt =====
-- crates/storage/src/meta.rs, multipart.rs: the records kept beside objects, buckets and uploads.
-- A time is a number.
use ferrobucket.Base.{ℕ, Option}
use ferrobucket.Base.Text.{Bytes}

pub record ObjectMeta : Type 0 where
  pub key : Bytes
  pub size : ℕ
  pub content_type : Bytes
  pub etag : Bytes
  pub last_modified : ℕ

pub record BucketInfo : Type 0 where
  pub name : Bytes
  pub created_at : ℕ

pub record MultipartMeta : Type 0 where
  pub bucket : Bytes
  pub key : Bytes
  pub content_type : Option Bytes
