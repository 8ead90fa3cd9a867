-- ===== src/Server.antt =====
-- crates/server/src: the S3 protocol adapter over the storage operations. The request and response
-- types are those of the `s3s` crate, with the fields that the adapter reads or sets.
pub mod Startup
pub mod Errors
pub mod Convert
pub mod Buckets
pub mod Objects
pub mod Uploads
pub mod Listings
use ferrobucket.Base.{ℕ, Option, none, some}
use ferrobucket.Error.{Outcome}
use ferrobucket.Act.{Act}
use ferrobucket.Server.Errors.{S3Error}

pub record S3Response (O : Type 0) : Type 0 where
  pub output : O
  pub status : Option ℕ

abbrev pub S3 : Type 0 → Type 0
S3 O = Act S3Error (S3Response O)

-- `S3Response::new`: the status is the default, 200.
abbrev pub new : {O : Type 0} → O → S3Response O
new o = record { output = o; status = none }

abbrev pub with_status : {O : Type 0} → O → ℕ → S3Response O
with_status o code = record { output = o; status = some code }
