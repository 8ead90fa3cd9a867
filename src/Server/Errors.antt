-- ===== src/Server/Errors.antt =====
-- crates/server/src/error.rs: from storage errors to S3 errors; the texts of storage errors are in
-- crates/storage/src/lib.rs.
use ferrobucket.Base.{Option, none, some, ◌++◌}
use ferrobucket.Base.Text.{Bytes, codes}
use ferrobucket.Base.Decimal.{to_string}
use ferrobucket.Error.{
  IoError, StorageError, no_such_bucket, no_such_key, bucket_not_empty, bucket_already_exists,
  invalid_bucket_name, key_too_long, invalid_key, invalid_continuation_token, range_not_satisfiable,
  no_such_upload, invalid_part_number, io,
}

pub data S3ErrorCode : Type 0 where
  code_no_such_bucket code_no_such_key code_bucket_not_empty : S3ErrorCode
  code_bucket_already_owned_by_you code_invalid_bucket_name code_key_too_long_error : S3ErrorCode
  code_invalid_request code_invalid_argument code_invalid_range : S3ErrorCode
  code_no_such_upload code_internal_error : S3ErrorCode

pub record S3Error : Type 0 where
  pub code : S3ErrorCode
  pub message : Option Bytes

-- `s3_error!` with and without a message
abbrev pub s3_error : S3ErrorCode → S3Error
s3_error c = record { code = c; message = none }

abbrev pub s3_error_with : S3ErrorCode → Bytes → S3Error
s3_error_with c text = record { code = c; message = some text }

unfoldable pub map_storage_err : StorageError → S3Error
map_storage_err (no_such_bucket _) = s3_error code_no_such_bucket
map_storage_err (no_such_key _) = s3_error code_no_such_key
map_storage_err (bucket_not_empty _) = s3_error code_bucket_not_empty
map_storage_err (bucket_already_exists _) = s3_error code_bucket_already_owned_by_you
map_storage_err (invalid_bucket_name n) =
    s3_error_with code_invalid_bucket_name (codes "invalid bucket name: " ++ n)
map_storage_err (key_too_long _) = s3_error code_key_too_long_error
map_storage_err invalid_key = s3_error_with code_invalid_request (codes "invalid key")
map_storage_err invalid_continuation_token =
    s3_error_with code_invalid_argument (codes "invalid continuation token")
map_storage_err range_not_satisfiable = s3_error code_invalid_range
map_storage_err (no_such_upload _) = s3_error code_no_such_upload
map_storage_err (invalid_part_number n) =
    s3_error_with code_invalid_argument (codes "part number must be positive: " ++ to_string n)
map_storage_err (io e) = s3_error_with code_internal_error (codes "I/O error")

-- `to_string` of a storage error; the text of an I/O error is the standard library's.
unfoldable pub error_text : (IoError → Bytes) → StorageError → Bytes
error_text io_text (no_such_bucket s) = codes "no such bucket: " ++ s
error_text io_text (no_such_key s) = codes "no such key: " ++ s
error_text io_text (bucket_not_empty s) = codes "bucket not empty: " ++ s
error_text io_text (bucket_already_exists s) = codes "bucket already exists: " ++ s
error_text io_text (invalid_bucket_name s) = codes "invalid bucket name: " ++ s
error_text io_text (key_too_long key) =
    codes "key too long after encoding (limit: 255 bytes): " ++ key
error_text io_text invalid_key = codes "invalid key"
error_text io_text invalid_continuation_token = codes "invalid continuation token"
error_text io_text range_not_satisfiable = codes "range not satisfiable"
error_text io_text (no_such_upload s) = codes "no such upload: " ++ s
error_text io_text (invalid_part_number n) = codes "invalid part number: " ++ to_string n
error_text io_text (io e) = codes "I/O error: " ++ io_text e
