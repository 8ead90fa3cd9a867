-- ===== src/Layout/Staging.antt =====
-- Where staged uploads are kept: beside the buckets, and never in one.
use ferrobucket.Base.{◌≡◌, ◌≢◌, refl, subst, false, ◌∷◌, arith}
use ferrobucket.Base.Text.{Bytes, codes, str_eq, starts_with, ends_with, contains}
use ferrobucket.FilePath.{IsPlain, join-IsPlain}
use ferrobucket.Error.{ok, err, invalid_bucket_name}
use ferrobucket.Disk.Calls.{is_under}
use ferrobucket.Disk.Grown.{is_under_name}
use ferrobucket.Bucket.{validate_bucket_name, is_reserved, is_name_byte, is_lowercase, is_digit}
use ferrobucket.Layout.{FsStorage, uploads_root, upload_dir}

pub IsPlain-uploads : IsPlain (codes ".uploads")
IsPlain-uploads = record {
  no_slash = omega arith;
  not_empty = λ e. cc;
  not_dot = λ e. cc;
  not_dot_dot = λ e. cc;
}

-- No bucket has the name of the directory of uploads.
uploads_refused :
    validate_bucket_name (codes ".uploads") ≡ err (invalid_bucket_name (codes ".uploads"))
unfolding validate_bucket_name is_reserved str_eq starts_with ends_with contains is_name_byte
    is_lowercase is_digit
uploads_refused = refl

uploads_invalid : validate_bucket_name (codes ".uploads") ≢ ok tt
uploads_invalid e = cc uploads_refused

module _ (self : FsStorage) (upload_id : Bytes) (plain : IsPlain upload_id) where
  pub upload_dir_plain : upload_dir self upload_id ≡ upload_id ∷ codes ".uploads" ∷ self.data_root
  unfolding upload_dir uploads_root
  upload_dir_plain =
      rw (join-IsPlain self.data_root (codes ".uploads") IsPlain-uploads)
        (join-IsPlain (codes ".uploads" ∷ self.data_root) upload_id plain)

  -- What lies two levels below a bucket is in no staging directory.
  pub is_under-upload_dir :
      (bucket sub name : Bytes)
      → validate_bucket_name bucket ≡ ok tt
      → is_under (upload_dir self upload_id) (name ∷ sub ∷ bucket ∷ self.data_root) ≡ false
  is_under-upload_dir bucket sub name valid = rw upload_dir_plain (
      is_under_name (upload_id ∷ codes ".uploads" ∷ self.data_root) (sub ∷ bucket ∷ self.data_root)
        name refl (λ e. uploads_invalid (subst (λ b. validate_bucket_name b ≡ ok tt) (cc e) valid)))
