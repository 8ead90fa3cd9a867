-- ===== src/Layout/Contained.antt =====
-- Where valid names lead: always below the data directory, and to a place of their own.
use ferrobucket.Base.{ℕ, ◌≡◌, ◌≢◌, refl, ap, ◌∙◌, [], ◌∷◌, ◌++◌, arith, All}
use ferrobucket.Base.Text.{Bytes, codes}
use ferrobucket.Base.Text.Utf8.{IsStr}
use ferrobucket.FilePath.{join, IsPlain, join-IsPlain}
use ferrobucket.Error.{ok}
use ferrobucket.Encode.{PercentEncoding, encode_key, is_alphanumeric}
use ferrobucket.Encode.FileName.{IsFileNameByte, encode_key-IsFileName}
use ferrobucket.Encode.RoundTrip.{name-ne-nil}
use ferrobucket.Bucket.{validate_bucket_name}
use ferrobucket.Bucket.Rules.{join_valid}
use ferrobucket.Layout.{FsStorage, bucket_path, objects_dir, meta_dir, object_path, meta_path}

IsPlain-objects : IsPlain (codes "objects")
IsPlain-objects = record {
  no_slash = omega arith;
  not_empty = λ e. cc;
  not_dot = λ e. cc;
  not_dot_dot = λ e. cc;
}

IsPlain-meta : IsPlain (codes "meta")
IsPlain-meta = record {
  no_slash = omega arith;
  not_empty = λ e. cc;
  not_dot = λ e. cc;
  not_dot_dot = λ e. cc;
}

file_name_byte : (c : ℕ) → IsFileNameByte c → (c ≢ b'/') × (c ≢ b'.')
unfolding is_alphanumeric
file_name_byte c h = (ground arith, ground arith)

no_slash-file_name : (e : Bytes) → All IsFileNameByte e → All (λ c. c ≢ b'/') e
no_slash-file_name [] h = tt
no_slash-file_name (c ∷ e) (hc, h) = ((file_name_byte c hc).0, no_slash-file_name e h)

-- A name made of letters, digits and percent signs is the name of one entry.
IsPlain-file_name : (e : Bytes) → All IsFileNameByte e → e ≢ [] → IsPlain e
IsPlain-file_name [] h ne = absurd (ne refl)
IsPlain-file_name (c ∷ e) (hc, h) ne = record {
  no_slash = ((file_name_byte c hc).0, no_slash-file_name e h);
  not_empty = ne;
  not_dot = λ p. ground (arith, (file_name_byte c hc).1);
  not_dot_dot = λ p. ground (arith, (file_name_byte c hc).1);
}

All-json : (e : Bytes) → All (λ c. c ≢ b'/') e → All (λ c. c ≢ b'/') (e ++ codes ".json")
All-json [] h = omega arith
All-json (c ∷ e) (hc, h) = (hc, All-json e h)

-- So is the name of a sidecar, also of an empty key.
IsPlain-sidecar : (e : Bytes) → All IsFileNameByte e → IsPlain (e ++ codes ".json")
IsPlain-sidecar [] h = record {
  no_slash = omega arith;
  not_empty = λ e. cc;
  not_dot = λ e. cc;
  not_dot_dot = λ e. cc;
}
IsPlain-sidecar (c ∷ e) (hc, h) = record {
  no_slash = ((file_name_byte c hc).0, All-json e (no_slash-file_name e h));
  not_empty = λ p. cc;
  not_dot = λ p. ground (arith, (file_name_byte c hc).1);
  not_dot_dot = λ p. ground (arith, (file_name_byte c hc).1);
}

module _ (self : FsStorage) (bucket : Bytes) (valid : validate_bucket_name bucket ≡ ok tt) where
  pub objects_dir_valid : objects_dir self bucket ≡ codes "objects" ∷ bucket ∷ self.data_root
  unfolding objects_dir bucket_path
  objects_dir_valid =
      rw (join_valid self.data_root bucket valid)
        (join-IsPlain (bucket ∷ self.data_root) (codes "objects") IsPlain-objects)

  pub meta_dir_valid : meta_dir self bucket ≡ codes "meta" ∷ bucket ∷ self.data_root
  unfolding meta_dir bucket_path
  meta_dir_valid =
      rw (join_valid self.data_root bucket valid)
        (join-IsPlain (bucket ∷ self.data_root) (codes "meta") IsPlain-meta)

  module _ (percent : PercentEncoding) (key e : Bytes) (str : IsStr key)
      (named : encode_key percent key ≡ ok e) where
    -- For a valid bucket name and the file name of a non-empty text key, the path of the object is
    -- the entry of that name in the directory objects of the bucket in the data directory.
    pub object_path_valid :
        key ≢ [] → object_path self bucket e ≡ e ∷ codes "objects" ∷ bucket ∷ self.data_root
    unfolding object_path
    object_path_valid ne =
        ap (λ p. join p e) objects_dir_valid
        ∙ join-IsPlain _ e (
            IsPlain-file_name e (encode_key-IsFileName percent key e str named).0
              (name-ne-nil percent key e str named ne))

    pub meta_path_valid :
        meta_path self bucket e ≡ (e ++ codes ".json") ∷ codes "meta" ∷ bucket ∷ self.data_root
    unfolding meta_path
    meta_path_valid =
        ap (λ p. join p (e ++ codes ".json")) meta_dir_valid
        ∙ join-IsPlain _ (e ++ codes ".json")
            (IsPlain-sidecar e (encode_key-IsFileName percent key e str named).0)

    pub object_path-ne-meta_path : key ≢ [] → object_path self bucket e ≢ meta_path self bucket e
    object_path-ne-meta_path ne p = cc (object_path_valid ne, meta_path_valid, p)
