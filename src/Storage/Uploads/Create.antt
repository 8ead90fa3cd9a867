-- ===== src/Storage/Uploads/Create.antt =====
-- crates/storage/src/fs.rs: what `create_multipart_upload` leaves on the disk.
use ferrobucket.Base.{ℕ, ◌≡◌, ◌≢◌, refl, ap, subst, Option, some, [], ◌∷◌, true, arith, All, inl}
use ferrobucket.Base.Text.{Bytes, codes}
use ferrobucket.FilePath.{FilePath, parent, join, join-IsPlain, IsPlain}
use ferrobucket.Error.{ok}
use ferrobucket.Disk.{file, Disk, lookup}
use ferrobucket.Disk.Calls.{create_dir_all}
use ferrobucket.Disk.Grown.{GrownAt, GrownAt-same, Grown, create_dir_all-Grown}
use ferrobucket.Act.{World}
use ferrobucket.Act.After.{After, After-mono, After-bind, After-lift, After-call_io, After-unless}
use ferrobucket.Meta.{MultipartMeta}
use ferrobucket.Host.{Host, is_uuid_byte}
use ferrobucket.Bucket.{validate_bucket_name}
use ferrobucket.Layout.{FsStorage, bucket_path, upload_dir}
use ferrobucket.Persist.{write_multipart_meta, write_json}
use ferrobucket.Persist.Atomic.{After-persist}
use ferrobucket.Persist.Body.{Writes-json}
use ferrobucket.Storage.Objects.Put.{NotTemp, After-exists}
use ferrobucket.Storage.Uploads.{create_multipart_upload}

uuid_byte : (c : ℕ) → is_uuid_byte c ≡ true → (c ≢ b'/') × (c ≢ b'.')
uuid_byte c h = (ground arith, ground arith)

no_slash-uuid : (s : Bytes) → All (λ c. is_uuid_byte c ≡ true) s → All (λ c. c ≢ b'/') s
no_slash-uuid [] h = tt
no_slash-uuid (c ∷ s) (hc, h) = ((uuid_byte c hc).0, no_slash-uuid s h)

-- An identifier is the name of one entry of a directory.
pub uuid-IsPlain : (s : Bytes) → s ≢ [] → All (λ c. is_uuid_byte c ≡ true) s → IsPlain s
uuid-IsPlain [] ne h = absurd (ne refl)
uuid-IsPlain (c ∷ s) ne (hc, h) = record {
  no_slash = ((uuid_byte c hc).0, no_slash-uuid s h);
  not_empty = ne;
  not_dot = λ p. ground (arith, (uuid_byte c hc).1);
  not_dot_dot = λ p. ground (arith, (uuid_byte c hc).1);
}

IsPlain-meta_json : IsPlain (codes "_meta.json")
IsPlain-meta_json = record {
  no_slash = omega arith;
  not_empty = λ e. cc;
  not_dot = λ e. cc;
  not_dot_dot = λ e. cc;
}

module _ (self : FsStorage) (upload_id : Bytes) where
  abbrev pub meta_file : FilePath
  meta_file = join (upload_dir self upload_id) (codes "_meta.json")

  pub meta_file_lem : meta_file ≡ codes "_meta.json" ∷ upload_dir self upload_id
  meta_file_lem = join-IsPlain (upload_dir self upload_id) (codes "_meta.json") IsPlain-meta_json

module _ {H : Type 0} (host : Host H) (self : FsStorage) (bucket key : Bytes)
    (content_type : Option Bytes) where
  abbrev pub begun : MultipartMeta
  begun = record { bucket = bucket; key = key; content_type = content_type }

  -- The upload is recorded under an identifier of the generator.
  pub record Created (d : Disk) (upload_id : Bytes) (w : World) : Type 0 where
    pub valid : validate_bucket_name bucket ≡ ok tt
    pub number : ℕ
    pub generated : upload_id ≡ host.new_v4 number
    pub recorded :
        lookup (meta_file self upload_id) w.disk ≡ some (file (host.multipart_json.to_vec begun))
    pub others : (q : FilePath) → meta_file self upload_id ≢ q → GrownAt d w.disk q

  abbrev pub Uncreated : Disk → World → Type 0
  Uncreated d w = (q : FilePath) → NotTemp host q → GrownAt d w.disk q

  -- Whichever system calls fail, creating an upload either succeeds, for a valid bucket name, and
  -- has recorded bucket, key and content type in the staging directory of a generated identifier,
  -- which it returns, or fails; and no other path has changed but to a new directory, names of
  -- temporary files aside where it fails.
  pub After-create_multipart_upload :
      (w : World)
      → After
          (λ upload_id w'. Created w.disk upload_id w')
          (λ _ w'. Uncreated w.disk w')
          (create_multipart_upload host self bucket key content_type)
          w
  unfolding create_multipart_upload write_multipart_meta
  After-create_multipart_upload w = After-bind (
      After-lift (validate_bucket_name bucket)
        (λ _ valid. After-bind (
          After-mono (After-exists host (bucket_path self bucket) w)
            (λ there w₁ same₁.
              After-unless there (record { at = λ q _. inl (ap (lookup q) same₁) })
                (After-bind (record {
                  at = After-bind (
                      After-mono
                        (After-call_io host.fails {Q = λ _ w₂. Grown w.disk w₂.disk}
                          {R = λ _ w₂. Grown w.disk w₂.disk}
                          (create_dir_all (upload_dir self (host.new_v4 w₁.calls)))
                          (λ _ d₂ made.
                            subst (λ x. Grown x d₂) same₁ (create_dir_all-Grown _ w₁.disk d₂ made))
                          (λ e q. inl (ap (lookup q) same₁)))
                        (λ _ w₂ grown. After-bind (
                          After-mono
                            (After-persist host (parent (meta_file self (host.new_v4 w₁.calls)))
                              (meta_file self (host.new_v4 w₁.calls))
                              (host.multipart_json.to_vec begun) (λ _. Unit)
                              (write_json host (host.multipart_json.to_vec begun)) w₂
                              (Writes-json host w₂.disk _ (host.multipart_json.to_vec begun)))
                            (λ _ w₃ (_, written, kept). record {
                              at = record {
                                valid = valid;
                                number = w₁.calls;
                                generated = refl;
                                recorded = written;
                                others = λ q ne. GrownAt-same q _ _ _ (kept q ne) (grown q);
                              };
                            })
                            (λ _ w₃ kept q free.
                              GrownAt-same q _ _ _ (kept q (free w₂.calls _)) (grown q))))
                        (λ _ w₂ grown q _. grown q));
                })))
            (λ _ w₁ same₁ q _. inl (ap (lookup q) same₁))))
        (λ _ _ q _. inl refl))
