-- ===== src/Storage/Objects/Put.antt =====
-- What `put_object` leaves on the disk, whichever system calls fail.
use mathlib.Core.Option
use ferrobucket.Base.{
  ℕ, ◌≡◌, ◌≢◌, ◌⊎◌, inl, inr, refl, ap, subst, sym, ◌∙◌, Option, some, [], ◌∷◌, arith, Bool-cases,
}
use ferrobucket.Base.Text.{Bytes}
use ferrobucket.FilePath.{FilePath, parent, path_eq, path_eq_iff}
use ferrobucket.Error.{Outcome, ok, err, IoError, StorageError}
use ferrobucket.Disk.{file, Disk, lookup}
use ferrobucket.Act.{World}
use ferrobucket.Act.After.{
  After, AfterAt, After-mono, After-bind, After-lift, After-call, After-attempt, After-unless,
}
use ferrobucket.Meta.{ObjectMeta}
use ferrobucket.Host.{Host}
use ferrobucket.Encode.{encode_key}
use ferrobucket.Bucket.{validate_bucket_name}
use ferrobucket.Base.Text.Utf8.{IsStr}
use ferrobucket.Layout.Contained.{object_path-ne-meta_path}
use ferrobucket.Layout.{FsStorage, bucket_path, objects_dir, object_path, meta_path}
use ferrobucket.Persist.{Body, write_object_body, write_sidecar, write_body, write_json}
use ferrobucket.Persist.Atomic.{Persisted, After-persist}
use ferrobucket.Persist.Body.{content_of, Measured, Writes-body, Writes-json}
use ferrobucket.Storage.{exists, stat}
use ferrobucket.Storage.Objects.{put_object, default_content_type}

module _ {H : Type 0} (host : Host H) where
  -- The last part of the path is not the name of a temporary file.
  abbrev pub NotTemp : FilePath → Type 0
  NotTemp q = (n : ℕ) (p : FilePath) → host.temp_name n ∷ p ≢ q

  stat-ok : (p : FilePath) (d d' : Disk) → stat p d ≡ ok (tt, d') → d ≡ d'
  unfolding stat
  stat-ok p d d' h = ground arith

  pub After-exists :
      {R : StorageError → World → Type 0} (p : FilePath) (w : World)
      → After (λ _ w'. w'.disk ≡ w.disk) R (exists host p) w
  unfolding exists
  After-exists p w = After-bind (
      After-mono
        (After-attempt {Q = λ _ w'. w'.disk ≡ w.disk} {R = λ _ w'. w'.disk ≡ w.disk}
          (After-call host.fails (stat p) (λ _ d h. sym (stat-ok p w.disk d h)) (λ e. refl)))
        (λ o w₁ h. record { at = same o w₁ h }) (λ _ _ x. x))
    where
      same :
          (o : Outcome IoError (Unit {0})) (w₁ : World)
          → AfterAt (λ _ w'. w'.disk ≡ w.disk) (λ _ w'. w'.disk ≡ w.disk) o w₁
          → w₁.disk ≡ w.disk
      same (ok _) w₁ h = h
      same (err e) w₁ h = h

  module _ (self : FsStorage) (bucket key : Bytes) (content_type : Option Bytes)
      (content : Bytes) where
    -- A stored object: its file and its sidecar, and nothing else on the disk has changed.
    pub record Stored (d : Disk) (meta : ObjectMeta) (w : World) : Type 0 where
      pub name : Bytes
      pub named : encode_key host.percent key ≡ ok name
      pub valid : validate_bucket_name bucket ≡ ok tt
      pub key_kept : meta.key ≡ key
      pub type_kept : meta.content_type ≡ Option.get_or content_type default_content_type
      pub measured : Measured host content (meta.etag, meta.size)
      pub body : lookup (object_path self bucket name) w.disk ≡ some (file content)
      pub sidecar :
          lookup (meta_path self bucket name) w.disk ≡ some (file (host.object_json.to_vec meta))
      pub others :
          (q : FilePath)
          → object_path self bucket name ≢ q
          → meta_path self bucket name ≢ q
          → lookup q w.disk ≡ lookup q d

    -- Where a put that failed may have changed the disk: the object's file holds the new content
    -- whole, or nothing has changed, temporary files aside.
    abbrev pub Kept : Disk → World → Type 0
    Kept d w =
        (q : FilePath)
        → NotTemp q
        → (lookup q w.disk ≡ lookup q d)
          ⊎ ((name : Bytes) × (encode_key host.percent key ≡ ok name)
              × (object_path self bucket name ≡ q)
              × (lookup q w.disk ≡ some (file content)))

    -- Without a change of the disk nothing is lost.
    Kept-refl : (d : Disk) (w : World) → w.disk ≡ d → Kept d w
    Kept-refl d w same q free = inl (ap (lookup q) same)

    After-sidecar :
        (d : Disk) (name : Bytes) (r : Bytes × ℕ) (w : World)
        → encode_key host.percent key ≡ ok name
        → validate_bucket_name bucket ≡ ok tt
        → object_path self bucket name ≢ meta_path self bucket name
        → Persisted (object_path self bucket name) content (Measured host content) d r w
        → (meta : ObjectMeta) → meta.key ≡ key
        → meta.content_type ≡ Option.get_or content_type default_content_type
        → meta.etag ≡ r.0
        → meta.size ≡ r.1
        → After
            (λ _ w'. Stored d meta w')
            (λ _ w'. Kept d w')
            (write_sidecar host (meta_path self bucket name) meta)
            w
    unfolding write_sidecar
    After-sidecar d name r w named valid differ (measured, full, same) meta k t e s =
        let target : FilePath = meta_path self bucket name in
        let body_path : FilePath = object_path self bucket name in
        let json : Bytes = host.object_json.to_vec meta in
        After-mono
          (After-persist host (parent target) target json (λ _. Unit) (write_json host json) w
            (Writes-json host w.disk (parent target) json))
          (λ _ w' (_, written, kept). record {
            name = name;
            named = named;
            valid = valid;
            key_kept = k;
            type_kept = t;
            measured = (e ∙ measured.0, s ∙ measured.1);
            body = kept body_path (λ p. differ (sym p)) ∙ full;
            sidecar = written;
            others = λ q nb ns. kept q ns ∙ same q nb;
          })
          (λ _ w' kept q free.
            let now : lookup q w'.disk ≡ lookup q w.disk = kept q (free w.calls (parent target)) in
            elim (Bool-cases (path_eq body_path q)) [
              | inl here ↦
                  let is_q : body_path ≡ q = (path_eq_iff body_path q).0 here in
                  inr (
                    name,
                    named,
                    is_q,
                    now ∙ subst (λ p. lookup p w.disk ≡ some (file content)) is_q full,
                  )
              | inr away ↦
                  inl (
                    now
                    ∙ same q (λ p. absurd (ground (arith, (path_eq_iff body_path q).1 p, away))))
            ])

module _ {H : Type 0} (host : Host H) (self : FsStorage) (bucket key : Bytes)
    (content_type : Option Bytes) (body : Body) where
  -- Whichever system calls fail, a put under a non-empty text key either succeeds and has stored
  -- the whole body and the metadata it returns, changing no other path, or fails and has changed no
  -- path but names of temporary files, or else the file of the object, which then holds the whole
  -- body.
  pub After-put_object :
      (w : World)
      → IsStr key
      → key ≢ []
      → After
          (λ meta w'. Stored host self bucket key content_type (content_of body) w.disk meta w')
          (λ _ w'. Kept host self bucket key content_type (content_of body) w.disk w')
          (put_object host self bucket key body content_type)
          w
  unfolding put_object write_object_body
  After-put_object w str ne = After-bind (
      After-lift (validate_bucket_name bucket)
        (λ _ valid. After-bind (
          After-mono (After-exists host (bucket_path self bucket) w)
            (λ there w₁ same₁.
              After-unless there (record { at = λ q _. inl (ap (lookup q) same₁) })
                (After-bind (
                  After-lift (encode_key host.percent key)
                    (λ name named. After-bind (
                      After-mono
                        (After-persist host (objects_dir self bucket) (object_path self bucket name)
                          (content_of body) (Measured host (content_of body)) (write_body host body)
                          w₁ (Writes-body host w₁.disk (objects_dir self bucket) body))
                        (λ r w₂ (measured, full, same₂). After-bind (record {
                          at = After-bind (
                              After-mono
                                (After-sidecar host self bucket key content_type (content_of body)
                                  w.disk name r w₂ named valid
                                  (object_path-ne-meta_path self bucket valid host.percent key name
                                    str named ne)
                                  (measured, full, λ q ne. same₂ q ne ∙ ap (lookup q) same₁) _ refl
                                  refl refl refl)
                                (λ _ w₃ stored. record { at = stored }) (λ _ _ x. x));
                        }))
                        (λ _ w₂ kept q free. inl (kept q (free _ _) ∙ ap (lookup q) same₁))))
                    (λ _ _ q _. inl (ap (lookup q) same₁)))))
            (λ _ w₁ same₁ q _. inl (ap (lookup q) same₁))))
        (λ _ _ q _. inl refl))
