-- ===== src/Storage/Uploads/Complete.antt =====
-- crates/storage/src/fs.rs: what `complete_multipart_upload` leaves on the disk.
use mathlib.Core.Option
use ferrobucket.Base.{
  ℕ, ◌≡◌, ◌≢◌, ◌⊎◌, inl, inr, refl, ap, subst, sym, ◌∙◌, some, List, [], ◌∷◌, ◌++◌, arith,
  Bool-cases, false, true, none,
}
use ferrobucket.Base.Text.{Bytes, codes}
use ferrobucket.Base.Text.Utf8.{IsStr}
use ferrobucket.Base.Int.{ℤ, ◌<ℤ◌}
use ferrobucket.Base.Sort.{sort}
use ferrobucket.FilePath.{FilePath, parent, path_eq, path_eq_iff, IsPlain, join}
use ferrobucket.Error.{ok, StorageError, io}
use ferrobucket.Disk.{file, Disk, lookup}
use ferrobucket.Disk.Calls.{read, is_under, create_dir_all}
use ferrobucket.Disk.Reads.{read_once}
use ferrobucket.Disk.Grown.{GrownAt, GrownAt-same, Grown, create_dir_all-Grown, read-Grown}
use ferrobucket.Act.{World, ignore, map_err, pure, ◌>>◌}
use ferrobucket.Act.After.{
  After, After-mono, After-bind, After-lift, After-call, After-call_io, After-map_err, After-ignore,
}
use ferrobucket.Meta.{ObjectMeta, MultipartMeta}
use ferrobucket.Host.{Host}
use ferrobucket.Encode.{encode_key}
use ferrobucket.Bucket.{validate_bucket_name}
use ferrobucket.Layout.{FsStorage, objects_dir, object_path, meta_path, uploads_root, upload_dir}
use ferrobucket.Layout.Contained.{object_path_valid, meta_path_valid, object_path-ne-meta_path}
use ferrobucket.Layout.Staging.{is_under-upload_dir}
use ferrobucket.Persist.{write_sidecar, write_json, read_multipart_meta}
use ferrobucket.Persist.Partial.{clear_dir}
use ferrobucket.Persist.Partial.Left.{After-clear_dir}
use ferrobucket.Persist.Atomic.{Persisted, After-persist}
use ferrobucket.Persist.Body.{Writes-json}
use ferrobucket.Storage.Objects.{default_content_type}
use ferrobucket.Storage.Objects.Put.{NotTemp}
use ferrobucket.Storage.Uploads.{complete_multipart_upload}
use ferrobucket.Storage.Uploads.Assemble.{PartsAre, concat, Assembled, After-persist_parts}

PartsAre-Grown :
    (d d' : Disk) (staging : FilePath) (parts : List ℤ) (contents : List Bytes)
    → Grown d d'
    → PartsAre d staging parts contents
    → PartsAre d' staging parts contents
PartsAre-Grown d d' staging [] [] grown h = h
PartsAre-Grown d d' staging [] (c ∷ cs) grown h = h
PartsAre-Grown d d' staging (p ∷ ps) [] grown h = h
PartsAre-Grown d d' staging (p ∷ ps) (c ∷ cs) grown (hc, h) =
    (read-Grown _ d d' c grown hc, PartsAre-Grown d d' staging ps cs grown h)

module _ {H : Type 0} (host : Host H) where
  -- The record of the upload is read, and the disk stays as it is.
  After-read_meta :
      (path : FilePath) (mp : MultipartMeta) (w : World)
      → read path w.disk ≡ ok (host.multipart_json.to_vec mp, w.disk)
      → After
          (λ m w'. (m ≡ mp) × (w'.disk ≡ w.disk))
          (λ _ w'. w'.disk ≡ w.disk)
          (read_multipart_meta host path)
          w
  unfolding read_multipart_meta
  After-read_meta path mp w here = After-bind (
      After-mono
        (After-map_err _ (
          After-call host.fails
            {Q = λ b w₁. (b ≡ host.multipart_json.to_vec mp) × (w₁.disk ≡ w.disk)}
            {R = λ _ w₁. w₁.disk ≡ w.disk} (read path)
            (λ b d e. read_once path w.disk d b (host.multipart_json.to_vec mp) here e)
            (λ e. refl)))
        (λ b w₁ (same, kept).
          rw (same, host.multipart_json.from_slice-to_vec mp) (record { at = (refl, kept) }))
        (λ _ _ x. x))

  -- Nothing outside of a directory is touched when it is removed with what is in it.
  After-clear :
      {N : StorageError → World → Type 0} (root staging : FilePath) (w : World)
      → After
          (λ _ w'. (q : FilePath) → is_under staging q ≡ false → lookup q w'.disk ≡ lookup q w.disk)
          N
          (ignore (map_err io (clear_dir host root staging)))
          w
  After-clear root staging w = After-ignore (
      After-map_err io (
        After-mono (After-clear_dir host root staging w)
          (λ _ w' cleared q away. rw away at (cleared q))
          (λ _ w' thinned q away. kept_outside w' q (thinned q) away)))
    where
      kept_outside :
          (w' : World) (q : FilePath)
          → (lookup q w'.disk ≡ lookup q w.disk)
            ⊎ ((is_under staging q ≡ true) × (lookup q w'.disk ≡ none))
          → is_under staging q ≡ false
          → lookup q w'.disk ≡ lookup q w.disk
      kept_outside w' q (inl same) away = same
      kept_outside w' q (inr (inside, gone)) away = absurd (cc)

module _ {H : Type 0} (host : Host H) (self : FsStorage) (key upload_id : Bytes) (parts : List ℤ)
    (mp : MultipartMeta) (contents : List Bytes) where
  abbrev pub sorted : List ℤ
  sorted = sort ◌<ℤ◌ parts

  -- The object is stored under the file name of `key`, with the contents of the parts in ascending
  -- order of their numbers, and the record of the upload in its metadata.
  pub record Completed (d : Disk) (meta : ObjectMeta) (w : World) : Type 0 where
    pub name : Bytes
    pub named : encode_key host.percent key ≡ ok name
    pub key_kept : meta.key ≡ mp.key
    pub type_kept : meta.content_type ≡ Option.get_or mp.content_type default_content_type
    pub assembled :
        Assembled host (upload_dir self upload_id) sorted contents (meta.etag, meta.size)
    pub body : lookup (object_path self mp.bucket name) w.disk ≡ some (file (concat contents))
    pub sidecar :
        lookup (meta_path self mp.bucket name) w.disk ≡ some (file (host.object_json.to_vec meta))
    pub others :
        (q : FilePath)
        → object_path self mp.bucket name ≢ q
        → meta_path self mp.bucket name ≢ q
        → is_under (upload_dir self upload_id) q ≡ false
        → GrownAt d w.disk q

  -- A failure keeps every file, the staged parts too, temporary files aside; the file of the object
  -- may hold the assembled content already.
  abbrev pub Uncompleted : Disk → World → Type 0
  Uncompleted d w =
      (q : FilePath)
      → NotTemp host q
      → GrownAt d w.disk q
        ⊎ ((name : Bytes) × (encode_key host.percent key ≡ ok name)
            × (object_path self mp.bucket name ≡ q)
            × (lookup q w.disk ≡ some (file (concat contents))))

  module _ (valid : validate_bucket_name mp.bucket ≡ ok tt) (plain : IsPlain upload_id)
      (str : IsStr key) (ne : key ≢ []) (d : Disk) (name : Bytes)
      (named : encode_key host.percent key ≡ ok name) where
    abbrev target : FilePath
    target = object_path self mp.bucket name

    abbrev sidecar_path : FilePath
    sidecar_path = meta_path self mp.bucket name

    target_away : is_under (upload_dir self upload_id) target ≡ false
    target_away =
        rw (object_path_valid self mp.bucket valid host.percent key name str named ne)
          (is_under-upload_dir self upload_id plain mp.bucket (codes "objects") name valid)

    sidecar_away : is_under (upload_dir self upload_id) sidecar_path ≡ false
    sidecar_away = rw (meta_path_valid self mp.bucket valid host.percent key name str named) (
        is_under-upload_dir self upload_id plain mp.bucket (codes "meta") (name ++ codes ".json")
          valid)

    -- With the object in place, the sidecar is written and the staging directory cleared.
    After-finish :
        (r : Bytes × ℕ) (w : World)
        → (d₁ : Disk) → Grown d d₁
        → Persisted target
            (concat contents)
            (Assembled host (upload_dir self upload_id) sorted contents)
            d₁
            r
            w
        → (meta : ObjectMeta) → meta.key ≡ mp.key
        → meta.content_type ≡ Option.get_or mp.content_type default_content_type
        → meta.etag ≡ r.0
        → meta.size ≡ r.1
        → After
            (λ m w'. Completed d m w')
            (λ _ w'. Uncompleted d w')
            (write_sidecar host sidecar_path meta
              >> (ignore
                    (map_err io (clear_dir host (uploads_root self) (upload_dir self upload_id)))
                  >> pure meta))
            w
    unfolding write_sidecar
    After-finish r w d₁ grown (measured, full, same) meta k t e s =
        let json : Bytes = host.object_json.to_vec meta in
        let differ : target ≢ sidecar_path =
          object_path-ne-meta_path self mp.bucket valid host.percent key name str named ne in
        After-bind (
          After-mono
            (After-persist host (parent sidecar_path) sidecar_path json (λ _. Unit)
              (write_json host json) w (Writes-json host w.disk (parent sidecar_path) json))
            (λ _ w₁ (_, written, kept). After-bind (
              After-mono (After-clear host (uploads_root self) (upload_dir self upload_id) w₁)
                (λ _ w₂ clear. record {
                  at = record {
                    name = name;
                    named = named;
                    key_kept = k;
                    type_kept = t;
                    assembled = (e ∙ measured.0, s ∙ measured.1);
                    body = clear target target_away ∙ kept target (λ p. differ (sym p)) ∙ full;
                    sidecar = clear sidecar_path sidecar_away ∙ written;
                    others = λ q nb ns away.
                        GrownAt-same q _ _ _ (clear q away ∙ kept q ns ∙ same q nb) (grown q);
                  };
                })
                (λ _ _ x. x)))
            (λ _ w' kept q free.
              let now : lookup q w'.disk ≡ lookup q w.disk =
                kept q (free w.calls (parent sidecar_path)) in
              elim (Bool-cases (path_eq target q)) [
                | inl here ↦
                    let is_q : target ≡ q = (path_eq_iff target q).0 here in
                    inr (
                      name,
                      named,
                      is_q,
                      now ∙ subst (λ p. lookup p w.disk ≡ some (file (concat contents))) is_q full,
                    )
                | inr away ↦ inl (
                    GrownAt-same q _ _ _
                      (now
                        ∙ same q (λ p. absurd (ground (arith, (path_eq_iff target q).1 p, away))))
                      (grown q))
              ]))

  -- Where the record of an upload with a plain identifier names a valid bucket and the files of the
  -- parts hold the contents, completing it under a non-empty text key either succeeds and has stored
  -- the contents in the order of the sorted part numbers, and the metadata it returns, under the
  -- name of the key, or fails and has kept the staged parts and every other file, but for names of
  -- temporary files and the file of the object, which may hold the new content whole; no other path
  -- outside of the staging directory changes but to a new directory; whichever system calls fail.
  pub After-complete_multipart_upload :
      (w : World)
      → read (join (upload_dir self upload_id) (codes "_meta.json")) w.disk
        ≡ ok (host.multipart_json.to_vec mp, w.disk)
      → PartsAre w.disk (upload_dir self upload_id) sorted contents
      → validate_bucket_name mp.bucket ≡ ok tt
      → IsPlain upload_id
      → IsStr key
      → key ≢ []
      → After
          (λ meta w'. Completed w.disk meta w')
          (λ _ w'. Uncompleted w.disk w')
          (complete_multipart_upload host self key upload_id parts)
          w
  unfolding complete_multipart_upload object_path
  After-complete_multipart_upload w there are valid plain str ne = After-bind (
      After-mono (After-read_meta host _ mp w there)
        (λ m w₁ (is_mp, same₁). rw is_mp (
          After-bind (
            After-mono
              (After-call_io host.fails {Q = λ _ w₂. Grown w.disk w₂.disk}
                {R = λ _ w₂. Grown w.disk w₂.disk} (create_dir_all (objects_dir self mp.bucket))
                (λ _ d₂ made.
                  subst (λ x. Grown x d₂) same₁ (create_dir_all-Grown _ w₁.disk d₂ made))
                (λ e q. inl (ap (lookup q) same₁)))
              (λ _ w₂ grown. After-bind (
                After-lift (encode_key host.percent key)
                  (λ name named. After-bind (
                    After-mono
                      (After-persist_parts host (upload_dir self upload_id) sorted contents
                        (objects_dir self mp.bucket) (object_path self mp.bucket name) w₂
                        (PartsAre-Grown w.disk w₂.disk _ sorted contents grown are))
                      (λ r w₃ persisted. After-bind (record {
                        at =
                            (After-finish valid plain str ne w.disk name named r w₃ w₂.disk grown
                              persisted _ refl refl refl refl);
                      }))
                      (λ _ w₃ kept q free.
                        inl (GrownAt-same q _ _ _ (kept q (free w₂.calls _)) (grown q)))))
                  (λ _ _ q _. inl (grown q))))
              (λ _ w₂ grown q _. inl (grown q)))))
        (λ _ w₁ same₁ q _. inl (inl (ap (lookup q) same₁))))
