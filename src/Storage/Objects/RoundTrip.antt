-- ===== src/Storage/Objects/RoundTrip.antt =====
-- An object that was put is got back, whole or by a range.
use ferrobucket.Base.{
  ◌⊎◌, inl, inr, suc, ◌≡◌, ◌≢◌, refl, ap, ◌∙◌, Option, none, some, [], ◌∷◌, ◌++◌, arith, take, drop,
}
use ferrobucket.Base.Text.{Bytes, codes}
use ferrobucket.Base.Text.Utf8.{IsStr}
use ferrobucket.Error.{Outcome, ok, err, StorageError, range_not_satisfiable}
use ferrobucket.Disk.{Disk}
use ferrobucket.Disk.Calls.{read}
use ferrobucket.Disk.Reads.{read_file}
use ferrobucket.Act.{World, ◌>>=◌}
use ferrobucket.Act.After.{After-ok}
use ferrobucket.Act.Steps.{Quiet, >>=-step, map_err-done, call_io-done}
use ferrobucket.Meta.{ObjectMeta}
use ferrobucket.Host.{Host}
use ferrobucket.Encode.{encode_key}
use ferrobucket.Bucket.{validate_bucket_name}
use ferrobucket.Range.{ByteRange, ResolvedRange, resolve}
use ferrobucket.Layout.{FsStorage, object_path, meta_path}
use ferrobucket.Layout.Contained.{object_path_valid, meta_path_valid}
use ferrobucket.Persist.{Body, read_sidecar, flush, parsed}
use ferrobucket.Persist.Body.{content_of}
use ferrobucket.Storage.Objects.{
  put_object, get_object, head_object, body_of, stream_object, stream_range,
}
use ferrobucket.Storage.Objects.Put.{Stored, After-put_object}

-- The metadata with the window of the content, or the refusal.
abbrev pub window :
    ObjectMeta → Bytes → Option ResolvedRange → Outcome StorageError (ObjectMeta × Bytes)
window meta content none = err range_not_satisfiable
window meta content (some r) = ok (meta, take r.length (drop r.start content))

-- What a range selects of a content that is measured by `size`.
abbrev pub served :
    ObjectMeta → Bytes → Option ByteRange → Outcome StorageError (ObjectMeta × Bytes)
served meta content none = ok (meta, content)
served meta content (some range) = window meta content (resolve range meta.size)

module _ {H : Type 0} (host : Host H) (self : FsStorage) (bucket key name content : Bytes)
    (meta : ObjectMeta) where
  -- The object is on the disk, under its name.
  pub record OnDisk (d : Disk) : Type 0 where
    pub valid : validate_bucket_name bucket ≡ ok tt
    pub named : encode_key host.percent key ≡ ok name
    pub body : read (object_path self bucket name) d ≡ ok (content, d)
    pub sidecar : read (meta_path self bucket name) d ≡ ok (host.object_json.to_vec meta, d)

  module _ (w : World) (here : OnDisk w.disk) (quiet : Quiet host.fails w.calls) where
    abbrev later : World
    later = record { disk = w.disk; calls = suc w.calls }

    read_sidecar-done : read_sidecar host (meta_path self bucket name) w ≡ (ok meta, later)
    unfolding read_sidecar
    read_sidecar-done =
        >>=-step _ _ w (map_err-done host.fails _ w _ (quiet w.calls (omega arith)) here.sidecar)
        ∙ ap (λ o. parsed o later) (host.object_json.from_slice-to_vec meta)

    body_of-whole : (body_of host self bucket key name meta none later).0 ≡ ok content
    unfolding body_of stream_object
    body_of-whole =
        ap (λ t. t.0)
          (map_err-done host.fails _ later _ (quiet (suc w.calls) (omega arith)) here.body)

    stream_range-done :
        (r : ResolvedRange)
        → (stream_range host key (object_path self bucket name) r later).0
          ≡ ok (take r.length (drop r.start content))
    unfolding stream_range
    stream_range-done r =
        ap (λ t. t.0)
          (>>=-step _ _ later
              (map_err-done host.fails _ later _ (quiet (suc w.calls) (omega arith)) here.body)
            ∙ >>=-step _ _ _
                (call_io-done host.fails flush _ (quiet (suc (suc w.calls)) (omega arith)) refl))

    body_of-range :
        (range : ByteRange) (r : ResolvedRange)
        → resolve range meta.size ≡ some r
        → (body_of host self bucket key name meta (some range) later).0
          ≡ ok (take r.length (drop r.start content))
    unfolding body_of ◌>>=◌
    body_of-range range r h = rw h (stream_range-done r)

    body_of-refused :
        (range : ByteRange)
        → resolve range meta.size ≡ none
        → (body_of host self bucket key name meta (some range) later).0 ≡ err range_not_satisfiable
    unfolding body_of ◌>>=◌
    body_of-refused range h = rw h refl

    pub get_object-done :
        (range : Option ByteRange)
        → (get_object host self bucket key range w).0 ≡ served meta content range
    unfolding get_object ◌>>=◌
    get_object-done none = rw (here.valid, here.named, read_sidecar-done, body_of-whole) refl
    get_object-done (some range) = elim (resolve-cases (resolve range meta.size)) [
      | inl h ↦ rw (here.valid, here.named, read_sidecar-done, body_of-refused range h, h) refl
      | inr (r, h) ↦ rw (here.valid, here.named, read_sidecar-done, body_of-range range r h, h) refl
    ]
      where
        resolve-cases :
            (o : Option ResolvedRange) → (o ≡ none) ⊎ ((r : ResolvedRange) × (o ≡ some r))
        resolve-cases none = inl refl
        resolve-cases (some r) = inr (r, refl)

    head_object-done : (head_object host self bucket key w).0 ≡ ok meta
    unfolding head_object ◌>>=◌
    head_object-done = rw (here.valid, here.named, read_sidecar-done) refl

module _ {H : Type 0} (host : Host H) (self : FsStorage) (bucket key : Bytes)
    (content_type : Option Bytes) (body : Body) (w : World) where
  abbrev put : Outcome StorageError ObjectMeta × World
  put = put_object host self bucket key body content_type w

  module _ (str : IsStr key) (ne : key ≢ []) (meta : ObjectMeta) (stored : put.0 ≡ ok meta)
      (quiet : Quiet host.fails put.1.calls) where
    Stored-OnDisk :
        Stored host self bucket key content_type (content_of body) w.disk meta put.1
        → (name : Bytes) × OnDisk host self bucket key name (content_of body) meta put.1.disk
    Stored-OnDisk s = (
      s.name,
      record {
        valid = s.valid;
        named = s.named;
        body =
            read_file (object_path self bucket s.name) s.name
              (codes "objects" ∷ bucket ∷ self.data_root) put.1.disk
              (object_path_valid self bucket s.valid host.percent key s.name str s.named ne) s.body;
        sidecar =
            read_file (meta_path self bucket s.name) (s.name ++ codes ".json")
              (codes "meta" ∷ bucket ∷ self.data_root) put.1.disk
              (meta_path_valid self bucket s.valid host.percent key s.name str s.named) s.sidecar;
      },
    )

    -- After a put under a non-empty text key that succeeded, and as long as no further system call
    -- fails, get_object returns the metadata of the put with the whole content, with the part that
    -- the range resolves to, or with the refusal of a range that does not resolve.
    pub get_object-put_object :
        (range : Option ByteRange)
        → (get_object host self bucket key range put.1).0 ≡ served meta (content_of body) range
    get_object-put_object range =
        let (name, here) =
          Stored-OnDisk
            (After-ok (After-put_object host self bucket key content_type body w str ne) stored) in
        get_object-done host self bucket key name (content_of body) meta put.1 here quiet range

    -- After a put under a non-empty text key that succeeded, and as long as no further system call
    -- fails, head_object returns the metadata that the put returned.
    pub head_object-put_object : (head_object host self bucket key put.1).0 ≡ ok meta
    head_object-put_object =
        let (name, here) =
          Stored-OnDisk
            (After-ok (After-put_object host self bucket key content_type body w str ne) stored) in
        head_object-done host self bucket key name (content_of body) meta put.1 here quiet
