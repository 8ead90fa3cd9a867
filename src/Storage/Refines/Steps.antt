-- ===== src/Storage/Refines/Steps.antt =====
-- One operation refines its effect on the map.
use ferrobucket.Base.{
  ◌≡◌, ◌≢◌, refl, sym, ap, subst, ◌∙◌, true, false, Bool-cases, inl, inr, Option, none, some, [],
  arith,
}
use ferrobucket.Base.Text.{Bytes, str_eq_iff, str_eq_refl}
use ferrobucket.Base.Text.Utf8.{IsStr}
use ferrobucket.FilePath.{FilePath}
use ferrobucket.Disk.{file, Disk, lookup}
use ferrobucket.Act.{World}
use ferrobucket.Meta.{ObjectMeta}
use ferrobucket.Host.{Host}
use ferrobucket.Encode.{encode_key}
use ferrobucket.Layout.{FsStorage, object_path, meta_path}
use ferrobucket.Persist.{Body}
use ferrobucket.Persist.Body.{content_of, Measured}
use ferrobucket.Storage.Objects.Put as Put
use ferrobucket.Storage.Objects.Delete.{Deleted}
use ferrobucket.Storage.Refines.{Stored, Store, update, is_at, put, delete, apply}
use ferrobucket.Storage.Refines.Places.{
  Place, name_unique, same_object, same_meta, object_path-ne-meta_path_of,
}

module _ {H : Type 0} (host : Host H) (self : FsStorage) where
  -- The object is on the disk with its sidecar.
  pub record Has (d : Disk) (bucket key name : Bytes) (v : Stored) : Type 0 where
    pub meta : ObjectMeta
    pub keyed : meta.key ≡ key
    pub measured : Measured host v.content (meta.etag, meta.size)
    pub typed : meta.content_type ≡ v.content_type
    pub body : lookup (object_path self bucket name) d ≡ some (file v.content)
    pub sidecar : lookup (meta_path self bucket name) d ≡ some (file (host.object_json.to_vec meta))

  abbrev pub HasAs : Disk → Bytes → Bytes → Bytes → Option Stored → Type 0
  HasAs d bucket key name none = lookup (meta_path self bucket name) d ≡ none
  HasAs d bucket key name (some v) = Has d bucket key name v

  -- The disk shows the map: what it has is there, and what it has not has no sidecar.
  pub record Shows (d : Disk) (s : Store) : Type 0 where
    pub at :
        (bucket key name : Bytes)
        → Place host.percent self bucket key name
        → HasAs d bucket key name (s bucket key)

  HasAs-kept :
      (d d' : Disk) (bucket key name : Bytes) (v : Option Stored)
      → lookup (object_path self bucket name) d' ≡ lookup (object_path self bucket name) d
      → lookup (meta_path self bucket name) d' ≡ lookup (meta_path self bucket name) d
      → HasAs d bucket key name v
      → HasAs d' bucket key name v
  HasAs-kept d d' bucket key name none same_body same_meta h = same_meta ∙ h
  HasAs-kept d d' bucket key name (some v) same_body same_meta h = record {
    meta = h.meta;
    keyed = h.keyed;
    measured = h.measured;
    typed = h.typed;
    body = same_body ∙ h.body;
    sidecar = same_meta ∙ h.sidecar;
  }

  pub is_at-ne :
      (bucket key b k : Bytes) → is_at bucket key b k ≡ false → ¬ ((bucket ≡ b) × (key ≡ k))
  is_at-ne bucket key b k h (eb, ek) = ground (arith, str_eq_iff bucket b, str_eq_iff key k)

  pub is_at-eq : (bucket key b k : Bytes) → is_at bucket key b k ≡ true → (bucket ≡ b) × (key ≡ k)
  is_at-eq bucket key b k h =
      (ground (arith, str_eq_iff bucket b), ground (arith, str_eq_iff key k))

  pub is_at_refl : (bucket key : Bytes) → is_at bucket key bucket key ≡ true
  is_at_refl bucket key = rw (str_eq_refl bucket, str_eq_refl key) refl

  -- A change at one place shows the map changed at its key.
  Shows-update :
      (d d' : Disk) (s : Store) (bucket key name : Bytes) (v : Option Stored)
      → Place host.percent self bucket key name
      → Shows d s
      → HasAs d' bucket key name v
      → ((q : FilePath)
          → object_path self bucket name ≢ q
          → meta_path self bucket name ≢ q
          → lookup q d' ≡ lookup q d)
      → Shows d' (update bucket key v s)
  Shows-update d d' s bucket key name v p shows new others = record { at = there }
    where
      there :
          (b k n : Bytes)
          → Place host.percent self b k n
          → HasAs d' b k n (update bucket key v s b k)
      there b k n q = elim (Bool-cases (is_at bucket key b k)) [
        | inl here ↦
            let (eb, ek) = is_at-eq bucket key b k here in
            let chosen : update bucket key v s b k ≡ v = rw here refl in
            let same_name : name ≡ n =
              name_unique host.percent self q name
                (ap (encode_key host.percent) (sym ek) ∙ p.named) in
            subst (HasAs d' b k n) (sym chosen) (
              subst (λ x. HasAs d' b k x v) same_name
                (subst (λ x. HasAs d' b x name v) ek (subst (λ x. HasAs d' x key name v) eb new)))
        | inr away ↦
            let kept : update bucket key v s b k ≡ s b k = rw away refl in
            let other : ¬ ((bucket ≡ b) × (key ≡ k)) = is_at-ne bucket key b k away in
            subst (HasAs d' b k n) (sym kept) (
              HasAs-kept d d' b k n (s b k)
                (others (object_path self b n) (λ e. other (same_object host.percent self p q e))
                  (λ e. object_path-ne-meta_path_of host.percent self q p (sym e)))
                (others (meta_path self b n)
                  (λ e. object_path-ne-meta_path_of host.percent self p q e)
                  (λ e. other (same_meta host.percent self p q e)))
                (shows.at b k n q))
      ]

  module _ (d : Disk) (s : Store) (bucket key : Bytes) (str : IsStr key) (ne : key ≢ [])
      (shows : Shows d s) (w : World) where
    pub put-Shows :
        (content_type : Option Bytes) (body : Body) (meta : ObjectMeta)
        → Put.Stored host self bucket key content_type (content_of body) d meta w
        → Shows w.disk (apply (put bucket key body content_type) s)
    unfolding apply
    put-Shows content_type body meta stored =
        Shows-update d w.disk s bucket key stored.name _
          (record { valid = stored.valid; str = str; not_empty = ne; named = stored.named }) shows
          (record {
            meta = meta;
            keyed = stored.key_kept;
            measured = stored.measured;
            typed = stored.type_kept;
            body = stored.body;
            sidecar = stored.sidecar;
          })
          stored.others

    pub delete-Shows : Deleted host self bucket key d w → Shows w.disk (apply (delete bucket key) s)
    unfolding apply
    delete-Shows gone =
        Shows-update d w.disk s bucket key gone.name none
          (record { valid = gone.valid; str = str; not_empty = ne; named = gone.named }) shows
          gone.no_sidecar gone.others
