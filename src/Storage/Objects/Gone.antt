-- ===== src/Storage/Objects/Gone.antt =====
-- Which objects are not there after `delete_object`.
use ferrobucket.Base.{◌≡◌, ◌⊎◌, inl, inr, ap, sym, ◌∙◌, none, subst, List, arith, Bool-cases, All}
use ferrobucket.Base.Members.{All-mono}
use ferrobucket.Base.Text.{Bytes}
use ferrobucket.FilePath.{FilePath, path_eq, path_eq_iff}
use ferrobucket.Error.{
  ok, err, IoError, not_found, already_exists, invalid_data, other, StorageError, no_such_key,
}
use ferrobucket.Disk.{Disk, lookup}
use ferrobucket.Disk.Calls.{remove_file}
use ferrobucket.Act.{World}
use ferrobucket.Act.After.{
  After, AfterAt-both, After-mono, After-bind, After-lift, After-map_err, After-call_why,
}
use ferrobucket.Host.{Host}
use ferrobucket.Encode.{encode_key}
use ferrobucket.Bucket.{validate_bucket_name}
use ferrobucket.Layout.{FsStorage, object_path, meta_path}
use ferrobucket.Persist.{not_found_as}
use ferrobucket.Storage.Objects.{delete_object}
use ferrobucket.Storage.Objects.Delete.{
  Deleted, HalfDeleted, After-delete_object, After-remove_if_there, Removed, remove_file-Removed,
  remove_file-absent, both_gone,
}

-- What is on the disk was there, as it is.
abbrev pub Fewer : Disk → Disk → Type 0
Fewer d d' = (q : FilePath) → (lookup q d' ≡ lookup q d) ⊎ (lookup q d' ≡ none)

module _ {H : Type 0} (host : Host H) (self : FsStorage) (bucket : Bytes) where
  -- The key has a file name, and no file of that name is among the objects.
  abbrev pub Absent : Disk → Bytes → Type 0
  Absent d key =
      (name : Bytes) × (encode_key host.percent key ≡ ok name)
      × (lookup (object_path self bucket name) d ≡ none)

  Absent-Fewer : (d d' : Disk) → Fewer d d' → (key : Bytes) → Absent d key → Absent d' key
  Absent-Fewer d d' fewer key (name, named, gone) = elim (fewer (object_path self bucket name)) [
    | inl same ↦ (name, named, same ∙ gone)
    | inr none_there ↦ (name, named, none_there)
  ]

  pub All-Fewer :
      (d d' : Disk) → Fewer d d' → (keys : List Bytes) → All (Absent d) keys → All (Absent d') keys
  All-Fewer d d' fewer keys h = All-mono (Absent-Fewer d d' fewer) keys h

  module _ (key : Bytes) where
    Deleted-Fewer : (d : Disk) (w : World) → Deleted host self bucket key d w → Fewer d w.disk
    Deleted-Fewer d w gone q =
        let body = object_path self bucket gone.name in
        let sidecar = meta_path self bucket gone.name in
        elim (Bool-cases (path_eq body q)) [
          | inl e ↦ inr (ap (λ p. lookup p w.disk) (sym ((path_eq_iff body q).0 e)) ∙ gone.no_body)
          | inr nb ↦ elim (Bool-cases (path_eq sidecar q)) [
            | inl e ↦
                inr
                  (ap (λ p. lookup p w.disk) (sym ((path_eq_iff sidecar q).0 e)) ∙ gone.no_sidecar)
            | inr ns ↦ inl (
                gone.others q (λ e. absurd (ground (arith, (path_eq_iff body q).1 e, nb)))
                  (λ e. absurd (ground (arith, (path_eq_iff sidecar q).1 e, ns))))
          ]
        ]

    HalfDeleted-Fewer :
        (d : Disk) (w : World) → HalfDeleted host self bucket key d w → Fewer d w.disk
    HalfDeleted-Fewer d w half q = elim (half q) [
      | inl same ↦ inl same
      | inr (name, named, here, gone) ↦ inr gone
    ]

    -- A deletion only ever removes.
    pub delete_object-Fewer :
        (w : World) → Fewer w.disk (delete_object host self bucket key w).1.disk
    delete_object-Fewer w =
        let r = delete_object host self bucket key w in
        AfterAt-both (λ w'. Fewer w.disk w'.disk) r.0 r.1
          ((After-mono (After-delete_object host self bucket key w)
            (λ _ w' gone. Deleted-Fewer w.disk w' gone)
            (λ _ w' half. HalfDeleted-Fewer w.disk w' half)).at)

    -- The error that the key is missing is only raised where it is.
    abbrev pub Missing : StorageError → World → Type 0
    Missing e w = (k : Bytes) → e ≡ no_such_key k → Absent w.disk key

    refused_Missing :
        (name : Bytes) (w : World) (e : IoError)
        → encode_key host.percent key ≡ ok name
        → (remove_file (object_path self bucket name) w.disk ≡ err e) ⊎ (e ≡ other)
        → Missing (not_found_as (no_such_key key) e) w
    refused_Missing name w not_found named (inl h) k e =
        (name, named, remove_file-absent (object_path self bucket name) w.disk h)
    refused_Missing name w not_found named (inr h) k e = absurd (cc)
    refused_Missing name w already_exists named why k e = absurd (cc)
    refused_Missing name w invalid_data named why k e = absurd (cc)
    refused_Missing name w other named why k e = absurd (cc)

    validate_Missing :
        (w : World) (e : StorageError) → validate_bucket_name bucket ≡ err e → Missing e w
    unfolding validate_bucket_name
    validate_Missing w e h k missing = absurd (ground (arith, h, missing))

    encode_Missing :
        (w : World) (e : StorageError) → encode_key host.percent key ≡ err e → Missing e w
    unfolding encode_key
    encode_Missing w e h k missing = absurd (ground (arith, h, missing))

    -- After a deletion that succeeded, or found no object, there is none.
    pub After-delete_object-Absent :
        (w : World)
        → After
            (λ _ w'. Absent w'.disk key)
            (λ e w'. Missing e w')
            (delete_object host self bucket key)
            w
    unfolding delete_object
    After-delete_object-Absent w = After-bind (
        After-lift (validate_bucket_name bucket)
          (λ _ valid. After-bind (
            After-lift (encode_key host.percent key)
              (λ name named. After-bind (
                After-map_err (not_found_as (no_such_key key)) (
                  After-call_why host.fails (remove_file (object_path self bucket name))
                    (λ _ d h.
                      let gone : Removed (object_path self bucket name) w.disk d =
                        remove_file-Removed _ w.disk d h in
                      After-mono (After-remove_if_there host (meta_path self bucket name) _)
                        (λ _ w₂ removed.
                          let both =
                            both_gone host self bucket key w.disk name d w₂ named valid gone
                              removed in
                          (name, named, other_name both.name name both.named named w₂ both.no_body))
                        (λ _ w₂ same k e.
                          (name, named, ap (lookup (object_path self bucket name)) same ∙ gone.0)))
                    (λ e why. refused_Missing name w e named why))))
              (λ e h. encode_Missing w e h)))
          (λ e h. validate_Missing w e h))
      where
        other_name :
            (m n : Bytes)
            → encode_key host.percent key ≡ ok m
            → encode_key host.percent key ≡ ok n
            → (w₂ : World) → lookup (object_path self bucket m) w₂.disk ≡ none
            → lookup (object_path self bucket n) w₂.disk ≡ none
        other_name m n hm hn w₂ gone =
            let same : m ≡ n = cc (hm, hn) in
            subst (λ x. lookup (object_path self bucket x) w₂.disk ≡ none) same gone
