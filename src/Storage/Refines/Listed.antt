-- ===== src/Storage/Refines/Listed.antt =====
-- What ListObjectsV2 answers after a sequence of puts and deletes.
use ferrobucket.Base.{
  ℕ, ◌≡◌, ◌≢◌, refl, sym, ap, subst, ◌∙◌, Bool, true, false, ◌⊎◌, inl, inr, Option, none, some,
  List, ◌∷◌, All, ltb, length,
}
use ferrobucket.Base.Members.{In, In-All, All-In, All-mono, All-take}
use ferrobucket.Base.Sort.{All-sort}
use ferrobucket.Base.Text.{Bytes, str_lt}
use ferrobucket.Error.{ok}
use ferrobucket.Disk.{file, Disk, lookup}
use ferrobucket.Disk.Calls.{names_in, is_dir}
use ferrobucket.Disk.Reads.{read_file}
use ferrobucket.Disk.Names.{names_in-In, names_in-lookup, is_dir-there}
use ferrobucket.Act.{World}
use ferrobucket.Act.Steps.{Quiet}
use ferrobucket.Meta.{ObjectMeta}
use ferrobucket.Host.{Host}
use ferrobucket.Encode.{decode_key}
use ferrobucket.Listing.Members.{has_prefix, All-has_prefix, matching, flat, In-flat}
use ferrobucket.Listing.Page.{max_keys_of}
use ferrobucket.Listing.Page.Walk.{All-filter_prefix}
use ferrobucket.Bucket.{validate_bucket_name}
use ferrobucket.Bucket.Rules.{join_valid}
use ferrobucket.Layout.{FsStorage, bucket_path, objects_dir, meta_dir, meta_path}
use ferrobucket.Layout.Contained.{objects_dir_valid}
use ferrobucket.Persist.Body.{Measured}
use ferrobucket.Storage.Listings.{ListV2Res, list_objects_v2}
use ferrobucket.Storage.Listings.Decoded.{decode_names-In, All-decode_names, decoded}
use ferrobucket.Storage.Listings.Found.{
  Described, Readable, Complete, Drawn, keys_in, shown, same_record, list_objects_v2-Lists,
}
use ferrobucket.Storage.Refines.{Stored, Store, Op, applies, performs}
use ferrobucket.Storage.Refines.Places.{Place, object_at, meta_at}
use ferrobucket.Storage.Refines.Steps.{Shows, Has, HasAs}
use ferrobucket.Storage.Refines.Runs.{IsText, performs-Shows}
use ferrobucket.Storage.Refines.Tidy.{Tidy, Known, performs-Tidy}

module _ {H : Type 0} (host : Host H) (self : FsStorage) (bucket : Bytes) where
  -- The entry of a key in an answer: its metadata describes what the map has.
  abbrev pub Entry : Bytes → Stored → ObjectMeta → Type 0
  Entry key v meta =
      (meta.key ≡ key)
      × (meta.content_type ≡ v.content_type)
      × Measured host v.content (meta.etag, meta.size)

  -- What an answer says of a key that has the prefix or has it not, according to the map.
  abbrev pub Listed : Bytes → Bool → Option Stored → ListV2Res → Type 0
  Listed key true (some v) res =
      (res.is_truncated ≡ true) ⊎ ((meta : ObjectMeta) × In meta res.objects × Entry key v meta)
  Listed key true none res = All (λ meta. meta.key ≢ key) res.objects
  Listed key false o res = All (λ meta. meta.key ≢ key) res.objects

  module _ (d : Disk) (s : Store) (valid : validate_bucket_name bucket ≡ ok tt)
      (shows : Shows host self d s) (tidy : Tidy host self bucket d s) where
    -- A key in the map that can be listed.
    abbrev Mapped : Bytes → Type 0
    Mapped key =
        (v : Stored) × (s bucket key ≡ some v)
        × (h : Described host (meta_dir self bucket) d key) × Entry key v h.meta

    Mapped-Has :
        (key name : Bytes) (v : Stored)
        → Place host.percent self bucket key name
        → s bucket key ≡ some v
        → Has host self d bucket key name v
        → Mapped key
    Mapped-Has key name v place at has = (
      v,
      at,
      record {
        name = name;
        meta = has.meta;
        json = host.object_json.to_vec has.meta;
        named = place.named;
        sidecar =
            unfold meta_path in
            (read_file (meta_path self bucket name) _ _ d (meta_at host.percent self place)
              has.sidecar);
        read_as = host.object_json.from_slice-to_vec has.meta;
      },
      (has.keyed, has.typed, has.measured),
    )

    Mapped-Known :
        (key name : Bytes)
        → decode_key host.percent (host.to_string_lossy name) ≡ ok key
        → Known host self bucket s name
        → Mapped key
    Mapped-Known key name h (k, v, place, at) =
        let same : k ≡ key = cc (decoded host k name place.str place.named, h) in
        subst Mapped same (
          Mapped-Has k name v place at
            (subst (HasAs host self d bucket k name) at (shows.at bucket k name place)))

    keys-Mapped : All Mapped (keys_in host self bucket d)
    keys-Mapped =
        All-decode_names host Mapped (names_in (objects_dir self bucket) d) (λ name key there h.
          let (node, found) = names_in-lookup name (objects_dir self bucket) d there in
          Mapped-Known key name h (
            tidy.known name node (
              subst (λ p. lookup (name ∷ p) d ≡ some node) (objects_dir_valid self bucket valid)
                found)))

    Readable-Tidy : Readable host self bucket d
    unfolding bucket_path
    Readable-Tidy = record {
      place =
          subst (λ p. is_dir p d ≡ true) (sym (join_valid self.data_root bucket valid))
            (is_dir-there bucket self.data_root d tidy.place);
      objects =
          subst (λ p. is_dir p d ≡ true) (sym (objects_dir_valid self bucket valid))
            (is_dir-there _ _ d tidy.objects);
      described =
          All-mono (λ k m. let (v, at, h, e) = m in h) (keys_in host self bucket d) keys-Mapped;
    }

    In-keys :
        (key name : Bytes) (v : Stored)
        → Place host.percent self bucket key name
        → Has host self d bucket key name v
        → In key (keys_in host self bucket d)
    In-keys key name v place has =
        decode_names-In host key name _ (decoded host key name place.str place.named) (
          subst (λ p. In name (names_in p d)) (sym (objects_dir_valid self bucket valid))
            (names_in-In name _ d (file v.content) (
              subst (λ p. lookup p d ≡ some (file v.content)) (object_at host.percent self place)
                has.body)))

    module _ (prefix : Option Bytes) (max_keys : Option ℕ) (res : ListV2Res) where
      -- Listed without reason.
      Listed-absent :
          (key : Bytes)
          → Drawn host
              (meta_dir self bucket)
              (shown host self bucket prefix max_keys d)
              d
              res.objects
          → ((v : Stored) → s bucket key ≡ some v → has_prefix key prefix ≢ true)
          → All (λ meta. meta.key ≢ key) res.objects
      Listed-absent key drawn unmapped = In-All _ res.objects (λ meta there e.
          let (k, at, h, same) = drawn meta there in
          let (v, mapped, h', entry) =
            All-In Mapped k _
              (All-take _ _ _ (All-filter_prefix _ prefix _ (All-sort str_lt _ _ keys-Mapped)))
              at in
          let matches =
            All-In (λ x. has_prefix x prefix ≡ true) k _ (All-take _ _ _ (All-has_prefix _ prefix))
              at in
          let once = same_record host (meta_dir self bucket) d k h h' in
          let which : k ≡ key = sym entry.0 ∙ ap (λ m. m.key) (sym once ∙ same) ∙ e in
          unmapped v (ap (s bucket) (sym which) ∙ mapped)
            (ap (λ x. has_prefix x prefix) (sym which) ∙ matches))

      Listed-at :
          (key name : Bytes)
          → Place host.percent self bucket key name
          → res.is_truncated
            ≡ ltb
                (max_keys_of (flat prefix max_keys))
                (length (matching (keys_in host self bucket d) prefix))
          → Complete host
              (meta_dir self bucket)
              (shown host self bucket prefix max_keys d)
              d
              res.objects
          → Drawn host
              (meta_dir self bucket)
              (shown host self bucket prefix max_keys d)
              d
              res.objects
          → (b : Bool) (v : Option Stored) → has_prefix key prefix ≡ b
          → s bucket key ≡ v
          → Listed key b v res
      Listed-at key name place cut complete drawn true none matches at =
          Listed-absent key drawn (λ v e. cc)
      Listed-at key name place cut complete drawn false v matches at =
          Listed-absent key drawn (λ v e m. cc)
      Listed-at key name place cut complete drawn true (some v) matches at =
          let has = subst (HasAs host self d bucket key name) at (shows.at bucket key name place) in
          elim (In-flat key (keys_in host self bucket d) prefix (max_keys_of (flat prefix max_keys))
            res.is_truncated cut matches (In-keys key name v place has)) [
              | inl truncated ↦ inl truncated
              | inr there ↦ inr (
                has.meta,
                complete key name has.meta there place.named (
                    unfold meta_path in
                    (read_file (meta_path self bucket name) _ _ d (meta_at host.percent self place)
                      has.sidecar)),
                (has.keyed, has.typed, has.measured),
              )
            ]

  -- After a sequence of puts and deletes under non-empty text keys, all of which succeed, on a disk
  -- that shows a map and on which every object file of the bucket is one of the map's, and as long
  -- as no further system call fails, a listing without delimiter and token answers, and for every
  -- key with a place on the disk: if the key has the prefix and the operations lead to a map that
  -- has it, then the answer is truncated or has an entry with the key, the type, the etag and the
  -- size of the content in the map, and otherwise no entry has the key.
  pub list_objects_v2-performs :
      (ops : List Op) (s : Store) (w : World)
      → Shows host self w.disk s
      → Tidy host self bucket w.disk s
      → All IsText ops
      → (performs host self ops w).0 ≡ ok tt
      → Quiet host.fails (performs host self ops w).1.calls
      → (key name : Bytes) → Place host.percent self bucket key name
      → (prefix : Option Bytes) (max_keys : Option ℕ)
      → (res : ListV2Res) × ((list_objects_v2 host self bucket
            (flat prefix max_keys)
            (performs host self ops w).1).0
          ≡ ok res)
        × Listed key (has_prefix key prefix) (applies ops s bucket key) res
  list_objects_v2-performs ops s w shows tidy texts done quiet key name place prefix max_keys =
      let w' = (performs host self ops w).1 in
      let s' = applies ops s in
      let shows' = performs-Shows host self ops s w texts shows done in
      let tidy' = performs-Tidy host self bucket ops s w texts tidy done in
      let (res, listed, cut, complete, drawn) =
        list_objects_v2-Lists host self bucket prefix max_keys w' place.valid quiet
          (Readable-Tidy w'.disk s' place.valid shows' tidy') in
      (
        res,
        listed,
        Listed-at w'.disk s' place.valid shows' tidy' prefix max_keys res key name place cut
            complete drawn _ _ refl refl,
      )
