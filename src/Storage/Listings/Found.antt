-- ===== src/Storage/Listings/Found.antt =====
-- crates/storage/src/list.rs, fs.rs: what ListObjectsV2 finds on the disk.
use ferrobucket.Base.{
  ℕ, suc, ◌≡◌, refl, ap, ◌∙◌, sym, subst, true, inl, inr, Option, some, List, [], ◌∷◌, ◌++◌, map,
  take, All, arith, ltb, length,
}
use ferrobucket.Base.Members.{In, All-take}
use ferrobucket.Base.Sort.{sort, All-sort}
use ferrobucket.Base.Text.{Bytes, codes, str_lt}
use ferrobucket.FilePath.{FilePath, join}
use ferrobucket.Error.{Outcome, ok, StorageError}
use ferrobucket.Disk.{Disk}
use ferrobucket.Disk.Calls.{read, read_dir, names_in, is_dir}
use ferrobucket.Disk.Reads.{read_once}
use ferrobucket.Disk.Names.{read_dir-names}
use ferrobucket.Act.{World, ◌>>=◌}
use ferrobucket.Act.Steps.{Quiet, >>=-step, map_err-done, call-done}
use ferrobucket.Meta.{ObjectMeta}
use ferrobucket.Host.{Host}
use ferrobucket.Encode.{encode_key}
use ferrobucket.Listing.{object}
use ferrobucket.Listing.Members.{matching, flat, list_page-flat}
use ferrobucket.Listing.Page.{max_keys_of}
use ferrobucket.Listing.Page.Walk.{All-filter_prefix}
use ferrobucket.Bucket.{validate_bucket_name}
use ferrobucket.Layout.{FsStorage, bucket_path, objects_dir, meta_dir}
use ferrobucket.Persist.{read_sidecar, parsed}
use ferrobucket.Storage.{exists, stat}
use ferrobucket.Storage.Listings.{
  ListV2Res, decode_names, resolve_items, list_keys, list_objects_v2,
}

module _ {H : Type 0} (host : Host H) where
  -- The key has a sidecar that reads as a record.
  pub record Described (dir : FilePath) (d : Disk) (key : Bytes) : Type 0 where
    pub name : Bytes
    pub meta : ObjectMeta
    pub json : Bytes
    pub named : encode_key host.percent key ≡ ok name
    pub sidecar : read (join dir (name ++ codes ".json")) d ≡ ok (json, d)
    pub read_as : host.object_json.from_slice json ≡ some meta

  module _ (dir : FilePath) where
    -- Every item is answered by the record in its sidecar.
    abbrev pub Complete : List Bytes → Disk → List ObjectMeta → Type 0
    Complete keys d metas =
        (key name : Bytes) (meta : ObjectMeta)
        → In key keys
        → encode_key host.percent key ≡ ok name
        → read (join dir (name ++ codes ".json")) d ≡ ok (host.object_json.to_vec meta, d)
        → In meta metas

    -- Every answer is the record of an item.
    abbrev pub Drawn : List Bytes → Disk → List ObjectMeta → Type 0
    Drawn keys d metas =
        (meta : ObjectMeta)
        → In meta metas
        → (key : Bytes) × In key keys × (h : Described dir d key) × (h.meta ≡ meta)

    abbrev Answered : List Bytes → World → Type 0
    Answered keys w =
        (metas : List ObjectMeta) × (n : ℕ) × (resolve_items host dir (map object keys) w
          ≡ (ok (metas, []), record { disk = w.disk; calls = n }))
        × Complete keys w.disk metas
        × Drawn keys w.disk metas

    pub sidecar_record :
        (d : Disk) (key name : Bytes) (meta : ObjectMeta) (h : Described dir d key)
        → encode_key host.percent key ≡ ok name
        → read (join dir (name ++ codes ".json")) d ≡ ok (host.object_json.to_vec meta, d)
        → h.meta ≡ meta
    sidecar_record d key name meta h named there =
        let same : h.name ≡ name = cc (h.named, named) in
        let at =
          subst (λ n. read (join dir (n ++ codes ".json")) d ≡ ok (h.json, d)) same h.sidecar in
        let bytes : h.json ≡ host.object_json.to_vec meta = sym (read_once _ d d _ _ at there).0 in
        cc (h.read_as, host.object_json.from_slice-to_vec meta, bytes)

    pub same_record : (d : Disk) (key : Bytes) (h h' : Described dir d key) → h.meta ≡ h'.meta
    same_record d key h h' =
        let same : h.name ≡ h'.name = cc (h.named, h'.named) in
        let at =
          subst (λ n. read (join dir (n ++ codes ".json")) d ≡ ok (h.json, d)) same h.sidecar in
        let bytes = (read_once _ d d _ _ at h'.sidecar).0 in cc (h.read_as, h'.read_as, bytes)

    read_sidecar-Described :
        (key : Bytes) (w : World) (h : Described dir w.disk key)
        → Quiet host.fails w.calls
        → read_sidecar host (join dir (h.name ++ codes ".json")) w
          ≡ (ok h.meta, record { disk = w.disk; calls = suc w.calls })
    unfolding read_sidecar
    read_sidecar-Described key w h quiet =
        >>=-step _ _ w (map_err-done host.fails _ w _ (quiet w.calls (omega arith)) h.sidecar)
        ∙ ap (λ o. parsed o (record { disk = w.disk; calls = suc w.calls })) h.read_as

    resolve_items-Answered :
        (keys : List Bytes) (w : World)
        → Quiet host.fails w.calls
        → All (Described dir w.disk) keys
        → Answered keys w
    unfolding resolve_items ◌>>=◌
    resolve_items-Answered [] w quiet h = (
      [],
      w.calls,
      refl,
      λ key name meta there named read. absurd there,
      λ meta there. absurd there,
    )
    resolve_items-Answered (key ∷ keys) w quiet (hk, h) =
        let (metas, n, e, complete, drawn) =
          resolve_items-Answered keys (record { disk = w.disk; calls = suc w.calls })
            (λ m le. quiet m (omega arith)) h in
        (
          hk.meta ∷ metas,
          n,
          rw (hk.named, read_sidecar-Described key w hk quiet, e) refl,
          found metas complete,
          from metas drawn,
        )
      where
        found :
            (metas : List ObjectMeta)
            → Complete keys w.disk metas
            → Complete (key ∷ keys) w.disk (hk.meta ∷ metas)
        found metas complete k name meta (inl e) named at =
            inl (sidecar_record w.disk key name meta hk (rw e named) at)
        found metas complete k name meta (inr there) named at =
            inr (complete k name meta there named at)

        from :
            (metas : List ObjectMeta)
            → Drawn keys w.disk metas
            → Drawn (key ∷ keys) w.disk (hk.meta ∷ metas)
        from metas drawn meta (inl e) = (key, inl refl, hk, e)
        from metas drawn meta (inr there) =
            let (k, at, h, e) = drawn meta there in (k, inr at, h, e)

  stat-there : (p : FilePath) (d : Disk) → is_dir p d ≡ true → stat p d ≡ ok (tt, d)
  unfolding stat is_dir
  stat-there p d there = ground arith

  exists-there :
      (p : FilePath) (w : World)
      → Quiet host.fails w.calls
      → is_dir p w.disk ≡ true
      → exists host p w ≡ (ok true, record { disk = w.disk; calls = suc w.calls })
  unfolding exists ◌>>=◌
  exists-there p w quiet there =
      rw (call-done host.fails (stat p) w (quiet w.calls (omega arith)) (stat-there p w.disk there))
        refl

  module _ (self : FsStorage) (bucket : Bytes) where
    -- The bucket's directories are there, and every key in it has a sidecar that reads.
    pub record Readable (d : Disk) : Type 0 where
      pub place : is_dir (bucket_path self bucket) d ≡ true
      pub objects : is_dir (objects_dir self bucket) d ≡ true
      pub described :
          All
            (Described (meta_dir self bucket) d)
            (decode_names host (names_in (objects_dir self bucket) d))

    abbrev pub keys_in : Disk → List Bytes
    keys_in d = decode_names host (names_in (objects_dir self bucket) d)

    module _ (prefix : Option Bytes) (max_keys : Option ℕ) where
      abbrev pub shown : Disk → List Bytes
      shown d = take (max_keys_of (flat prefix max_keys)) (matching (keys_in d) prefix)

      abbrev pub Lists : (World → Outcome StorageError ListV2Res × World) → World → Type 0
      Lists m w =
          (res : ListV2Res) × ((m w).0 ≡ ok res)
          × (res.is_truncated
              ≡ ltb (max_keys_of (flat prefix max_keys))
                  (length (matching (keys_in w.disk) prefix)))
          × Complete (meta_dir self bucket) (shown w.disk) w.disk res.objects
          × Drawn (meta_dir self bucket) (shown w.disk) w.disk res.objects

      list_keys-Lists :
          (w : World)
          → Quiet host.fails w.calls
          → Readable w.disk
          → Lists (list_keys host self bucket (flat prefix max_keys)) w
      unfolding list_keys ◌>>=◌
      list_keys-Lists w quiet h =
          let (page, paged, same, cut) =
            list_page-flat host.base64 (keys_in w.disk) prefix max_keys in
          let (metas, n, e, complete, drawn) =
            resolve_items-Answered (meta_dir self bucket) (shown w.disk)
              (record { disk = w.disk; calls = suc w.calls }) (λ m le. quiet m (omega arith))
              (All-take _ _ _
                (All-filter_prefix _ prefix _ (All-sort str_lt _ (keys_in w.disk) h.described))) in
          (
            record {
              objects = metas;
              common_prefixes = sort str_lt [];
              next_continuation_token = page.next_continuation_token;
              is_truncated = page.is_truncated;
            },
            rw
                (
                  call-done host.fails (read_dir (objects_dir self bucket)) w
                      (quiet w.calls (omega arith)) (read_dir-names _ w.disk h.objects),
                  paged,
                  same,
                  e,
                )
                refl,
            cut,
            complete,
            drawn,
          )

      pub list_objects_v2-Lists :
          (w : World)
          → validate_bucket_name bucket ≡ ok tt
          → Quiet host.fails w.calls
          → Readable w.disk
          → Lists (list_objects_v2 host self bucket (flat prefix max_keys)) w
      unfolding list_objects_v2 ◌>>=◌
      list_objects_v2-Lists w valid quiet h =
          let (res, done, cut, complete, drawn) =
            list_keys-Lists (record { disk = w.disk; calls = suc w.calls })
              (λ m le. quiet m (omega arith)) h in
          (
            res,
            rw (valid, exists-there (bucket_path self bucket) w quiet h.place) done,
            cut,
            complete,
            drawn,
          )
