-- ===== src/Storage/Buckets/Create.antt =====
-- crates/storage/src/fs.rs: what `create_bucket` leaves on the disk.
use ferrobucket.Base.{
  ℕ, suc, take, ◌⊎◌, inr, ◌≡◌, ◌≢◌, refl, ap, sym, ◌∙◌, subst, none, some, true, [], ◌∷◌, arith,
  inl, length,
}
use ferrobucket.Base.Text.{Bytes, codes}
use ferrobucket.FilePath.{FilePath, parent, join-IsPlain, IsPlain}
use ferrobucket.Error.{
  Outcome, ok, err, IoError, not_found, already_exists, invalid_data, other, io,
}
use ferrobucket.Disk.{dir, file, Disk, lookup, put}
use ferrobucket.Disk.Table.{lookup-put_self}
use ferrobucket.Disk.Calls.{create_dir, create_dir_all, is_dir, node_at}
use ferrobucket.Disk.Grown.{
  GrownAt, GrownAt-same, Grown, Grown-trans, Grown-free, Grown-dir, Grown-is_dir, put-Grown,
  create_dir_all-Grown, create_dir_all-dir,
}
use ferrobucket.Act.{World, ◌>>=◌, ◌>>◌, call_io, map_err}
use ferrobucket.Act.After.{
  After, After-mono, After-bind, After-lift, After-attempt, After-call, After-call_io,
  After-map_err, AfterAt,
}
use ferrobucket.Meta.{BucketInfo}
use ferrobucket.Host.{Host}
use ferrobucket.Bucket.{validate_bucket_name}
use ferrobucket.Bucket.Rules.{join_valid}
use ferrobucket.Layout.{FsStorage, bucket_path, objects_dir, meta_dir}
use ferrobucket.Layout.Contained.{objects_dir_valid, meta_dir_valid}
use ferrobucket.Persist.Partial.{write}
use ferrobucket.Persist.Partial.Left.{Cut, After-write}
use ferrobucket.Storage.Buckets.{create_bucket, claimed, bucket_info}
use ferrobucket.Storage.Buckets.Keep.{bucket_json}

pub IsPlain-bucket_json : IsPlain (codes ".bucket.json")
IsPlain-bucket_json = record {
  no_slash = omega arith;
  not_empty = λ e. cc;
  not_dot = λ e. cc;
  not_dot_dot = λ e. cc;
}

create_dir-made :
    (p : FilePath) (c : Bytes) (q : FilePath) (d d' : Disk)
    → p ≡ c ∷ q
    → create_dir p d ≡ ok (tt, d')
    → (lookup p d ≡ none) × (put p dir d ≡ d') × (is_dir q d ≡ true)
unfolding create_dir node_at is_dir parent
create_dir-made [] c q d d' e h = absurd cc
create_dir-made (x ∷ p) c q d d' e h =
    let same : parent (x ∷ p) ≡ q = ap parent e in
    (ground arith, ground arith, subst (λ r. is_dir r d ≡ true) same (ground arith))

kept_dir :
    (p : FilePath) (d d' : Disk) → lookup p d' ≡ lookup p d → is_dir p d ≡ true → is_dir p d' ≡ true
unfolding is_dir node_at
kept_dir [] d d' same h = refl
kept_dir (c ∷ p) d d' same h = rw (same, is_dir) h

module _ {H : Type 0} (host : Host H) (self : FsStorage) (name : Bytes) where
  -- The bucket that was not there before has its directories and its record, and nothing else has
  -- changed but to a new directory.
  pub record Created (d : Disk) (w : World) : Type 0 where
    pub valid : validate_bucket_name name ≡ ok tt
    pub fresh : lookup (bucket_path self name) d ≡ none
    pub place : lookup (bucket_path self name) w.disk ≡ some dir
    pub root : is_dir self.data_root w.disk ≡ true
    pub objects : lookup (objects_dir self name) w.disk ≡ some dir
    pub meta : lookup (meta_dir self name) w.disk ≡ some dir
    pub info : BucketInfo
    pub named : info.name ≡ name
    pub recorded :
        lookup (bucket_json host self name) w.disk ≡ some (file (host.bucket_json.to_vec info))
    pub others : (q : FilePath) → bucket_json host self name ≢ q → GrownAt d w.disk q

  -- A bucket that could not be made, or was there: nothing has changed but to a new directory, or
  -- the record of a bucket that was not there is cut short.
  abbrev pub Uncreated : Disk → World → Type 0
  Uncreated d w =
      Grown d w.disk
      ⊎ ((lookup (bucket_path self name) d ≡ none)
          × (info : BucketInfo) × (n : ℕ) × (lookup (bucket_json host self name) w.disk
              ≡ some (file (take n (host.bucket_json.to_vec info))))
          × ((q : FilePath) → bucket_json host self name ≢ q → GrownAt d w.disk q))

  module _ (valid : validate_bucket_name name ≡ ok tt) where
    pub bucket_path_valid : bucket_path self name ≡ name ∷ self.data_root
    bucket_path_valid = unfold bucket_path in join_valid self.data_root name valid

    pub bucket_json_valid :
        bucket_json host self name ≡ codes ".bucket.json" ∷ name ∷ self.data_root
    bucket_json_valid =
        join-IsPlain (bucket_path self name) (codes ".bucket.json") IsPlain-bucket_json
        ∙ ap (λ p. codes ".bucket.json" ∷ p) bucket_path_valid

    bucket_json-ne-objects : bucket_json host self name ≢ objects_dir self name
    bucket_json-ne-objects e = cc (bucket_json_valid, objects_dir_valid self name valid, e)

    bucket_json-ne-meta : bucket_json host self name ≢ meta_dir self name
    bucket_json-ne-meta e = cc (bucket_json_valid, meta_dir_valid self name valid, e)

    bucket_json-ne-place : bucket_json host self name ≢ bucket_path self name
    bucket_json-ne-place e =
        absurd (omega (arith, ap length (sym bucket_json_valid ∙ e ∙ bucket_path_valid)))

    bucket_json-ne-root : bucket_json host self name ≢ self.data_root
    bucket_json-ne-root e = absurd (omega (arith, ap length (sym bucket_json_valid ∙ e)))

    -- The record is written last.
    written :
        (d : Disk) (info : BucketInfo) (w : World)
        → info.name ≡ name
        → Grown d w.disk
        → lookup (bucket_path self name) d ≡ none
        → lookup (bucket_path self name) w.disk ≡ some dir
        → is_dir self.data_root w.disk ≡ true
        → lookup (objects_dir self name) w.disk ≡ some dir
        → lookup (meta_dir self name) w.disk ≡ some dir
        → After
            (λ _ w'. Created d w')
            (λ _ w'. Uncreated d w')
            (map_err io (write host (bucket_json host self name) (host.bucket_json.to_vec info)))
            w
    written d info w named grown fresh place root objects meta = After-map_err io (
        After-mono (After-write host (bucket_json host self name) (host.bucket_json.to_vec info) w)
          (λ _ w' (made, here). record {
            valid = valid;
            fresh = fresh;
            place = made.others _ bucket_json-ne-place ∙ place;
            root =
                kept_dir self.data_root w.disk w'.disk
                  (made.others self.data_root bucket_json-ne-root) root;
            objects = made.others _ bucket_json-ne-objects ∙ objects;
            meta = made.others _ bucket_json-ne-meta ∙ meta;
            info = info;
            named = named;
            recorded = made.there;
            others = λ q ne. GrownAt-same q d w.disk w'.disk (made.others q ne) (grown q);
          })
          (λ _ w' left. unwritten w' left))
      where
        unwritten :
            (w' : World)
            → Cut (bucket_json host self name) (host.bucket_json.to_vec info) w.disk w'.disk
            → Uncreated d w'
        unwritten w' (inl same) = inl (subst (Grown d) (sym same) grown)
        unwritten w' (inr (n, cut)) = inr (
          fresh,
          info,
          n,
          cut.there,
          λ q ne. GrownAt-same q d w.disk w'.disk (cut.others q ne) (grown q),
        )

    made_dir :
        (d : Disk) (w : World)
        → Grown d w.disk
        → (p : FilePath) (c : Bytes) (q : FilePath) → p ≡ c ∷ q
        → After
            (λ _ w'. (lookup p w'.disk ≡ some dir) × Grown w.disk w'.disk × Grown d w'.disk)
            (λ _ w'. Grown d w'.disk)
            (call_io host.fails (create_dir_all p))
            w
    made_dir d w grown p c q e =
        After-call_io host.fails (create_dir_all p)
          (λ _ d' h.
            let new = create_dir_all-Grown p w.disk d' h in
            (
              subst (λ x. lookup x d' ≡ some dir) (sym e)
                  (create_dir_all-dir c q w.disk d' (rw e at h)),
              new,
              Grown-trans d w.disk d' grown new,
            ))
          (λ _. grown)

    -- What follows once the directory of the bucket has been made.
    furnished :
        (d : Disk) (w : World)
        → Grown d w.disk
        → lookup (bucket_path self name) d ≡ none
        → lookup (bucket_path self name) w.disk ≡ some dir
        → is_dir self.data_root w.disk ≡ true
        → After
            (λ _ w'. Created d w')
            (λ _ w'. Uncreated d w')
            (call_io host.fails (create_dir_all (objects_dir self name))
              >> (call_io host.fails (create_dir_all (meta_dir self name))
                  >> (bucket_info host self name >>= (λ info.
                      map_err io
                        (write host (bucket_json host self name) (host.bucket_json.to_vec info))))))
            w
    furnished d w grown fresh place root = After-bind (
        After-mono
          (made_dir d w grown (objects_dir self name) _ _ (objects_dir_valid self name valid))
          (λ _ w₁ (objects, new₁, grown₁). After-bind (
            After-mono
              (made_dir d w₁ grown₁ (meta_dir self name) _ _ (meta_dir_valid self name valid))
              (λ _ w₂ (meta, new₂, grown₂). After-bind (record {
                at =
                    written d _ w₂ refl grown₂ fresh
                      (Grown-dir w₁.disk w₂.disk _ new₂ (Grown-dir w.disk w₁.disk _ new₁ place))
                      (Grown-is_dir w₁.disk w₂.disk _ new₂
                        (Grown-is_dir w.disk w₁.disk _ new₁ root))
                      (Grown-dir w₁.disk w₂.disk _ new₂ objects) meta;
              }))
              (λ _ _ x. inl x)))
          (λ _ _ x. inl x))

  -- Whichever system calls fail, creating a bucket either succeeds, for a valid name under which
  -- there was nothing, and has made its directories and its record, or fails; and no other path has
  -- changed but to a new directory, except that a creation which fails under a name that was free
  -- can leave the record cut short.
  pub After-create_bucket :
      (w : World)
      → After
          (λ _ w'. Created w.disk w')
          (λ _ w'. Uncreated w.disk w')
          (create_bucket host self name)
          w
  unfolding create_bucket
  After-create_bucket w = After-bind (
      After-lift (validate_bucket_name name)
        (λ _ valid. After-bind (
          After-mono
            (After-call_io host.fails {Q = λ _ w₁. Grown w.disk w₁.disk}
              {R = λ _ w₁. Grown w.disk w₁.disk} (create_dir_all (parent (bucket_path self name)))
              (λ _ d₁ h. create_dir_all-Grown _ w.disk d₁ h) (λ _ q. inl refl))
            (λ _ w₁ grown₁. After-bind (
              After-mono
                (After-attempt (
                  After-call host.fails {Q = λ _ w₂. Placed valid w.disk w₂}
                    {R = λ _ w₂. Grown w.disk w₂.disk} (create_dir (bucket_path self name))
                    (λ _ d₂ h. placed valid w.disk w₁ d₂ grown₁ h) (λ _. grown₁)))
                (λ made w₂ k. After-bind (rest valid made w₂ k)) (λ _ _ x. inl x)))
            (λ _ _ x. inl x)))
        (λ _ _. inl (λ q. inl refl)))
    where
      Placed : validate_bucket_name name ≡ ok tt → Disk → World → Type 0
      Placed valid d w₂ =
          Grown d w₂.disk
          × (lookup (bucket_path self name) d ≡ none)
          × (lookup (bucket_path self name) w₂.disk ≡ some dir)
          × (is_dir self.data_root w₂.disk ≡ true)

      placed :
          (valid : validate_bucket_name name ≡ ok tt) (d : Disk) (w₁ : World) (d₂ : Disk)
          → Grown d w₁.disk
          → create_dir (bucket_path self name) w₁.disk ≡ ok (tt, d₂)
          → Placed valid d (record { disk = d₂; calls = suc w₁.calls })
      placed valid d w₁ d₂ grown₁ h =
          let (free, made, root) =
            create_dir-made (bucket_path self name) _ _ w₁.disk d₂ (bucket_path_valid valid) h in
          (
            Grown-trans d w₁.disk d₂ grown₁
                (put-Grown (bucket_path self name) w₁.disk d₂ free made),
            Grown-free d w₁.disk (bucket_path self name) grown₁ free,
            ap (lookup (bucket_path self name)) (sym made)
                ∙ lookup-put_self (bucket_path self name) dir w₁.disk,
            Grown-is_dir w₁.disk d₂ self.data_root
                (put-Grown (bucket_path self name) w₁.disk d₂ free made) root,
          )

      rest :
          (valid : validate_bucket_name name ≡ ok tt) (made : Outcome IoError (Unit {0}))
          (w₂ : World)
          → AfterAt (λ _ w₂. Placed valid w.disk w₂) (λ _ w₂. Grown w.disk w₂.disk) made w₂
          → After
              (λ _ w₃.
                After
                  (λ _ w'. Created w.disk w')
                  (λ _ w'. Uncreated w.disk w')
                  (call_io host.fails (create_dir_all (objects_dir self name))
                    >> (call_io host.fails (create_dir_all (meta_dir self name))
                        >> (bucket_info host self name >>= (λ info. map_err io (
                            write host
                              (bucket_json host self name)
                              (host.bucket_json.to_vec info))))))
                  w₃)
              (λ _ w'. Uncreated w.disk w')
              (claimed host self name made)
              w₂
      rest valid (ok a) w₂ (grown, fresh, place, root) = record {
        at = furnished valid w.disk w₂ grown fresh place root;
      }
      rest valid (err not_found) w₂ grown = record { at = inl grown }
      rest valid (err already_exists) w₂ grown = record { at = inl grown }
      rest valid (err invalid_data) w₂ grown = record { at = inl grown }
      rest valid (err other) w₂ grown = record { at = inl grown }
