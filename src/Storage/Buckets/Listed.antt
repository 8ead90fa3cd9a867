-- ===== src/Storage/Buckets/Listed.antt =====
-- crates/storage/src/fs.rs: what `list_buckets` finds on the disk.
use ferrobucket.Base.{
  ℕ, suc, ◌≡◌, refl, ap, subst, true, false, inl, inr, Option, none, some, List, [], ◌∷◌, map,
  retain, All, All-retain, arith,
}
use ferrobucket.Base.Members.{In, In-retain, In-map}
use ferrobucket.Base.Text.{Bytes, codes}
use ferrobucket.FilePath.{FilePath, join, join-IsPlain}
use ferrobucket.Error.{ok}
use ferrobucket.Disk.{Node, dir, file, Disk, lookup}
use ferrobucket.Disk.Calls.{read, names_in, is_dir}
use ferrobucket.Disk.Reads.{read_file, read-missing}
use ferrobucket.Disk.Names.{names_in-In, is_dir-there, read_dir-names}
use ferrobucket.Act.{World, ◌>>=◌}
use ferrobucket.Act.After.{After-ok}
use ferrobucket.Act.Steps.{Quiet, call-done, call-refused}
use ferrobucket.Meta.{BucketInfo}
use ferrobucket.Host.{Host}
use ferrobucket.Layout.{FsStorage}
use ferrobucket.Storage.Buckets.{read_dirs, read_infos, list_buckets, create_bucket}
use ferrobucket.Storage.Buckets.Create.{
  After-create_bucket, IsPlain-bucket_json, bucket_json_valid, bucket_path_valid,
}

read_dirs-places :
    (p : FilePath) (d : Disk)
    → is_dir p d ≡ true
    → read_dirs p d ≡ ok (retain (λ q. is_dir q d) (map (λ c. c ∷ p) (names_in p d)), d)
unfolding read_dirs
read_dirs-places p d there = rw (read_dirs, read_dir-names p d there) refl

-- The record of a bucket is absent or reads as one.
module _ {H : Type 0} (host : Host H) where
  abbrev Parsed : Option Node → Type 0
  Parsed none = Unit
  Parsed (some dir) = ⊥
  Parsed (some (file b)) = (info : BucketInfo) × (host.bucket_json.from_slice b ≡ some info)

  abbrev record_at : FilePath → Disk → Option Node
  record_at place d = lookup (codes ".bucket.json" ∷ place) d

  -- Every record on the list of the directories is among the answers.
  abbrev Complete : Disk → List FilePath → List BucketInfo → Type 0
  Complete d places infos =
      (place : FilePath) (info : BucketInfo)
      → In place places
      → record_at place d ≡ some (file (host.bucket_json.to_vec info))
      → In info infos

  abbrev Answered : List FilePath → World → Type 0
  Answered places w =
      (infos : List BucketInfo) × (n : ℕ) × (read_infos host places w
        ≡ (ok infos, record { disk = w.disk; calls = n }))
      × Complete w.disk places infos

  module _ (place : FilePath) (places : List FilePath) (w : World)
      (fine : host.fails w.calls ≡ false) where
    abbrev next : World
    next = record { disk = w.disk; calls = suc w.calls }

    at_record : join place (codes ".bucket.json") ≡ codes ".bucket.json" ∷ place
    at_record = join-IsPlain place (codes ".bucket.json") IsPlain-bucket_json

    Answered-none :
        record_at place w.disk ≡ none → Answered places next → Answered (place ∷ places) w
    unfolding read_infos ◌>>=◌
    Answered-none gone (infos, n, e, complete) = (
      infos,
      n,
      rw
          (call-refused host.fails (read (join place (codes ".bucket.json"))) w fine
            (read-missing _ _ _ w.disk at_record (rw (← at_record) at gone)))
          e,
      passed,
    )
      where
        passed : Complete w.disk (place ∷ places) infos
        passed q info (inl e₁) h = cc
        passed q info (inr there) h = complete q info there h

    Answered-file :
        (b : Bytes) (info : BucketInfo)
        → record_at place w.disk ≡ some (file b)
        → host.bucket_json.from_slice b ≡ some info
        → Answered places next
        → Answered (place ∷ places) w
    unfolding read_infos ◌>>=◌
    Answered-file b info there parsed (infos, n, e, complete) = (
      info ∷ infos,
      n,
      rw
          (
            call-done host.fails (read (join place (codes ".bucket.json"))) w fine
                (read_file _ _ _ w.disk at_record (rw (← at_record) at there)),
            parsed,
            e,
          )
          refl,
      found,
    )
      where
        found : Complete w.disk (place ∷ places) (info ∷ infos)
        found q info' (inl e₁) h =
            let bytes : b ≡ host.bucket_json.to_vec info' = cc in
            let again = host.bucket_json.from_slice-to_vec info' in inl (cc)
        found q info' (inr there) h = inr (complete q info' there h)

    Answered-node :
        (node : Option Node)
        → record_at place w.disk ≡ node
        → Parsed node
        → Answered places next
        → Answered (place ∷ places) w
    Answered-node none at parsed rest = Answered-none at rest
    Answered-node (some dir) at parsed rest = absurd parsed
    Answered-node (some (file b)) at (info, parsed) rest = Answered-file b info at parsed rest

  Answered-All :
      (places : List FilePath) (w : World)
      → Quiet host.fails w.calls
      → All (λ place. Parsed (record_at place w.disk)) places
      → Answered places w
  Answered-All [] w quiet parsed =
      ([], w.calls, unfold read_infos in refl, λ place info there h. absurd there)
  Answered-All (place ∷ places) w quiet (here, parsed) =
      Answered-node place places w (quiet w.calls (omega arith)) (record_at place w.disk) refl here
        (Answered-All places (record { disk = w.disk; calls = suc w.calls })
          (λ m le. quiet m (omega arith)) parsed)

  module _ (self : FsStorage) where
    -- Every record of a bucket below the data directory reads as one.
    abbrev pub Readable : Disk → Type 0
    Readable d = (name : Bytes) → Parsed (record_at (name ∷ self.data_root) d)

    -- The answer of `list_buckets` names every directory with a record.
    abbrev pub Listed : World → Type 0
    Listed w =
        (infos : List BucketInfo) × (n : ℕ) × (list_buckets host self w
          ≡ (ok infos, record { disk = w.disk; calls = n }))
        × ((name : Bytes) (info : BucketInfo)
            → lookup (name ∷ self.data_root) w.disk ≡ some dir
            → record_at (name ∷ self.data_root) w.disk ≡ some (file (host.bucket_json.to_vec info))
            → In info infos)

    abbrev places_in : Disk → List FilePath
    places_in d =
        retain (λ q. is_dir q d) (map (λ c. c ∷ self.data_root) (names_in self.data_root d))

    All-places :
        (d : Disk) (names : List Bytes)
        → Readable d
        → All (λ place. Parsed (record_at place d)) (map (λ c. c ∷ self.data_root) names)
    All-places d [] readable = tt
    All-places d (c ∷ names) readable = (readable c, All-places d names readable)

    list_buckets-Listed :
        (w : World)
        → is_dir self.data_root w.disk ≡ true
        → Readable w.disk
        → Quiet host.fails w.calls
        → Listed w
    unfolding list_buckets ◌>>=◌
    list_buckets-Listed w root readable quiet =
        let (infos, n, e, complete) =
          Answered-All (places_in w.disk) (record { disk = w.disk; calls = suc w.calls })
            (λ m le. quiet m (omega arith))
            (All-retain _ _ _ (All-places w.disk (names_in self.data_root w.disk) readable)) in
        (
          infos,
          n,
          rw
              (call-done host.fails (read_dirs self.data_root) w (quiet w.calls (omega arith))
                (read_dirs-places self.data_root w.disk root))
              e,
          λ name info there recorded.
              complete (name ∷ self.data_root) info
                (In-retain (name ∷ self.data_root) (λ q. is_dir q w.disk) _
                  (is_dir-there name self.data_root w.disk there)
                  (In-map (λ c. c ∷ self.data_root) name _
                    (names_in-In name self.data_root w.disk dir there)))
                recorded,
        )

    -- When a bucket has been created and no further system call fails, and every record of a bucket
    -- on the disk can be read, then the listing answers, and the new bucket is in it.
    pub list_buckets-create_bucket :
        (name : Bytes) (w : World)
        → (create_bucket host self name w).0 ≡ ok tt
        → Readable (create_bucket host self name w).1.disk
        → Quiet host.fails (create_bucket host self name w).1.calls
        → (infos : List BucketInfo) × (info : BucketInfo) × ((list_buckets host self
              (create_bucket host self name w).1).0
            ≡ ok infos)
          × (info.name ≡ name)
          × In info infos
    list_buckets-create_bucket name w done readable quiet =
        let made = After-ok (After-create_bucket host self name w) done in
        let d = (create_bucket host self name w).1.disk in
        let (infos, n, e, complete) = list_buckets-Listed _ made.root readable quiet in
        (
          infos,
          made.info,
          ap (λ r. r.0) e,
          made.named,
          complete name made.info
              (subst (λ p. lookup p d ≡ some dir) (bucket_path_valid host self name made.valid)
                made.place)
              (subst (λ p. lookup p d ≡ some (file (host.bucket_json.to_vec made.info)))
                (bucket_json_valid host self name made.valid) made.recorded),
        )
