-- ===== src/Storage/Buckets/Keep.antt =====
-- crates/storage/src/fs.rs: what `delete_bucket` never does.
use ferrobucket.Base.{◌≡◌, ◌≢◌, subst, not, some, List, [], ◌∷◌, arith}
use ferrobucket.Base.Text.{Bytes, codes}
use ferrobucket.FilePath.{FilePath, path_eq_iff, join}
use ferrobucket.Error.{
  Outcome, ok, err, IoError, not_found, already_exists, invalid_data, other, io, bucket_not_empty,
  StorageError,
}
use ferrobucket.Disk.{file, Disk, lookup}
use ferrobucket.Disk.Table.{lookup-remove}
use ferrobucket.Disk.Calls.{node_at, read_dir, remove_dir, remove_file, is_nil}
use ferrobucket.Act.{World, attempt, call, ◌>>=◌, ◌>>◌}
use ferrobucket.Act.Keeps.{Keeps, Keeps-done, Keeps-attempt, Keeps-bind, Keeps-if, Keeps-call}
use ferrobucket.Act.After.{After, After-bind, After-lift}
use ferrobucket.Host.{Host}
use ferrobucket.Bucket.{validate_bucket_name}
use ferrobucket.Layout.{FsStorage, bucket_path, objects_dir, meta_dir}
use ferrobucket.Layout.Contained.{objects_dir_valid, meta_dir_valid}
use ferrobucket.Bucket.Rules.{join_valid}
use ferrobucket.Storage.{exists, stat}
use ferrobucket.Storage.Buckets.{absent_as, remove_dir_guarded, delete_bucket, left_behind, guarded}

-- Every file but one is still there with its content.
abbrev pub FilesKept : FilePath → Disk → Disk → Type 0
FilesKept p d d' =
    (q : FilePath) (b : Bytes) → p ≢ q → lookup q d ≡ some (file b) → lookup q d' ≡ some (file b)

remove_dir-FilesKept :
    (c : Bytes) (p json : FilePath) (d d₁ d' : Disk)
    → FilesKept json d d₁
    → remove_dir (c ∷ p) d₁ ≡ ok (tt, d')
    → FilesKept json d d'
unfolding remove_dir node_at
remove_dir-FilesKept c p json d d₁ d' kept h q b ne there =
    ground (arith, kept q b ne there, lookup-remove (c ∷ p) q d₁, path_eq_iff (c ∷ p) q, h)

pub remove_file-FilesKept :
    (p : FilePath) (d d₁ d' : Disk)
    → FilesKept p d d₁
    → remove_file p d₁ ≡ ok (tt, d')
    → FilesKept p d d'
unfolding remove_file node_at
remove_file-FilesKept [] d d₁ d' kept h q b ne there = absurd (ground arith)
remove_file-FilesKept (c ∷ p) d d₁ d' kept h q b ne there =
    ground (arith, kept q b ne there, lookup-remove (c ∷ p) q d₁, path_eq_iff (c ∷ p) q, h)

read_dir-same : (p : FilePath) (d d' : Disk) (ns : List Bytes) → read_dir p d ≡ ok (ns, d') → d ≡ d'
unfolding read_dir
read_dir-same p d d' ns h = ground arith

module _ {H : Type 0} (host : Host H) (name : Bytes) (json : FilePath) (d : Disk) where
  -- The property that every step keeps.
  abbrev P : Disk → Type 0
  P = FilesKept json d

  Keeps-exists : (p : FilePath) (w : World) → P w.disk → Keeps P (exists host p) w
  unfolding exists
  Keeps-exists p w kept =
      Keeps-bind P
        (Keeps-attempt P
          (Keeps-call P host.fails (stat p) w kept (λ a d' h. subst P (stat-same a d' h) kept)))
        (λ o w₁ k. Keeps-done P (ok _) w₁ k)
    where
      stat-same : (a : Unit {0}) (d' : Disk) → stat p w.disk ≡ ok (a, d') → w.disk ≡ d'
      stat-same a d' h = unfold stat in ground arith

  Keeps-read_dir :
      (p : FilePath) (w : World)
      → P w.disk
      → Keeps P {E = StorageError} (attempt (call host.fails (read_dir p))) w
  Keeps-read_dir p w kept = Keeps-attempt P (
      Keeps-call P host.fails (read_dir p) w kept
        (λ ns d' h. subst P (read_dir-same p w.disk d' ns h) kept))

  Keeps-absent_as :
      {A : Type 0} (a : A) (o : Outcome IoError A) (w : World)
      → P w.disk
      → Keeps P (absent_as a o) w
  Keeps-absent_as a (ok b) w kept = Keeps-done P (ok b) w kept
  Keeps-absent_as a (err not_found) w kept = Keeps-done P (ok a) w kept
  Keeps-absent_as a (err already_exists) w kept = Keeps-done P (err (io already_exists)) w kept
  Keeps-absent_as a (err invalid_data) w kept = Keeps-done P (err (io invalid_data)) w kept
  Keeps-absent_as a (err other) w kept = Keeps-done P (err (io other)) w kept

  Keeps-remove_dir :
      (c : Bytes) (p dir_path : FilePath) (w : World)
      → dir_path ≡ c ∷ p
      → P w.disk
      → Keeps P {E = StorageError} (attempt (call host.fails (remove_dir dir_path))) w
  Keeps-remove_dir c p dir_path w e kept = Keeps-attempt P (
      Keeps-call P host.fails (remove_dir dir_path) w kept
        (λ a d' h. remove_dir-FilesKept c p json d w.disk d' kept (rw e at h)))

  Keeps-left_behind :
      (e : IoError) (o : Outcome IoError (List Bytes)) (w : World)
      → P w.disk
      → Keeps P (left_behind host name e o) w
  Keeps-left_behind e (err x) w kept = Keeps-done P (err (io e)) w kept
  Keeps-left_behind e (ok names) w kept =
      Keeps-if P (is_nil names) (Keeps-done P (err (io e)) w kept)
        (Keeps-done P (err (bucket_not_empty name)) w kept)

  Keeps-refused_dir :
      (dir_path : FilePath) (e : IoError) (w : World)
      → P w.disk
      → Keeps P
          (attempt (call host.fails (read_dir dir_path)) >>= (λ o. left_behind host name e o))
          w
  Keeps-refused_dir dir_path e w kept =
      Keeps-bind P (Keeps-read_dir dir_path w kept) (Keeps-left_behind e)

  Keeps-guarded :
      (dir_path : FilePath) (o : Outcome IoError (Unit {0})) (w : World)
      → P w.disk
      → Keeps P (guarded host dir_path name o) w
  Keeps-guarded dir_path (ok a) w kept = Keeps-done P (ok tt) w kept
  Keeps-guarded dir_path (err not_found) w kept = Keeps-done P (ok tt) w kept
  Keeps-guarded dir_path (err already_exists) w kept =
      Keeps-refused_dir dir_path already_exists w kept
  Keeps-guarded dir_path (err invalid_data) w kept = Keeps-refused_dir dir_path invalid_data w kept
  Keeps-guarded dir_path (err other) w kept = Keeps-refused_dir dir_path other w kept

  Keeps-remove_dir_guarded :
      (c : Bytes) (p dir_path : FilePath) (w : World)
      → dir_path ≡ c ∷ p
      → P w.disk
      → Keeps P (remove_dir_guarded host dir_path name) w
  unfolding remove_dir_guarded
  Keeps-remove_dir_guarded c p dir_path w e kept =
      Keeps-bind P (Keeps-remove_dir c p dir_path w e kept) (Keeps-guarded dir_path)

module _ {H : Type 0} (host : Host H) (self : FsStorage) (name : Bytes) where
  -- The record of the bucket.
  abbrev pub bucket_json : FilePath
  bucket_json = join (bucket_path self name) (codes ".bucket.json")

  -- Whatever the outcome and whichever system calls fail, deleting a bucket leaves every file on the
  -- disk but the record of the bucket as it is, so no object and no sidecar is ever lost by it.
  pub After-delete_bucket :
      (w : World)
      → After
          (λ _ w'. FilesKept bucket_json w.disk w'.disk)
          (λ _ w'. FilesKept bucket_json w.disk w'.disk)
          (delete_bucket host self name)
          w
  unfolding delete_bucket
  After-delete_bucket w = After-bind (
      After-lift (validate_bucket_name name)
        (λ _ valid.
          Keeps-bind P₀ (Keeps-exists host name bucket_json w.disk (bucket_path self name) w start)
            (λ there w₁ k₁. Keeps-if P₀ (not there) (Keeps-done P₀ (err _) w₁ k₁) (
              Keeps-bind P₀
                (Keeps-read_dir host name bucket_json w.disk (objects_dir self name) w₁ k₁)
                (λ listed w₂ k₂.
                  Keeps-bind P₀ (Keeps-absent_as host name bucket_json w.disk [] listed w₂ k₂)
                    (λ names w₃ k₃.
                      Keeps-if P₀ (not (is_nil names)) (Keeps-done P₀ (err _) w₃ k₃)
                        (removal valid w₃ k₃))))))
        (λ _ _. start))
    where
      P₀ : Disk → Type 0
      P₀ = FilesKept bucket_json w.disk

      removal :
          validate_bucket_name name ≡ ok tt
          → (w₃ : World) → P₀ w₃.disk
          → Keeps P₀
              (remove_dir_guarded host (objects_dir self name) name
                >> (remove_dir_guarded host (meta_dir self name) name
                    >> (attempt (call host.fails (remove_file bucket_json)) >>= (λ gone.
                        absent_as tt gone
                        >> (attempt (call host.fails (remove_dir (bucket_path self name)))
                            >>= (λ removed. absent_as tt removed))))))
              w₃
      removal valid w₃ k₃ =
          Keeps-bind P₀
            (Keeps-remove_dir_guarded host name bucket_json w.disk (codes "objects") _ _ w₃
              (objects_dir_valid self name valid) k₃)
            (λ _ w₄ k₄.
              Keeps-bind P₀
                (Keeps-remove_dir_guarded host name bucket_json w.disk (codes "meta") _ _ w₄
                  (meta_dir_valid self name valid) k₄)
                (λ _ w₅ k₅.
                  Keeps-bind P₀
                    (Keeps-attempt P₀ (
                      Keeps-call P₀ host.fails (remove_file bucket_json) w₅ k₅
                        (λ a d' h. remove_file-FilesKept bucket_json w.disk w₅.disk d' k₅ h)))
                    (λ gone w₆ k₆.
                      Keeps-bind P₀ (Keeps-absent_as host name bucket_json w.disk tt gone w₆ k₆)
                        (λ _ w₇ k₇.
                          Keeps-bind P₀
                            (Keeps-remove_dir host name bucket_json w.disk name self.data_root
                              (bucket_path self name) w₇
                              (unfold bucket_path in join_valid self.data_root name valid) k₇)
                            (λ removed w₈ k₈.
                              Keeps-absent_as host name bucket_json w.disk tt removed w₈ k₈)))))

      start : FilesKept bucket_json w.disk w.disk
      start q b ne there = there
