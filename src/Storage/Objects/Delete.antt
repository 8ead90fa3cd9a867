-- ===== src/Storage/Objects/Delete.antt =====
-- What `delete_object` leaves on the disk, whichever system calls fail.
use ferrobucket.Base.{◌≡◌, ◌≢◌, ◌⊎◌, inl, inr, refl, ap, sym, ◌∙◌, none, [], ◌∷◌, arith, Bool-cases}
use ferrobucket.Base.Text.{Bytes}
use ferrobucket.FilePath.{FilePath, path_eq, path_eq_iff}
use ferrobucket.Error.{
  Outcome, ok, err, IoError, not_found, already_exists, invalid_data, other, no_such_key,
}
use ferrobucket.Disk.{Disk, lookup, remove}
use ferrobucket.Disk.Table.{lookup-remove, lookup-remove_ne}
use ferrobucket.Disk.Calls.{remove_file, node_at}
use ferrobucket.Act.{World, attempt, ◌>>=◌, call}
use ferrobucket.Act.After.{
  After, AfterAt, After-mono, After-bind, After-lift, After-attempt, After-map_err, After-call_why,
}
use ferrobucket.Host.{Host}
use ferrobucket.Encode.{encode_key}
use ferrobucket.Bucket.{validate_bucket_name}
use ferrobucket.Layout.{FsStorage, object_path, meta_path}
use ferrobucket.Persist.{not_found_as}
use ferrobucket.Persist.Atomic.{SameBut}
use ferrobucket.Storage.Buckets.{absent_as}
use ferrobucket.Storage.Objects.{delete_object}

lookup-remove_self : (p : FilePath) (d : Disk) → lookup p (remove p d) ≡ none
lookup-remove_self p d = ground (arith, lookup-remove p p d, path_eq_iff p p)

remove_file-done : (p : FilePath) (d d' : Disk) → remove_file p d ≡ ok (tt, d') → remove p d ≡ d'
unfolding remove_file
remove_file-done p d d' h = ground arith

pub remove_file-absent :
    (p : FilePath) (d : Disk) → remove_file p d ≡ err not_found → lookup p d ≡ none
unfolding remove_file node_at
remove_file-absent [] d h = absurd (ground arith)
remove_file-absent (c ∷ p) d h = ground arith

-- The path is gone, and nothing else has changed.
abbrev pub Removed : FilePath → Disk → Disk → Type 0
Removed p d d' = (lookup p d' ≡ none) × SameBut p d d'

pub remove_file-Removed :
    (p : FilePath) (d d' : Disk) → remove_file p d ≡ ok (tt, d') → Removed p d d'
remove_file-Removed p d d' h =
    let e : remove p d ≡ d' = remove_file-done p d d' h in
    (rw (← e) (lookup-remove_self p d), λ q ne. rw (← e) (lookup-remove_ne p q d ne))

module _ {H : Type 0} (host : Host H) (p : FilePath) where
  -- Why a removal failed.
  abbrev Refusal : World → IoError → World → Type 0
  Refusal w e w' = (w'.disk ≡ w.disk) × ((e ≡ not_found) → lookup p w.disk ≡ none)

  refusal :
      (w : World) (e : IoError)
      → (remove_file p w.disk ≡ err e) ⊎ (e ≡ other)
      → (e ≡ not_found)
      → lookup p w.disk ≡ none
  refusal w e (inl h) eq = remove_file-absent p w.disk (h ∙ ap err eq)
  refusal w e (inr h) eq = absurd cc

  After-absent_as :
      (w : World) (gone : Outcome IoError (Unit {0})) (w₁ : World)
      → AfterAt (λ _ w'. Removed p w.disk w'.disk) (Refusal w) gone w₁
      → After
          (λ _ w'. Removed p w.disk w'.disk)
          (λ _ w'. w'.disk ≡ w.disk)
          (absent_as {A = Unit {0}} tt gone)
          w₁
  After-absent_as w (ok _) w₁ h = record { at = h }
  After-absent_as w (err not_found) w₁ (same, absent) = record {
    at = (ap (lookup p) same ∙ absent refl, λ q ne. ap (lookup q) same);
  }
  After-absent_as w (err already_exists) w₁ h = record { at = h.0 }
  After-absent_as w (err invalid_data) w₁ h = record { at = h.0 }
  After-absent_as w (err other) w₁ h = record { at = h.0 }

  -- A file that is not there counts as removed.
  pub After-remove_if_there :
      (w : World)
      → After
          (λ _ w'. Removed p w.disk w'.disk)
          (λ _ w'. w'.disk ≡ w.disk)
          (attempt (call host.fails (remove_file p)) >>= (λ gone. absent_as tt gone))
          w
  After-remove_if_there w = After-bind (
      After-mono
        (After-attempt {Q = λ _ w'. Removed p w.disk w'.disk} {R = Refusal w} (
          After-call_why host.fails (remove_file p) (λ _ d h. remove_file-Removed p w.disk d h)
            (λ e why. (refl, refusal w e why))))
        (λ gone w₁ h. After-absent_as w gone w₁ h) (λ _ _ x. x))

module _ {H : Type 0} (host : Host H) (self : FsStorage) (bucket key : Bytes) where
  -- The object's file and its sidecar are gone, and nothing else has changed.
  pub record Deleted (d : Disk) (w : World) : Type 0 where
    pub name : Bytes
    pub named : encode_key host.percent key ≡ ok name
    pub valid : validate_bucket_name bucket ≡ ok tt
    pub no_body : lookup (object_path self bucket name) w.disk ≡ none
    pub no_sidecar : lookup (meta_path self bucket name) w.disk ≡ none
    pub others :
        (q : FilePath)
        → object_path self bucket name ≢ q
        → meta_path self bucket name ≢ q
        → lookup q w.disk ≡ lookup q d

  -- The object's file may be gone; nothing else has changed.
  abbrev pub HalfDeleted : Disk → World → Type 0
  HalfDeleted d w =
      (q : FilePath)
      → (lookup q w.disk ≡ lookup q d)
        ⊎ ((name : Bytes) × (encode_key host.percent key ≡ ok name)
            × (object_path self bucket name ≡ q)
            × (lookup q w.disk ≡ none))

  pub both_gone :
      (d : Disk) (name : Bytes) (d₁ : Disk) (w₂ : World)
      → encode_key host.percent key ≡ ok name
      → validate_bucket_name bucket ≡ ok tt
      → Removed (object_path self bucket name) d d₁
      → Removed (meta_path self bucket name) d₁ w₂.disk
      → Deleted d w₂
  both_gone d name d₁ w₂ named valid (body_gone, same₁) (sidecar_gone, same₂) = record {
    name = name;
    named = named;
    valid = valid;
    no_body =
        elim (Bool-cases (path_eq (meta_path self bucket name) (object_path self bucket name))) [
          | inl e ↦ ap (λ p. lookup p w₂.disk) (sym ((path_eq_iff _ _).0 e)) ∙ sidecar_gone
          | inr ne ↦
              same₂ (object_path self bucket name)
                (λ e. absurd (ground (arith, (path_eq_iff _ _).1 e, ne)))
              ∙ body_gone
        ];
    no_sidecar = sidecar_gone;
    others = λ q nb ns. same₂ q ns ∙ same₁ q nb;
  }

  half_deleted :
      (d : Disk) (name : Bytes) (d₁ : Disk) (w₂ : World)
      → encode_key host.percent key ≡ ok name
      → Removed (object_path self bucket name) d d₁
      → w₂.disk ≡ d₁
      → HalfDeleted d w₂
  half_deleted d name d₁ w₂ named (body_gone, same₁) same q =
      elim (Bool-cases (path_eq (object_path self bucket name) q)) [
        | inl e ↦
            let here : object_path self bucket name ≡ q = (path_eq_iff _ _).0 e in
            inr
              (name, named, here, ap (lookup q) same ∙ ap (λ p. lookup p d₁) (sym here) ∙ body_gone)
        | inr ne ↦
            inl (
              ap (lookup q) same
              ∙ same₁ q (λ e. absurd (ground (arith, (path_eq_iff _ _).1 e, ne))))
      ]

  -- Whichever system calls fail, a delete that succeeds has removed the file of the object and its
  -- sidecar and changed no other path, and one that fails has changed nothing or has removed the
  -- file of the object alone.
  pub After-delete_object :
      (w : World)
      → After
          (λ _ w'. Deleted w.disk w')
          (λ _ w'. HalfDeleted w.disk w')
          (delete_object host self bucket key)
          w
  unfolding delete_object
  After-delete_object w = After-bind (
      After-lift (validate_bucket_name bucket)
        (λ _ valid. After-bind (
          After-lift (encode_key host.percent key)
            (λ name named. After-bind (
              After-map_err (not_found_as (no_such_key key)) (
                After-call_why host.fails (remove_file (object_path self bucket name))
                  (λ _ d h.
                    let gone : Removed (object_path self bucket name) w.disk d =
                      remove_file-Removed _ w.disk d h in
                    After-mono (After-remove_if_there host (meta_path self bucket name) _)
                      (λ _ w₂ removed. both_gone w.disk name d w₂ named valid gone removed)
                      (λ _ w₂ same. half_deleted w.disk name d w₂ named gone same))
                  (λ e why q. inl refl))))
            (λ _ _ q. inl refl)))
        (λ _ _ q. inl refl))
