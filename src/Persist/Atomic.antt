-- ===== src/Persist/Atomic.antt =====
-- A file that is persisted appears at its target whole or not at all.
use ferrobucket.Base.{◌≡◌, ◌≢◌, refl, ap, subst, sym, ◌∙◌, none, some, [], ◌∷◌, arith}
use ferrobucket.Base.Text.{Bytes}
use ferrobucket.FilePath.{FilePath, path_eq_iff}
use ferrobucket.Error.{Outcome, ok, err, IoError, StorageError, io}
use ferrobucket.Disk.{file, Disk, lookup, remove, put}
use ferrobucket.Disk.Table.{
  lookup-put, lookup-remove, lookup-put_self, lookup-put_ne, lookup-remove_ne,
}
use ferrobucket.Disk.Calls.{create_new, rename, remove_file}
use ferrobucket.Act.{World, Fs, attempt, ignore, ◌>>=◌, call_io}
use ferrobucket.Act.After.{
  After, AfterAt, After-mono, After-bind, After-call, After-call_io, After-attempt, After-ignore,
}
use ferrobucket.Host.{Host}
use ferrobucket.Persist.{temp_path, create_temp, clean_up, settle, move_into_place, persist}

-- Nothing differs but at one path.
abbrev pub SameBut : FilePath → Disk → Disk → Type 0
SameBut p d d' = (q : FilePath) → p ≢ q → lookup q d' ≡ lookup q d

create_new-ok :
    (c : Bytes) (p : FilePath) (d d' : Disk)
    → create_new (c ∷ p) d ≡ ok (tt, d')
    → (put (c ∷ p) (file []) d ≡ d') × (lookup (c ∷ p) d ≡ none)
unfolding create_new
create_new-ok c p d d' h = (ground arith, ground arith)

rename-ok :
    (c : Bytes) (p to : FilePath) (d d' : Disk) {content : Bytes}
    → lookup (c ∷ p) d ≡ some (file content)
    → rename (c ∷ p) to d ≡ ok (tt, d')
    → put to (file content) (remove (c ∷ p) d) ≡ d'
unfolding rename
rename-ok c p to d d' at h = ground arith

remove_file-ok :
    (c : Bytes) (p : FilePath) (d d' : Disk)
    → remove_file (c ∷ p) d ≡ ok (tt, d')
    → remove (c ∷ p) d ≡ d'
unfolding remove_file
remove_file-ok c p d d' h = ground arith

module _ {H : Type 0} (host : Host H) where
  After-create_temp :
      (dir_path : FilePath) (w : World)
      → After
          (λ p w'.
            (temp_path host dir_path w ≡ p)
            × (lookup (temp_path host dir_path w) w.disk ≡ none)
            × (lookup (temp_path host dir_path w) w'.disk ≡ some (file []))
            × SameBut (temp_path host dir_path w) w.disk w'.disk)
          (λ e w'. w'.disk ≡ w.disk)
          (create_temp host dir_path)
          w
  unfolding create_temp
  After-create_temp dir_path w = After-bind (record {
    at = After-bind (
        After-call_io host.fails _
          (λ _ d h.
            let (made, free) = create_new-ok (host.temp_name w.calls) dir_path w.disk d h in
            record {
              at = (
                refl,
                free,
                rw (← made) (lookup-put_self _ _ _),
                λ q ne. rw (← made) (lookup-put_ne _ q _ _ ne),
              );
            })
          (λ e. refl));
  })

  module _ (name : Bytes) (dir_path : FilePath) where
    abbrev tmp : FilePath
    tmp = name ∷ dir_path

    After-remove_temp :
        {N : StorageError → World → Type 0} (w : World)
        → After
            (λ _ w'. SameBut tmp w.disk w'.disk)
            N
            (ignore (call_io host.fails (remove_file tmp)))
            w
    After-remove_temp w = After-ignore (
        After-call_io host.fails _
          (λ _ d h q ne.
            let gone : remove tmp w.disk ≡ d = remove_file-ok name dir_path w.disk d h in
            rw (← gone) (lookup-remove_ne _ q _ ne))
          (λ e q ne. refl))

    After-clean_up :
        {A : Type 0} {Q : A → World → Type 0} (e : StorageError) (w : World)
        → After Q (λ _ w'. SameBut tmp w.disk w'.disk) (clean_up host tmp e) w
    unfolding clean_up
    After-clean_up e w =
        After-bind
          (After-mono (After-remove_temp w) (λ _ w₁ same. record { at = same }) (λ _ w₁ same. same))

    module _ (target : FilePath) {A : Type 0} (content : Bytes) (a : A) where
      After-settle :
          (moved : Outcome IoError (Unit {0})) (w w₁ : World)
          → AfterAt
              (λ _ w'. put target (file content) (remove tmp w.disk) ≡ w'.disk)
              (λ _ w'. w'.disk ≡ w.disk)
              moved
              w₁
          → After
              (λ b w'. (b ≡ a) × (put target (file content) (remove tmp w.disk) ≡ w'.disk))
              (λ _ w'. SameBut tmp w.disk w'.disk)
              (settle host tmp a moved)
              w₁
      unfolding settle
      After-settle (ok _) w w₁ h = record { at = (refl, h) }
      After-settle (err e) w w₁ h =
          After-mono (After-clean_up (io e) w₁) (λ _ w₂ x. x)
            (λ _ w₂ same q ne. same q ne ∙ ap (lookup q) h)

      -- A written temporary file is renamed onto the target, or nothing but it is changed.
      After-move :
          (w : World)
          → lookup tmp w.disk ≡ some (file content)
          → After
              (λ b w'. (b ≡ a) × (put target (file content) (remove tmp w.disk) ≡ w'.disk))
              (λ _ w'. SameBut tmp w.disk w'.disk)
              (move_into_place host tmp target (ok a))
              w
      unfolding move_into_place
      After-move w full = After-bind (
          After-mono
            (After-attempt (
              After-call host.fails _ (λ _ d h. rename-ok name dir_path target w.disk d full h)
                (λ e. refl)))
            (λ moved w₁ h. After-settle moved w w₁ h) (λ _ w₁ x. x))

-- Files are persisted by a writer that leaves `content` in the new temporary file when it succeeds,
-- and touches nothing else. The disk has not changed since `d` but for that file.
pub record Writes (d : Disk) (dir_path : FilePath) (content : Bytes) {A : Type 0} (F : A → Type 0)
    (writer : FilePath → Fs A) : Type 0 where
  pub at :
      (name : Bytes) (w : World)
      → lookup (name ∷ dir_path) d ≡ none
      → SameBut (name ∷ dir_path) d w.disk
      → lookup (name ∷ dir_path) w.disk ≡ some (file [])
      → After
          (λ a w'.
            F a
            × (lookup (name ∷ dir_path) w'.disk ≡ some (file content))
            × SameBut (name ∷ dir_path) w.disk w'.disk)
          (λ _ w'. SameBut (name ∷ dir_path) w.disk w'.disk)
          (writer (name ∷ dir_path))
          w

-- What the renaming leaves, from the disk before the temporary file was made.
moved-SameBut :
    (p target : FilePath) (content : Bytes) (d d₁ d₂ : Disk)
    → lookup p d ≡ none
    → SameBut p d d₁
    → put target (file content) (remove p d₁) ≡ d₂
    → SameBut target d d₂
moved-SameBut p target content d d₁ d₂ free same e q ne = rw (← e) (
    ground (
      arith,
      lookup-put target q (file content) (remove p d₁),
      lookup-remove p q d₁,
      path_eq_iff target q,
      path_eq_iff p q,
      same q,
      free,
    ))

abbrev pub Persisted : FilePath → Bytes → {A : Type 0} → (A → Type 0) → Disk → A → World → Type 0
Persisted target content F d a w =
    F a × (lookup target w.disk ≡ some (file content)) × SameBut target d w.disk

module _ {H : Type 0} (host : Host H) (dir_path target : FilePath) {A : Type 0} where
  After-written :
      (name content : Bytes) (F : A → Type 0) (d : Disk) (written : Outcome StorageError A)
      (w : World)
      → lookup (name ∷ dir_path) d ≡ none
      → AfterAt
          (λ a w'.
            F a
            × (lookup (name ∷ dir_path) w'.disk ≡ some (file content))
            × SameBut (name ∷ dir_path) d w'.disk)
          (λ _ w'. SameBut (name ∷ dir_path) d w'.disk)
          written
          w
      → After
          (Persisted target content F d)
          (λ _ w'. SameBut (name ∷ dir_path) d w'.disk)
          (move_into_place host (name ∷ dir_path) target written)
          w
  After-written name content F d (ok a) w free (fa, full, same) =
      After-mono (After-move host name dir_path target content a w full)
        (λ b w' (eq, moved). (
          subst F (sym eq) fa,
          rw (← moved) (lookup-put_self target (file content) (remove (name ∷ dir_path) w.disk)),
          moved-SameBut (name ∷ dir_path) target content d w.disk w'.disk free same moved,
        ))
        (λ _ w' kept q ne. kept q ne ∙ same q ne)
  After-written name content F d (err e) w free same =
      unfold move_into_place in
      After-mono (After-clean_up host name dir_path e w) (λ _ _ x. x)
        (λ _ w' kept q ne. kept q ne ∙ same q ne)

  -- Whichever system calls fail, writing by temporary file and rename either leaves the whole
  -- content at the target and changes no other path, or fails and changes no path but that of the
  -- temporary file.
  pub After-persist :
      (content : Bytes) (F : A → Type 0) (writer : FilePath → Fs A)
      → (w : World) → Writes w.disk dir_path content F writer
      → After
          (Persisted target content F w.disk)
          (λ _ w'. SameBut (temp_path host dir_path w) w.disk w'.disk)
          (persist host dir_path target writer)
          w
  unfolding persist
  After-persist content F writer w writes = After-bind (
      After-mono (After-create_temp host dir_path w)
        (λ p w₁ (eq, free, empty, same).
          subst
            (λ tmp.
              After (Persisted target content F w.disk)
                (λ _ w'. SameBut (temp_path host dir_path w) w.disk w'.disk)
                (attempt (writer tmp) >>= (λ written. move_into_place host tmp target written)) w₁)
            eq
            (After-bind (
              After-mono (After-attempt (writes.at (host.temp_name w.calls) w₁ free same empty))
                (λ written w₂ h.
                  After-written (host.temp_name w.calls) content F w.disk written w₂ free
                    (from_start w₁.disk written w₂ same h))
                (λ _ _ x. x))))
        (λ e w₁ same q ne. ap (lookup q) same))
    where
      from_start :
          (d₁ : Disk) (written : Outcome StorageError A) (w₂ : World)
          → SameBut (temp_path host dir_path w) w.disk d₁
          → AfterAt
              (λ a w'.
                F a
                × (lookup (temp_path host dir_path w) w'.disk ≡ some (file content))
                × SameBut (temp_path host dir_path w) d₁ w'.disk)
              (λ _ w'. SameBut (temp_path host dir_path w) d₁ w'.disk)
              written
              w₂
          → AfterAt
              (λ a w'.
                F a
                × (lookup (temp_path host dir_path w) w'.disk ≡ some (file content))
                × SameBut (temp_path host dir_path w) w.disk w'.disk)
              (λ _ w'. SameBut (temp_path host dir_path w) w.disk w'.disk)
              written
              w₂
      from_start d₁ (ok a) w₂ same (fa, full, kept) = (fa, full, λ q ne. kept q ne ∙ same q ne)
      from_start d₁ (err e) w₂ same kept = λ q ne. kept q ne ∙ same q ne
