-- ===== src/Persist/Partial/Left.antt =====
-- What the calls of several leave on the disk.
use ferrobucket.Base.{
  ◌≡◌, ◌≢◌, refl, ap, sym, subst, ◌∙◌, Bool, true, false, not, ◌&&◌, none, some, [], ◌∷◌, ◌++◌,
  arith, ◌⊎◌, inl, inr, Bool-cases, if◌then◌else◌, ℕ, take, suc,
}
use ferrobucket.Base.Text.{Bytes}
use ferrobucket.FilePath.{FilePath, path_eq_iff, parent}
use ferrobucket.Error.{ok, err, not_found}
use ferrobucket.Disk.{file, Disk, lookup, put}
use ferrobucket.Disk.Table.{lookup-put_self, lookup-put_ne}
use ferrobucket.Disk.Calls.{
  create, append, remove_dir_all, remove_some, remove_under, is_under, is_dir, node_at,
}
use ferrobucket.Disk.Grown.{lookup-remove_under, remove_dir_all-ok}
use ferrobucket.Act.{World, call_left}
use ferrobucket.Act.After.{After, After-mono, After-bind, After-call, After-call_left}
use ferrobucket.Host.{Host}
use ferrobucket.Persist.Partial.{write, clear_dir, disk_after}

create-made :
    (p : FilePath) (d d' : Disk)
    → create p d ≡ ok (tt, d')
    → (put p (file []) d ≡ d') × (is_dir (parent p) d ≡ true) × (p ≢ [])
unfolding create is_dir node_at
create-made [] d d' h = absurd (ground arith)
create-made (c ∷ p) d d' h = (ground arith, ground arith, λ e. cc)

append-put :
    (p : FilePath) (b chunk : Bytes) (d : Disk)
    → p ≢ []
    → lookup p d ≡ some (file b)
    → append p chunk d ≡ ok (tt, put p (file (b ++ chunk)) d)
unfolding append node_at
append-put [] b chunk d ne h = absurd (ne refl)
append-put (c ∷ p) b chunk d ne h = rw (append, h) refl

-- A file holds a content, and no other path has changed.
pub record WrittenAs (p : FilePath) (content : Bytes) (d d' : Disk) : Type 0 where
  pub there : lookup p d' ≡ some (file content)
  pub others : (q : FilePath) → p ≢ q → lookup q d' ≡ lookup q d

-- Nothing has changed, or the file holds a first part of the content.
abbrev pub Cut : FilePath → Bytes → Disk → Disk → Type 0
Cut p content d d' = (d' ≡ d) ⊎ ((n : ℕ) × WrittenAs p (take n content) d d')

put-put-WrittenAs :
    (p : FilePath) (a content : Bytes) (d : Disk)
    → WrittenAs p content d (put p (file content) (put p (file a) d))
put-put-WrittenAs p a content d = record {
  there = lookup-put_self p _ _;
  others = λ q ne. lookup-put_ne p q _ _ ne ∙ lookup-put_ne p q _ d ne;
}

module _ {H : Type 0} (host : Host H) where
  -- A write that fails leaves the file as it was, or cut.
  pub After-write :
      (p : FilePath) (content : Bytes) (w : World)
      → After
          (λ _ w'. WrittenAs p content w.disk w'.disk × (is_dir (parent p) w.disk ≡ true))
          (λ _ w'. Cut p content w.disk w'.disk)
          (write host p content)
          w
  unfolding write
  After-write p content w = After-bind (
      After-mono
        (After-call host.fails {Q = λ _ w₁. Made w₁} {R = λ _ w₁. w₁.disk ≡ w.disk} (create p)
          (λ _ d₁ h. create-made p w.disk d₁ h) (λ _. refl))
        (λ _ w₁ made. filled w₁ made) (λ _ w₁ same. inl same))
    where
      Made : World → Type 0
      Made w₁ = (put p (file []) w.disk ≡ w₁.disk) × (is_dir (parent p) w.disk ≡ true) × (p ≢ [])

      filled :
          (w₁ : World)
          → Made w₁
          → After
              (λ _ w'. WrittenAs p content w.disk w'.disk × (is_dir (parent p) w.disk ≡ true))
              (λ _ w'. Cut p content w.disk w'.disk)
              (call_left host.fails
                (λ n d. disk_after (append p (take (host.short n) content) d) d)
                (append p content))
              w₁
      filled w₁ (made, root, ne) =
          let empty : lookup p w₁.disk ≡ some (file []) =
            ap (lookup p) (sym made) ∙ lookup-put_self p _ w.disk in
          let grown = append-put p [] content w₁.disk ne empty in
          let short = append-put p [] (take (host.short w₁.calls) content) w₁.disk ne empty in
          let held = λ (b : Bytes) (d' : Disk) (same : put p (file b) w₁.disk ≡ d').
            subst (WrittenAs p b w.disk) (ap (put p (file b)) made ∙ same)
              (put-put-WrittenAs p [] b w.disk) in
          After-call_left host.fails _ (append p content)
            (λ _ d' h. (held content d' (cc (grown, h)), root)) (λ e h. absurd (cc (grown, h)))
            (inr (host.short w₁.calls, held _ _ (sym (ap (λ o. disk_after o w₁.disk) short))))

-- Some of a directory is gone, and nothing outside of it has changed.
abbrev pub Thinned : FilePath → Disk → Disk → Type 0
Thinned p d d' =
    (q : FilePath) → (lookup q d' ≡ lookup q d) ⊎ ((is_under p q ≡ true) × (lookup q d' ≡ none))

-- Everything in a directory is gone, and nothing else has changed.
abbrev pub Cleared : FilePath → Disk → Disk → Type 0
Cleared p d d' = (q : FilePath) → lookup q d' ≡ (if is_under p q then none else lookup q d)

lookup-remove_under_in :
    (p q : FilePath) (d : Disk) → is_under p q ≡ true → lookup q (remove_under p d) ≡ none
unfolding lookup remove_under
lookup-remove_under_in p q [] h = refl
lookup-remove_under_in p q ((r, n) ∷ d) h =
    ground (arith, lookup-remove_under_in p q d h, path_eq_iff r q, ap (is_under p))

pub remove_dir_all-Cleared :
    (p : FilePath) (d d' : Disk) → remove_dir_all p d ≡ ok (tt, d') → Cleared p d d'
remove_dir_all-Cleared p d d' h q =
    ap (lookup q) (sym (remove_dir_all-ok p d d' h)) ∙ (elim (Bool-cases (is_under p q)) [
      | inl inside ↦ rw inside (lookup-remove_under_in p q d inside)
      | inr outside ↦ rw outside (lookup-remove_under p q d outside)
    ])

lookup-remove_some :
    (survives : FilePath → Bool) (p q : FilePath) (d : Disk)
    → lookup q (remove_some survives p d)
      ≡ (if is_under p q && not (survives q) then none else lookup q d)
unfolding lookup remove_some
lookup-remove_some survives p q [] = ground arith
lookup-remove_some survives p q ((r, n) ∷ d) =
    ground (arith, lookup-remove_some survives p q d, path_eq_iff r q, ap (is_under p), ap survives)

remove_some-Thinned :
    (survives : FilePath → Bool) (p : FilePath) (d : Disk) → Thinned p d (remove_some survives p d)
remove_some-Thinned survives p d q = ground (arith, lookup-remove_some survives p q d)

through :
    (b : Bool) (p : FilePath) (d : Disk) {d' : Disk}
    → (if b then remove_dir_all p d else err not_found) ≡ ok (tt, d')
    → Cleared p d d'
through true p d h = remove_dir_all-Cleared p d _ h
through false p d h = absurd cc

left_Thinned :
    (b : Bool) (survives : FilePath → Bool) (p : FilePath) (d : Disk)
    → Thinned p d (if b then remove_some survives p d else d)
left_Thinned true survives p d q = remove_some-Thinned survives p d q
left_Thinned false survives p d q = inl refl

module _ {H : Type 0} (host : Host H) where
  -- A removal that fails may have removed some of what is in the directory.
  pub After-clear_dir :
      (from p : FilePath) (w : World)
      → After
          (λ _ w'. Cleared p w.disk w'.disk)
          (λ _ w'. Thinned p w.disk w'.disk)
          (clear_dir host from p)
          w
  unfolding clear_dir
  After-clear_dir from p w =
      After-call_left host.fails _ _ (λ _ d' h. through (is_dir from w.disk) p w.disk h)
        (λ e h q. inl refl) (left_Thinned (is_dir from w.disk) (host.survives w.calls) p w.disk)

  -- A removal of a directory that is there succeeds where no call fails of itself.
  pub clear_dir-done :
      (from p : FilePath) (w : World) {d' : Disk}
      → is_dir from w.disk ≡ true
      → host.fails w.calls ≡ false
      → remove_dir_all p w.disk ≡ ok (tt, d')
      → clear_dir host from p w ≡ (ok tt, record { disk = d'; calls = suc w.calls })
  unfolding clear_dir call_left
  clear_dir-done from p w root fine h = rw (fine, root, h) refl
