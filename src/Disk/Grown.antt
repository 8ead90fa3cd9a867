-- ===== src/Disk/Grown.antt =====
-- What making and removing directories leaves of the paths of a disk.
use ferrobucket.Base.{
  ◌≡◌, refl, ap, sym, ◌∙◌, ◌⊎◌, inl, inr, Bool-cases, true, false, Option, none, some, [], ◌∷◌, ◌<◌,
  arith, length, ◌≢◌,
}
use ferrobucket.Base.Text.{Bytes}
use ferrobucket.FilePath.{FilePath, path_eq, path_eq_iff, path_eq_ne}
use ferrobucket.Error.{Outcome, ok, err, IoError}
use ferrobucket.Disk.{Node, dir, file, Disk, lookup, put}
use ferrobucket.Disk.Table.{lookup-put, lookup-put_self}
use ferrobucket.Disk.Calls.{
  as_call, make_here, make_dirs, create_dir_all, is_under, remove_under, remove_dir_all, read,
  node_at, is_dir,
}

-- A path leads to what it did, or to a directory that was not there.
abbrev pub GrownAt : Disk → Disk → FilePath → Type 0
GrownAt d d' q = (lookup q d' ≡ lookup q d) ⊎ ((lookup q d ≡ none) × (lookup q d' ≡ some dir))

abbrev pub Grown : Disk → Disk → Type 0
Grown d d' = (q : FilePath) → GrownAt d d' q

pub GrownAt-same :
    (q : FilePath) (d d₁ d' : Disk) → lookup q d' ≡ lookup q d₁ → GrownAt d d₁ q → GrownAt d d' q
GrownAt-same q d d₁ d' e (inl h) = inl (e ∙ h)
GrownAt-same q d d₁ d' e (inr (free, made)) = inr (free, e ∙ made)

pub Grown-trans : (d d₁ d' : Disk) → Grown d d₁ → Grown d₁ d' → Grown d d'
Grown-trans d d₁ d' h k q = joined (h q) (k q)
  where
    joined : GrownAt d d₁ q → GrownAt d₁ d' q → GrownAt d d' q
    joined h (inl e) = GrownAt-same q d d₁ d' e h
    joined (inl e) (inr (free, made)) = inr (sym e ∙ free, made)
    joined (inr (free, made)) (inr (free₁, made₁)) = inr (free, made₁)

pub Grown-free : (d d' : Disk) (q : FilePath) → Grown d d' → lookup q d' ≡ none → lookup q d ≡ none
Grown-free d d' q h e = grown (h q)
  where
    grown : GrownAt d d' q → lookup q d ≡ none
    grown (inl same) = sym same ∙ e
    grown (inr (free, made)) = free

pub Grown-dir :
    (d d' : Disk) (q : FilePath) → Grown d d' → lookup q d ≡ some dir → lookup q d' ≡ some dir
Grown-dir d d' q h e = grown (h q)
  where
    grown : GrownAt d d' q → lookup q d' ≡ some dir
    grown (inl same) = same ∙ e
    grown (inr (free, made)) = made

pub Grown-is_dir :
    (d d' : Disk) (q : FilePath) → Grown d d' → is_dir q d ≡ true → is_dir q d' ≡ true
unfolding is_dir node_at
Grown-is_dir d d' [] h e = refl
Grown-is_dir d d' (c ∷ q) h e =
    rw (Grown-dir d d' (c ∷ q) h (dir_there (lookup (c ∷ q) d) e), is_dir) refl
  where
    dir_there :
        (n : Option Node)
        → (elim n [ none ↦ false | some m ↦ elim m [ dir ↦ true | file b ↦ false ] ]) ≡ true
        → n ≡ some dir
    dir_there none h = absurd cc
    dir_there (some dir) h = refl
    dir_there (some (file b)) h = absurd cc

put-GrownAt :
    (p q : FilePath) (d d₁ d' : Disk)
    → lookup p d ≡ none
    → GrownAt d d₁ q
    → put p dir d₁ ≡ d'
    → GrownAt d d' q
put-GrownAt p q d d₁ d' free h e = elim (Bool-cases (path_eq p q)) [
  | inl here ↦ inr (
    ap (λ x. lookup x d) (sym ((path_eq_iff p q).0 here)) ∙ free,
    ap (lookup q) (sym e) ∙ ground (arith, lookup-put p q dir d₁),
  )
  | inr away ↦ rw (← e) (ground (arith, lookup-put p q dir d₁))
]

-- One round: what is above has been made first.
made-GrownAt :
    (p q : FilePath) (d d' : Disk) (here : Option Node) (above : Outcome IoError Disk)
    → lookup p d ≡ here
    → ((d₁ : Disk) → above ≡ ok d₁ → GrownAt d d₁ q)
    → make_here p d above here ≡ ok d'
    → GrownAt d d' q
made-GrownAt p q d d' (some dir) above at ih h = inl (ap (lookup q) cc)
made-GrownAt p q d d' (some (file b)) above at ih h = absurd cc
made-GrownAt p q d d' none (err e) at ih h = absurd cc
made-GrownAt p q d d' none (ok d₁) at ih h = put-GrownAt p q d d₁ d' at (ih d₁ refl) cc

make_dirs-GrownAt : (p q : FilePath) (d d' : Disk) → make_dirs p d ≡ ok d' → GrownAt d d' q
unfolding make_dirs
make_dirs-GrownAt [] q d d' h = inl (ap (lookup q) cc)
make_dirs-GrownAt (c ∷ p) q d d' h =
    made-GrownAt (c ∷ p) q d d' (lookup (c ∷ p) d) (make_dirs p d) refl
      (λ d₁ e. make_dirs-GrownAt p q d d₁ e) h

as_call-ok : (r : Outcome IoError Disk) (d' : Disk) → as_call r ≡ ok (tt, d') → r ≡ ok d'
as_call-ok (ok d) d' h = cc
as_call-ok (err e) d' h = absurd cc

-- Making a directory with those above it takes no file and no directory away.
pub create_dir_all-Grown :
    (p : FilePath) (d d' : Disk) → create_dir_all p d ≡ ok (tt, d') → Grown d d'
unfolding create_dir_all
create_dir_all-Grown p d d' h q = make_dirs-GrownAt p q d d' (as_call-ok (make_dirs p d) d' h)

pub put-Grown : (p : FilePath) (d d' : Disk) → lookup p d ≡ none → put p dir d ≡ d' → Grown d d'
put-Grown p d d' free e q = put-GrownAt p q d d d' free (inl refl) e

make_here-dir :
    (p : FilePath) (d d' : Disk) (here : Option Node) (above : Outcome IoError Disk)
    → lookup p d ≡ here
    → make_here p d above here ≡ ok d'
    → lookup p d' ≡ some dir
make_here-dir p d d' (some dir) above at h = ap (lookup p) (sym same) ∙ at
  where
    same : d ≡ d'
    same = cc
make_here-dir p d d' (some (file b)) above at h = absurd cc
make_here-dir p d d' none (err e) at h = absurd cc
make_here-dir p d d' none (ok d₁) at h = ap (lookup p) (sym made) ∙ lookup-put_self p dir d₁
  where
    made : put p dir d₁ ≡ d'
    made = cc

pub create_dir_all-dir :
    (c : Bytes) (p : FilePath) (d d' : Disk)
    → create_dir_all (c ∷ p) d ≡ ok (tt, d')
    → lookup (c ∷ p) d' ≡ some dir
unfolding create_dir_all make_dirs
create_dir_all-dir c p d d' h =
    make_here-dir (c ∷ p) d d' (lookup (c ∷ p) d) (make_dirs p d) refl (as_call-ok _ d' h)

-- A file that is there reads the same.
pub read-Grown :
    (p : FilePath) (d d' : Disk) (c : Bytes)
    → Grown d d'
    → read p d ≡ ok (c, d)
    → read p d' ≡ ok (c, d')
unfolding read node_at
read-Grown [] d d' c grown h = absurd (ground arith)
read-Grown (x ∷ p) d d' c grown h = ground (arith, grown (x ∷ p), h)

pub lookup-remove_under :
    (p q : FilePath) (d : Disk) → is_under p q ≡ false → lookup q (remove_under p d) ≡ lookup q d
unfolding lookup remove_under
lookup-remove_under p q [] h = refl
lookup-remove_under p q ((r, n) ∷ d) h =
    ground (arith, lookup-remove_under p q d h, path_eq_iff r q, ap (is_under p))

pub remove_dir_all-ok :
    (p : FilePath) (d d' : Disk) → remove_dir_all p d ≡ ok (tt, d') → remove_under p d ≡ d'
unfolding remove_dir_all
remove_dir_all-ok p d d' h = ground arith

-- A path that is no longer than a directory's lies in it only if it is the directory.
is_under_short : (p q : FilePath) → length q < length p → is_under p q ≡ false
unfolding is_under
is_under_short p [] h = ground (arith, path_eq_iff [] p)
is_under_short p (c ∷ q) h =
    rw
      (
        path_eq_ne (c ∷ q) p (λ e. absurd (omega (arith, ap length e, h))),
        is_under_short p q (omega arith),
      )
      refl

-- A name in a directory of a directory lies in a directory of the same depth only if that is its own.
pub is_under_name :
    (p q : FilePath) (c : Bytes) → length q ≡ length p → q ≢ p → is_under p (c ∷ q) ≡ false
unfolding is_under
is_under_name p [] c h ne =
    rw (path_eq_ne (c ∷ []) p (λ e. absurd (omega (arith, ap length e, h))), path_eq_ne [] p ne)
      refl
is_under_name p (x ∷ q) c h ne =
    rw
      (
        path_eq_ne (c ∷ x ∷ q) p (λ e. absurd (omega (arith, ap length e, h))),
        path_eq_ne (x ∷ q) p ne,
        is_under_short p q (omega arith),
      )
      refl
