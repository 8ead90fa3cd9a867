-- ===== src/Disk/Names.antt =====
-- What a directory of the disk lists.
use ferrobucket.Base.{
  ◌≡◌, ◌≢◌, Bool, false, if◌then◌else◌, refl, true, Bool-cases, inl, inr, some, [], ◌∷◌, arith,
}
use ferrobucket.Base.Members.{In, In-if}
use ferrobucket.Base.Text.{Bytes}
use ferrobucket.FilePath.{FilePath, path_eq, path_eq_iff}
use ferrobucket.Error.{ok}
use ferrobucket.Disk.{Node, dir, Disk, lookup}
use ferrobucket.Disk.Calls.{read_dir, names_in, is_dir, node_at}

-- A path that leads somewhere has a name in its directory.
pub names_in-In :
    (c : Bytes) (p : FilePath) (d : Disk) (n : Node)
    → lookup (c ∷ p) d ≡ some n
    → In c (names_in p d)
unfolding lookup names_in
names_in-In c p [] n h = absurd (cc)
names_in-In c p (([], m) ∷ d) n h = names_in-In c p d n (ground (arith, path_eq_iff [] (c ∷ p)))
names_in-In c p ((b ∷ q, m) ∷ d) n h = elim (Bool-cases (path_eq (b ∷ q) (c ∷ p))) [
  | inl here ↦
      let e = (path_eq_iff (b ∷ q) (c ∷ p)).0 here in
      let same : q ≡ p = cc in let first : b ≡ c = cc in rw ((path_eq_iff q p).1 same) (inl first)
  | inr away ↦ In-if c (path_eq q p) b (names_in p d) (names_in-In c p d n (rw away at h))
]

pub is_dir-there :
    (c : Bytes) (p : FilePath) (d : Disk) → lookup (c ∷ p) d ≡ some dir → is_dir (c ∷ p) d ≡ true
unfolding is_dir node_at
is_dir-there c p d there = rw (there, is_dir) refl

pub read_dir-names :
    (p : FilePath) (d : Disk) → is_dir p d ≡ true → read_dir p d ≡ ok (names_in p d, d)
unfolding read_dir is_dir node_at
read_dir-names [] d there = refl
read_dir-names (c ∷ p) d there = ground arith

-- A name in a directory leads somewhere.
pub names_in-lookup :
    (c : Bytes) (p : FilePath) (d : Disk)
    → In c (names_in p d)
    → (n : Node) × (lookup (c ∷ p) d ≡ some n)
unfolding lookup names_in
names_in-lookup c p [] there = absurd there
names_in-lookup c p (([], m) ∷ d) there =
    let (n, found) = names_in-lookup c p d there in
    (n, ground (arith, path_eq_iff [] (c ∷ p), found))
names_in-lookup c p ((b ∷ q, m) ∷ d) there = elim (Bool-cases (path_eq (b ∷ q) (c ∷ p))) [
  | inl here ↦ (m, rw here refl)
  | inr away ↦
      let (n, found) = names_in-lookup c p d (
        later (path_eq q p) there
          (λ same e. absurd (ground (arith, path_eq_iff q p, path_eq_iff (b ∷ q) (c ∷ p))))) in
      (n, rw away found)
]
  where
    later :
        (same : Bool)
        → In c (if same then b ∷ names_in p d else names_in p d)
        → (same ≡ true → b ≢ c)
        → In c (names_in p d)
    later true (inl e) other = absurd (other refl e)
    later true (inr further) other = further
    later false further other = further
