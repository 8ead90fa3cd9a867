-- ===== src/Disk/Calls.antt =====
-- The calls of `std::fs`, `tokio::fs` and `tempfile` that the program makes, on a disk on which
-- nothing goes wrong but what the disk itself forbids.
use ferrobucket.Base.{
  Bool, true, false, ◌||◌, ◌&&◌, not, Option, none, some, List, [], ◌∷◌, ◌++◌, if◌then◌else◌,
}
use ferrobucket.Base.Text.{Bytes}
use ferrobucket.FilePath.{FilePath, path_eq, parent}
use ferrobucket.Error.{Outcome, ok, err, IoError, not_found, already_exists, other, ◌>>=◌}
use ferrobucket.Disk.{Node, dir, file, Disk, lookup, remove, put}

-- The file system's root is always there.
unfoldable pub node_at : FilePath → Disk → Option Node
node_at [] d = some dir
node_at (c ∷ p) d = lookup (c ∷ p) d

unfoldable pub is_dir : FilePath → Disk → Bool
unfolding node_at
is_dir p d = elim (node_at p d) [ none ↦ false | some n ↦ elim n [ dir ↦ true | file b ↦ false ] ]

-- The names in a directory, in the order of the table.
unfoldable pub names_in : FilePath → Disk → List Bytes
names_in p [] = []
names_in p (([], n) ∷ d) = names_in p d
names_in p ((c ∷ q, n) ∷ d) = let rest = names_in p d in if path_eq q p then c ∷ rest else rest

-- The path lies in the directory, or is the directory.
unfoldable pub is_under : FilePath → FilePath → Bool
is_under p [] = path_eq [] p
is_under p (c ∷ q) = path_eq (c ∷ q) p || is_under p q

unfoldable pub remove_under : FilePath → Disk → Disk
unfolding is_under
remove_under p [] = []
remove_under p ((q, n) ∷ d) =
    let rest = remove_under p d in if is_under p q then rest else (q, n) ∷ rest

-- Some of what is in the directory is left.
unfoldable pub remove_some : (FilePath → Bool) → FilePath → Disk → Disk
unfolding is_under
remove_some survives p [] = []
remove_some survives p ((q, n) ∷ d) =
    let rest = remove_some survives p d in
    if is_under p q && not (survives q) then rest else (q, n) ∷ rest

abbrev pub Call : Type 0 → Type 0
Call A = Disk → Outcome IoError (A × Disk)

unfoldable pub read : FilePath → Call Bytes
unfolding node_at
read p d = elim (node_at p d) [
  | none ↦ err not_found
  | some n ↦ elim n [ dir ↦ err other | file b ↦ ok (b, d) ]
]

-- `create_dir`
unfoldable pub create_dir : FilePath → Call (Unit {0})
unfolding node_at is_dir
create_dir p d = elim (node_at p d) [
  | some n ↦ err already_exists
  | none ↦ if is_dir (parent p) d then ok (tt, put p dir d) else err not_found
]

abbrev pub make_here : FilePath → Disk → Outcome IoError Disk → Option Node → Outcome IoError Disk
make_here p d above (some dir) = ok d
make_here p d above (some (file b)) = err already_exists
make_here p d above none = do d' ← above; ok (put p dir d')

-- What is above is made first.
unfoldable pub make_dirs : FilePath → Disk → Outcome IoError Disk
make_dirs [] d = ok d
make_dirs (c ∷ p) d = let above = make_dirs p d in make_here (c ∷ p) d above (lookup (c ∷ p) d)

abbrev pub as_call : Outcome IoError Disk → Outcome IoError (Unit {0} × Disk)
as_call made = do d ← made; ok (tt, d)

-- `create_dir_all`
unfoldable pub create_dir_all : FilePath → Call (Unit {0})
unfolding make_dirs
create_dir_all p d = as_call (make_dirs p d)

-- A new, empty file; the name is taken already only by a rare accident.
unfoldable pub create_new : FilePath → Call (Unit {0})
unfolding node_at is_dir
create_new p d = elim (node_at p d) [
  | some n ↦ err already_exists
  | none ↦ if is_dir (parent p) d then ok (tt, put p (file []) d) else err not_found
]

-- `write_all` on an open file appends.
unfoldable pub append : FilePath → Bytes → Call (Unit {0})
unfolding node_at
append p chunk d = elim (node_at p d) [
  | none ↦ err not_found
  | some n ↦ elim n [ dir ↦ err other | file b ↦ ok (tt, put p (file (b ++ chunk)) d) ]
]

-- `File::create`: the file is made, or emptied.
unfoldable pub create : FilePath → Call (Unit {0})
unfolding is_dir
create p d =
    if is_dir p d
    then err other
    else if is_dir (parent p) d
    then ok (tt, put p (file []) d)
    else err not_found

-- `rename` of a file onto a path that is no directory.
unfoldable pub rename : FilePath → FilePath → Call (Unit {0})
unfolding node_at is_dir
rename from to d = elim (node_at from d) [
  | none ↦ err not_found
  | some n ↦ elim n [
    | dir ↦ err other
    | file b ↦
        (if is_dir to d
          then err other
          else if is_dir (parent to) d
          then ok (tt, put to (file b) (remove from d))
          else err not_found)
  ]
]

unfoldable pub remove_file : FilePath → Call (Unit {0})
unfolding node_at
remove_file p d = elim (node_at p d) [
  | none ↦ err not_found
  | some n ↦ elim n [ dir ↦ err other | file b ↦ ok (tt, remove p d) ]
]

abbrev pub is_nil : List Bytes → Bool
is_nil [] = true
is_nil (c ∷ cs) = false

unfoldable pub read_dir : FilePath → Call (List Bytes)
unfolding node_at names_in
read_dir p d = elim (node_at p d) [
  | none ↦ err not_found
  | some n ↦ elim n [ dir ↦ ok (names_in p d, d) | file b ↦ err other ]
]

-- `remove_dir` is not recursive.
unfoldable pub remove_dir : FilePath → Call (Unit {0})
unfolding node_at names_in
remove_dir p d = elim (node_at p d) [
  | none ↦ err not_found
  | some n ↦ elim n [
    | dir ↦ (if is_nil (names_in p d) then ok (tt, remove p d) else err other)
    | file b ↦ err other
  ]
]

unfoldable pub remove_dir_all : FilePath → Call (Unit {0})
unfolding node_at remove_under
remove_dir_all p d = elim (node_at p d) [
  | none ↦ err not_found
  | some n ↦ elim n [ dir ↦ ok (tt, remove_under p d) | file b ↦ err other ]
]
