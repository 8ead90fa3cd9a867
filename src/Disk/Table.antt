-- ===== src/Disk/Table.antt =====
-- The laws of the table of paths, in terms of what a path leads to.
use ferrobucket.Base.{◌≡◌, ◌≢◌, none, some, [], ◌∷◌, arith, if◌then◌else◌}
use ferrobucket.FilePath.{FilePath, path_eq, path_eq_iff}
use ferrobucket.Disk.{Node, Disk, lookup, remove, put}

pub lookup-remove :
    (p q : FilePath) (d : Disk) → lookup q (remove p d) ≡ (if path_eq p q then none else lookup q d)
unfolding lookup remove
lookup-remove p q [] = ground arith
lookup-remove p q ((r, n) ∷ d) =
    ground (arith, lookup-remove p q d, path_eq_iff r p, path_eq_iff r q, path_eq_iff p q)

pub lookup-put :
    (p q : FilePath) (n : Node) (d : Disk)
    → lookup q (put p n d) ≡ (if path_eq p q then some n else lookup q d)
unfolding put lookup
lookup-put p q n d = ground (arith, lookup-remove p q d)

pub lookup-put_self : (p : FilePath) (n : Node) (d : Disk) → lookup p (put p n d) ≡ some n
lookup-put_self p n d = ground (arith, lookup-put p p n d, path_eq_iff p p)

pub lookup-put_ne :
    (p q : FilePath) (n : Node) (d : Disk) → p ≢ q → lookup q (put p n d) ≡ lookup q d
lookup-put_ne p q n d ne = ground (arith, lookup-put p q n d, path_eq_iff p q)

pub lookup-remove_ne : (p q : FilePath) (d : Disk) → p ≢ q → lookup q (remove p d) ≡ lookup q d
lookup-remove_ne p q d ne = ground (arith, lookup-remove p q d, path_eq_iff p q)
