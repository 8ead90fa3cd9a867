-- ===== src/Disk/Reads.antt =====
-- What reading a file gives.
use ferrobucket.Base.{◌≡◌, none, some, [], ◌∷◌, arith}
use ferrobucket.Base.Text.{Bytes}
use ferrobucket.FilePath.{FilePath}
use ferrobucket.Error.{ok, err, not_found}
use ferrobucket.Disk.{file, Disk, lookup}
use ferrobucket.Disk.Calls.{read, node_at}

pub read_file :
    (p : FilePath) (c : Bytes) (q : FilePath) (d : Disk) {b : Bytes}
    → p ≡ c ∷ q
    → lookup p d ≡ some (file b)
    → read p d ≡ ok (b, d)
unfolding read node_at
read_file [] c q d e h = absurd cc
read_file (x ∷ p) c q d e h = ground (arith, h)

pub read_once :
    (p : FilePath) (d d' : Disk) (b c : Bytes)
    → read p d ≡ ok (c, d)
    → read p d ≡ ok (b, d')
    → (b ≡ c) × (d' ≡ d)
read_once p d d' b c h h' = (cc, cc)

pub read-missing :
    (p : FilePath) (c : Bytes) (q : FilePath) (d : Disk)
    → p ≡ c ∷ q
    → lookup p d ≡ none
    → read p d ≡ err not_found
unfolding read node_at
read-missing [] c q d e h = absurd cc
read-missing (x ∷ p) c q d e h = ground (arith, h)
