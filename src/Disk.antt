-- ===== src/Disk.antt =====
-- The file system as `std::fs` and `tokio::fs` show it: a table of paths. Only directories and
-- regular files occur; the order of the table is the unspecified order of `read_dir`.
pub mod Table
pub mod Calls
pub mod Grown
pub mod Reads
pub mod Names
use ferrobucket.Base.{ℕ, Bool, Option, none, some, List, [], ◌∷◌, if◌then◌else◌}
use ferrobucket.Base.Text.{Bytes}
use ferrobucket.FilePath.{FilePath, path_eq}

pub data Node : Type 0 where
  dir : Node
  file : Bytes → Node

abbrev pub Disk : Type 0
Disk = List (FilePath × Node)

unfoldable pub lookup : FilePath → Disk → Option Node
lookup p [] = none
lookup p ((q, n) ∷ d) = if path_eq q p then some n else lookup p d

unfoldable pub remove : FilePath → Disk → Disk
remove p [] = []
remove p ((q, n) ∷ d) = let rest = remove p d in if path_eq q p then rest else (q, n) ∷ rest

unfoldable pub put : FilePath → Node → Disk → Disk
unfolding remove
put p n d = (p, n) ∷ remove p d
