-- ===== src/Storage.antt =====
-- crates/storage/src/fs.rs: the operations of `FsStorage`.
pub mod Buckets
pub mod Objects
pub mod Listings
pub mod Uploads
pub mod Refines
use ferrobucket.Base.{Bool, true, false, Option, none, some}
use ferrobucket.Error.{Outcome, ok, err, IoError, not_found}
use ferrobucket.FilePath.{FilePath}
use ferrobucket.Disk.Calls.{Call, node_at}
use ferrobucket.Act.{Fs, pure, attempt, ◌>>=◌, call}
use ferrobucket.Host.{Host}

unfoldable pub stat : FilePath → Call (Unit {0})
unfolding node_at
stat p d = elim (node_at p d) [ none ↦ err not_found | some n ↦ ok (tt, d) ]

abbrev pub is_ok : {A : Type 0} → Outcome IoError A → Bool
is_ok (ok a) = true
is_ok (err e) = false

-- `path.exists()`: a failure reads as absence.
unfoldable pub exists : {H : Type 0} → Host H → FilePath → Fs Bool
exists host p = do found ← attempt (call host.fails (stat p)); pure (is_ok found)
