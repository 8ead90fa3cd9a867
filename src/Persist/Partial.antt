-- ===== src/Persist/Partial.antt =====
-- The calls of std::fs and tokio::fs that are many system calls, and may end half done.
pub mod Left
use ferrobucket.Base.{ℕ, take, if◌then◌else◌}
use ferrobucket.Base.Text.{Bytes}
use ferrobucket.FilePath.{FilePath}
use ferrobucket.Error.{Outcome, ok, err, IoError, not_found}
use ferrobucket.Disk.{Disk}
use ferrobucket.Disk.Calls.{create, append, remove_dir_all, remove_some, is_dir}
use ferrobucket.Act.{Io, call, call_left, ◌>>=◌, ◌>>◌}
use ferrobucket.Host.{Host}

-- The disk after a call, if the disk does not forbid it.
abbrev pub disk_after : Outcome IoError (Unit {0} × Disk) → Disk → Disk
disk_after (ok (_, d')) d = d'
disk_after (err e) d = d

module _ {H : Type 0} (host : Host H) where
  -- `fs::write`: the file is made or emptied, then written.
  unfoldable pub write : FilePath → Bytes → Io (Unit {0})
  write p content =
      call host.fails (create p)
      >> call_left host.fails (λ n d. disk_after (append p (take (host.short n) content) d) d)
          (append p content)

  -- `fs::remove_dir_all` of what a name leads to from a directory. The system follows `..` in the
  -- name only where that directory is there.
  unfoldable pub clear_dir : FilePath → FilePath → Io (Unit {0})
  clear_dir from p =
      call_left host.fails (λ n d. if is_dir from d then remove_some (host.survives n) p d else d)
        (λ d. if is_dir from d then remove_dir_all p d else err not_found)
