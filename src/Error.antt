-- ===== src/Error.antt =====
-- crates/storage/src/lib.rs: the errors of the storage layer, and results that carry them.
-- An I/O error keeps its `ErrorKind`, as far as the storage layer looks at it.
use ferrobucket.Base.{Option, none, some}
use ferrobucket.Base.Text.{Bytes}
use ferrobucket.Base.Int.{ℤ}

pub data IoError : Type 0 where
  not_found already_exists invalid_data other : IoError

pub data StorageError : Type 0 where
  no_such_bucket no_such_key bucket_not_empty bucket_already_exists : Bytes → StorageError
  invalid_bucket_name key_too_long : Bytes → StorageError
  invalid_key invalid_continuation_token range_not_satisfiable : StorageError
  no_such_upload : Bytes → StorageError
  invalid_part_number : ℤ → StorageError
  io : IoError → StorageError

-- Rust's `Result<A, E>`, and the one with this crate's errors.
pub data Outcome (E A : Type 0) : Type 0 where
  ok : A → Outcome E A
  err : E → Outcome E A

abbrev pub Result : Type 0 → Type 0
Result A = Outcome StorageError A

infixl 5 ◌>>=◌
abbrev pub ◌>>=◌ : {E A B : Type 0} → Outcome E A → (A → Outcome E B) → Outcome E B
ok a >>= f = f a
err e >>= f = err e

-- `Option::ok_or`
abbrev pub ok_or : {E A : Type 0} → Option A → E → Outcome E A
ok_or none e = err e
ok_or (some a) e = ok a
