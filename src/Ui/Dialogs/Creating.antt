-- ===== src/Ui/Dialogs/Creating.antt =====
-- crates/ui/src/islands/create_bucket_modal.rs: the dialog that creates a bucket.
pub mod Single
use ferrobucket.Base.{
  ℕ, zero, suc, ◌≡◌, Bool, true, false, Option, none, some, [], ◌∷◌, if◌then◌else◌, length, drop,
}
use ferrobucket.Base.Text.{Bytes, codes, contains, starts_with}
use ferrobucket.Base.Text.Trim.{is_empty, trim, to_ascii_lowercase}
use ferrobucket.Error.{Outcome, ok, err}

-- `raw.strip_prefix(…).map(trim).unwrap_or(raw.trim())`
abbrev pub stripped : Bytes → Bytes → Bytes
stripped prefix raw = if starts_with raw prefix then trim (drop (length prefix) raw) else trim raw

-- Beyond ASCII no letter becomes one of `reserved` in lower case.
abbrev pub friendly_create_error : Bytes → Bytes
friendly_create_error raw =
    if contains (to_ascii_lowercase raw) (codes "reserved")
    then codes "This name is reserved by the server. Choose a different name."
    else stripped (codes "error running server function:") raw

pub record CreateBucketModal : Type 0 where
  pub is_open : Bool
  pub name : Bytes
  pub error : Option Bytes
  pub loading : Bool

abbrev pub unopened : CreateBucketModal
unopened = record { is_open = false; name = []; error = none; loading = false }

abbrev pub handle_open : CreateBucketModal → CreateBucketModal
handle_open m = record m { is_open = true; name = []; error = none }

abbrev pub handle_dismiss : CreateBucketModal → CreateBucketModal
handle_dismiss m = record m { is_open = false; name = []; error = none }

abbrev pub handle_backdrop : CreateBucketModal → CreateBucketModal
handle_backdrop m = record m { is_open = false; name = []; error = none }

abbrev pub handle_input : Bytes → CreateBucketModal → CreateBucketModal
handle_input value m = record m { name = value }

-- The name that the server is asked to create, if it is asked.
abbrev pub asked_name : CreateBucketModal → Option Bytes
asked_name m = if is_empty (trim m.name) then none else some m.name

abbrev pub handle_submit : CreateBucketModal → CreateBucketModal
handle_submit m =
    if is_empty (trim m.name)
    then record m { error = some (codes "Bucket name cannot be empty.") }
    else record m { loading = true; error = none }

-- `raw` is the text of the server's error, as the framework prints it.
abbrev pub answered : Outcome Bytes (Unit {0}) → CreateBucketModal → CreateBucketModal × Bool
answered (ok _) m = (record m { loading = false; name = []; is_open = false }, true)
answered (err raw) m =
    (record m { loading = false; error = some (friendly_create_error raw) }, false)

-- What the dialog can come to, in whatever order the user acts and the server answers, and the
-- number of requests without an answer. The field and the buttons are disabled while loading; the
-- backdrop is not.
pub data Reached : ℕ → CreateBucketModal → Type 0 where
  start : Reached 0 unopened
  opened : {n : ℕ} {m : CreateBucketModal} → Reached n m → Reached n (handle_open m)
  dismissed :
      {n : ℕ} {m : CreateBucketModal}
      → Reached n m
      → m.is_open ≡ true
      → m.loading ≡ false
      → Reached n (handle_dismiss m)
  left :
      {n : ℕ} {m : CreateBucketModal}
      → Reached n m
      → m.is_open ≡ true
      → Reached n (handle_backdrop m)
  typed :
      (value : Bytes) {n : ℕ} {m : CreateBucketModal}
      → Reached n m
      → m.is_open ≡ true
      → m.loading ≡ false
      → Reached n (handle_input value m)
  refused :
      {n : ℕ} {m : CreateBucketModal}
      → Reached n m
      → m.is_open ≡ true
      → m.loading ≡ false
      → asked_name m ≡ none
      → Reached n (handle_submit m)
  sent :
      (name : Bytes) {n : ℕ} {m : CreateBucketModal}
      → Reached n m
      → m.is_open ≡ true
      → m.loading ≡ false
      → asked_name m ≡ some name
      → Reached (suc n) (handle_submit m)
  answer :
      (r : Outcome Bytes (Unit {0})) {n : ℕ} {m : CreateBucketModal}
      → Reached (suc n) m
      → Reached n (answered r m).0
