-- ===== src/Ui/Dialogs/Confirming.antt =====
-- crates/ui/src/islands/confirm_modal.rs: the dialog that asks before a bucket or an object is
-- deleted.
use ferrobucket.Base.{ℕ, Bool, true, false, ◌++◌, ◌∷◌}
use ferrobucket.Base.Text.{Bytes, codes}
use ferrobucket.Error.{Outcome, ok, err}
use ferrobucket.Act.{Act}
use ferrobucket.Host.{Host}
use ferrobucket.Console.ServerFns.{AppState, delete_bucket_fn, delete_object_fn}

pub data ConfirmAction : Type 0 where
  delete_bucket delete_object : ConfirmAction

abbrev pub quoted : Bytes → Bytes
quoted n = b'"' ∷ (n ++ codes "\"?")

abbrev pub title : ConfirmAction → Bytes → Bytes
title delete_bucket n = codes "Delete bucket " ++ quoted n
title delete_object n = codes "Delete " ++ quoted n

abbrev pub message : ConfirmAction → Bytes
message delete_bucket = codes "This action cannot be undone. All objects inside will be lost."
message delete_object = codes "This action cannot be undone."

abbrev pub confirm_label : ConfirmAction → Bytes
confirm_label delete_bucket = codes "Delete Bucket"
confirm_label delete_object = codes "Delete Object"

abbrev pub dismiss_label : ConfirmAction → Bytes
dismiss_label delete_bucket = codes "Keep Bucket"
dismiss_label delete_object = codes "Keep File"

pub record ConfirmModal : Type 0 where
  pub is_open : Bool
  pub loading : Bool

abbrev pub handle_open : ConfirmModal → ConfirmModal
handle_open m = record m { is_open = true }

abbrev pub handle_dismiss : ConfirmModal → ConfirmModal
handle_dismiss m = record m { is_open = false }

abbrev pub handle_backdrop : ConfirmModal → ConfirmModal
handle_backdrop m = record m { is_open = false }

abbrev pub handle_confirm : ConfirmModal → ConfirmModal
handle_confirm m = record m { loading = true }

-- What the server is asked.
abbrev pub confirmed :
    {H : Type 0}
    → Host H
    → (ℕ → Bytes)
    → AppState
    → ConfirmAction
    → Bytes
    → Bytes
    → Act Bytes (Unit {0})
confirmed host rfc3339 state delete_bucket bucket key = delete_bucket_fn host rfc3339 state bucket
confirmed host rfc3339 state delete_object bucket key =
    delete_object_fn host rfc3339 state bucket key

abbrev pub answered : Outcome Bytes (Unit {0}) → ConfirmModal → ConfirmModal × Bool
answered (ok _) m = (record m { is_open = false; loading = false }, true)
answered (err e) m = (record m { loading = false }, false)
