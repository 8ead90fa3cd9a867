-- ===== src/Ui/Dialogs/Panel.antt =====
-- crates/ui/src/islands/slide_over.rs: the panel that shows an object.
pub mod Shown
use ferrobucket.Base.{ℕ, zero, suc, ◌≡◌, Bool, true, false, Option, none, some, []}
use ferrobucket.Base.Text.{Bytes, split}
use ferrobucket.Base.Text.Trim.{last_part}
use ferrobucket.Error.{Outcome, ok, err}
use ferrobucket.Console.ServerFns.{ObjectDetail}

pub record SlideOver : Type 0 where
  pub is_open : Bool
  pub loading : Bool
  pub delete_confirm_open : Bool
  pub deleting : Bool
  pub presign_copied : Bool
  pub presigning : Bool
  pub metadata : Option (Outcome Bytes ObjectDetail)

abbrev pub opened_page : SlideOver
opened_page = record {
  is_open = false;
  loading = false;
  delete_confirm_open = false;
  deleting = false;
  presign_copied = false;
  presigning = false;
  metadata = none;
}

abbrev pub title : Bytes → Bytes
title object_key = last_part (split b'/' object_key)

-- Whether opening the panel asks for the metadata.
abbrev pub asks : Option (Outcome Bytes ObjectDetail) → Bool
asks none = true
asks (some r) = false

-- The metadata are loaded until there is an answer.
abbrev pub loading_from : Option (Outcome Bytes ObjectDetail) → Bool → Bool
loading_from none loading = true
loading_from (some r) loading = loading

abbrev pub handle_open : SlideOver → SlideOver
handle_open p = record p { is_open = true; loading = loading_from p.metadata p.loading }

abbrev pub head_answered : Outcome Bytes ObjectDetail → SlideOver → SlideOver
head_answered r p = record p { metadata = some r; loading = false }

abbrev pub handle_close : SlideOver → SlideOver
handle_close p = record p { is_open = false; delete_confirm_open = false }

abbrev pub handle_backdrop : SlideOver → SlideOver
handle_backdrop p = record p { is_open = false; delete_confirm_open = false }

abbrev pub handle_presign : SlideOver → SlideOver
handle_presign p = record p { presigning = true; presign_copied = false }

abbrev pub presign_answered : SlideOver → SlideOver
presign_answered p = record p { presigning = false }

-- The address has been written to the clipboard.
abbrev pub set_copied : SlideOver → SlideOver
set_copied p = record p { presign_copied = true }

abbrev pub handle_delete_open : SlideOver → SlideOver
handle_delete_open p = record p { delete_confirm_open = true }

abbrev pub handle_delete_dismiss : SlideOver → SlideOver
handle_delete_dismiss p = record p { delete_confirm_open = false }

abbrev pub handle_delete_confirm : SlideOver → SlideOver
handle_delete_confirm p = record p { deleting = true }

-- With whether the page is loaded again.
abbrev pub delete_answered : Outcome Bytes (Unit {0}) → SlideOver → SlideOver × Bool
delete_answered (ok _) p =
    (record p { is_open = false; delete_confirm_open = false; deleting = false }, true)
delete_answered (err e) p = (record p { deleting = false }, false)

-- What the panel can come to, in whatever order the user acts and the server answers, with the
-- numbers of requests for metadata and for the deletion that have no answer. An address may be
-- answered, and be copied, at any time. The button that
-- deletes is there while the confirmation is open, and disabled while deleting.
pub data Reached : ℕ → ℕ → SlideOver → Type 0 where
  start : Reached 0 0 opened_page
  opened_first :
      {heads deletes : ℕ} {p : SlideOver}
      → Reached heads deletes p
      → asks p.metadata ≡ true
      → Reached (suc heads) deletes (handle_open p)
  opened_again :
      {heads deletes : ℕ} {p : SlideOver}
      → Reached heads deletes p
      → asks p.metadata ≡ false
      → Reached heads deletes (handle_open p)
  loaded :
      (r : Outcome Bytes ObjectDetail) {heads deletes : ℕ} {p : SlideOver}
      → Reached (suc heads) deletes p
      → Reached heads deletes (head_answered r p)
  closed :
      {heads deletes : ℕ} {p : SlideOver}
      → Reached heads deletes p
      → p.is_open ≡ true
      → Reached heads deletes (handle_close p)
  left :
      {heads deletes : ℕ} {p : SlideOver}
      → Reached heads deletes p
      → p.is_open ≡ true
      → Reached heads deletes (handle_backdrop p)
  presigned :
      {heads deletes : ℕ} {p : SlideOver}
      → Reached heads deletes p
      → p.is_open ≡ true
      → Reached heads deletes (handle_presign p)
  presign_done :
      {heads deletes : ℕ} {p : SlideOver}
      → Reached heads deletes p
      → Reached heads deletes (presign_answered p)
  copied :
      {heads deletes : ℕ} {p : SlideOver}
      → Reached heads deletes p
      → Reached heads deletes (set_copied p)
  delete_opened :
      {heads deletes : ℕ} {p : SlideOver}
      → Reached heads deletes p
      → p.is_open ≡ true
      → Reached heads deletes (handle_delete_open p)
  delete_dismissed :
      {heads deletes : ℕ} {p : SlideOver}
      → Reached heads deletes p
      → p.delete_confirm_open ≡ true
      → Reached heads deletes (handle_delete_dismiss p)
  delete_confirmed :
      {heads deletes : ℕ} {p : SlideOver}
      → Reached heads deletes p
      → p.delete_confirm_open ≡ true
      → p.deleting ≡ false
      → Reached heads (suc deletes) (handle_delete_confirm p)
  delete_done :
      (r : Outcome Bytes (Unit {0})) {heads deletes : ℕ} {p : SlideOver}
      → Reached heads (suc deletes) p
      → Reached heads deletes (delete_answered r p).0
