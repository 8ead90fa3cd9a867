-- ===== src/Ui/Dialogs/Creating/Single.antt =====
-- crates/ui/src/islands/create_bucket_modal.rs: one request at a time.
use ferrobucket.Base.{
  ℕ, suc, ◌≡◌, refl, false, none, some, ◌⊎◌, inl, inr, if◌then◌else◌, arith, Bool-cases,
}
use ferrobucket.Base.Text.{Bytes}
use ferrobucket.Base.Text.Trim.{is_empty, trim}
use ferrobucket.Error.{Outcome, ok, err}
use ferrobucket.Ui.Dialogs.Creating.{
  CreateBucketModal, Reached, start, opened, dismissed, left, typed, refused, sent, answer,
  handle_submit, answered, asked_name,
}

-- The requests without an answer are none or one, as `loading` tells, and then no error is shown.
abbrev pub Single : ℕ → CreateBucketModal → Type 0
Single n m = (n ≡ (if m.loading then 1 else 0)) × ((m.loading ≡ false) ⊎ (m.error ≡ none))

refused_Single :
    {n : ℕ} (m : CreateBucketModal)
    → m.loading ≡ false
    → asked_name m ≡ none
    → Single n m
    → Single n (handle_submit m)
refused_Single m idle unasked (count, shown) = elim (Bool-cases (is_empty (trim m.name))) [
  | inl empty ↦ rw (empty, idle) (rw idle at count, inl refl)
  | inr full ↦ absurd (let e = (rw full at unasked) in cc e)
]

sent_Single :
    {n : ℕ} (m : CreateBucketModal) {name : Bytes}
    → m.loading ≡ false
    → asked_name m ≡ some name
    → Single n m
    → Single (suc n) (handle_submit m)
sent_Single m idle asked (count, shown) = elim (Bool-cases (is_empty (trim m.name))) [
  | inl empty ↦ absurd (let e = (rw empty at asked) in cc e)
  | inr full ↦
      rw full (let none_before = (rw idle at count) in omega (arith, none_before), inr refl)
]

answered_Single :
    (r : Outcome Bytes (Unit {0})) {n : ℕ} (m : CreateBucketModal)
    → Single (suc n) m
    → Single n (answered r m).0
answered_Single (ok _) m (count, shown) = (ground (arith, count), inl refl)
answered_Single (err raw) m (count, shown) = (ground (arith, count), inl refl)

-- The dialog that creates a bucket never has two requests under way: in whatever order the user
-- acts and the server answers, there is one exactly while the dialog is loading, and while it is
-- loading it shows no error.
pub loading-Reached : (n : ℕ) (m : CreateBucketModal) → Reached n m → Single n m
loading-Reached n m start = (refl, inl refl)
loading-Reached n m (opened h) = ((loading-Reached _ _ h).0, inr refl)
loading-Reached n m (dismissed h there idle) = ((loading-Reached _ _ h).0, inr refl)
loading-Reached n m (left h there) = ((loading-Reached _ _ h).0, inr refl)
loading-Reached n m (typed value h there idle) = loading-Reached _ _ h
loading-Reached n m (refused {m = k} h there idle none_asked) =
    refused_Single k idle none_asked (loading-Reached _ _ h)
loading-Reached n m (sent name {m = k} h there idle asked) =
    sent_Single k idle asked (loading-Reached _ _ h)
loading-Reached n m (answer r {m = k} h) = answered_Single r k (loading-Reached _ _ h)
