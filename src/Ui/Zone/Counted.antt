-- ===== src/Ui/Zone/Counted.antt =====
-- crates/ui/src/islands/upload_zone.rs: the counter of pending uploads against the list.
use ferrobucket.Base.{
  ℕ, zero, suc, ◌+◌, ◌^◌, ◌≡◌, ◌≤◌, ◌<◌, refl, true, false, not, some, List, [], ◌∷◌, ◌++◌, length,
  get_elem?, retain, retain-keep, retain-skip, inl, inr, Bool-cases, arith, ap, sym, ◌∙◌, All,
}
use ferrobucket.Base.Text.{Bytes}
use ferrobucket.Error.{Outcome, ok, err}
use ferrobucket.Ui.Transfer.{UploadStatus, in_progress, done, error}
use ferrobucket.Ui.Zone.{
  Zone, FileEntry, Reached, start, file_chosen, upload_ended, finished_cleared, is_in_progress,
  is_running, process_file, progress_for, set_status, settled, reload_due, summary,
}

abbrev pub running : List FileEntry → ℕ
running es = length (retain is_running es)

running-append : (es fs : List FileEntry) → running (es ++ fs) ≡ running es + running fs
unfolding retain
running-append [] fs = omega arith
running-append (e ∷ es) fs = elim (Bool-cases (is_running e)) [
  | inl h ↦ rw h (omega (arith, running-append es fs))
  | inr h ↦ rw h (omega (arith, running-append es fs))
]

running_le : (es : List FileEntry) → running es ≤ length es
unfolding retain
running_le [] = omega arith
running_le (e ∷ es) = elim (Bool-cases (is_running e)) [
  | inl h ↦ rw h (omega (arith, running_le es))
  | inr h ↦ rw h (omega (arith, running_le es))
]

running-set_status :
    (s : UploadStatus) (i : ℕ) (es : List FileEntry) {e : FileEntry}
    → is_in_progress s ≡ false
    → get_elem? es i ≡ some e
    → e.status ≡ in_progress
    → suc (running (set_status s i es)) ≡ running es
unfolding retain
running-set_status s i [] ended there runs = absurd (cc)
running-set_status s zero (e₀ ∷ es) {e} ended there runs =
    let runs₀ : e₀.status ≡ in_progress = cc in rw (ended, runs₀) refl
running-set_status s (suc i) (e₀ ∷ es) ended there runs = elim (Bool-cases (is_running e₀)) [
  | inl h ↦ rw h (omega (arith, running-set_status s i es ended there runs))
  | inr h ↦ rw h (running-set_status s i es ended there runs)
]

length-set_status :
    (s : UploadStatus) (i : ℕ) (es : List FileEntry) → length (set_status s i es) ≡ length es
length-set_status s i [] = refl
length-set_status s zero (e ∷ es) = refl
length-set_status s (suc i) (e ∷ es) = ap suc (length-set_status s i es)

length-retain_both :
    (es : List FileEntry) → length (retain (λ e. not (is_running e)) es) + running es ≡ length es
unfolding retain
length-retain_both [] = omega arith
length-retain_both (e ∷ es) = elim (Bool-cases (is_running e)) [
  | inl h ↦ rw h (omega (arith, length-retain_both es))
  | inr h ↦ rw h (omega (arith, length-retain_both es))
]

running-retain : (es : List FileEntry) → running (retain is_running es) ≡ running es
running-retain [] = unfold retain in refl
running-retain (e ∷ es) = elim (Bool-cases (is_running e)) [
  | inl h ↦
      rw
        (
          retain-keep is_running e es h,
          retain-keep is_running e (retain is_running es) h,
          running-retain es,
        )
        refl
  | inr h ↦ rw (retain-skip is_running e es h) (running-retain es)
]

-- What is kept: the counter, and that there are no more entries than files were chosen.
record Counted (n : ℕ) (z : Zone) : Type 0 where
  counted : z.pending ≡ running z.entries
  chosen : running z.entries ≤ n

settled-Counted :
    (r : Outcome (Unit {0}) Bytes) (i : ℕ) {n : ℕ} (z : Zone) {e : FileEntry}
    → Counted n z
    → get_elem? z.entries i ≡ some e
    → e.status ≡ in_progress
    → Counted n (settled r i z)
settled-Counted (ok _) i z c there runs =
    let one_less = running-set_status done i z.entries refl there runs in
    record {
      counted = omega (arith, c.counted, one_less);
      chosen = omega (arith, c.chosen, one_less);
    }
settled-Counted (err _) i z c there runs =
    let one_less = running-set_status error i z.entries refl there runs in
    record {
      counted = omega (arith, c.counted, one_less);
      chosen = omega (arith, c.chosen, one_less);
    }

process_file-Counted :
    (name : Bytes) (size : ℕ) {n : ℕ} (z : Zone)
    → suc n < 2 ^ 32
    → Counted n z
    → Counted (suc n) (process_file name size z)
process_file-Counted name size z few c =
    let one_more = running-append z.entries (entry ∷ []) in
    let alone : running (entry ∷ []) ≡ 1 = unfold retain in refl in
    record {
      counted = omega (arith, c.counted, c.chosen, one_more, alone, few);
      chosen = omega (arith, c.chosen, one_more, alone);
    }
  where
    entry : FileEntry
    entry = record {
      id = z.next_entry_id;
      progress = progress_for size;
      status = in_progress;
      name = name;
    }

Reached-Counted : {n : ℕ} {z : Zone} → Reached n z → n < 2 ^ 32 → Counted n z
Reached-Counted start few = record {
  counted = unfold retain in refl;
  chosen = unfold retain in omega arith;
}
Reached-Counted (file_chosen name size {n} {z} run) few =
    process_file-Counted name size z few (Reached-Counted run (omega (arith, few)))
Reached-Counted (upload_ended r i {n} {z} run there runs) few =
    settled-Counted r i z (Reached-Counted run few) there runs
Reached-Counted (finished_cleared {n} {z} run) few =
    let c = Reached-Counted run few in
    let same = running-retain z.entries in
    record { counted = omega (arith, c.counted, same); chosen = omega (arith, c.chosen, same) }

-- Whatever files are chosen, fewer than 2 ^ 32 of them, in whatever order the uploads end and the
-- list is cleared, the counter of pending uploads is the number of entries in progress, so that it
-- and the number of finished entries in the summary add up to the number of all.
pub pending-Reached :
    {n : ℕ} {z : Zone}
    → Reached n z
    → n < 2 ^ 32
    → (z.pending ≡ length (retain is_running z.entries))
      × (z.pending + (summary z).0 ≡ (summary z).1)
pending-Reached {n} {z} run few =
    let c = Reached-Counted run few in
    (c.counted, omega (arith, c.counted, length-retain_both z.entries))

none_running : (es : List FileEntry) → running es ≡ 0 → All (λ e. is_running e ≡ false) es
none_running [] h = tt
none_running (e ∷ es) h = elim (Bool-cases (is_running e)) [
  | inl r ↦ absurd (omega (arith, h, ap length (retain-keep is_running e es r)))
  | inr r ↦ (r, none_running es (sym (ap length (retain-skip is_running e es r)) ∙ h))
]

none_pending : (z : Zone) → reload_due z ≡ true → z.pending ≡ 0
none_pending z due = ground arith

-- Whatever files are chosen, fewer than 2 ^ 32 of them, and in whatever order the uploads end and
-- the list is cleared, the page is only loaded again when every upload in the list has ended.
pub reload_due-Reached :
    {n : ℕ} {z : Zone}
    → Reached n z
    → n < 2 ^ 32
    → reload_due z ≡ true
    → All (λ e. is_running e ≡ false) z.entries
reload_due-Reached {n} {z} run few due =
    none_running z.entries (sym ((Reached-Counted run few).counted) ∙ none_pending z due)
