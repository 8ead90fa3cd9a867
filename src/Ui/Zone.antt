-- ===== src/Ui/Zone.antt =====
-- crates/ui/src/islands/{upload_zone,upload_panel}.rs: the list of uploads, and the counters by which
-- the page is loaded again. A signal of an entry is the status at the entry's place in the list.
pub mod Counted
use ferrobucket.Base.{
  ℕ, zero, suc, ◌+◌, ◌-◌, ◌%◌, ◌^◌, ◌≡◌, min, Bool, true, false, not, Option, none, some, List, [],
  ◌∷◌, ◌++◌, length, get_elem?, retain, leb, ◌==◌, ◌&&◌, if◌then◌else◌,
}
use ferrobucket.Base.Text.{Bytes}
use ferrobucket.Error.{Outcome}
use ferrobucket.Ui.Transfer.{
  UploadStatus, in_progress, done, error, Tab, part_size_bytes, last_status,
}

pub data ProgressInfo : Type 0 where
  small multipart : ProgressInfo

pub record FileEntry : Type 0 where
  pub id : ℕ
  pub progress : ProgressInfo
  pub status : UploadStatus
  pub name : Bytes

-- The signals of the island, and the number that the next entry gets.
pub record Zone : Type 0 where
  pub next_entry_id : ℕ
  pub entries : List FileEntry
  pub pending : ℕ
  pub any_done : Bool

abbrev pub is_in_progress : UploadStatus → Bool
is_in_progress in_progress = true
is_in_progress done = false
is_in_progress error = false

abbrev pub is_running : FileEntry → Bool
is_running e = is_in_progress e.status

abbrev pub key_for : Bytes → Bytes → Bytes
key_for [] name = name
key_for (c ∷ prefix) name = (c ∷ prefix) ++ name

-- The size is cast to u32, which stops at the largest one.
abbrev pub progress_for : ℕ → ProgressInfo
progress_for size = if leb (min size (2 ^ 32 - 1)) part_size_bytes then small else multipart

-- One turn of the loop over the chosen files.
abbrev pub process_file : Bytes → ℕ → Zone → Zone
process_file file_name size z = record {
  next_entry_id = (z.next_entry_id + 1) % 2 ^ 32;
  entries =
      z.entries
      ++ record {
        id = z.next_entry_id;
        progress = progress_for size;
        status = in_progress;
        name = file_name;
      }
        ∷ [];
  pending = (z.pending + 1) % 2 ^ 32;
  any_done = z.any_done;
}

abbrev pub set_status : UploadStatus → ℕ → List FileEntry → List FileEntry
set_status s i [] = []
set_status s zero (e ∷ es) = record e { status = s } ∷ es
set_status s (suc i) (e ∷ es) = e ∷ set_status s i es

abbrev pub tab_of : Zone → Tab
tab_of z = record {
  pending = z.pending;
  any_done = z.any_done;
  status = in_progress;
  part = (0, 0);
}

-- The upload at a place ends, well or badly.
abbrev pub settled : Outcome (Unit {0}) Bytes → ℕ → Zone → Zone
settled r i z =
    let t = last_status r (tab_of z) in
    record z {
      entries = set_status (t.status) i z.entries;
      pending = t.pending;
      any_done = t.any_done;
    }

abbrev pub clear_finished : Zone → Zone
clear_finished z = record z { entries = retain is_running z.entries }

-- The two numbers of the summary, finished and all.
abbrev pub summary : Zone → ℕ × ℕ
summary z = (length (retain (λ e. not (is_running e)) z.entries), length z.entries)

abbrev pub reload_due : Zone → Bool
reload_due z = z.pending == 0 && z.any_done

abbrev pub opened : Zone
opened = record { next_entry_id = 1; entries = []; pending = 0; any_done = false }

-- What the page can come to, in whatever order uploads start and end, and how many were started.
pub data Reached : ℕ → Zone → Type 0 where
  start : Reached 0 opened
  file_chosen :
      (file_name : Bytes) (size : ℕ) {n : ℕ} {z : Zone}
      → Reached n z
      → Reached (suc n) (process_file file_name size z)
  upload_ended :
      (r : Outcome (Unit {0}) Bytes) (i : ℕ) {n : ℕ} {z : Zone} {e : FileEntry}
      → Reached n z
      → get_elem? z.entries i ≡ some e
      → e.status ≡ in_progress
      → Reached n (settled r i z)
  finished_cleared : {n : ℕ} {z : Zone} → Reached n z → Reached n (clear_finished z)
