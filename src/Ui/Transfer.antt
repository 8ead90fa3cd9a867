-- ===== src/Ui/Transfer.antt =====
-- crates/ui/src/islands/upload_zone.rs: how the browser sends a file. The arithmetic of the source
-- on `f64` is exact for sizes below 2 ^ 53, which is what a browser gives.
pub mod Cuts
pub mod Numbers
pub mod Staged
pub mod Routed
pub mod Loop
pub mod Handled
pub mod Delivered
pub mod Settled
use ferrobucket.Base.{
  ℕ, zero, suc, ◌+◌, ◌-◌, ◌*◌, ◌/◌, ◌^◌, ◌≡◌, min, Bool, true, false, Option, none, some, List, [],
  ◌∷◌, ◌++◌, map, take, drop, length, ltb, if◌then◌else◌,
}
use ferrobucket.Base.Text.{Bytes, codes, join_with}
use ferrobucket.Base.Text.Trim.{trim}
use ferrobucket.Base.Int.{ℤ}
use ferrobucket.Base.Decimal.{show, to_string}
use ferrobucket.Error.{Outcome, ok, err}
use ferrobucket.Server.Convert.{as_i32}

unfoldable pub part_size_bytes : ℕ
part_size_bytes = 8 * 1024 * 1024

pub data UploadStatus : Type 0 where
  in_progress done error : UploadStatus

-- The signals that an upload writes: the counters of the page, and its own.
pub record Tab : Type 0 where
  pub pending : ℕ
  pub any_done : Bool
  pub status : UploadStatus
  pub part : ℕ × ℕ

pub data Payload : Type 0 where
  blob text : Bytes → Payload

pub record Fetched : Type 0 where
  pub ok_status : Bool
  pub text : Option Bytes

-- The browser and what is behind it: `fetch` fails where a step of it does, and `slice` cuts a file
-- or fails.
pub record Browser (S : Type 0) : Type 0 where
  pub fetch : Bytes → Option Payload → S → Option Fetched × S
  pub slice : Bytes → ℕ → ℕ → Option Bytes
  pub slice_lem :
      (file : Bytes) (start end : ℕ) {chunk : Bytes}
      → slice file start end ≡ some chunk
      → chunk ≡ take (end - start) (drop start file)

-- The query of a request to the upload route.
pub data Query : Type 0 where
  create : Query
  part : Bytes → ℕ → Query
  complete abort : Bytes → Query

unfoldable pub query_text : Query → Bytes
query_text create = codes "?action=create"
query_text (part upload_id n) =
    codes "?uploadId=" ++ (upload_id ++ (codes "&partNumber=" ++ show n))
query_text (complete upload_id) = codes "?uploadId=" ++ (upload_id ++ codes "&action=complete")
query_text (abort upload_id) = codes "?uploadId=" ++ (upload_id ++ codes "&action=abort")

-- The key stands in the address as it is, without escapes.
unfoldable pub upload_url : Bytes → Bytes → Bytes
upload_url bucket key = codes "/ui/upload/" ++ (bucket ++ b'/' ∷ key)

abbrev pub request_url : Bytes → Bytes → Query → Bytes
request_url bucket key q = upload_url bucket key ++ query_text q

abbrev pub start_of : ℕ → ℕ
start_of part_num = (part_num - 1) * part_size_bytes

abbrev pub end_of : ℕ → ℕ → ℕ
end_of size part_num = min (part_num * part_size_bytes) size

abbrev pub body_text : Option Bytes → Outcome (Unit {0}) Bytes
body_text none = err tt
body_text (some t) = ok t

abbrev pub fetched : Option Fetched → Outcome (Unit {0}) Bytes
fetched none = err tt
fetched (some r) = if r.ok_status then body_text r.text else err tt

unfoldable pub num_parts_of : ℕ → ℕ
num_parts_of size =
    let n = min ((size + part_size_bytes - 1) / part_size_bytes) (2 ^ 32 - 1) in
    if ltb n 1 then 1 else n

-- `[1,2,3]`
unfoldable pub parts_json : List ℤ → Bytes
parts_json numbers = b'[' ∷ (join_with b',' (map to_string numbers) ++ b']' ∷ [])

-- Each upload counts itself out once; the counter stops at 0.
abbrev pub failed : Tab → Tab
failed t = record t { status = error; pending = t.pending - 1 }

abbrev pub completed : Tab → Tab
completed t = record t { status = done; any_done = true; pending = t.pending - 1 }

abbrev pub last_status : Outcome (Unit {0}) Bytes → Tab → Tab
last_status (ok _) t = completed t
last_status (err _) t = failed t

module _ {S : Type 0} (browser : Browser S) where
  unfoldable pub post_blob : Bytes → Bytes → S → Outcome (Unit {0}) Bytes × S
  post_blob chunk url s = let (r, s') = browser.fetch url (some (blob chunk)) s in (fetched r, s')

  unfoldable pub post_text : Bytes → Option Payload → S → Outcome (Unit {0}) Bytes × S
  post_text url body s = let (r, s') = browser.fetch url body s in (fetched r, s')

  -- What follows the post of one part: the rest of the loop, or its end by failure.
  abbrev pub posted :
      (Tab × S → Option (List ℤ) × (Tab × S))
      → Tab
      → Outcome (Unit {0}) Bytes × S
      → Option (List ℤ) × (Tab × S)
  posted rest t (ok _, s) = rest (t, s)
  posted rest t (err _, s) = (none, (t, s))

  abbrev pub sent :
      (Tab × S → Option (List ℤ) × (Tab × S))
      → Bytes
      → ℕ × ℕ
      → Option Bytes
      → Tab × S
      → Option (List ℤ) × (Tab × S)
  sent rest url at none ts = (none, ts)
  sent rest url at (some chunk) (t, s) =
      let t' = record t { part = at } in posted rest t' (post_blob chunk url s)

  module _ (bucket key : Bytes) where
    unfoldable pub finish_upload : Bytes → Option (List ℤ) × (Tab × S) → Tab × S
    finish_upload upload_id (none, (t, s)) =
        (failed t, (post_text (request_url bucket key (abort upload_id)) none s).1)
    finish_upload upload_id (some numbers, (t, s)) =
        let (r, s') =
          post_text (request_url bucket key (complete upload_id)) (some (text (parts_json numbers)))
            s in
        (last_status r t, s')

    module _ (file : Bytes) where
      -- The loop over the parts; the numbers of those that were accepted are collected.
      unfoldable pub upload_parts :
          Bytes → ℕ → ℕ → ℕ → List ℤ → Tab × S → Option (List ℤ) × (Tab × S)
      upload_parts upload_id total zero part_num numbers ts = (some numbers, ts)
      upload_parts upload_id total (suc left) part_num numbers ts =
          sent (upload_parts upload_id total left (suc part_num) (numbers ++ as_i32 part_num ∷ []))
            (request_url bucket key (part upload_id part_num)) (part_num, total)
            (browser.slice file (start_of part_num) (end_of (length file) part_num)) ts

      abbrev pub created_as : Tab → Outcome (Unit {0}) Bytes × S → Tab × S
      created_as t (err _, s) = (failed t, s)
      created_as t (ok id, s) =
          let upload_id = trim id in
          let total = num_parts_of (length file) in
          finish_upload upload_id (upload_parts upload_id total total 1 [] (t, s))

      unfoldable pub upload_multipart : Tab × S → Tab × S
      upload_multipart (t, s) = created_as t (post_text (request_url bucket key create) none s)
