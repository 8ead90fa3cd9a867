-- ===== src/Ui/Transfer/Settled.antt =====
-- crates/ui/src/islands/upload_zone.rs: an upload in parts ends, whatever the browser answers.
use ferrobucket.Base.{
  ◌-◌, ℕ, zero, suc, ◌≡◌, refl, ap, ◌⊎◌, inl, inr, true, Option, none, some, List, ◌∷◌, [], ◌++◌,
  length,
}
use ferrobucket.Base.Text.{Bytes}
use ferrobucket.Base.Int.{ℤ}
use ferrobucket.Error.{Outcome, ok, err}
use ferrobucket.Server.Convert.{as_i32}
use ferrobucket.Ui.Transfer.{
  done, error, Tab, Browser, create, part, request_url, start_of, end_of, post_blob, post_text,
  posted, sent, upload_parts, finish_upload, created_as, upload_multipart, last_status, failed,
  num_parts_of,
}
use ferrobucket.Base.Text.Trim.{trim}

-- Only the number of the part has changed.
abbrev PartOnly : Tab → Tab → Type 0
PartOnly t t' = (at : ℕ × ℕ) × (t' ≡ record t { part = at })

-- The signals of an upload that has ended: it has counted itself out once, and its status is that of
-- a success, of which the page is told, or of an error, of which it is not.
abbrev pub Ended : Tab → Tab → Type 0
Ended t t' =
    (t'.pending ≡ t.pending - 1)
    × (((t'.status ≡ done) × (t'.any_done ≡ true))
        ⊎ ((t'.status ≡ error) × (t'.any_done ≡ t.any_done)))

failed-Ended : (t t' : Tab) → PartOnly t t' → Ended t (failed t')
failed-Ended t t' (at, e) = (ap (λ u. u.pending - 1) e, inr (refl, ap (λ u. u.any_done) e))

last_status-Ended :
    (r : Outcome (Unit {0}) Bytes) (t t' : Tab) → PartOnly t t' → Ended t (last_status r t')
last_status-Ended (ok a) t t' (at, e) = (ap (λ u. u.pending - 1) e, inl (refl, refl))
last_status-Ended (err e) t t' changed = failed-Ended t t' changed

module _ {S : Type 0} (browser : Browser S) (bucket key : Bytes) where
  PartOnly-posted :
      (rest : Tab × S → Option (List ℤ) × (Tab × S)) (t₀ t : Tab)
      → PartOnly t₀ t
      → ((s : S) → PartOnly t₀ (rest (t, s)).1.0)
      → (r : Outcome (Unit {0}) Bytes × S) → PartOnly t₀ (posted browser rest t r).1.0
  PartOnly-posted rest t₀ t k next (ok a, s) = next s
  PartOnly-posted rest t₀ t k next (err e, s) = k

  PartOnly-sent :
      (rest : Tab × S → Option (List ℤ) × (Tab × S)) (url : Bytes) (at : ℕ × ℕ) (t : Tab) (s : S)
      → ((s' : S) → PartOnly t (rest (record t { part = at }, s')).1.0)
      → (chunk : Option Bytes) → PartOnly t (sent browser rest url at chunk (t, s)).1.0
  PartOnly-sent rest url at t s next none = (t.part, refl)
  PartOnly-sent rest url at t s next (some chunk) =
      PartOnly-posted rest t (record t { part = at }) (at, refl) next
        (post_blob browser chunk url s)

  module _ (file upload_id : Bytes) (total : ℕ) where
    upload_parts-PartOnly :
        (left part_num : ℕ) (numbers : List ℤ) (t : Tab) (s : S)
        → PartOnly t
            (upload_parts browser bucket key file upload_id total left part_num numbers (t, s)).1.0
    unfolding upload_parts
    upload_parts-PartOnly zero part_num numbers t s = (t.part, refl)
    upload_parts-PartOnly (suc left) part_num numbers t s =
        PartOnly-sent
          (upload_parts browser bucket key file upload_id total left (suc part_num)
            (numbers ++ as_i32 part_num ∷ []))
          (request_url bucket key (part upload_id part_num)) (part_num, total) t s
          (λ s'.
            upload_parts-PartOnly left (suc part_num) (numbers ++ as_i32 part_num ∷ [])
              (record t { part = (part_num, total) }) s')
          (browser.slice file (start_of part_num) (end_of (length file) part_num))

  finish_upload-Ended :
      (upload_id : Bytes) (t : Tab) (sent : Option (List ℤ) × (Tab × S))
      → PartOnly t sent.1.0
      → Ended t (finish_upload browser bucket key upload_id sent).0
  unfolding finish_upload
  finish_upload-Ended upload_id t (none, (t', s)) changed = failed-Ended t t' changed
  finish_upload-Ended upload_id t (some numbers, (t', s)) changed = last_status-Ended _ t t' changed

  created_as-Ended :
      (file : Bytes) (t : Tab) (r : Outcome (Unit {0}) Bytes × S)
      → Ended t (created_as browser bucket key file t r).0
  created_as-Ended file t (err e, s) = failed-Ended t t (t.part, refl)
  created_as-Ended file t (ok id, s) = finish_upload-Ended (trim id) t _ (
      upload_parts-PartOnly file (trim id) (num_parts_of (length file)) (num_parts_of (length file))
        1 [] t s)

  -- Whatever the browser and the server answer, an upload in parts ends: as done, with the page told
  -- that an upload is done, or as an error, with nothing told; either way it has counted itself out
  -- of the pending uploads once.
  pub upload_multipart-Ended :
      (file : Bytes) (t : Tab) (s : S) → Ended t (upload_multipart browser bucket key file (t, s)).0
  upload_multipart-Ended file t s =
      unfold upload_multipart in
      created_as-Ended file t (post_text browser (request_url bucket key create) none s)
