-- ===== src/Ui/Transfer/Loop.antt =====
-- The loop over the parts of a file, against the server.
use ferrobucket.Base.{
  ℕ, zero, suc, ◌+◌, ◌*◌, ◌%◌, ◌^◌, ◌<◌, ◌≡◌, refl, sym, ap, subst, ◌∙◌, true, Option, none, some,
  List, [], ◌∷◌, ◌++◌, All, arith, lt→ltb, take, drop, length,
}
use ferrobucket.Base.Text.{Bytes}
use ferrobucket.Base.Int.{ℤ, pos}
use ferrobucket.Error.{Outcome, ok, err}
use ferrobucket.Disk.{Disk, file}
use ferrobucket.Disk.Calls.{read}
use ferrobucket.Act.{World}
use ferrobucket.Act.After.{After-ok}
use ferrobucket.Meta.{MultipartMeta}
use ferrobucket.Host.{Host, is_uuid_byte}
use ferrobucket.Layout.{FsStorage, upload_dir}
use ferrobucket.Storage.Uploads.{upload_part}
use ferrobucket.Storage.Uploads.Assemble.{PartsAre}
use ferrobucket.Storage.Uploads.Create.{meta_file}
use ferrobucket.Storage.Uploads.Part.{After-upload_part}
use ferrobucket.Server.Convert.{as_i32, body_to_stream}
use ferrobucket.Console.ContentType.{resolve_content_type}
use ferrobucket.Console.Upload.{Web, upload_handler, dispatch, arm_of}
use ferrobucket.Ui.Transfer.{
  Browser, Tab, part, request_url, blob, part_size_bytes, start_of, end_of, post_blob, sent, posted,
  upload_parts,
}
use ferrobucket.Ui.Transfer.Numbers.{numbers, cuts, cut_lem}
use ferrobucket.Ui.Transfer.Staged.{PartsAre-next, read-SameBut, part_path-ne-meta_file}
use ferrobucket.Ui.Transfer.Routed.{Routed, params_of, handled, post_blob-ok, answer-ok, is_success}

module _ {S : Type 0} (browser : Browser S) where
  posted-some :
      (rest : Tab × S → Option (List ℤ) × (Tab × S)) (t : Tab) (p : Outcome (Unit {0}) Bytes × S)
      {ns : List ℤ}
      → (posted browser rest t p).0 ≡ some ns
      → (x : Bytes) × (p.0 ≡ ok x) × (posted browser rest t p ≡ rest (t, p.1))
  posted-some rest t (ok x, s) h = (x, refl, refl)
  posted-some rest t (err e, s) h = absurd cc

  -- A loop that came to its end had its part cut and accepted.
  sent-some :
      (rest : Tab × S → Option (List ℤ) × (Tab × S)) (url : Bytes) (at : ℕ × ℕ) (o : Option Bytes)
      (ts : Tab × S) {ns : List ℤ}
      → (sent browser rest url at o ts).0 ≡ some ns
      → (chunk : Bytes) × (t : Bytes) × (o ≡ some chunk)
        × ((post_blob browser chunk url ts.1).0 ≡ ok t)
        × (sent browser rest url at o ts
            ≡ rest (record ts.0 { part = at }, (post_blob browser chunk url ts.1).1))
  sent-some rest url at none (t, s) h = absurd cc
  sent-some rest url at (some chunk) (t, s) h =
      let (x, accepted, same) =
        posted-some rest (record t { part = at }) (post_blob browser chunk url s) h in
      (chunk, x, refl, accepted, same)

as_i32_small : (n : ℕ) → n < 2 ^ 31 → as_i32 n ≡ pos n
unfolding as_i32
as_i32_small n h = let whole : n % 2 ^ 32 ≡ n = omega arith in rw (whole, lt→ltb n (2 ^ 31) h) refl

module _ {H E : Type 0} (host : Host H) (web : Web E) (storage : FsStorage) (bucket key : Bytes)
    (browser : Browser World) (routed : Routed host web storage bucket key browser)
    (content : Bytes) (upload_id : Bytes) (uuid : All (λ c. is_uuid_byte c ≡ true) upload_id) where
  abbrev pub recorded_as : MultipartMeta
  recorded_as = record { bucket = bucket; key = key; content_type = resolve_content_type key none }

  -- The first `k` parts of the file are staged, and the record of the upload is there.
  pub record Staging (k : ℕ) (d : Disk) : Type 0 where
    pub recorded :
        read (meta_file storage upload_id) d ≡ ok (host.multipart_json.to_vec recorded_as, d)
    pub parts : PartsAre d (upload_dir storage upload_id) (numbers k) (cuts content k)

  handled-part :
      (n : ℕ) (chunk : Bytes) (w : World)
      → let h =
          handled host web storage bucket key browser routed
            (part upload_id n)
            (some (blob chunk))
            w in
        is_success h.0.status ≡ true
        → (etag : Bytes) × ((upload_part host storage upload_id
              (pos n)
              (body_to_stream (routed.chunks chunk))
              w).0
            ≡ ok etag)
          × (h.1
              ≡ (upload_part host storage upload_id
                  (pos n)
                  (body_to_stream (routed.chunks chunk))
                  w).1)
  unfolding upload_handler dispatch arm_of params_of
  handled-part n chunk w h =
      let (etag, accepted, same) =
        answer-ok host web storage
          (upload_part host storage upload_id (pos n) (body_to_stream (routed.chunks chunk))) _ w
          h in
      (etag, accepted, ap (λ x. x.1) same)

  Staging-next :
      (k : ℕ) (chunk : Bytes) (w : World) {t : Bytes}
      → suc k < 2 ^ 31
      → chunk ≡ take part_size_bytes (drop (k * part_size_bytes) content)
      → Staging k w.disk
      → (post_blob browser chunk (request_url bucket key (part upload_id (suc k))) w).0 ≡ ok t
      → Staging
          (suc k)
          (post_blob browser chunk (request_url bucket key (part upload_id (suc k))) w).1.disk
  unfolding cuts
  Staging-next k chunk w small is_cut s came =
      let (same, good) =
        post_blob-ok host web storage bucket key browser routed (part upload_id (suc k)) chunk w
          (uuid, small) came in
      let (etag, accepted, left) = handled-part (suc k) chunk w good in
      let (hashed, there, others) =
        After-ok
          (After-upload_part host storage upload_id (pos (suc k))
            (body_to_stream (routed.chunks chunk)) w)
          accepted in
      subst (λ v. Staging (suc k) v.disk) (sym (same ∙ left))
        (record {
          recorded =
              read-SameBut _ _ _ _ _ (part_path-ne-meta_file storage upload_id (suc k)) others
                s.recorded;
          parts =
              PartsAre-next storage upload_id k _ _ _ others
                (there ∙ ap (λ b. some (file b)) (routed.chunks_lem chunk ∙ is_cut)) _ s.parts;
        })

  abbrev loop : ℕ → ℕ → ℕ → Tab → World → Option (List ℤ) × (Tab × World)
  loop total left k t w =
      upload_parts browser bucket key content upload_id total left (suc k) (numbers k) (t, w)

  loop-step :
      (total left k : ℕ) (t : Tab) (w : World) {ns : List ℤ}
      → suc k < 2 ^ 31
      → (loop total (suc left) k t w).0 ≡ some ns
      → (chunk : Bytes) × (x : Bytes) × (browser.slice content
            (start_of (suc k))
            (end_of (length content) (suc k))
          ≡ some chunk)
        × ((post_blob browser chunk (request_url bucket key (part upload_id (suc k))) w).0 ≡ ok x)
        × (loop total (suc left) k t w
            ≡ loop total left
                (suc k)
                (record t { part = (suc k, total) })
                (post_blob browser chunk (request_url bucket key (part upload_id (suc k))) w).1)
  unfolding upload_parts numbers
  loop-step total left k t w small h =
      let (chunk, x, cut, accepted, same) =
        sent-some browser
          (upload_parts browser bucket key content upload_id total left (suc (suc k))
            (numbers k ++ as_i32 (suc k) ∷ []))
          (request_url bucket key (part upload_id (suc k))) (suc k, total) _ (t, w) h in
      (
        chunk,
        x,
        cut,
        accepted,
        same
            ∙ ap
                (λ n.
                  upload_parts browser bucket key content upload_id total left (suc (suc k))
                    (numbers k ++ n ∷ [])
                    (
                      record t { part = (suc k, total) },
                      (post_blob browser chunk (request_url bucket key (part upload_id (suc k)))
                          w).1,
                    ))
                (as_i32_small (suc k) small),
      )

  -- A loop that came to its end has staged all parts.
  pub upload_parts-Staging :
      (total left k : ℕ) (t : Tab) (w : World) {ns : List ℤ}
      → k + left < 2 ^ 31
      → Staging k w.disk
      → (loop total left k t w).0 ≡ some ns
      → (ns ≡ numbers (k + left)) × Staging (k + left) (loop total left k t w).1.1.disk
  upload_parts-Staging total zero k t w small s h =
      let here : k + 0 ≡ k = omega arith in rw here (unfold upload_parts in (cc (h), s))
  upload_parts-Staging total (suc left) k t w small s h =
      let (chunk, x, cut, accepted, same) = loop-step total left k t w (omega arith) h in
      let next : Staging (suc k)
          (post_blob browser chunk (request_url bucket key (part upload_id (suc k))) w).1.disk =
        Staging-next k chunk w (omega arith) (browser.slice_lem content _ _ cut ∙ cut_lem content k)
          s accepted in
      let there : k + suc left ≡ suc k + left = omega arith in
      rw (there, same)
        (upload_parts-Staging total left (suc k) _ _ (omega arith) next
          (ap (λ r. r.0) (sym same) ∙ h))
