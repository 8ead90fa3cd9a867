-- ===== src/Ui/Transfer/Delivered.antt =====
-- A file that the console reports as done is in the store.
use ferrobucket.Base.{
  ℕ, ◌+◌, ◌*◌, ◌^◌, ◌<◌, ◌≡◌, ◌≢◌, refl, sym, ap, subst, ◌∙◌, true, Option, none, some, List, [],
  ◌∷◌, ◌++◌, All, arith, take_all, length,
}
use ferrobucket.Base.Text.{Bytes, codes}
use ferrobucket.Base.Text.Trim.{trim}
use ferrobucket.Base.Text.Utf8.{IsStr}
use ferrobucket.Base.Int.{ℤ}
use ferrobucket.Error.{Outcome, ok, err}
use ferrobucket.Disk.{Disk, file}
use ferrobucket.Disk.Reads.{read_file}
use ferrobucket.Act.{World}
use ferrobucket.Act.After.{After-ok}
use ferrobucket.Act.Steps.{Quiet}
use ferrobucket.Meta.{ObjectMeta}
use ferrobucket.Host.{Host, is_uuid_byte}
use ferrobucket.Layout.{FsStorage}
use ferrobucket.Layout.Contained.{object_path_valid, meta_path_valid}
use ferrobucket.Bucket.{validate_bucket_name}
use ferrobucket.Storage.Objects.{get_object, default_content_type}
use ferrobucket.Storage.Objects.RoundTrip.{OnDisk, get_object-done}
use ferrobucket.Storage.Uploads.{complete_multipart_upload}
use ferrobucket.Storage.Uploads.Assemble.{concat}
use ferrobucket.Storage.Uploads.Create.{meta_file_lem, uuid-IsPlain, Created}
use ferrobucket.Storage.Uploads.Complete.{After-complete_multipart_upload}
use ferrobucket.Console.ContentType.{resolve_content_type}
use ferrobucket.Console.Upload.{Web}
use ferrobucket.Ui.Transfer.{
  Browser, Tab, done, create, complete, request_url, text, part_size_bytes, num_parts_of, post_text,
  parts_json, upload_parts, finish_upload, created_as, upload_multipart, last_status,
}
use ferrobucket.Ui.Transfer.Cuts.{num_parts_lem}
use ferrobucket.Ui.Transfer.Numbers.{numbers, cuts, sort-numbers, concat-cuts}
use ferrobucket.Ui.Transfer.Routed.{Routed, post_text-ok}
use ferrobucket.FilePath.{IsPlain}
use ferrobucket.Ui.Transfer.Handled.{trim-uuid, handled-create, handled_complete}
use ferrobucket.Ui.Transfer.Loop.{Staging, upload_parts-Staging, recorded_as}
use mathlib.Core.Option

module _ {S : Type 0} (browser : Browser S) (bucket key : Bytes) where
  last_status-done :
      (r : Outcome (Unit {0}) Bytes) (t : Tab)
      → (last_status r t).status ≡ done
      → (x : Bytes) × (r ≡ ok x)
  last_status-done (ok x) t h = (x, refl)
  last_status-done (err e) t h = absurd cc

  -- An upload that ends as done has sent all its parts, and had its completion answered.
  finish_upload-done :
      (upload_id : Bytes) (r : Option (List ℤ) × (Tab × S))
      → (finish_upload browser bucket key upload_id r).0.status ≡ done
      → (ns : List ℤ) × (x : Bytes) × (r.0 ≡ some ns)
        × ((post_text browser
              (request_url bucket key (complete upload_id))
              (some (text (parts_json ns)))
              r.1.1).0
            ≡ ok x)
        × ((finish_upload browser bucket key upload_id r).1
            ≡ (post_text browser
                (request_url bucket key (complete upload_id))
                (some (text (parts_json ns)))
                r.1.1).1)
  unfolding finish_upload
  finish_upload-done upload_id (none, (t, s)) h = absurd cc
  finish_upload-done upload_id (some ns, (t, s)) h =
      let (x, answered) = last_status-done _ t h in (ns, x, refl, answered, refl)

  created_as-done :
      (content : Bytes) (t : Tab) (p : Outcome (Unit {0}) Bytes × S)
      → (created_as browser bucket key content t p).0.status ≡ done
      → (id : Bytes) × (p.0 ≡ ok id)
        × (created_as browser bucket key content t p
            ≡ finish_upload browser bucket key (trim id) (
                upload_parts browser bucket key content
                  (trim id)
                  (num_parts_of (length content))
                  (num_parts_of (length content))
                  1
                  []
                  (t, p.1)))
  created_as-done content t (err e, s) h = absurd cc
  created_as-done content t (ok id, s) h = (id, refl, refl)

module _ {H E : Type 0} (host : Host H) (web : Web E) (storage : FsStorage) (bucket key : Bytes)
    (browser : Browser World) (routed : Routed host web storage bucket key browser)
    (content : Bytes) where
  -- The object is on the disk whole, with the type resolved for its key.
  pub record Delivered (d : Disk) : Type 0 where
    pub name : Bytes
    pub meta : ObjectMeta
    pub key_kept : meta.key ≡ key
    pub type_kept :
        meta.content_type ≡ Option.get_or (resolve_content_type key none) default_content_type
    pub there : OnDisk host storage bucket key name content meta d

  module _ (str : IsStr key) (ne : key ≢ []) (fits : length content < 2 ^ 53) where
    abbrev total : ℕ
    total = num_parts_of (length content)

    all_cut : concat (cuts content total) ≡ content
    all_cut =
        concat-cuts content total
        ∙ take_all (total * part_size_bytes) content (num_parts_lem (length content) fits).1

    module _ (upload_id : Bytes) (uuid : All (λ c. is_uuid_byte c ≡ true) upload_id)
        (plain : IsPlain upload_id) (valid : validate_bucket_name bucket ≡ ok tt) where
      abbrev Staged : ℕ → Disk → Type 0
      Staged = Staging host web storage bucket key browser routed content upload_id uuid

      -- Completing an upload whose parts are all staged.
      Completed-Delivered :
          (w : World) (meta : ObjectMeta)
          → Staged total w.disk
          → (complete_multipart_upload host storage key upload_id (numbers total) w).0 ≡ ok meta
          → Delivered
              (complete_multipart_upload host storage key upload_id (numbers total) w).1.disk
      Completed-Delivered w meta s stored =
          let c =
            After-ok
              (After-complete_multipart_upload host storage key upload_id (numbers total)
                (recorded_as host web storage bucket key browser routed content upload_id uuid)
                (cuts content total) w s.recorded (rw (sort-numbers total) s.parts) valid plain str
                ne)
              stored in
          record {
            name = c.name;
            meta = meta;
            key_kept = c.key_kept;
            type_kept = c.type_kept;
            there = record {
              valid = valid;
              named = c.named;
              body =
                  read_file _ c.name (codes "objects" ∷ bucket ∷ storage.data_root) _
                    (object_path_valid storage bucket valid host.percent key c.name str c.named ne)
                    (c.body ∙ ap (λ b. some (file b)) all_cut);
              sidecar =
                  read_file _ (c.name ++ codes ".json") (codes "meta" ∷ bucket ∷ storage.data_root)
                    _ (meta_path_valid storage bucket valid host.percent key c.name str c.named)
                    c.sidecar;
            };
          }

      answered-Delivered :
          (ns : List ℤ) (w : World) {x : Bytes}
          → ns ≡ numbers total
          → Staged total w.disk
          → (post_text browser
              (request_url bucket key (complete upload_id))
              (some (text (parts_json ns)))
              w).0
            ≡ ok x
          → Delivered
              (post_text browser
                (request_url bucket key (complete upload_id))
                (some (text (parts_json ns)))
                w).1.disk
      answered-Delivered ns w all_sent s answered =
          let (same, good, _) =
            post_text-ok host web storage bucket key browser routed (complete upload_id)
              (some (text (parts_json ns))) w uuid answered in
          let json : web.from_slice (parts_json ns) ≡ ok ns =
            rw all_sent (routed.json_lem total (num_parts_lem (length content) fits).2) in
          let (meta, stored, last) =
            handled_complete host web storage bucket key browser routed upload_id ns w json good in
          subst (λ u. Delivered u.disk)
            (sym (
              same
              ∙ last
              ∙ ap (λ l. (complete_multipart_upload host storage key upload_id l w).1) all_sent))
            (Completed-Delivered w meta s (
              ap (λ l. (complete_multipart_upload host storage key upload_id l w).0) (sym all_sent)
              ∙ stored))

      finished :
          (t : Tab) (w : World)
          → Staged 0 w.disk
          → (finish_upload browser bucket key upload_id
              (upload_parts browser bucket key content upload_id total total 1 [] (t, w))).0.status
            ≡ done
          → Delivered
              (finish_upload browser bucket key upload_id
                (upload_parts browser bucket key content upload_id total total 1 [] (t, w))).1.disk
      unfolding numbers
      finished t w s h =
          let (ns, x, sent, answered, last) = finish_upload-done browser bucket key upload_id _ h in
          let (counted, s') =
            upload_parts-Staging host web storage bucket key browser routed content upload_id uuid
              total total 0 t w (omega (arith, (num_parts_lem (length content) fits).2)) s sent in
          let none_before : 0 + total ≡ total = omega arith in
          subst (λ u. Delivered u.disk) (sym last)
            (answered-Delivered ns _ (counted ∙ ap numbers none_before)
              (subst
                (λ k.
                  Staged k
                    (upload_parts browser bucket key content upload_id total total 1 []
                      (t, w)).1.1.disk)
                none_before s')
              answered)

    -- The start: an identifier of the generator, under which the upload is recorded.
    Created-Delivered :
        (t : Tab) (w v : World) (id : Bytes)
        → Created host storage bucket key (resolve_content_type key none) w.disk id v
        → (finish_upload browser bucket key
            (trim id)
            (upload_parts browser bucket key content (trim id) total total 1 [] (t, v))).0.status
          ≡ done
        → Delivered
            (finish_upload browser bucket key
              (trim id)
              (upload_parts browser bucket key content (trim id) total total 1 [] (t, v))).1.disk
    unfolding numbers cuts
    Created-Delivered t w v id c h =
        let uuid : All (λ b. is_uuid_byte b ≡ true) id =
          subst (All (λ b. is_uuid_byte b ≡ true)) (sym c.generated) (host.new_v4_lem c.number).1 in
        let plain : IsPlain id =
          uuid-IsPlain id (λ e. (host.new_v4_lem c.number).0 (sym c.generated ∙ e)) uuid in
        let trimmed : trim id ≡ id = trim-uuid id uuid in
        rw trimmed (
          finished id uuid plain c.valid t v
            (record {
              recorded = read_file _ _ _ v.disk (meta_file_lem storage id) c.recorded;
              parts = tt;
            })
            (rw trimmed at h))

    upload_multipart-Delivered :
        (t : Tab) (w : World)
        → (upload_multipart browser bucket key content (t, w)).0.status ≡ done
        → Delivered (upload_multipart browser bucket key content (t, w)).1.disk
    unfolding upload_multipart
    upload_multipart-Delivered t w h =
        let (id, came, same) = created_as-done browser bucket key content t _ h in
        let (there, good, body) =
          post_text-ok host web storage bucket key browser routed create none w tt came in
        let c = handled-create host web storage bucket key browser routed w good in
        subst (λ r. Delivered r.1.disk) (sym same)
          (Created-Delivered t w _ id (rw (body, there) c) (ap (λ r. r.0.status) (sym same) ∙ h))

    -- For a non-empty text key that an address holds as it is, without parts `.` and `..`, and a
    -- file of less than 2 ^ 53 bytes: when the console reports as done a file that it sent in parts
    -- to a server that handles what the router passes on, then, as long as no further system call
    -- fails, get_object returns the whole file, with the type resolved for the key, whichever calls
    -- failed before and whatever requests and answers were lost.
    pub get_object-upload_multipart :
        (t : Tab) (w : World)
        → (upload_multipart browser bucket key content (t, w)).0.status ≡ done
        → Quiet host.fails (upload_multipart browser bucket key content (t, w)).1.calls
        → (meta : ObjectMeta) × (meta.key ≡ key)
          × (meta.content_type ≡ Option.get_or (resolve_content_type key none) default_content_type)
          × ((get_object host storage bucket key none
                (upload_multipart browser bucket key content (t, w)).1).0
              ≡ ok (meta, content))
    get_object-upload_multipart t w h quiet =
        let d = upload_multipart-Delivered t w h in
        (
          d.meta,
          d.key_kept,
          d.type_kept,
          get_object-done host storage bucket key d.name content d.meta _ d.there quiet none,
        )
