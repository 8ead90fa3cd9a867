-- ===== src/Examples/Browser.antt =====
-- A browser whose requests reach the upload route, and a file that it sends.
use ferrobucket.Base.{
  ℕ, ◌-◌, ◌≡◌, ◌≢◌, refl, ap, sym, ◌∙◌, true, false, Option, none, some, List, [], ◌∷◌, ◌++◌, All,
  All-append, take, drop, length, drop-length_append, append-nil, arith, if◌then◌else◌,
}
use ferrobucket.Base.Text.{Bytes, codes, split, str_eq, list_eq}
use ferrobucket.Base.Text.Split.{split-append, split-Lacks}
use ferrobucket.Base.Decimal.{show}
use ferrobucket.Base.Decimal.Value.{value, value-show, All-show, IsDigit}
use ferrobucket.Error.{ok}
use ferrobucket.Act.{World}
use ferrobucket.Host.{is_uuid_byte}
use ferrobucket.Server.Convert.{body_to_stream}
use ferrobucket.Console.{Response}
use ferrobucket.Console.Upload.{upload_handler}
use ferrobucket.Ui.Transfer.{
  Browser, Fetched, Payload, Query, create, part, complete, abort, query_text, upload_url,
  request_url, upload_multipart, Tab, in_progress, done,
}
use ferrobucket.Ui.Transfer.Routed.{
  Routed, Addressable, params_of, Sendable, header_of, payload_bytes, is_success,
}
use ferrobucket.Ui.Transfer.Settled.{Ended, upload_multipart-Ended}
use ferrobucket.Ui.Transfer.Delivered.{get_object-upload_multipart}
use ferrobucket.Meta.{ObjectMeta}
use ferrobucket.Console.ContentType.{resolve_content_type}
use ferrobucket.Storage.Objects.{get_object, default_content_type}
use mathlib.Core.Option
use mathlib.Core.List.{flat_map}
use ferrobucket.Base.Text.{starts_with, ends_with, contains, join_with}
use ferrobucket.Base.Text.Trim.{trim, trim_start, to_ascii_lowercase}
use ferrobucket.Base.Sort.{sort}
use ferrobucket.Base.Int.{◌<ℤ◌, is_not_positive}
use ferrobucket.Base.Decimal.{to_string}
use ferrobucket.FilePath.{join, enter, enter_all, parent, path_eq}
use ferrobucket.Encode.{encode_key, is_traversal_unsafe, is_alphanumeric, hex_digit}
use ferrobucket.Bucket.{
  validate_bucket_name, is_reserved, is_ipv4_formatted, is_octet, parse_u8, is_name_byte, is_digit,
  is_lowercase,
}
use ferrobucket.Disk.{lookup, put, remove}
use ferrobucket.Disk.Calls.{
  node_at, is_dir, create_new, append, rename, read, create_dir_all, make_dirs, remove_dir_all,
  remove_under, is_under,
}
use ferrobucket.Act.{◌>>=◌, call, call_left, call_io}
use ferrobucket.Etag
use ferrobucket.Layout.{
  bucket_path, objects_dir, meta_dir, object_path, meta_path, upload_dir, uploads_root, part_path,
}
use ferrobucket.Persist.Partial.{clear_dir}
use ferrobucket.Persist.{
  persist, create_temp, move_into_place, settle, write_body, write_chunks, write_sidecar,
  write_json, write_multipart_meta, read_multipart_meta,
}
use ferrobucket.Storage.{exists, stat}
use ferrobucket.Storage.Uploads.{
  create_multipart_upload, upload_part, complete_multipart_upload, copy_parts, write_parts,
}
use ferrobucket.Console.{answer}
use ferrobucket.Console.ContentType.{ext_mime, extension, row_of}
use ferrobucket.Console.Upload.{dispatch, arm_of, parts_of}
use ferrobucket.Server.Convert.{as_i32}
use ferrobucket.Ui.Transfer.{
  upload_parts, finish_upload, post_text, post_blob, num_parts_of, part_size_bytes, parts_json,
}
use ferrobucket.Examples.Web.{from_slice}
use ferrobucket.Examples.Hosts.{host, percent, percent_encode, set_add}
use ferrobucket.Examples.Web.{web, from_slice-parts_json}
use ferrobucket.Examples.Keys.{bucket, self, key, key-IsStr}
use ferrobucket.Examples.Objects.{start, quiet}

-- The router on the queries of an upload.
abbrev second_part : Bytes → Bytes → Query
second_part upload_id s =
    if str_eq s (codes "action=complete")
    then complete upload_id
    else if str_eq s (codes "action=abort")
    then abort upload_id
    else part upload_id (value 0 (drop 11 s))

abbrev two_parts : List Bytes → Query
two_parts [] = create
two_parts (upload_id ∷ []) = create
two_parts (upload_id ∷ s ∷ rest) = second_part upload_id s

unfoldable query_of : Bytes → Query
query_of q =
    if str_eq q (codes "?action=create") then create else two_parts (split b'&' (drop 10 q))

uuid_no_amp : (s : Bytes) → All (λ c. is_uuid_byte c ≡ true) s → All (λ c. c ≢ b'&') s
uuid_no_amp [] h = tt
uuid_no_amp (c ∷ s) (hc, h) = (ground arith, uuid_no_amp s h)

digits_no_amp : (s : Bytes) → All IsDigit s → All (λ c. c ≢ b'&') s
digits_no_amp [] h = tt
digits_no_amp (c ∷ s) (hc, h) = (omega (arith, hc), digits_no_amp s h)

part_no_amp : (n : ℕ) → All (λ c. c ≢ b'&') (codes "partNumber=" ++ show n)
part_no_amp n =
    All-append (λ c. c ≢ b'&') (codes "partNumber=") (show n) (omega arith)
      (digits_no_amp (show n) (All-show n))

query_of-query_text : (q : Query) → Sendable q → query_of (query_text q) ≡ q
unfolding query_of query_text str_eq list_eq
query_of-query_text create h = refl
query_of-query_text (part upload_id n) h =
    rw
      (
        split-append b'&' upload_id (codes "partNumber=" ++ show n) (uuid_no_amp upload_id h.0),
        split-Lacks b'&' (codes "partNumber=" ++ show n) (part_no_amp n),
        value-show n,
      )
      refl
query_of-query_text (complete upload_id) h =
    rw (split-append b'&' upload_id (codes "action=complete") (uuid_no_amp upload_id h))
      (unfold split in refl)
query_of-query_text (abort upload_id) h =
    rw (split-append b'&' upload_id (codes "action=abort") (uuid_no_amp upload_id h))
      (unfold split in refl)

abbrev query_at : Bytes → Query
query_at url = query_of (drop (length (upload_url bucket key)) url)

abbrev handle : Bytes → Option Payload → World → Response × World
handle url payload w =
    upload_handler host web self bucket key (params_of (query_at url)) (header_of payload)
      (ok (payload_bytes payload) ∷ []) w

unfoldable browser : Browser World
browser = record {
  fetch = λ url payload w.
      let (r, w') = handle url payload w in
      (some (record { ok_status = is_success r.status; text = some r.body }), w');
  slice = λ file from to. some (take (to - from) (drop from file));
  slice_lem = λ file from to h. cc;
}

query_at-request_url : (q : Query) → Sendable q → query_at (request_url bucket key q) ≡ q
query_at-request_url q h =
    rw (drop-length_append (upload_url bucket key) (query_text q)) (query_of-query_text q h)

abbrev right : Query → Option Payload → World → Response × World
right q payload w =
    upload_handler host web self bucket key (params_of q) (header_of payload)
      (ok (payload_bytes payload) ∷ []) w

some_injective : (r s : Fetched) → Option.some r ≡ some s → r ≡ s
some_injective r s e = cc

answered :
    (q : Query) (payload : Option Payload) (w : World) {r : Fetched}
    → Sendable q
    → (browser.fetch (request_url bucket key q) payload w).0 ≡ some r
    → ((browser.fetch (request_url bucket key q) payload w).1 ≡ (right q payload w).1)
      × (r.ok_status ≡ is_success (right q payload w).0.status)
      × (r.text ≡ some (right q payload w).0.body)
unfolding browser
answered q payload w {r} h e =
    let same : handle (request_url bucket key q) payload w ≡ right q payload w =
      ap
        (λ x.
          upload_handler host web self bucket key (params_of x) (header_of payload)
            (ok (payload_bytes payload) ∷ []) w)
        (query_at-request_url q h) in
    let is_r = some_injective _ r e in
    (
      ap (λ x. x.1) same,
      ap (λ x. x.ok_status) (sym is_r) ∙ ap (λ x. is_success x.0.status) same,
      ap (λ x. x.text) (sym is_r) ∙ ap (λ x. some x.0.body) same,
    )

addressable : Addressable key
unfolding is_alphanumeric split
addressable = record { plain = refl; kept = ((λ e. cc, λ e. cc), ((λ e. cc, λ e. cc), tt)) }

routed : Routed host web self bucket key browser
unfolding body_to_stream web
routed = record {
  addressable = addressable;
  chunks = λ b. ok b ∷ [];
  chunks_lem = λ b. append-nil b;
  answered = λ q payload w h e. answered q payload w h e;
  json_lem = λ k h. from_slice-parts_json k;
}

abbrev content : Bytes
content = codes "hello"

abbrev tab : Tab
tab = record { pending = 1; any_done = false; status = in_progress; part = (0, 0) }

sent : (upload_multipart browser bucket key content (tab, start)).0.status ≡ done
unfolding host percent validate_bucket_name ◌>>=◌ is_reserved str_eq is_name_byte ends_with contains
    is_ipv4_formatted split exists call stat bucket_path join lookup path_eq encode_key
    is_alphanumeric call_io list_eq starts_with is_digit is_lowercase is_octet parse_u8 append
    create_new is_dir node_at rename put remove hex_digit is_traversal_unsafe Etag.finalize
    Etag.hex_byte Etag.hex_lower Etag.new Etag.update percent_encode set_add enter enter_all parent
    meta_dir meta_path object_path objects_dir create_temp move_into_place persist settle write_body
    write_chunks write_json write_sidecar flat_map upload_multipart upload_parts finish_upload
    browser post_text post_blob upload_handler dispatch arm_of params_of query_of query_text
    upload_url answer create_multipart_upload upload_part complete_multipart_upload upload_dir
    uploads_root part_path write_multipart_meta read_multipart_meta copy_parts write_parts
    create_dir_all make_dirs read remove_dir_all remove_under is_under clear_dir call_left
    body_to_stream resolve_content_type ext_mime extension row_of to_ascii_lowercase num_parts_of
    part_size_bytes parts_json join_with to_string show parts_of web from_slice value trim
    trim_start sort ◌<ℤ◌ as_i32 is_not_positive
sent = refl

get_object-upload_multipart_example :
    (meta : ObjectMeta) × (meta.key ≡ key)
    × (meta.content_type ≡ Option.get_or (resolve_content_type key none) default_content_type)
    × ((get_object host self bucket key none
          (upload_multipart browser bucket key content (tab, start)).1).0
        ≡ ok (meta, content))
get_object-upload_multipart_example =
    get_object-upload_multipart host web self bucket key browser routed content key-IsStr (λ e. cc)
      (omega arith) tab start sent (quiet _)

upload_multipart-Ended_example :
    Ended tab (upload_multipart browser bucket key content (tab, start)).0
upload_multipart-Ended_example = upload_multipart-Ended browser bucket key content tab start
