-- ===== src/Examples/Objects.antt =====
-- One object, written and read.
use mathlib.Core.List.{flat_map}
use ferrobucket.Base.{ℕ, ◌≡◌, refl, none, some, [], ◌∷◌}
use ferrobucket.Base.Text.{codes, str_eq, list_eq, starts_with, ends_with, contains, split}
use ferrobucket.Error.{ok}
use ferrobucket.FilePath.{FilePath, join, enter, enter_all, parent, path_eq}
use ferrobucket.Encode.{encode_key, is_traversal_unsafe, is_alphanumeric, hex_digit}
use ferrobucket.Bucket.{
  validate_bucket_name, is_reserved, is_ipv4_formatted, is_octet, parse_u8, is_name_byte, is_digit,
  is_lowercase,
}
use ferrobucket.Disk.{dir, lookup, put, remove}
use ferrobucket.Disk.Calls.{node_at, is_dir, create_new, append, rename}
use ferrobucket.Act.{World, ◌>>=◌, call, call_io}
use ferrobucket.Act.After.{After}
use ferrobucket.Act.Steps.{Quiet}
use ferrobucket.Meta.{ObjectMeta}
use ferrobucket.Etag
use ferrobucket.Range.{suffix}
use ferrobucket.Layout.{bucket_path, objects_dir, meta_dir, object_path, meta_path}
use ferrobucket.Persist.{
  Body, persist, create_temp, move_into_place, settle, write_body, write_chunks, write_object_body,
  write_sidecar, write_json, temp_path,
}
use ferrobucket.Persist.Atomic.{After-persist, Persisted, SameBut}
use ferrobucket.Persist.Body.{Measured, Writes-body}
use ferrobucket.Storage.{exists, stat}
use ferrobucket.Storage.Objects.{put_object, get_object, head_object}
use ferrobucket.Storage.Objects.Put.{After-put_object, Stored, Kept}
use ferrobucket.Storage.Objects.RoundTrip.{get_object-put_object, head_object-put_object, served}
use ferrobucket.Examples.Hosts.{host, percent, percent_encode, set_add}
use ferrobucket.Examples.Keys.{bucket, self, key, key-IsStr, name}

-- An empty bucket.
abbrev pub start : World
start = record {
  disk =
      (codes "data" ∷ [], dir)
      ∷ (bucket ∷ codes "data" ∷ [], dir)
      ∷ (codes "objects" ∷ bucket ∷ codes "data" ∷ [], dir)
      ∷ (codes "meta" ∷ bucket ∷ codes "data" ∷ [], dir)
      ∷ [];
  calls = 0;
}

abbrev pub body : Body
body = ok (codes "he") ∷ ok (codes "llo") ∷ []

abbrev pub meta : ObjectMeta
meta = record {
  key = key;
  size = 5;
  content_type = codes "text/plain";
  etag = codes "68656c6c6f";
  last_modified = 6;
}

pub put_object-at :
    (put_object host self bucket key body (some (codes "text/plain")) start).0 ≡ ok meta
unfolding host percent put_object validate_bucket_name ◌>>=◌ is_reserved str_eq is_name_byte
    ends_with contains is_ipv4_formatted split exists call stat bucket_path join lookup path_eq
    encode_key is_alphanumeric call_io list_eq starts_with is_digit is_lowercase is_octet parse_u8
    append create_new is_dir node_at rename put remove hex_digit is_traversal_unsafe Etag.finalize
    Etag.hex_byte Etag.hex_lower Etag.new Etag.update percent_encode set_add enter enter_all parent
    meta_dir meta_path object_path objects_dir create_temp move_into_place persist settle write_body
    write_chunks write_json write_object_body write_sidecar flat_map
put_object-at = refl

pub quiet : (n : ℕ) → Quiet host.fails n
unfolding host
quiet n m h = refl

get_object-put_object_example :
    (get_object host self bucket key
      (some (suffix 2))
      (put_object host self bucket key body (some (codes "text/plain")) start).1).0
    ≡ served meta (codes "hello") (some (suffix 2))
get_object-put_object_example =
    get_object-put_object host self bucket key (some (codes "text/plain")) body start key-IsStr
      (λ e. cc) meta put_object-at (quiet _) (some (suffix 2))

head_object-put_object_example :
    (head_object host self bucket key
      (put_object host self bucket key body (some (codes "text/plain")) start).1).0
    ≡ ok meta
head_object-put_object_example =
    head_object-put_object host self bucket key (some (codes "text/plain")) body start key-IsStr
      (λ e. cc) meta put_object-at (quiet _)

After-put_object_example :
    After
      (λ m w. Stored host self bucket key none (codes "hello") start.disk m w)
      (λ _ w. Kept host self bucket key none (codes "hello") start.disk w)
      (put_object host self bucket key body none)
      start
After-put_object_example = After-put_object host self bucket key none body start key-IsStr (λ e. cc)

abbrev objects : FilePath
objects = codes "objects" ∷ bucket ∷ codes "data" ∷ []

After-persist_example :
    After
      (Persisted (name ∷ objects) (codes "hello") (Measured host (codes "hello")) start.disk)
      (λ _ w. SameBut (temp_path host objects start) start.disk w.disk)
      (persist host objects (name ∷ objects) (write_body host body))
      start
After-persist_example =
    After-persist host objects (name ∷ objects) (codes "hello") (Measured host (codes "hello"))
      (write_body host body) start (Writes-body host start.disk objects body)
