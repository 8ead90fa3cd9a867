-- ===== src/Examples/Runs.antt =====
-- A run of operations against the map that it leads to, and a bucket that is deleted.
use mathlib.Core.List.{flat_map}
use ferrobucket.Base.{◌≡◌, ◌<◌, refl, ap, ◌∙◌, none, some, List, [], ◌∷◌, length, arith, All}
use ferrobucket.Base.Text.{Bytes, codes, str_eq, list_eq, starts_with, ends_with, contains, split}
use ferrobucket.Base.Text.Utf8.{is_utf8}
use ferrobucket.Error.{ok}
use ferrobucket.FilePath.{FilePath, join, enter, enter_all, parent, path_eq, path_eq_ne}
use ferrobucket.Encode.{encode_key, is_traversal_unsafe, is_alphanumeric, hex_digit}
use ferrobucket.Bucket.{
  validate_bucket_name, is_reserved, is_ipv4_formatted, is_octet, parse_u8, is_name_byte, is_digit,
  is_lowercase,
}
use ferrobucket.Disk.{dir, lookup, put, remove}
use ferrobucket.Disk.Calls.{node_at, is_dir, create_new, append, rename, remove_file}
use ferrobucket.Act.{◌>>=◌, call, call_io}
use ferrobucket.Act.After.{After}
use ferrobucket.Etag
use ferrobucket.Layout.{bucket_path, objects_dir, meta_dir, object_path, meta_path}
use ferrobucket.Persist.{
  persist, create_temp, move_into_place, settle, write_body, write_chunks, write_object_body,
  write_sidecar, write_json,
}
use ferrobucket.Storage.{exists, stat}
use ferrobucket.Storage.Objects.{put_object, get_object, delete_object}
use ferrobucket.Storage.Buckets.{delete_bucket}
use ferrobucket.Storage.Buckets.Keep.{After-delete_bucket, FilesKept, bucket_json}
use ferrobucket.Storage.Refines as Refines
use ferrobucket.Storage.Refines.{Op, delete, nothing, applies, performs, perform}
use ferrobucket.Storage.Refines.Places.{Place, meta_at}
use ferrobucket.Storage.Refines.Steps.{Shows}
use ferrobucket.Storage.Refines.Runs.{get_object-performs, IsText, Answers}
use ferrobucket.Storage.Refines.Tidy.{Tidy}
use ferrobucket.Storage.Refines.Listed.{Listed, list_objects_v2-performs}
use ferrobucket.Storage.Listings.{ListV2Res, list_objects_v2}
use ferrobucket.Listing.Members.{flat, has_prefix}
use ferrobucket.Examples.Hosts.{host, percent, percent_encode, set_add}
use ferrobucket.Examples.Keys.{bucket, self, key, key-IsStr, bucket-valid}
use ferrobucket.Examples.Objects.{start, body, quiet}

abbrev other_key : Bytes
other_key = codes "b"

other-IsText : IsText (Refines.put bucket other_key body none)
unfolding is_utf8
other-IsText = record { str = refl; not_empty = λ e. cc }

abbrev ops : List Op
ops =
    Refines.put bucket key body (some (codes "text/plain"))
    ∷ Refines.put bucket other_key body none
    ∷ delete bucket key
    ∷ []

ops-IsText : All IsText ops
ops-IsText = (
  record { str = key-IsStr; not_empty = λ e. cc },
  (other-IsText, (record { str = key-IsStr; not_empty = λ e. cc }, tt)),
)

performed : (performs host self ops start).0 ≡ ok tt
unfolding host percent put_object delete_object perform performs validate_bucket_name ◌>>=◌
    is_reserved str_eq is_name_byte ends_with contains is_ipv4_formatted split exists call stat
    bucket_path join lookup path_eq encode_key is_alphanumeric call_io list_eq starts_with is_digit
    is_lowercase is_octet parse_u8 append create_new is_dir node_at rename put remove hex_digit
    is_traversal_unsafe Etag.finalize Etag.hex_byte Etag.hex_lower Etag.new Etag.update
    percent_encode set_add enter enter_all parent meta_dir meta_path object_path objects_dir
    create_temp move_into_place persist settle write_body write_chunks write_json write_object_body
    write_sidecar flat_map remove_file
performed = refl

other-Place : Place host.percent self bucket other_key (codes "b")
unfolding host percent encode_key is_traversal_unsafe contains starts_with ends_with str_eq
    is_alphanumeric hex_digit percent_encode set_add is_utf8
other-Place = record { valid = bucket-valid; str = refl; not_empty = λ e. cc; named = refl }

long_path_free : (a b c d : Bytes) → lookup (a ∷ b ∷ c ∷ d ∷ []) start.disk ≡ none
unfolding lookup
long_path_free a b c d =
    let away = λ (q : FilePath) (short : length q < 4).
      path_eq_ne q (a ∷ b ∷ c ∷ d ∷ []) (λ e. absurd (omega (arith, ap length e, short))) in
    rw
      (
        away (codes "data" ∷ []) (omega arith),
        away (bucket ∷ codes "data" ∷ []) (omega arith),
        away (codes "objects" ∷ bucket ∷ codes "data" ∷ []) (omega arith),
        away (codes "meta" ∷ bucket ∷ codes "data" ∷ []) (omega arith),
      )
      refl

start-Shows : Shows host self start.disk nothing
start-Shows = record {
  at = λ b k n place.
      ap (λ p. lookup p start.disk) (meta_at host.percent self place) ∙ long_path_free _ _ _ _;
}

get_object-performs_example :
    Answers host self bucket
      (codes "b")
      (applies ops nothing bucket other_key)
      (get_object host self bucket other_key none (performs host self ops start).1).0
get_object-performs_example =
    get_object-performs host self ops nothing start start-Shows ops-IsText performed bucket
      other_key (codes "b") other-Place (quiet _)

start-place : lookup (bucket ∷ codes "data" ∷ []) start.disk ≡ some dir
unfolding lookup path_eq str_eq
start-place = refl

start-objects : lookup (codes "objects" ∷ bucket ∷ codes "data" ∷ []) start.disk ≡ some dir
unfolding lookup path_eq str_eq
start-objects = refl

start-Tidy : Tidy host self bucket start.disk nothing
start-Tidy = record {
  place = start-place;
  objects = start-objects;
  known =
      λ n node there. absurd (cc (long_path_free n (codes "objects") bucket (codes "data"), there));
}

list_objects_v2-performs_example :
    (res : ListV2Res) × ((list_objects_v2 host self bucket
        (flat (some (codes "b")) (some 2))
        (performs host self ops start).1).0
      ≡ ok res)
    × Listed host self bucket other_key
        (has_prefix other_key (some (codes "b")))
        (applies ops nothing bucket other_key)
        res
list_objects_v2-performs_example =
    list_objects_v2-performs host self bucket ops nothing start start-Shows start-Tidy ops-IsText
      performed (quiet _) other_key (codes "b") other-Place (some (codes "b")) (some 2)

After-delete_bucket_example :
    After
      (λ _ w. FilesKept (bucket_json host self bucket) start.disk w.disk)
      (λ _ w. FilesKept (bucket_json host self bucket) start.disk w.disk)
      (delete_bucket host self bucket)
      start
After-delete_bucket_example = After-delete_bucket host self bucket start
