-- ===== src/Examples/Uploads.antt =====
-- Two staged parts, put together.
use ferrobucket.Base.{refl, [], ◌∷◌, List}
use ferrobucket.Base.Text.{Bytes, codes, str_eq, list_eq, starts_with, split}
use ferrobucket.Base.Int.{ℤ, pos}
use ferrobucket.Base.Decimal.{to_string, show}
use ferrobucket.FilePath.{FilePath, join, enter, enter_all, parent, path_eq}
use ferrobucket.Disk.{dir, file, lookup}
use ferrobucket.Disk.Calls.{read, node_at}
use ferrobucket.Act.{World}
use ferrobucket.Act.After.{After}
use ferrobucket.Persist.{persist, temp_path}
use ferrobucket.Persist.Atomic.{Persisted, SameBut}
use ferrobucket.Storage.Uploads.{write_parts}
use ferrobucket.Storage.Uploads.Assemble.{After-persist_parts, Assembled, PartsAre}
use ferrobucket.Base.Sort.{sort}
use ferrobucket.Base.Int.{◌<ℤ◌}
use ferrobucket.Base.{none, ◌≡◌, arith}
use ferrobucket.Error.{ok}
use ferrobucket.FilePath.{IsPlain}
use ferrobucket.Meta.{MultipartMeta}
use ferrobucket.Layout.{upload_dir, uploads_root}
use ferrobucket.Storage.Uploads.{complete_multipart_upload}
use ferrobucket.Storage.Uploads.Complete.{After-complete_multipart_upload, Completed, Uncompleted}
use ferrobucket.Examples.Hosts.{host, multipart_to_vec}
use ferrobucket.Examples.Keys.{bucket, name, self, key, key-IsStr, bucket-valid}

abbrev staging : FilePath
staging = codes "u1" ∷ codes ".uploads" ∷ codes "data" ∷ []

abbrev objects : FilePath
objects = codes "objects" ∷ bucket ∷ codes "data" ∷ []

abbrev staged : World
staged = record {
  disk =
      (codes "2" ∷ staging, file (codes "llo"))
      ∷ (codes "1" ∷ staging, file (codes "he"))
      ∷ (objects, dir)
      ∷ [];
  calls = 0;
}

abbrev numbers : List ℤ
numbers = pos 1 ∷ pos 2 ∷ []

abbrev unsorted : List ℤ
unsorted = pos 2 ∷ pos 1 ∷ []

abbrev contents : List Bytes
contents = codes "he" ∷ codes "llo" ∷ []

parts-are : PartsAre staged.disk staging numbers contents
unfolding read node_at lookup path_eq list_eq str_eq join enter enter_all parent starts_with split
    to_string show
parts-are = (refl, (refl, tt))

After-persist_parts_example :
    After
      (Persisted
        (name ∷ objects)
        (codes "hello")
        (Assembled host staging numbers contents)
        staged.disk)
      (λ _ w. SameBut (temp_path host objects staged) staged.disk w.disk)
      (persist host objects (name ∷ objects) (write_parts host staging numbers))
      staged
After-persist_parts_example =
    After-persist_parts host staging numbers contents objects (name ∷ objects) staged parts-are

abbrev upload_id : Bytes
upload_id = codes "u1"

abbrev record_of : MultipartMeta
record_of = record { bucket = bucket; key = key; content_type = none }

abbrev unfinished : World
unfinished = record {
  disk = (codes "_meta.json" ∷ staging, file (multipart_to_vec record_of)) ∷ staged.disk;
  calls = 0;
}

meta_there :
    read (join (upload_dir self upload_id) (codes "_meta.json")) unfinished.disk
    ≡ ok (multipart_to_vec record_of, unfinished.disk)
unfolding read node_at lookup path_eq list_eq str_eq join enter enter_all parent starts_with split
    upload_dir uploads_root
meta_there = refl

parts_there : PartsAre unfinished.disk (upload_dir self upload_id) (sort ◌<ℤ◌ unsorted) contents
unfolding read node_at lookup path_eq list_eq str_eq join enter enter_all parent starts_with split
    to_string show upload_dir uploads_root sort ◌<ℤ◌
parts_there = (refl, (refl, tt))

upload_id-IsPlain : IsPlain upload_id
upload_id-IsPlain = record {
  no_slash = omega arith;
  not_empty = λ e. cc;
  not_dot = λ e. cc;
  not_dot_dot = λ e. cc;
}

After-complete_multipart_upload_example :
    After
      (λ meta w.
        Completed host self key upload_id unsorted record_of contents unfinished.disk meta w)
      (λ _ w. Uncompleted host self key upload_id unsorted record_of contents unfinished.disk w)
      (complete_multipart_upload host self key upload_id unsorted)
      unfinished
unfolding host
After-complete_multipart_upload_example =
    After-complete_multipart_upload host self key upload_id unsorted record_of contents unfinished
      meta_there parts_there bucket-valid upload_id-IsPlain key-IsStr (λ e. cc)
