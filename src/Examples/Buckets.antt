-- ===== src/Examples/Buckets.antt =====
-- A bucket created in an empty data directory, and listed.
use ferrobucket.Base.{◌≡◌, ◌≢◌, refl, sym, subst, Bool-cases, inl, inr, List, [], ◌∷◌}
use ferrobucket.Base.Text.{codes, str_eq, list_eq, starts_with, ends_with, contains, split}
use ferrobucket.Error.{ok}
use ferrobucket.FilePath.{FilePath, join, enter, enter_all, parent, path_eq, path_eq_ne}
use ferrobucket.Bucket.{
  validate_bucket_name, is_reserved, is_ipv4_formatted, is_octet, parse_u8, is_name_byte, is_digit,
  is_lowercase,
}
use ferrobucket.Disk.{dir, file, Disk, lookup, put, remove}
use ferrobucket.Disk.Calls.{node_at, is_dir, create_dir, create_dir_all, make_dirs, create, append}
use ferrobucket.Act.{World, ◌>>=◌, call, call_left, call_io}
use ferrobucket.Act.After.{After}
use ferrobucket.Meta.{BucketInfo}
use ferrobucket.Layout.{bucket_path, objects_dir, meta_dir}
use ferrobucket.Storage.Buckets.{create_bucket, list_buckets}
use ferrobucket.Storage.Buckets.Create.{After-create_bucket, Created, Uncreated}
use ferrobucket.Storage.Buckets.Listed.{list_buckets-create_bucket, Readable}
use ferrobucket.Base.Members.{In}
use ferrobucket.Persist.Partial.{write}
use ferrobucket.Examples.Hosts.{host}
use ferrobucket.Examples.Keys.{bucket, self}
use ferrobucket.Examples.Objects.{quiet}

abbrev empty : World
empty = record { disk = (codes "data" ∷ [], dir) ∷ []; calls = 0 }

After-create_bucket_example :
    After
      (λ _ w. Created host self bucket empty.disk w)
      (λ _ w. Uncreated host self bucket empty.disk w)
      (create_bucket host self bucket)
      empty
After-create_bucket_example = After-create_bucket host self bucket empty

created : (create_bucket host self bucket empty).0 ≡ ok tt
unfolding host create_bucket validate_bucket_name ◌>>=◌ is_reserved str_eq is_name_byte ends_with
    contains is_ipv4_formatted split call bucket_path join lookup path_eq call_io list_eq
    starts_with is_digit is_lowercase is_octet parse_u8 is_dir node_at put remove enter enter_all
    parent meta_dir objects_dir create_dir create_dir_all make_dirs write create append call_left
created = refl

abbrev info : BucketInfo
info = record { name = bucket; created_at = 4 }

abbrev listing : Disk
listing =
    (codes ".bucket.json" ∷ bucket ∷ codes "data" ∷ [], file (host.bucket_json.to_vec info))
    ∷ (codes "meta" ∷ bucket ∷ codes "data" ∷ [], dir)
    ∷ (codes "objects" ∷ bucket ∷ codes "data" ∷ [], dir)
    ∷ (bucket ∷ codes "data" ∷ [], dir)
    ∷ (codes "data" ∷ [], dir)
    ∷ []

created_disk : (create_bucket host self bucket empty).1.disk ≡ listing
unfolding host create_bucket validate_bucket_name ◌>>=◌ is_reserved str_eq is_name_byte ends_with
    contains is_ipv4_formatted split call bucket_path join lookup path_eq call_io list_eq
    starts_with is_digit is_lowercase is_octet parse_u8 is_dir node_at put remove enter enter_all
    parent meta_dir objects_dir create_dir create_dir_all make_dirs write create append call_left
created_disk = refl

listing-Readable : Readable host self listing
unfolding lookup
listing-Readable name =
    let q = codes ".bucket.json" ∷ name ∷ codes "data" ∷ [] in
    let away = λ (p : FilePath) (ne : p ≢ q). path_eq_ne p q ne in
    elim (Bool-cases (path_eq (codes ".bucket.json" ∷ bucket ∷ codes "data" ∷ []) q)) [
      | inl here ↦ rw here (info, host.bucket_json.from_slice-to_vec info)
      | inr there ↦
          rw
            (
              there,
              away (codes "meta" ∷ bucket ∷ codes "data" ∷ []) (λ e. cc),
              away (codes "objects" ∷ bucket ∷ codes "data" ∷ []) (λ e. cc),
              away (bucket ∷ codes "data" ∷ []) (λ e. cc),
              away (codes "data" ∷ []) (λ e. cc),
            )
            tt
    ]

list_buckets-create_bucket_example :
    (infos : List BucketInfo) × (found : BucketInfo) × ((list_buckets host self
        (create_bucket host self bucket empty).1).0
      ≡ ok infos)
    × (found.name ≡ bucket)
    × In found infos
list_buckets-create_bucket_example =
    list_buckets-create_bucket host self bucket empty created
      (subst (Readable host self) (sym created_disk) listing-Readable) (quiet _)
