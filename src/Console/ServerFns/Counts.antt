-- ===== src/Console/ServerFns/Counts.antt =====
-- crates/ui/src/server_fns/buckets.rs: the numbers in the table of the buckets.
use ferrobucket.Base.{ℕ, ◌≤◌, ◌≡◌, refl, ap, suc, List, [], ◌∷◌, length, arith, All}
use ferrobucket.Base.Text.{Bytes}
use ferrobucket.Act.{World}
use ferrobucket.Act.After.{After, After-any, After-bind, After-mono, After-map_err}
use ferrobucket.Meta.{BucketInfo}
use ferrobucket.Host.{Host}
use ferrobucket.Storage.Listings.Cap.{After-list_objects_v2}
use ferrobucket.Listing.Page.Cap.{max_keys_of_bound}
use ferrobucket.Console.ServerFns.{
  AppState, BucketRow, bucket_rows, list_buckets_fn, as_text, flat_req,
}

module _ {H : Type 0} (host : Host H) (rfc3339 : ℕ → Bytes) (state : AppState) where
  abbrev Counted : List BucketRow → Type 0
  Counted rows = All (λ row. row.object_count ≤ 1000) rows

  After-bucket_rows :
      (buckets : List BucketInfo) (w : World)
      → After
          (λ rows _. (length rows ≡ length buckets) × Counted rows)
          (λ _ _. Unit {0})
          (bucket_rows host rfc3339 state buckets)
          w
  unfolding bucket_rows
  After-bucket_rows [] w = record { at = (refl, tt) }
  After-bucket_rows (bucket ∷ buckets) w = After-bind (
      After-mono
        (After-map_err (as_text host rfc3339 state)
          (After-list_objects_v2 host state.storage bucket.name flat_req w))
        (λ listing w₁ (few, _). After-bind (
          After-mono (After-bucket_rows buckets w₁)
            (λ rows w₂ (same, counted). record {
              at = (ap suc same, (omega (arith, few, max_keys_of_bound flat_req), counted));
            })
            (λ _ _ x. x)))
        (λ _ _ x. x))

  -- Whatever the disk holds, no row of the table of buckets counts more than 1000 objects.
  pub After-list_buckets_fn :
      (w : World)
      → After (λ rows _. Counted rows) (λ _ _. Unit {0}) (list_buckets_fn host rfc3339 state) w
  unfolding list_buckets_fn
  After-list_buckets_fn w = After-bind (
      After-mono (After-any _ w)
        (λ buckets w₁ _. After-mono (After-bucket_rows buckets w₁) (λ _ _ k. k.1) (λ _ _ x. x))
        (λ _ _ x. x))
