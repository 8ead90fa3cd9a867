-- ===== src/Server/Listings/KeyCount.antt =====
-- KeyCount in the answer to ListObjectsV2.
use ferrobucket.Base.{ℕ, ◌+◌, ◌≤◌, ◌≡◌, ap, some, [], map, arith, length}
use ferrobucket.Base.Int.{pos}
use ferrobucket.Act.{World}
use ferrobucket.Act.After.{After, After-mono, After-bind, After-map_err}
use ferrobucket.Host.{Host}
use ferrobucket.Layout.{FsStorage}
use ferrobucket.Listing.Page.Cap.{max_keys_of_bound, length-map}
use ferrobucket.Storage.Listings.{ListV2Res}
use ferrobucket.Storage.Listings.Cap.{After-list_objects_v2}
use ferrobucket.Server.Errors.{map_storage_err}
use ferrobucket.Server.Convert.{as_i32}
use ferrobucket.Server.Objects.DeleteMany.{get_or-unless_empty}
use ferrobucket.Server.Listings.{
  ListObjectsV2Input, ListObjectsV2Output, list_objects_v2, list_output, list_req, object_entry,
}
use mathlib.Core.Option

-- The entries of an answer; a list that is left out has none.
abbrev pub entries : ListObjectsV2Output → ℕ
entries o = length (Option.get_or o.contents []) + length (Option.get_or o.common_prefixes [])

as_i32-small : (n : ℕ) → n ≤ 1000 → as_i32 n ≡ pos n
unfolding as_i32
as_i32-small n h = ground arith

module _ {H : Type 0} (host : Host H) (storage : FsStorage) (input : ListObjectsV2Input) where
  -- Whatever number of keys the client asks for, also a negative one, the answer of the handler has
  -- at most 1000 entries and its KeyCount is their number.
  pub key_count-list_objects_v2 :
      (w : World)
      → After
          (λ r _. (entries r.output ≤ 1000) × (r.output.key_count ≡ some (pos (entries r.output))))
          (λ _ _. Unit {0})
          (list_objects_v2 host storage input)
          w
  unfolding list_objects_v2 list_output
  key_count-list_objects_v2 w = After-bind (
      After-mono
        (After-map_err map_storage_err
          (After-list_objects_v2 host storage input.bucket (list_req input) w))
        (λ res w₁ (few, _). record {
          at = counted res (omega (arith, few, max_keys_of_bound (list_req input)));
        })
        (λ _ _ x. x))
    where
      counted :
          (res : ListV2Res)
          → length res.objects + length res.common_prefixes ≤ 1000
          → (entries (list_output input.bucket res) ≤ 1000)
            × ((list_output input.bucket res).key_count
                ≡ some (pos (entries (list_output input.bucket res))))
      counted res few =
          rw
            (
              get_or-unless_empty (map object_entry res.objects),
              get_or-unless_empty res.common_prefixes,
              length-map object_entry res.objects,
            )
            (few, ap some (as_i32-small _ few))
