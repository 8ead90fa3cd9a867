-- ===== src/Examples/Listings.antt =====
-- A small listing in pages of one item.
use ferrobucket.Base.{◌≡◌, refl, none, some, [], ◌∷◌, List, map, arith}
use ferrobucket.Base.Text.{Bytes, codes, str_lt}
use ferrobucket.Base.Text.Utf8.{is_utf8}
use ferrobucket.Base.Sort.{sort, Distinct}
use ferrobucket.Listing.{Item, emitted_of, filter_prefix}
use ferrobucket.Listing.Page.{ListV2Req, prefix_str}
use ferrobucket.Listing.Page.Complete.{walk, walk_complete}
use ferrobucket.Listing.Once.{walk-Distinct}
use ferrobucket.Examples.Hosts.{base64}

abbrev keys : List Bytes
keys = codes "b" ∷ codes "a/2" ∷ codes "a/1" ∷ []

abbrev req : ListV2Req
req = record {
  prefix = none;
  delimiter = some (codes "/");
  continuation_token = none;
  max_keys = some 1;
}

distinct : Distinct keys
distinct = ((λ e. ground arith, (λ e. ground arith, tt)), ((λ e. ground arith, tt), (tt, tt)))

walk_complete_example :
    walk base64 4 keys req none
    ≡ some (
        map
          (λ e. e.item)
          (emitted_of (prefix_str req) (some (codes "/")) (filter_prefix none (sort str_lt keys))))
unfolding is_utf8
walk_complete_example =
    walk_complete base64 keys req 4 distinct (refl, (refl, (refl, tt))) (omega arith)

walk-Distinct_example :
    (items : List Item) × (walk base64 4 keys req none ≡ some items) × Distinct items
unfolding is_utf8
walk-Distinct_example =
    walk-Distinct base64 keys req 4 distinct (refl, (refl, (refl, tt))) (omega arith)
