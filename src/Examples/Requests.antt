-- ===== src/Examples/Requests.antt =====
-- Deletions, parts and answers of the protocol.
use ferrobucket.Base.{◌≤◌, ◌≡◌, refl, none, some}
use ferrobucket.Base.Text.{codes}
use ferrobucket.Base.Int.{pos, negsuc}
use ferrobucket.Act.After.{After}
use ferrobucket.Error.{ok}
use ferrobucket.Range.{resolve}
use ferrobucket.Listing.Page.{ListV2Req}
use ferrobucket.Storage.Objects.{delete_object}
use ferrobucket.Storage.Objects.Delete.{After-delete_object, Deleted, HalfDeleted}
use ferrobucket.Storage.Objects.RoundTrip.{served}
use ferrobucket.Storage.Uploads
use ferrobucket.Storage.Uploads.Part.{After-upload_part, Staged, Unstaged}
use ferrobucket.Storage.Listings.{list_objects_v2}
use ferrobucket.Server.Convert.{int, as_i64, s3_range_to_byte_range}
use ferrobucket.Server.Objects as Handlers
use ferrobucket.Server.Objects.{get_response}
use ferrobucket.Server.Objects.Response.{content_length-get_response}
use ferrobucket.Server.Listings as ListHandler
use ferrobucket.Server.Listings.{ListObjectsV2Input}
use ferrobucket.Server.Listings.KeyCount.{key_count-list_objects_v2, entries}
use ferrobucket.Examples.Hosts.{host}
use ferrobucket.Examples.Keys.{bucket, self, key}
use ferrobucket.Examples.Objects.{start, body, meta}
use mathlib.Core.Option

After-delete_object_example :
    After
      (λ _ w. Deleted host self bucket key start.disk w)
      (λ _ w. HalfDeleted host self bucket key start.disk w)
      (delete_object host self bucket key)
      start
After-delete_object_example = After-delete_object host self bucket key start

After-upload_part_example :
    After
      (λ etag w. Staged host self (codes "u1") (pos 2) body start.disk etag w)
      (λ _ w. Unstaged host self (codes "u1") (pos 2) body start.disk w)
      (Uploads.upload_part host self (codes "u1") (pos 2) body)
      start
After-upload_part_example = After-upload_part host self (codes "u1") (pos 2) body start

abbrev req : ListV2Req
req = record { prefix = none; delimiter = none; continuation_token = none; max_keys = some 5 }

abbrev input : ListObjectsV2Input
input = record {
  bucket = bucket;
  prefix = none;
  delimiter = none;
  max_keys = some (negsuc 0);
  continuation_token = none;
}

key_count-list_objects_v2_example :
    After
      (λ r _. (entries r.output ≤ 1000) × (r.output.key_count ≡ some (pos (entries r.output))))
      (λ _ _. Unit {0})
      (ListHandler.list_objects_v2 host self input)
      start
key_count-list_objects_v2_example = key_count-list_objects_v2 host self input start

served-at :
    served meta (codes "hello") (some (s3_range_to_byte_range (int 1 (some 3))))
    ≡ ok (meta, codes "ell")
unfolding resolve s3_range_to_byte_range
served-at = refl

content_length-get_response_example :
    (get_response (some (int 1 (some 3))) (meta, codes "ell")).output.content_length
    ≡ some (as_i64 3)
content_length-get_response_example =
    content_length-get_response (some (int 1 (some 3))) meta meta (codes "hello") (codes "ell") refl
      (λ e. cc) served-at
