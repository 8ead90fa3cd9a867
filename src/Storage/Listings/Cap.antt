-- ===== src/Storage/Listings/Cap.antt =====
-- How many entries one answer of ListObjectsV2 has.
use ferrobucket.Base.{ℕ, ◌+◌, ◌≡◌, subst, List, [], ◌∷◌, arith, length}
use ferrobucket.Base.Text.{Bytes, str_lt}
use ferrobucket.Base.Sort.{length-sort}
use ferrobucket.FilePath.{FilePath}
use ferrobucket.Act.{World}
use ferrobucket.Act.After.{After, After-mono, After-bind, After-lift, After-any, After-unless}
use ferrobucket.Host.{Host}
use ferrobucket.Layout.{FsStorage, bucket_path}
use ferrobucket.Listing.{Item, object, common_prefix}
use ferrobucket.Listing.Page.{ListV2Req, list_page}
use ferrobucket.Listing.Page.Cap.{Capped, list_page-Capped}
use ferrobucket.Encode.{encode_key}
use ferrobucket.Bucket.{validate_bucket_name}
use ferrobucket.Persist.{read_sidecar}
use ferrobucket.Storage.{exists}
use ferrobucket.Storage.Listings.{
  ListV2Res, resolve_items, list_keys, list_objects_v2, decode_names,
}

module _ {H : Type 0} (host : Host H) where
  -- Every item becomes one entry.
  After-resolve_items :
      (dir : FilePath) (items : List Item) (w : World)
      → After
          (λ r _. length r.0 + length r.1 ≡ length items)
          (λ _ _. Unit {0})
          (resolve_items host dir items)
          w
  unfolding resolve_items
  After-resolve_items dir [] w = record { at = omega arith }
  After-resolve_items dir (object key ∷ items) w = After-bind (
      After-lift (encode_key host.percent key)
        (λ encoded _. After-bind (
          After-mono (After-any (read_sidecar host _) w)
            (λ meta w₁ _. After-bind (
              After-mono (After-resolve_items dir items w₁)
                (λ rest w₂ h. record { at = omega (arith, h) }) (λ _ _ x. x)))
            (λ _ _ x. x)))
        (λ _ _. tt))
  After-resolve_items dir (common_prefix cp ∷ items) w = After-bind (
      After-mono (After-resolve_items dir items w) (λ rest w₂ h. record { at = omega (arith, h) })
        (λ _ _ x. x))

  module _ (self : FsStorage) (bucket : Bytes) (req : ListV2Req) where
    abbrev pub entries : ListV2Res → ℕ
    entries res = length res.objects + length res.common_prefixes

    After-list_keys :
        (w : World)
        → After
            (λ res _. Capped req (entries res) res.is_truncated)
            (λ _ _. Unit {0})
            (list_keys host self bucket req)
            w
    unfolding list_keys
    After-list_keys w = After-bind (
        After-mono (After-any _ w)
          (λ listed w₁ _. After-bind (
            After-mono (After-any _ w₁)
              (λ names w₂ _. After-bind (
                After-lift (list_page host.base64 (decode_names host names) req)
                  (λ page h. After-bind (
                    After-mono (After-resolve_items _ page.items w₂)
                      (λ found w₃ counted. record {
                        at =
                            subst (λ n. Capped req n page.is_truncated)
                              (omega (arith, counted, length-sort str_lt found.1))
                              (list_page-Capped host.base64 (decode_names host names) req page h);
                      })
                      (λ _ _ x. x)))
                  (λ _ _. tt)))
              (λ _ _ x. x)))
          (λ _ _ x. x))

    pub After-list_objects_v2 :
        (w : World)
        → After
            (λ res _. Capped req (entries res) res.is_truncated)
            (λ _ _. Unit {0})
            (list_objects_v2 host self bucket req)
            w
    unfolding list_objects_v2
    After-list_objects_v2 w = After-bind (
        After-lift (validate_bucket_name bucket)
          (λ _ _. After-bind (
            After-mono (After-any (exists host (bucket_path self bucket)) w)
              (λ there w₁ _. After-unless there (record { at = tt }) (After-list_keys w₁))
              (λ _ _ x. x)))
          (λ _ _. tt))
