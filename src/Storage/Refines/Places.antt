-- ===== src/Storage/Refines/Places.antt =====
-- Different objects have different places on the disk.
use ferrobucket.Base.{◌≡◌, ◌≢◌, sym, ap, ◌∙◌, [], ◌∷◌, ◌++◌}
use ferrobucket.Base.Text.{Bytes, codes}
use ferrobucket.Base.Text.Utf8.{IsStr}
use ferrobucket.Error.{ok}
use ferrobucket.Encode.{PercentEncoding, encode_key}
use ferrobucket.Encode.RoundTrip.{encode_key_injective}
use ferrobucket.Bucket.{validate_bucket_name}
use ferrobucket.Layout.{FsStorage, object_path, meta_path}
use ferrobucket.Layout.Contained.{object_path_valid, meta_path_valid}
use mathlib.Core.List.{append_cancel_right}

module _ (percent : PercentEncoding) (self : FsStorage) where
  -- The name of a non-empty text key in a bucket with a valid name.
  pub record Place (bucket key name : Bytes) : Type 0 where
    pub valid : validate_bucket_name bucket ≡ ok tt
    pub str : IsStr key
    pub not_empty : key ≢ []
    pub named : encode_key percent key ≡ ok name

  module _ {bucket key name : Bytes} (p : Place bucket key name) where
    pub object_at : object_path self bucket name ≡ name ∷ codes "objects" ∷ bucket ∷ self.data_root
    object_at = object_path_valid self bucket p.valid percent key name p.str p.named p.not_empty

    pub meta_at :
        meta_path self bucket name
        ≡ (name ++ codes ".json") ∷ codes "meta" ∷ bucket ∷ self.data_root
    meta_at = meta_path_valid self bucket p.valid percent key name p.str p.named

    pub name_unique : (other : Bytes) → encode_key percent key ≡ ok other → other ≡ name
    name_unique other h = cc (h, p.named)

  module _ {bucket key name b k n : Bytes} (p : Place bucket key name) (q : Place b k n) where
    same_key : name ≡ n → key ≡ k
    same_key e = encode_key_injective percent key k n p.str q.str (p.named ∙ ap ok e) q.named

    pub same_object : object_path self bucket name ≡ object_path self b n → (bucket ≡ b) × (key ≡ k)
    same_object e = let same = sym (object_at p) ∙ e ∙ object_at q in (cc same, same_key (cc same))

    pub same_meta : meta_path self bucket name ≡ meta_path self b n → (bucket ≡ b) × (key ≡ k)
    same_meta e =
        let same = sym (meta_at p) ∙ e ∙ meta_at q in
        let text : name ++ codes ".json" ≡ n ++ codes ".json" = cc same in
        (cc same, same_key (append_cancel_right name n (codes ".json") text))

    pub object_path-ne-meta_path_of : object_path self bucket name ≢ meta_path self b n
    object_path-ne-meta_path_of e = cc (sym (object_at p) ∙ e ∙ meta_at q)
