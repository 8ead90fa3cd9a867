-- ===== src/Listing/Once.antt =====
-- No item of a listing comes twice.
use mathlib.Core.Option as Option
use ferrobucket.Base.{
  ℕ, ◌+◌, ◌≡◌, ◌≢◌, refl, true, false, Option, none, some, List, [], ◌∷◌, ◌++◌, map, All, length,
  take, drop, ap, subst, ◌∙◌, sym, Bool-cases, Option-cases, All-retained, ◌<◌, inl, inr, arith,
}
use ferrobucket.Base.Text.{Bytes, starts_with, find, str_lt, str_eq_refl}
use ferrobucket.Base.Text.Search.{starts_with_split}
use ferrobucket.Base.Sort.{Ascending, Distinct, sort, sort-Ascending}
use ferrobucket.Base.Text.Order.{str_lt_irrefl, str_lt_asymm, str_lt_trans, str_lt_total}
use ferrobucket.Listing.{Item, object, common_prefix, Emitted, classify, same_prefix, filter_prefix}
use ferrobucket.Base.Text.Utf8.{IsStr}
use ferrobucket.Listing.Page.{Base64, ListV2Req, prefix_str}
use ferrobucket.Listing.Page.Walk.{filter_prefix-Ascending}
use ferrobucket.Listing.Page.Complete.{walk, walk_complete}
use ferrobucket.Listing.Cut.{starts_with-between, starts_with-take, find-Cut}
use ferrobucket.Listing.Group.{single, group, glue, group-cases, same_prefix-eq, emitted_of-group}

-- The key that an object is listed under is the key itself.
classify-object :
    (prefix : Bytes) (delimiter : Option Bytes) (key k : Bytes)
    → classify prefix delimiter key ≡ object k
    → k ≡ key
unfolding classify
classify-object prefix none key k h = cc
classify-object prefix (some d) key k h = elim (Option-cases (find (drop (length prefix) key) d)) [
  | inl e ↦ let h' = rw (e, classify) at h in cc
  | inr (pos, e) ↦ let h' = rw (e, classify) at h in absurd (cc)
]

-- The common prefix that a key is listed under, from the place of the delimiter.
classify-common :
    (prefix : Bytes) (delimiter : Option Bytes) (key cp : Bytes)
    → classify prefix delimiter key ≡ common_prefix cp
    → (d : Bytes) × (pos : ℕ) × (delimiter ≡ some d)
      × (find (drop (length prefix) key) d ≡ some pos)
      × (cp ≡ prefix ++ take (pos + length d) (drop (length prefix) key))
unfolding classify
classify-common prefix none key cp h = absurd (cc)
classify-common prefix (some d) key cp h = elim (Option-cases (find (drop (length prefix) key) d)) [
  | inl e ↦ let h' = rw (e, classify) at h in absurd (cc)
  | inr (pos, e) ↦ let h' = rw (e, classify) at h in (d, pos, refl, e, cc)
]

classify-at :
    (prefix d k : Bytes) (pos : ℕ)
    → find (drop (length prefix) k) d ≡ some pos
    → classify prefix (some d) k
      ≡ common_prefix (prefix ++ take (pos + length d) (drop (length prefix) k))
unfolding classify
classify-at prefix d k pos e = rw (e, classify) refl

starts_with-common : (p s t : Bytes) → starts_with (p ++ s) (p ++ t) ≡ starts_with s t
unfolding starts_with
starts_with-common [] s t = refl
starts_with-common (c ∷ p) s t = ground (arith, starts_with-common p s t)

-- Every key that starts with the common prefix of another one is listed under it.
classify-starts_with :
    (prefix : Bytes) (delimiter : Option Bytes) (key k cp : Bytes)
    → classify prefix delimiter key ≡ common_prefix cp
    → starts_with k prefix ≡ true
    → starts_with k cp ≡ true
    → classify prefix delimiter k ≡ common_prefix cp
classify-starts_with prefix delimiter key k cp h below under =
    let (d, pos, given, found, e) = classify-common prefix delimiter key cp h in
    let rest : Bytes = drop (length prefix) k in
    let cut : starts_with rest (take (pos + length d) (drop (length prefix) key)) ≡ true =
      sym (starts_with-common prefix rest (take (pos + length d) (drop (length prefix) key)))
      ∙ ap (λ t. starts_with t (prefix ++ take (pos + length d) (drop (length prefix) key)))
          (sym (starts_with_split k prefix below))
      ∙ ap (starts_with k) (sym e)
      ∙ under in
    let (at_pos, same) = find-Cut (drop (length prefix) key) d rest pos found cut in
    rw given
      (classify-at prefix d k pos at_pos ∙ ap common_prefix (ap (λ t. prefix ++ t) same ∙ sym e))

-- A key starts with the common prefix that it is listed under.
starts_with-classify :
    (prefix : Bytes) (delimiter : Option Bytes) (key cp : Bytes)
    → classify prefix delimiter key ≡ common_prefix cp
    → starts_with key prefix ≡ true
    → starts_with key cp ≡ true
starts_with-classify prefix delimiter key cp h below =
    let (d, pos, given, found, e) = classify-common prefix delimiter key cp h in
    let rest : Bytes = drop (length prefix) key in
    ap (λ t. starts_with t cp) (starts_with_split key prefix below)
    ∙ ap (starts_with (prefix ++ rest)) e
    ∙ starts_with-common prefix rest (take (pos + length d) rest)
    ∙ starts_with-take (pos + length d) rest

module _ (prefix : Bytes) (delimiter : Option Bytes) where
  -- What stands between a key and a later one in the same item is in that item too.
  classify-between :
      (i : Item) (key k last : Bytes)
      → classify prefix delimiter key ≡ i
      → classify prefix delimiter last ≡ i
      → str_lt key k ≡ true
      → str_lt last k ≡ false
      → str_lt key last ≡ true
      → starts_with key prefix ≡ true
      → starts_with k prefix ≡ true
      → starts_with last prefix ≡ true
      → same_prefix i (classify prefix delimiter k) ≡ true
  classify-between (object x) key k last here there h under lt a b c =
      let e : x ≡ key = classify-object prefix delimiter key x here in
      let e' : x ≡ last = classify-object prefix delimiter last x there in
      absurd (grind (arith, str_lt_irrefl key, lt, e, e'))
  classify-between (common_prefix cp) key k last here there h under lt a b c =
      let under_cp =
        starts_with-between cp key k last h under
          (starts_with-classify prefix delimiter key cp here a)
          (starts_with-classify prefix delimiter last cp there c) in
      rw (classify-starts_with prefix delimiter key k cp here b under_cp)
        (unfold same_prefix in str_eq_refl cp)

  All-items :
      (Q : Item → Type 0) (keys : List Bytes)
      → All (λ k. Q (classify prefix delimiter k)) keys
      → All Q (map (λ e. e.item) (group prefix delimiter keys))
  All-items Q [] h = unfold group in tt
  All-items Q (key ∷ keys) (hk, h) = elim (group-cases prefix delimiter key keys) [
    | inl merged ↦ rw merged (All-items Q keys h)
    | inr fresh ↦ rw fresh (hk, All-items Q keys h)
  ]

glue-head :
    (e : Emitted) (g : List Emitted)
    → (f : Emitted) × (rest : List Emitted) × (glue e g ≡ f ∷ rest) × (f.item ≡ e.item)
unfolding glue
glue-head e [] = (e, [], refl, refl)
glue-head e (f ∷ rest) = elim (Bool-cases (same_prefix e.item f.item)) [
  | inl same ↦ (f, rest, rw same refl, sym (same_prefix-eq e.item f.item same))
  | inr other ↦ (e, f ∷ rest, rw other refl, refl)
]

glue-same :
    (e : Emitted) (g rest : List Emitted) (f : Emitted)
    → g ≡ f ∷ rest
    → same_prefix e.item f.item ≡ true
    → glue e g ≡ g
unfolding glue
glue-same e g rest f h same = rw (h, same) refl

not_before :
    (k : Bytes) (xs : List Bytes)
    → All (λ x. str_lt k x ≡ true) xs
    → All (λ x. str_lt x k ≡ false) xs
not_before k [] h = tt
not_before k (x ∷ xs) (hx, h) = (str_lt_asymm k x hx, not_before k xs h)

glue-other :
    (e : Emitted) (g rest : List Emitted) (f : Emitted)
    → g ≡ f ∷ rest
    → same_prefix e.item f.item ≡ false
    → glue e g ≡ e ∷ g
unfolding glue
glue-other e g rest f h other = rw (h, other) refl

module _ (prefix : Bytes) (delimiter : Option Bytes) where
  apart :
      (key k : Bytes)
      → same_prefix (classify prefix delimiter key) (classify prefix delimiter k) ≡ false
      → str_lt key k ≡ true
      → starts_with key prefix ≡ true
      → starts_with k prefix ≡ true
      → (later : List Bytes) → All (λ x. str_lt x k ≡ false) later
      → All (λ x. str_lt key x ≡ true) later
      → All (λ x. starts_with x prefix ≡ true) later
      → All (λ x. classify prefix delimiter key ≢ classify prefix delimiter x) later
  apart key k other h a b [] un af be = tt
  apart key k other h a b (x ∷ later) (u, un) (lt, af) (c, be) = (
    λ same.
        let merged =
          classify-between prefix delimiter (classify prefix delimiter key) key k x refl (sym same)
            h u lt a b c in
        absurd (cc),
    apart key k other h a b later un af be,
  )

  Distinct-group :
      (keys : List Bytes)
      → Ascending str_lt keys
      → All (λ k. starts_with k prefix ≡ true) keys
      → Distinct (map (λ e. e.item) (group prefix delimiter keys))
  Distinct-group [] asc below = unfold group in tt
  Distinct-group (key ∷ []) asc below = unfold group glue in (tt, tt)
  Distinct-group (key ∷ k ∷ rest) (before, asc) (a, below) =
      let (f, tail, shape, head) =
        glue-head (single prefix delimiter k) (group prefix delimiter rest) in
      let ih = Distinct-group (k ∷ rest) asc below in
      elim (Bool-cases (same_prefix (classify prefix delimiter key) f.item)) [
        | inl same ↦
            let step : group prefix delimiter (key ∷ k ∷ rest) ≡ group prefix delimiter (k ∷ rest) =
              unfold group in glue-same (single prefix delimiter key) _ tail f shape same in
            rw step ih
        | inr other ↦
            let step : group prefix delimiter (key ∷ k ∷ rest)
                ≡ single prefix delimiter key ∷ group prefix delimiter (k ∷ rest) =
              unfold group in glue-other (single prefix delimiter key) _ tail f shape other in
            rw step (
              All-items prefix delimiter (λ i. classify prefix delimiter key ≢ i) (k ∷ rest)
                  (apart key k
                    (subst (λ i. same_prefix (classify prefix delimiter key) i ≡ false) head other)
                    before.0 a below.0 (k ∷ rest) (str_lt_irrefl k, not_before k rest asc.0) before
                    below),
              ih,
            )
      ]

below-filter_prefix :
    (req : ListV2Req) (keys : List Bytes)
    → All (λ k. starts_with k (prefix_str req) ≡ true) (filter_prefix req.prefix keys)
unfolding prefix_str
below-filter_prefix req keys = go req.prefix
  where
    every : (xs : List Bytes) → All (λ k. starts_with k [] ≡ true) xs
    every [] = tt
    every (x ∷ xs) = (unfold starts_with in refl, every xs)

    go :
        (prefix : Option Bytes)
        → All (λ k. starts_with k (Option.get_or prefix []) ≡ true) (filter_prefix prefix keys)
    go none = unfold filter_prefix in every keys
    go (some p) = unfold filter_prefix in All-retained (λ k. starts_with k p) keys

-- Over distinct keys that are texts, a client that follows the continuation tokens page by page,
-- with more requests allowed than there are keys, gets to the end, and is given no object and no
-- common prefix twice.
pub walk-Distinct :
    (base64 : Base64) (keys : List Bytes) (req : ListV2Req) (fuel : ℕ)
    → Distinct keys
    → All IsStr keys
    → length keys < fuel
    → (items : List Item) × (walk base64 fuel keys req none ≡ some items) × Distinct items
walk-Distinct base64 keys req fuel distinct strs enough =
    let matching : List Bytes = filter_prefix req.prefix (sort str_lt keys) in
    let sorted : Ascending str_lt matching =
      filter_prefix-Ascending req.prefix (sort str_lt keys)
        (sort-Ascending str_lt str_lt_trans str_lt_total keys distinct) in
    (
      _,
      walk_complete base64 keys req fuel distinct strs enough,
      rw emitted_of-group (
          Distinct-group (prefix_str req) req.delimiter matching sorted
            (below-filter_prefix req (sort str_lt keys))),
    )
