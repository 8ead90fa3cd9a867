-- ===== src/Listing/Page/Complete.antt =====
-- A client that follows the tokens until a page is not truncated sees the whole listing, once.
use mathlib.Core.Option
use mathlib.Core.List.{map-append}
use ferrobucket.Base.{
  ℕ, zero, suc, ◌-◌, ◌<◌, ◌≡◌, refl, sym, ◌∙◌, ap, true, false, Option, none, some, List, ◌++◌, map,
  arith, ltb, length, take, drop, All, take-append-drop, length-drop, take_all, Bool-cases, inl,
  inr,
}
use ferrobucket.Base.Text.{Bytes, str_lt}
use ferrobucket.Base.Text.Order.{str_lt_trans, str_lt_total}
use ferrobucket.Base.Text.Utf8.{IsStr, IsStr-IsByte}
use ferrobucket.Base.Sort.{sort, Distinct, Ascending, sort-Ascending, All-sort, length-sort}
use ferrobucket.Error.{ok, err}
use ferrobucket.Listing.{Item, Emitted, emitted_of, resume_after, filter_prefix}
use ferrobucket.Listing.Group.{group, emitted_of-group, length-group}
use ferrobucket.Listing.Resume.{All-group}
use ferrobucket.Listing.Page.{
  Base64, ListV2Req, Page, max_keys_of, prefix_str, encode_continuation_token, decode_token, cut,
  list_page,
}
use ferrobucket.Listing.Page.Walk.{
  max_keys_of_pos, filter_prefix-resume, filter_prefix-Ascending, All-filter_prefix,
  length-filter_prefix, get_elem?-lt, After, resume-IsStr, group-resume_after,
}

module _ (base64 : Base64) where
  -- The next request after a page, if there is one.
  abbrev follow : (Option Bytes → Option (List Item)) → Page → Option (List Item)
  follow next page = elim page.next_continuation_token [
    | none ↦ some page.items
    | some token ↦ Option.map (λ items. page.items ++ items) (next (some token))
  ]

  -- At most `fuel` requests over an unchanged bucket; `none` if a request fails or the fuel ends.
  pub walk : ℕ → List Bytes → ListV2Req → Option Bytes → Option (List Item)
  walk zero keys req token = none
  walk (suc fuel) keys req token =
      elim (list_page base64 keys (record req { continuation_token = token })) [
        | err e ↦ none
        | ok page ↦ follow (walk fuel keys req) page
      ]

  walk-ok :
      (fuel : ℕ) (keys : List Bytes) (req : ListV2Req) (token : Option Bytes) (page : Page)
      → list_page base64 keys (record req { continuation_token = token }) ≡ ok page
      → walk (suc fuel) keys req token ≡ follow (walk fuel keys req) page
  unfolding walk
  walk-ok fuel keys req token page h = rw (h, walk)

  decode_token-encode :
      (after : Option Bytes)
      → After after
      → decode_token base64 (Option.map (encode_continuation_token base64) after) ≡ ok after
  unfolding decode_token encode_continuation_token
  decode_token-encode none h = refl
  decode_token-encode (some a) h = ground (arith, base64.decode-encode a (IsStr-IsByte a h), h)

  module _ (keys : List Bytes) (req : ListV2Req) where
    abbrev matching : List Bytes
    matching = filter_prefix req.prefix (sort str_lt keys)

    abbrev listed : Option Bytes → List Emitted
    listed after = group (prefix_str req) req.delimiter (resume_after after matching)

    list_page-cut :
        (after : Option Bytes)
        → After after
        → list_page base64 keys (record req {
          continuation_token = Option.map (encode_continuation_token base64) after;
        })
          ≡ ok (cut base64 (max_keys_of req) (listed after))
    unfolding list_page max_keys_of prefix_str
    list_page-cut after h = rw (
      decode_token-encode after h,
      emitted_of-group,
      filter_prefix-resume req.prefix after (sort str_lt keys),
    )

    module _ (asc : Ascending str_lt matching) (strs : All IsStr matching) where
      follow_last :
          (fuel : ℕ) (after : Option Bytes)
          → ltb (max_keys_of req) (length (listed after)) ≡ false
          → follow (walk fuel keys req) (cut base64 (max_keys_of req) (listed after))
            ≡ some (map (λ e. e.item) (listed after))
      unfolding cut
      follow_last fuel after last =
          rw last (rw (take_all (max_keys_of req) (listed after) (ground arith)))

      follow_more :
          (fuel : ℕ) (after : Option Bytes)
          → After after
          → length (listed after) < suc fuel
          → ltb (max_keys_of req) (length (listed after)) ≡ true
          → ((a : Bytes)
              → After (some a)
              → length (listed (some a)) < fuel
              → walk fuel keys req (some (encode_continuation_token base64 a))
                ≡ some (map (λ e. e.item) (listed (some a))))
          → follow (walk fuel keys req) (cut base64 (max_keys_of req) (listed after))
            ≡ some (map (λ e. e.item) (listed after))
      unfolding cut
      follow_more fuel after h enough more ih =
          let max : ℕ = max_keys_of req in
          let pos : 0 < max = max_keys_of_pos req in
          let some_left : max - 1 < length (listed after) = ground arith in
          let (e, at_max) = get_elem?-lt (listed after) (max - 1) some_left in
          let str : IsStr e.last_key =
            All-group (prefix_str req) req.delimiter IsStr (resume_after after matching) (max - 1) e
              (resume-IsStr matching asc strs after) at_max in
          let rest : listed (some e.last_key) ≡ drop max (listed after) =
            group-resume_after matching asc strs (prefix_str req) req.delimiter after (max - 1) e
              at_max
            ∙ ap (λ n. drop n (listed after)) {x = suc (max - 1)} (omega arith) in
          let shorter : length (listed (some e.last_key)) < fuel =
            rw rest (rw (length-drop max (listed after)) (omega arith)) in
          rw (more, at_max)
            (rw (ih e.last_key str shorter) (
              rw rest (
                ap some (
                  sym (map-append (λ e. e.item) (take max (listed after)) (drop max (listed after)))
                  ∙ ap (map (λ e. e.item)) (take-append-drop max (listed after))))))

      -- With more fuel than items left, the walk returns the items left.
      walk_from :
          (fuel : ℕ) (after : Option Bytes)
          → After after
          → length (listed after) < fuel
          → walk fuel keys req (Option.map (encode_continuation_token base64) after)
            ≡ some (map (λ e. e.item) (listed after))
      unfolding walk
      walk_from zero after h enough = absurd (omega arith)
      walk_from (suc fuel) after h enough =
          walk-ok fuel keys req _ _ (list_page-cut after h)
          ∙ elim (Bool-cases (ltb (max_keys_of req) (length (listed after)))) [
            | inl more ↦ follow_more fuel after h enough more (λ a. walk_from fuel (some a))
            | inr last ↦ follow_last fuel after last
          ]

-- Over distinct keys that are texts, a client that follows the continuation tokens page by page,
-- with more requests allowed than there are keys, gets exactly the items of one uncut listing in
-- its order: no key is skipped between pages and none is listed twice.
pub walk_complete :
    (base64 : Base64) (keys : List Bytes) (req : ListV2Req) (fuel : ℕ)
    → Distinct keys
    → All IsStr keys
    → length keys < fuel
    → walk base64 fuel keys req none
      ≡ some (
          map
            (λ e. e.item)
            (emitted_of
              (prefix_str req)
              req.delimiter
              (filter_prefix req.prefix (sort str_lt keys))))
unfolding resume_after
walk_complete base64 keys req fuel distinct strs enough =
    let sorted : Ascending str_lt (sort str_lt keys) =
      sort-Ascending str_lt str_lt_trans str_lt_total keys distinct in
    let texts : All IsStr (sort str_lt keys) = All-sort str_lt IsStr keys strs in
    rw emitted_of-group (
      walk_from base64 keys req (filter_prefix-Ascending req.prefix (sort str_lt keys) sorted)
        (All-filter_prefix IsStr req.prefix (sort str_lt keys) texts) fuel none tt
        (omega (
          arith,
          length-group (prefix_str req) req.delimiter (matching base64 keys req),
          length-filter_prefix req.prefix (sort str_lt keys),
          length-sort str_lt keys,
        )))
