-- ===== src/Listing/Members.antt =====
-- Which keys an answer without delimiter has.
use ferrobucket.Base.{
  ℕ, zero, suc, ◌≡◌, refl, sym, subst, Bool, false, ap, ◌∙◌, true, false, inl, inr, ◌⊎◌, Bool-cases,
  Option, none, some, List, [], ◌∷◌, map, length, take, All, All-retained, ltb, arith, take_all,
}
use ferrobucket.Base.Members.{In, In-retain}
use ferrobucket.Base.Sort.{sort, In-sort}
use ferrobucket.Base.Text.{Bytes, str_lt, starts_with}
use ferrobucket.Error.{ok}
use ferrobucket.Listing.{object, filter_prefix, resume_after, classify, same_prefix}
use ferrobucket.Listing.Group.{group, glue, single, emitted_of-group}
use ferrobucket.Listing.Page.{
  Base64, ListV2Req, Page, max_keys_of, prefix_str, decode_token, cut, list_page,
}

group-none :
    (prefix : Bytes) (keys : List Bytes) → group prefix none keys ≡ map (single prefix none) keys
unfolding group glue classify same_prefix
group-none prefix [] = refl
group-none prefix (key ∷ keys) = rw (group-none prefix keys) (first keys)
  where
    first :
        (ks : List Bytes)
        → glue (single prefix none key) (map (single prefix none) ks)
          ≡ single prefix none key ∷ map (single prefix none) ks
    first [] = refl
    first (k ∷ ks) = refl

items-take :
    (prefix : Bytes) (n : ℕ) (keys : List Bytes)
    → map (λ e. e.item) (take n (map (single prefix none) keys)) ≡ map object (take n keys)
unfolding classify
items-take prefix zero keys = refl
items-take prefix (suc n) [] = refl
items-take prefix (suc n) (key ∷ keys) = ap (λ xs. object key ∷ xs) (items-take prefix n keys)

length-singles :
    (prefix : Bytes) (keys : List Bytes) → length (map (single prefix none) keys) ≡ length keys
length-singles prefix [] = refl
length-singles prefix (key ∷ keys) = ap suc (length-singles prefix keys)

-- The key has the prefix that is asked for, if one is.
abbrev pub has_prefix : Bytes → Option Bytes → Bool
has_prefix key none = true
has_prefix key (some prefix) = starts_with key prefix

-- The keys that match, in order.
abbrev pub matching : List Bytes → Option Bytes → List Bytes
matching keys prefix = filter_prefix prefix (sort str_lt keys)

pub In-matching :
    (key : Bytes) (keys : List Bytes) (prefix : Option Bytes)
    → has_prefix key prefix ≡ true
    → In key keys
    → In key (matching keys prefix)
unfolding filter_prefix
In-matching key keys none h there = In-sort str_lt key keys there
In-matching key keys (some p) h there =
    In-retain key (λ k. starts_with k p) (sort str_lt keys) h (In-sort str_lt key keys there)

pub All-has_prefix :
    (keys : List Bytes) (prefix : Option Bytes)
    → All (λ k. has_prefix k prefix ≡ true) (filter_prefix prefix keys)
unfolding filter_prefix
All-has_prefix keys none = All-any keys
  where
    All-any : (ks : List Bytes) → All (λ k. true ≡ true) ks
    All-any [] = tt
    All-any (k ∷ ks) = (refl, All-any ks)
All-has_prefix keys (some p) = All-retained (λ k. starts_with k p) keys

-- The first request for the keys themselves.
abbrev pub flat : Option Bytes → Option ℕ → ListV2Req
flat prefix max_keys = record {
  prefix = prefix;
  delimiter = none;
  continuation_token = none;
  max_keys = max_keys;
}

pub list_page-flat :
    (base64 : Base64) (keys : List Bytes) (prefix : Option Bytes) (max_keys : Option ℕ)
    → let max = max_keys_of (flat prefix max_keys) in
      (page : Page) × (list_page base64 keys (flat prefix max_keys) ≡ ok page)
      × (page.items ≡ map object (take max (matching keys prefix)))
      × (page.is_truncated ≡ ltb max (length (matching keys prefix)))
unfolding list_page decode_token cut resume_after
list_page-flat base64 keys prefix max_keys =
    let found = matching keys prefix in
    let req = flat prefix max_keys in
    (
      cut base64 (max_keys_of req) (map (single (prefix_str req) none) found),
      rw (emitted_of-group, group-none (prefix_str req) found) refl,
      items-take (prefix_str req) (max_keys_of req) found,
      ap (ltb (max_keys_of req)) (length-singles (prefix_str req) found),
    )

take-whole : {A : Type 0} (max : ℕ) (xs : List A) → ltb max (length xs) ≡ false → take max xs ≡ xs
take-whole max xs whole = take_all max xs (ground arith)

-- A matching key is on the page, unless the page is cut.
pub In-flat :
    (key : Bytes) (keys : List Bytes) (prefix : Option Bytes) (max : ℕ) (truncated : Bool)
    → truncated ≡ ltb max (length (matching keys prefix))
    → has_prefix key prefix ≡ true
    → In key keys
    → (truncated ≡ true) ⊎ In key (take max (matching keys prefix))
In-flat key keys prefix max truncated same h there = elim (Bool-cases truncated) [
  | inl cut ↦ inl cut
  | inr whole ↦ inr (
      subst (In key) (sym (take-whole max (matching keys prefix) (sym same ∙ whole)))
        (In-matching key keys prefix h there))
]
