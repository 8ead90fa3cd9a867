-- ===== src/Listing/Page/Cap.antt =====
-- How many items a page has.
use ferrobucket.Base.{
  ℕ, suc, ◌≤◌, ◌≡◌, ◌⊎◌, refl, ap, subst, Bool, false, List, [], ◌∷◌, map, arith, length, take,
  length-take,
}
use ferrobucket.Base.Text.{Bytes}
use ferrobucket.Error.{ok, err, Result, ◌>>=◌}
use ferrobucket.Listing.{Emitted}
use ferrobucket.Listing.Page.{Base64, ListV2Req, Page, list_page, cut, max_keys_of, clamp}

pub max_keys_of_bound : (req : ListV2Req) → max_keys_of req ≤ 1000
unfolding max_keys_of clamp
max_keys_of_bound req = ground arith

pub length-map : {A B : Type 0} (f : A → B) (xs : List A) → length (map f xs) ≡ length xs
length-map f [] = refl
length-map f (x ∷ xs) = ap suc (length-map f xs)

-- A page has at most `max_keys` items, and exactly as many if it is truncated.
abbrev pub Capped : ListV2Req → ℕ → Bool → Type 0
Capped req n truncated = (n ≤ max_keys_of req) × ((truncated ≡ false) ⊎ (n ≡ max_keys_of req))

cut-Capped :
    (base64 : Base64) (req : ListV2Req) (emitted : List Emitted)
    → Capped req
        (length (cut base64 (max_keys_of req) emitted).items)
        (cut base64 (max_keys_of req) emitted).is_truncated
unfolding cut
cut-Capped base64 req emitted = ground (
  arith,
  length-map (λ e. e.item) (take (max_keys_of req) emitted),
  length-take (max_keys_of req) emitted,
)

-- A chain that ends in a page took it from some value.
taken_from :
    {A : Type 0} (o : Result A) (f : A → Page) {page : Page}
    → (o >>= λ a. ok (f a)) ≡ ok page
    → (a : A) × (f a ≡ page)
taken_from (ok a) f h = (a, cc)
taken_from (err e) f h = absurd cc

pub list_page-Capped :
    (base64 : Base64) (keys : List Bytes) (req : ListV2Req) (page : Page)
    → list_page base64 keys req ≡ ok page
    → Capped req (length page.items) page.is_truncated
unfolding list_page
list_page-Capped base64 keys req page h =
    let (after, same) = taken_from _ _ h in
    subst (λ p. Capped req (length p.items) p.is_truncated) same (cut-Capped base64 req _)
