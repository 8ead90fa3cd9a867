-- ===== src/Listing/Page/Walk.antt =====
-- The keys that are left behind a continuation token.
use ferrobucket.Base.{
  ℕ, zero, suc, ◌≤◌, ◌<◌, ◌≡◌, refl, sym, Bool, true, Option, none, some, List, [], ◌∷◌, arith,
  length, drop, get_elem?, All, All-retain, All-retained, retain, retain_comm, retain-retain,
  length-retain, Bool-cases, inl, inr,
}
use ferrobucket.Base.Text.{Bytes, str_lt, starts_with}
use ferrobucket.Base.Text.Order.{str_lt_trans}
use ferrobucket.Base.Text.Utf8.{IsStr}
use ferrobucket.Base.Sort.{Ascending}
use ferrobucket.Listing.{Emitted, resume_after, filter_prefix}
use ferrobucket.Listing.Group.{group}
use ferrobucket.Listing.Resume.{All-group, group-resume}
use ferrobucket.Listing.Page.{ListV2Req, max_keys_of}

pub max_keys_of_pos : (req : ListV2Req) → 0 < max_keys_of req
unfolding max_keys_of
max_keys_of_pos req = ground arith

Ascending-retain :
    (p : Bytes → Bool) (keys : List Bytes)
    → Ascending str_lt keys
    → Ascending str_lt (retain p keys)
unfolding retain
Ascending-retain p [] h = h
Ascending-retain p (k ∷ keys) (hk, h) = elim (Bool-cases (p k)) [
  | inl e ↦ rw e (All-retain p (λ y. str_lt k y ≡ true) keys hk, Ascending-retain p keys h)
  | inr e ↦ rw e (Ascending-retain p keys h)
]

pub filter_prefix-resume :
    (prefix after : Option Bytes) (keys : List Bytes)
    → filter_prefix prefix (resume_after after keys)
      ≡ resume_after after (filter_prefix prefix keys)
unfolding filter_prefix resume_after
filter_prefix-resume none after keys = refl
filter_prefix-resume (some p) none keys = refl
filter_prefix-resume (some p) (some a) keys = retain_comm (λ k. starts_with k p) (str_lt a) keys

pub filter_prefix-Ascending :
    (prefix : Option Bytes) (keys : List Bytes)
    → Ascending str_lt keys
    → Ascending str_lt (filter_prefix prefix keys)
unfolding filter_prefix
filter_prefix-Ascending none keys h = h
filter_prefix-Ascending (some p) keys h = Ascending-retain (λ k. starts_with k p) keys h

pub All-filter_prefix :
    (P : Bytes → Type 0) (prefix : Option Bytes) (keys : List Bytes)
    → All P keys
    → All P (filter_prefix prefix keys)
unfolding filter_prefix
All-filter_prefix P none keys h = h
All-filter_prefix P (some p) keys h = All-retain (λ k. starts_with k p) P keys h

pub length-filter_prefix :
    (prefix : Option Bytes) (keys : List Bytes) → length (filter_prefix prefix keys) ≤ length keys
unfolding filter_prefix
length-filter_prefix none keys = omega arith
length-filter_prefix (some p) keys = length-retain (λ k. starts_with k p) keys

pub get_elem?-lt {ℓ} :
    {A : Type ℓ} (xs : List A) (n : ℕ) → n < length xs → (a : A) × (get_elem? xs n ≡ some a)
get_elem?-lt [] n h = absurd (omega arith)
get_elem?-lt (x ∷ xs) zero h = (x, refl)
get_elem?-lt (x ∷ xs) (suc n) h = get_elem?-lt xs n (omega arith)

-- A point to resume behind: none, or a key of the listing.
abbrev pub After : Option Bytes → Type 0
After none = Unit
After (some a) = IsStr a

module _ (keys : List Bytes) (asc : Ascending str_lt keys) (strs : All IsStr keys) where
  resume-Ascending : (after : Option Bytes) → Ascending str_lt (resume_after after keys)
  unfolding resume_after
  resume-Ascending none = asc
  resume-Ascending (some a) = Ascending-retain (str_lt a) keys asc

  pub resume-IsStr : (after : Option Bytes) → All IsStr (resume_after after keys)
  unfolding resume_after
  resume-IsStr none = strs
  resume-IsStr (some a) = All-retain (str_lt a) IsStr keys strs

  module _ (prefix : Bytes) (delimiter : Option Bytes) where
    -- Resuming twice is resuming once, behind the later key.
    resume-resume :
        (after : Option Bytes) (n : ℕ) (e : Emitted)
        → get_elem? (group prefix delimiter (resume_after after keys)) n ≡ some e
        → resume_after (some e.last_key) keys ≡ retain (str_lt e.last_key) (resume_after after keys)
    unfolding resume_after
    resume-resume none n e h = refl
    resume-resume (some a) n e h =
        let later : str_lt a e.last_key ≡ true =
          All-group prefix delimiter (λ k. str_lt a k ≡ true) (retain (str_lt a) keys) n e
            (All-retained (str_lt a) keys) h in
        sym (
          retain-retain (str_lt e.last_key) (str_lt a)
            (λ x lt. str_lt_trans a e.last_key x later lt) keys)

    pub group-resume_after :
        (after : Option Bytes) (n : ℕ) (e : Emitted)
        → get_elem? (group prefix delimiter (resume_after after keys)) n ≡ some e
        → group prefix delimiter (resume_after (some e.last_key) keys)
          ≡ drop (suc n) (group prefix delimiter (resume_after after keys))
    group-resume_after after n e h =
        rw (resume-resume after n e h)
          (group-resume prefix delimiter (resume_after after keys) n e (resume-Ascending after) h)
