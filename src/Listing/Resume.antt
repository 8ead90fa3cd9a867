-- ===== src/Listing/Resume.antt =====
-- Resuming behind an emitted item: nothing is skipped and nothing is listed twice.
use ferrobucket.Base.{
  ℕ, zero, suc, true, ◌≡◌, ap, Option, none, some, List, [], ◌∷◌, inl, inr, All, retain,
  retain-skip, retain-All, drop, get_elem?,
}
use mathlib.Core.Path.{subst}
use ferrobucket.Base.Text.{Bytes, str_lt}
use ferrobucket.Base.Text.Order.{str_lt_asymm, str_lt_irrefl}
use ferrobucket.Base.Sort.{Ascending}
use ferrobucket.Listing.{Emitted}
use ferrobucket.Listing.Group.{group, group-cases, single}

none-at : (n : ℕ) (e : Emitted) → get_elem? {A = Emitted} [] n ≡ some e → ⊥
none-at n e h = cc

-- The last key of an item that is there.
abbrev last_key_or : Option Emitted → Bytes
last_key_or none = []
last_key_or (some e) = e.last_key

-- Behind the first of ascending keys stand all the others.
resume_first :
    (k : Bytes) (keys : List Bytes)
    → Ascending str_lt (k ∷ keys)
    → retain (str_lt k) (k ∷ keys) ≡ keys
resume_first k keys (h, _) =
    rw (retain-skip (str_lt k) k keys (str_lt_irrefl k)) (retain-All (str_lt k) keys h)

resume_later :
    (a k : Bytes) (keys : List Bytes)
    → str_lt k a ≡ true
    → retain (str_lt a) (k ∷ keys) ≡ retain (str_lt a) keys
resume_later a k keys h = retain-skip (str_lt a) k keys (str_lt_asymm k a h)

module _ (prefix : Bytes) (delimiter : Option Bytes) where
  -- The key that an emitted item resumes behind is one of the keys.
  pub All-group :
      (P : Bytes → Type 0) (keys : List Bytes) (n : ℕ) (e : Emitted)
      → All P keys
      → get_elem? (group prefix delimiter keys) n ≡ some e
      → P e.last_key
  All-group P [] n e h at_n = absurd (none-at n e (unfold group in at_n))
  All-group P (key ∷ keys) n e (hk, h) at_n = elim (group-cases prefix delimiter key keys) [
    | inl merged ↦ All-group P keys n e h (rw merged at at_n)
    | inr fresh ↦ first n (rw fresh at at_n) (λ m. All-group P keys m e h)
  ]
    where
      first :
          (n : ℕ)
          → get_elem? (single prefix delimiter key ∷ group prefix delimiter keys) n ≡ some e
          → ((m : ℕ) → get_elem? (group prefix delimiter keys) m ≡ some e → P e.last_key)
          → P e.last_key
      first zero at_n ih = subst P (ap last_key_or at_n) hk
      first (suc m) at_n ih = ih m at_n

  resume_fresh :
      (key : Bytes) (keys : List Bytes) (n : ℕ) (e : Emitted)
      → Ascending str_lt (key ∷ keys)
      → get_elem? (single prefix delimiter key ∷ group prefix delimiter keys) n ≡ some e
      → ((m : ℕ)
          → get_elem? (group prefix delimiter keys) m ≡ some e
          → group prefix delimiter (retain (str_lt e.last_key) keys)
            ≡ drop (suc m) (group prefix delimiter keys))
      → group prefix delimiter (retain (str_lt e.last_key) (key ∷ keys))
        ≡ drop n (group prefix delimiter keys)
  resume_fresh key keys zero e asc at_n ih =
      let same : key ≡ e.last_key = ap last_key_or at_n in
      rw (← same) (ap (group prefix delimiter) (resume_first key keys asc))
  resume_fresh key keys (suc m) e asc at_n ih =
      rw
        (resume_later e.last_key key keys
          (All-group (λ k. str_lt key k ≡ true) keys m e asc.0 at_n))
        (ih m at_n)

  -- Over ascending keys, the keys behind the last key of the item at a position are grouped into
  -- exactly the items behind that position.
  pub group-resume :
      (keys : List Bytes) (n : ℕ) (e : Emitted)
      → Ascending str_lt keys
      → get_elem? (group prefix delimiter keys) n ≡ some e
      → group prefix delimiter (retain (str_lt e.last_key) keys)
        ≡ drop (suc n) (group prefix delimiter keys)
  group-resume [] n e asc at_n = absurd (none-at n e (unfold group in at_n))
  group-resume (key ∷ keys) n e asc at_n = elim (group-cases prefix delimiter key keys) [
    | inl merged ↦
        let found : get_elem? (group prefix delimiter keys) n ≡ some e = rw merged at at_n in
        rw
          (
            merged,
            resume_later e.last_key key keys
                (All-group (λ k. str_lt key k ≡ true) keys n e asc.0 found),
          )
          (group-resume keys n e asc.1 found)
    | inr fresh ↦
        rw fresh
          (resume_fresh key keys n e asc (rw fresh at at_n) (λ m. group-resume keys m e asc.1))
  ]
