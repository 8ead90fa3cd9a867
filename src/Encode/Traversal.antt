-- ===== src/Encode/Traversal.antt =====
-- The traversal guard against the parts of a path.
use ferrobucket.Base.{ℕ, ◌≡◌, refl, Bool, false, List, [], ◌∷◌, arith, ◌||◌, ◌&&◌, ◌==◌}
use ferrobucket.Base.Text.{Bytes, codes, str_eq, starts_with, ends_with, contains, split}
use ferrobucket.Base.Text.Split.{first_part, rest_parts, split-parts}
use ferrobucket.Encode.{is_traversal_unsafe}

-- Some part is `..`.
pub has_dot_dot : List Bytes → Bool
has_dot_dot [] = false
has_dot_dot (p ∷ ps) = str_eq p (codes "..") || has_dot_dot ps

pub has_nul : Bytes → Bool
has_nul [] = false
has_nul (c ∷ s) = c == 0 || has_nul s

contains-nul : (s : Bytes) → contains s (0 ∷ []) ≡ has_nul s
unfolding contains starts_with has_nul
contains-nul [] = refl
contains-nul (c ∷ s) = ground (arith, contains-nul s)

starts_dot_dot : Bytes → Bool
starts_dot_dot s = str_eq s (codes "..") || starts_with s (codes "../")

holds_dot_dot : Bytes → Bool
holds_dot_dot s = contains s (codes "/../") || ends_with s (codes "/..")

first_part-dot_dot : (s : Bytes) → str_eq (first_part b'/' s) (codes "..") ≡ starts_dot_dot s
unfolding first_part starts_dot_dot str_eq starts_with
first_part-dot_dot [] = refl
first_part-dot_dot (c ∷ []) = ground arith
first_part-dot_dot (c ∷ d ∷ []) = ground arith
first_part-dot_dot (c ∷ d ∷ e ∷ s) = ground arith

holds_dot_dot-cons :
    (c : ℕ) (s : Bytes)
    → holds_dot_dot (c ∷ s) ≡ ((c == b'/' && starts_dot_dot s) || holds_dot_dot s)
unfolding holds_dot_dot starts_dot_dot contains ends_with str_eq starts_with
holds_dot_dot-cons c s = ground arith

rest_parts-dot_dot : (s : Bytes) → has_dot_dot (rest_parts b'/' s) ≡ holds_dot_dot s
unfolding rest_parts has_dot_dot
rest_parts-dot_dot [] = unfold holds_dot_dot contains ends_with str_eq starts_with in refl
rest_parts-dot_dot (c ∷ s) =
    rw (holds_dot_dot-cons c s) (ground (arith, first_part-dot_dot s, rest_parts-dot_dot s))

-- The traversal guard refuses exactly the texts that hold a NUL byte or have two dots as one of the
-- parts between slashes.
pub is_traversal_unsafe_exact :
    (s : Bytes) → is_traversal_unsafe s ≡ (has_nul s || has_dot_dot (split b'/' s))
unfolding is_traversal_unsafe has_dot_dot
is_traversal_unsafe_exact s = rw (split-parts b'/' s) (
    unfold starts_dot_dot holds_dot_dot in
    ground (arith, contains-nul s, first_part-dot_dot s, rest_parts-dot_dot s))
