-- ===== src/Server/Startup/Routes.antt =====
-- crates/server/src/main.rs: which requests are left to the S3 service.
use ferrobucket.Base.{
  ◌≡◌, ◌≢◌, refl, false, Bool-cases, inl, inr, List, [], ◌∷◌, map, All, All-append,
}
use ferrobucket.Base.Text.{Bytes, codes, str_eq, list_eq}
use ferrobucket.Error.{ok, err, invalid_bucket_name}
use ferrobucket.Bucket.{validate_bucket_name, is_reserved, reserved_message}
use ferrobucket.Server.Startup.{
  literal, parameter, wildcard, Pattern, Destination, s3, pages, server_fns, mounts, mounted,
  app_routes, Router, destination,
}

refused_ui :
    validate_bucket_name (codes "ui") ≡ err (invalid_bucket_name (reserved_message (codes "ui")))
unfolding validate_bucket_name is_reserved str_eq list_eq
refused_ui = refl

refused_pkg :
    validate_bucket_name (codes "pkg") ≡ err (invalid_bucket_name (reserved_message (codes "pkg")))
unfolding validate_bucket_name is_reserved str_eq list_eq
refused_pkg = refl

-- The pattern starts with a name that differs.
abbrev Apart : Bytes → Pattern → Type 0
Apart bucket [] = ⊥
Apart bucket (literal c ∷ pattern) = bucket ≢ c
Apart bucket (parameter ∷ pattern) = ⊥
Apart bucket (wildcard ∷ pattern) = ⊥

-- The path of a server function, below the prefix that Leptos gives them.
abbrev pub BelowApi : Pattern → Type 0
BelowApi [] = ⊥
BelowApi (literal c ∷ pattern) = c ≡ codes "api"
BelowApi (parameter ∷ pattern) = ⊥
BelowApi (wildcard ∷ pattern) = ⊥

Apart-BelowApi : (bucket : Bytes) (p : Pattern) → bucket ≢ codes "api" → BelowApi p → Apart bucket p
Apart-BelowApi bucket [] ne below = absurd below
Apart-BelowApi bucket (literal c ∷ p) ne below = λ e. ne (cc)
Apart-BelowApi bucket (parameter ∷ p) ne below = absurd below
Apart-BelowApi bucket (wildcard ∷ p) ne below = absurd below

module _ (router : Router) (bucket : Bytes) (rest : List Bytes) where
  matches-Apart :
      (pattern : Pattern) → Apart bucket pattern → router.matches pattern (bucket ∷ rest) ≡ false
  matches-Apart [] apart = absurd apart
  matches-Apart (literal c ∷ pattern) apart =
      elim (Bool-cases (router.matches (literal c ∷ pattern) (bucket ∷ rest))) [
        | inl hit ↦ absurd (apart (router.matches-literal c pattern (bucket ∷ rest) hit))
        | inr miss ↦ miss
      ]
  matches-Apart (parameter ∷ pattern) apart = absurd apart
  matches-Apart (wildcard ∷ pattern) apart = absurd apart

  destination-Apart :
      (ms : List (Pattern × Destination))
      → All (λ m. Apart bucket m.0) ms
      → destination router ms (bucket ∷ rest) ≡ s3
  unfolding destination
  destination-Apart [] apart = refl
  destination-Apart ((pattern, to) ∷ ms) (here, apart) =
      rw (matches-Apart pattern here) (destination-Apart ms apart)

  All-mounted :
      (to : Destination) (patterns : List Pattern)
      → All (Apart bucket) patterns
      → All (λ m. Apart bucket m.0) (map (mounted to) patterns)
  All-mounted to [] apart = tt
  All-mounted to (p ∷ patterns) (here, apart) = (here, All-mounted to patterns apart)

  All-BelowApi :
      (patterns : List Pattern)
      → bucket ≢ codes "api"
      → All BelowApi patterns
      → All (Apart bucket) patterns
  All-BelowApi [] ne below = tt
  All-BelowApi (p ∷ patterns) ne (here, below) =
      (Apart-BelowApi bucket p ne here, All-BelowApi patterns ne below)

  -- Where the server functions are mounted below `/api`, every path that starts with a valid name
  -- of a bucket, other than `api`, is left to the S3 service: no route of the console shadows an
  -- object.
  pub destination-valid_bucket :
      (server_fn_paths : List Pattern)
      → All BelowApi server_fn_paths
      → validate_bucket_name bucket ≡ ok tt
      → bucket ≢ codes "api"
      → destination router (mounts server_fn_paths) (bucket ∷ rest) ≡ s3
  destination-valid_bucket server_fn_paths below valid ne =
      destination-Apart (mounts server_fn_paths) (
        not_ui,
        (
          not_ui,
          (
            not_pkg,
            All-append _ (map (mounted server_fns) server_fn_paths) (map (mounted pages) app_routes)
                (All-mounted server_fns server_fn_paths (All-BelowApi server_fn_paths ne below))
                (not_ui, (not_ui, (not_ui, tt))),
          ),
        ),
      )
    where
      not_ui : bucket ≢ codes "ui"
      not_ui e = cc (refused_ui, valid, e)

      not_pkg : bucket ≢ codes "pkg"
      not_pkg e = cc (refused_pkg, valid, e)
