-- ===== src/Examples/Startup.antt =====
-- A server started with a pair of keys, and what it hands out.
use ferrobucket.Base.{◌≡◌, refl, Bool, true, false, some, List, [], ◌∷◌, ◌++◌}
use ferrobucket.Base.Text.{Bytes, codes, str_eq, str_eq_iff}
use ferrobucket.Error.{ok}
use ferrobucket.Console.ServerFns.{presign_fn}
use ferrobucket.Server.Startup.{
  ServeArgs, Served, from_single, app_state_of, run_serve, run_presign, auth_of, Router, literal,
  Pattern, destination, mounts, s3, Starts,
}
use ferrobucket.Server.Startup.Keys.{Guarded, run_serve-Guarded, presign_fn-run_presign, asked_for}
use ferrobucket.Server.Startup.Routes.{destination-valid_bucket}
use ferrobucket.Examples.Keys.{bucket, self, bucket-valid}
use ferrobucket.Presign.{Crypto}

-- Digests that show what was hashed.
abbrev crypto : Crypto
crypto = record { sha256 = λ s. s; hmac_sha256 = λ k s. k ++ s; hex_encode = λ s. s }

abbrev args : ServeArgs
args = record {
  data_dir = self.data_root;
  listen = codes "127.0.0.1:9000";
  access_key = some (codes "id");
  secret_key = some (codes "secret");
  region = codes "us-east-1";
  anonymous = false;
}

abbrev served : Served
served = record {
  auth = from_single (codes "id") (codes "secret");
  adapter = self;
  app_state = app_state_of args;
}

starts : run_serve args ≡ ok served
unfolding run_serve auth_of
starts = refl

run_serve-Guarded_example : Guarded args served.auth × (served.adapter ≡ served.app_state.storage)
run_serve-Guarded_example = run_serve-Guarded args served starts

presign_fn-run_presign_example :
    presign_fn served.app_state crypto 1700000000 bucket (codes "a/b")
    ≡ run_presign crypto 1700000000
        (asked_for crypto 1700000000 args (codes "id") (codes "secret") bucket (codes "a/b"))
presign_fn-run_presign_example =
    presign_fn-run_presign crypto 1700000000 args (codes "id") (codes "secret") served starts refl
      bucket (codes "a/b")

-- A router that looks at the first name only.
abbrev first_matches : Pattern → List Bytes → Bool
first_matches (literal c ∷ pattern) (s ∷ path) = str_eq s c
first_matches _ _ = false

first_matches-literal :
    (c : Bytes) (pattern : Pattern) (path : List Bytes)
    → first_matches (literal c ∷ pattern) path ≡ true
    → Starts c path
first_matches-literal c pattern [] h = absurd (cc)
first_matches-literal c pattern (s ∷ path) h = (str_eq_iff s c).0 h

abbrev router : Router
router = record { matches = first_matches; matches-literal = first_matches-literal }

abbrev server_fn_paths : List Pattern
server_fn_paths = (literal (codes "api") ∷ literal (codes "list_buckets_fn") ∷ []) ∷ []

destination-valid_bucket_example :
    destination router (mounts server_fn_paths) (bucket ∷ codes "a" ∷ []) ≡ s3
destination-valid_bucket_example =
    destination-valid_bucket router bucket (codes "a" ∷ []) server_fn_paths (refl, tt) bucket-valid
      (λ e. cc)
