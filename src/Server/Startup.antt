-- ===== src/Server/Startup.antt =====
-- crates/server/src/main.rs, crates/ui/src/app.rs: what `ferrobucket serve` puts together before it
-- listens, which part of it a request reaches, and `ferrobucket presign`.
pub mod Keys
pub mod Routes
use mathlib.Core.Option as Option
use ferrobucket.Base.{
  ℕ, Bool, true, false, Option, none, some, List, [], ◌∷◌, ◌++◌, map, if◌then◌else◌, ◌≡◌,
}
use ferrobucket.Base.Text.{Bytes, codes}
use ferrobucket.Error.{Outcome, ok, err}
use ferrobucket.FilePath.{FilePath}
use ferrobucket.Layout.{FsStorage}
use ferrobucket.Presign.{presign_url, Crypto}
use ferrobucket.Console.ServerFns.{AppState}

pub record ServeArgs : Type 0 where
  pub data_dir : FilePath
  pub listen : Bytes
  pub access_key : Option Bytes
  pub secret_key : Option Bytes
  pub region : Bytes
  pub anonymous : Bool

pub data PresignVerb : Type 0 where
  get put head delete : PresignVerb

pub record PresignArgs : Type 0 where
  pub verb : PresignVerb
  pub bucket : Bytes
  pub key : Bytes
  pub endpoint : Bytes
  pub expires_in : ℕ
  pub access_key : Bytes
  pub secret_key : Bytes
  pub region : Bytes

-- How the S3 service tells who asks: not at all, or by one pair of keys.
pub data Auth : Type 0 where
  anyone : Auth
  from_single : Bytes → Bytes → Auth

abbrev pub ok_or : Option Bytes → Bytes → Outcome Bytes Bytes
ok_or none message = err message
ok_or (some s) message = ok s

abbrev pub both_keys : Outcome Bytes Bytes → Outcome Bytes Bytes → Outcome Bytes Auth
both_keys (err e) secret = err e
both_keys (ok access) (err e) = err e
both_keys (ok access) (ok secret) = ok (from_single access secret)

unfoldable pub auth_of : ServeArgs → Outcome Bytes Auth
auth_of args =
    if args.anonymous
    then ok anyone
    else both_keys
        (ok_or args.access_key (codes "--access-key is required unless --anonymous is set"))
        (ok_or args.secret_key (codes "--secret-key is required unless --anonymous is set"))

abbrev pub app_state_of : ServeArgs → AppState
app_state_of args = record {
  storage = record { data_root = args.data_dir };
  endpoint = codes "http://" ++ args.listen;
  region = args.region;
  access_key_id = args.access_key;
  secret_key = Option.get_or args.secret_key [];
  data_root = args.data_dir;
  anonymous = args.anonymous;
}

pub record Served : Type 0 where
  pub auth : Auth
  pub adapter : FsStorage
  pub app_state : AppState

abbrev pub assembled : ServeArgs → Outcome Bytes Auth → Outcome Bytes Served
assembled args (err e) = err e
assembled args (ok auth) = ok (record {
  auth = auth;
  adapter = record { data_root = args.data_dir };
  app_state = app_state_of args;
})

-- `run_serve` up to the listening.
unfoldable pub run_serve : ServeArgs → Outcome Bytes Served
run_serve args = assembled args (auth_of args)

abbrev pub method_of : PresignVerb → Bytes
method_of get = codes "GET"
method_of put = codes "PUT"
method_of head = codes "HEAD"
method_of delete = codes "DELETE"

unfoldable pub run_presign : Crypto → ℕ → PresignArgs → Bytes
run_presign crypto now args =
    presign_url crypto now (method_of args.verb) args.endpoint
      (b'/' ∷ (args.bucket ++ b'/' ∷ args.key)) args.expires_in args.access_key args.secret_key
      args.region

-- A part of a mounted path: a name, a parameter for one part, or for all that follow.
pub data Segment : Type 0 where
  literal : Bytes → Segment
  parameter wildcard : Segment

abbrev pub Pattern : Type 0
Pattern = List Segment

pub data Destination : Type 0 where
  upload download assets pages server_fns s3 : Destination

-- The routes of the pages.
abbrev pub app_routes : List Pattern
app_routes =
    (literal (codes "ui") ∷ [])
    ∷ (literal (codes "ui") ∷ literal (codes "buckets") ∷ parameter ∷ [])
    ∷ (literal (codes "ui") ∷ literal (codes "settings") ∷ [])
    ∷ []

abbrev pub mounted : Destination → Pattern → Pattern × Destination
mounted to pattern = (pattern, to)

-- What is mounted, before the S3 service that gets what is left. The paths of the server functions
-- are made by Leptos.
abbrev pub mounts : List Pattern → List (Pattern × Destination)
mounts server_fn_paths =
    (literal (codes "ui") ∷ literal (codes "upload") ∷ parameter ∷ wildcard ∷ [], upload)
    ∷ (literal (codes "ui") ∷ literal (codes "download") ∷ parameter ∷ wildcard ∷ [], download)
    ∷ (literal (codes "pkg") ∷ wildcard ∷ [], assets)
    ∷ (map (mounted server_fns) server_fn_paths ++ map (mounted pages) app_routes)

-- The first name of a path.
abbrev pub Starts : Bytes → List Bytes → Type 0
Starts c [] = ⊥
Starts c (s ∷ path) = s ≡ c

-- The router, which matches a request's path against a pattern.
pub record Router : Type 0 where
  pub matches : Pattern → List Bytes → Bool
  pub matches-literal :
      (c : Bytes) (pattern : Pattern) (path : List Bytes)
      → matches (literal c ∷ pattern) path ≡ true
      → Starts c path

-- What a request for a path reaches.
unfoldable pub destination : Router → List (Pattern × Destination) → List Bytes → Destination
destination router [] path = s3
destination router ((pattern, to) ∷ rest) path =
    let fallback = destination router rest path in
    if router.matches pattern path then to else fallback
