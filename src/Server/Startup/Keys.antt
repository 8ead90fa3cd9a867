-- ===== src/Server/Startup/Keys.antt =====
-- crates/server/src/main.rs: the keys that a server asks for, and those that it signs with.
use mathlib.Core.Option as Option
use ferrobucket.Base.{
  [], ◌∷◌, ℕ, ◌≡◌, refl, ap, sym, ◌∙◌, true, false, ◌⊎◌, inl, inr, Option, none, some, ◌++◌,
  Bool-cases,
}
use ferrobucket.Base.Text.{Bytes, codes, starts_with}
use ferrobucket.Error.{ok, err, Outcome}
use ferrobucket.Presign.{Crypto, presign_url}
use ferrobucket.Console.ServerFns.{host_of, presign_fn}
use ferrobucket.Server.Startup.{
  ServeArgs, Served, PresignArgs, get, anyone, from_single, auth_of, run_serve, run_presign,
  both_keys, ok_or, assembled, app_state_of, Auth,
}

-- Everyone is let in where the operator said so, or one pair of keys is asked for, the one given.
abbrev pub Guarded : ServeArgs → Auth → Type 0
Guarded args auth =
    ((args.anonymous ≡ true) × (auth ≡ anyone))
    ⊎ ((args.anonymous ≡ false)
        × ((access : Bytes) × (secret : Bytes) × (args.access_key ≡ some access)
            × (args.secret_key ≡ some secret)
            × (auth ≡ from_single access secret)))

abbrev Given : Option Bytes → Option Bytes → Auth → Type 0
Given access_key secret_key auth =
    (access : Bytes) × (secret : Bytes) × (access_key ≡ some access)
    × (secret_key ≡ some secret)
    × (auth ≡ from_single access secret)

both_keys-Given :
    (access_key secret_key : Option Bytes) (m n : Bytes) (auth : Auth)
    → both_keys (ok_or access_key m) (ok_or secret_key n) ≡ ok auth
    → Given access_key secret_key auth
both_keys-Given none secret m n auth h = absurd (cc)
both_keys-Given (some a) none m n auth h = absurd (cc)
both_keys-Given (some a) (some s) m n auth h = (a, s, refl, refl, cc)

anyone_in : (auth : Auth) → ◌≡◌ {A = Outcome Bytes Auth} (ok anyone) (ok auth) → auth ≡ anyone
anyone_in auth e = cc

auth_of-Guarded : (args : ServeArgs) (auth : Auth) → auth_of args ≡ ok auth → Guarded args auth
unfolding auth_of
auth_of-Guarded args auth h = elim (Bool-cases args.anonymous) [
  | inl open_to_all ↦ inl (open_to_all, anyone_in auth (rw open_to_all at h))
  | inr closed ↦
      inr (closed, both_keys-Given args.access_key args.secret_key _ _ auth (rw closed at h))
]

assembled-ok :
    (args : ServeArgs) (auth : Outcome Bytes Auth) (served : Served)
    → assembled args auth ≡ ok served
    → (auth ≡ ok (served.auth))
      × (served.app_state ≡ app_state_of args)
      × (served.adapter ≡ (app_state_of args).storage)
assembled-ok args (err e) served h = absurd (cc)
assembled-ok args (ok auth) served h =
    let e : record {
      auth = auth;
      adapter = record { data_root = args.data_dir };
      app_state = app_state_of args;
    }
        ≡ served =
      cc in
    (ap (λ x. ok x.auth) e, ap (λ x. x.app_state) (sym e), ap (λ x. x.adapter) (sym e))

-- The S3 service of a server that starts lets everyone in only if the server was started as
-- anonymous; otherwise it asks for the pair of keys that was given, and the server does not start
-- where one is missing. The console works on the same data directory, and this says nothing of who
-- may use it.
pub run_serve-Guarded :
    (args : ServeArgs) (served : Served)
    → run_serve args ≡ ok served
    → Guarded args served.auth × (served.adapter ≡ served.app_state.storage)
unfolding run_serve
run_serve-Guarded args served h =
    let (auth, state, adapter) = assembled-ok args (auth_of args) served h in
    (auth_of-Guarded args served.auth auth, adapter ∙ ap (λ s. s.storage) (sym state))

host_of-http : (listen : Bytes) → host_of (codes "http://" ++ listen) ≡ listen
unfolding starts_with
host_of-http listen = refl

module _ (crypto : Crypto) (now : ℕ) (args : ServeArgs) (access secret : Bytes) where
  given :
      {auth : Auth}
      → Guarded args auth
      → auth ≡ from_single access secret
      → (args.access_key ≡ some access) × (args.secret_key ≡ some secret)
  given (inl (open_to_all, e)) asked = absurd (cc)
  given (inr (closed, (a, s, with_access, with_secret, e))) asked = (cc, cc)

  abbrev pub asked_for : Bytes → Bytes → PresignArgs
  asked_for bucket key = record {
    verb = get;
    bucket = bucket;
    key = key;
    endpoint = args.listen;
    expires_in = 900;
    access_key = access;
    secret_key = secret;
    region = args.region;
  }

  presign_fn-signed :
      args.access_key ≡ some access
      → args.secret_key ≡ some secret
      → (bucket key : Bytes)
      → presign_fn (app_state_of args) crypto now bucket key
        ≡ run_presign crypto now (asked_for bucket key)
  unfolding run_presign
  presign_fn-signed with_access with_secret bucket key =
      ap (λ e. signed e args.access_key args.secret_key) (host_of-http args.listen)
      ∙ ap (λ k. signed args.listen k args.secret_key) with_access
      ∙ ap (λ k. signed args.listen (some access) k) with_secret
    where
      signed : Bytes → Option Bytes → Option Bytes → Bytes
      signed endpoint access_key secret_key =
          presign_url crypto now (codes "GET") endpoint (b'/' ∷ (bucket ++ b'/' ∷ key)) 900
            (Option.get_or access_key []) (Option.get_or secret_key []) args.region

  -- The address that the console copies for an object is the one that `ferrobucket presign get`
  -- prints for the address that the server listens on, with the keys that the S3 service asks for
  -- and for 900 seconds.
  pub presign_fn-run_presign :
      (served : Served)
      → run_serve args ≡ ok served
      → served.auth ≡ from_single access secret
      → (bucket key : Bytes)
      → presign_fn served.app_state crypto now bucket key
        ≡ run_presign crypto now (asked_for bucket key)
  presign_fn-run_presign served h asked bucket key =
      let (with_access, with_secret) = given (run_serve-Guarded args served h).0 asked in
      let state = (assembled-ok args (auth_of args) served (unfold run_serve in h)).1 in
      ap (λ s. presign_fn s crypto now bucket key) state
      ∙ presign_fn-signed with_access with_secret bucket key
