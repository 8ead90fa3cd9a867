-- ===== src/Storage/Listings/Decoded.antt =====
-- crates/storage/src/list.rs: the keys behind the names of a directory.
use ferrobucket.Base.{◌<◌, ◌≡◌, refl, inl, inr, [], ◌∷◌, List, All, arith}
use ferrobucket.Base.Members.{In}
use ferrobucket.Base.Text.{Bytes}
use ferrobucket.Base.Text.Utf8.{IsStr, ascii-IsStr}
use ferrobucket.Error.{ok, err, Result}
use ferrobucket.Host.{Host}
use ferrobucket.Encode.{encode_key, decode_key, is_alphanumeric}
use ferrobucket.Encode.FileName.{encode_key-IsFileName, IsFileNameByte}
use ferrobucket.Encode.RoundTrip.{decode_key-encode_key}
use ferrobucket.Storage.Listings.{decode_names}

ascii-file_name : (name : Bytes) → All IsFileNameByte name → All (λ c. c < 128) name
ascii-file_name [] h = tt
ascii-file_name (c ∷ name) (hc, h) =
    (unfold is_alphanumeric in ground arith, ascii-file_name name h)

module _ {H : Type 0} (host : Host H) where
  -- The name of a text key decodes to it.
  pub decode_names-In :
      (key name : Bytes) (names : List Bytes)
      → decode_key host.percent (host.to_string_lossy name) ≡ ok key
      → In name names
      → In key (decode_names host names)
  unfolding decode_names
  decode_names-In key name [] h there = absurd there
  decode_names-In key name (n ∷ names) h (inl e) = rw (e, decode_names, h) (inl refl)
  decode_names-In key name (n ∷ names) h (inr there) =
      pushed (decode_key host.percent (host.to_string_lossy n))
        (decode_names-In key name names h there)
    where
      pushed :
          (o : Result Bytes)
          → In key (decode_names host names)
          → In key (elim o [ ok k ↦ k ∷ decode_names host names | err e ↦ decode_names host names ])
      pushed (ok k) further = inr further
      pushed (err e) further = further

  -- What holds of the keys of names holds of the decoded names.
  pub All-decode_names :
      (P : Bytes → Type 0) (names : List Bytes)
      → ((name key : Bytes)
          → In name names
          → decode_key host.percent (host.to_string_lossy name) ≡ ok key
          → P key)
      → All P (decode_names host names)
  unfolding decode_names
  All-decode_names P [] h = tt
  All-decode_names P (n ∷ names) h =
      first (decode_key host.percent (host.to_string_lossy n)) refl
        (All-decode_names P names (λ name key there. h name key (inr there)))
    where
      first :
          (o : Result Bytes)
          → decode_key host.percent (host.to_string_lossy n) ≡ o
          → All P (decode_names host names)
          → All P (elim o [ ok k ↦ k ∷ decode_names host names | err e ↦ decode_names host names ])
      first (ok k) e rest = (h n k (inl refl) e, rest)
      first (err x) e rest = rest

  pub decoded :
      (key name : Bytes)
      → IsStr key
      → encode_key host.percent key ≡ ok name
      → decode_key host.percent (host.to_string_lossy name) ≡ ok key
  decoded key name str named =
      rw
        (host.to_string_lossy_lem name (
          ascii-IsStr name
            (ascii-file_name name (encode_key-IsFileName host.percent key name str named).0)))
        (decode_key-encode_key host.percent key name str named)
