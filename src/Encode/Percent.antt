-- ===== src/Encode/Percent.antt =====
-- What the escaping does to a key: letters and digits stay, every other byte becomes three.
use ferrobucket.Base.{ℕ, ◌<◌, ◌≡◌, ◌∷◌, ◌++◌, arith, not, if◌then◌else◌}
use ferrobucket.Base.Text.{Bytes}
use ferrobucket.Encode.{is_alphanumeric, escape, PercentEncoding, key_encode_set}

abbrev pub IsByte : ℕ → Type 0
IsByte c = c < 256

module _ (percent : PercentEncoding) where
  abbrev pub encoded : Bytes → Bytes
  encoded key = percent.encode key (key_encode_set percent)

  in_set : (c : ℕ) → c < 128 → key_encode_set percent c ≡ not (is_alphanumeric c)
  unfolding is_alphanumeric
  in_set c h =
      let n = percent.non_alphanumeric in
      let s1 = percent.add n b'-' in
      let s2 = percent.add s1 b'_' in
      let s3 = percent.add s2 b'.' in
      ground (
        arith,
        percent.non_alphanumeric_lem c h,
        percent.add_lem n b'-' c,
        percent.add_lem s1 b'_' c,
        percent.add_lem s2 b'.' c,
        percent.add_lem s3 b'~' c,
      )

  -- The form of one escaped byte.
  pub encoded-cons :
      (c : ℕ) (s : Bytes)
      → c < 256
      → encoded (c ∷ s) ≡ (if is_alphanumeric c then c ∷ encoded s else escape c ++ encoded s)
  unfolding is_alphanumeric
  encoded-cons c s h = ground (arith, percent.encode-cons (key_encode_set percent) c s h, in_set c)
