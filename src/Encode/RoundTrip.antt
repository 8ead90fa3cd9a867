-- ===== src/Encode/RoundTrip.antt =====
-- Decoding a file name gives back the key that it was made from.
use ferrobucket.Base.{ℕ, ◌≡◌, ◌≢◌, sym, ◌∙◌, ap, true, [], ◌∷◌, All, arith, Bool-cases, inl, inr}
use ferrobucket.Base.Text.{Bytes, contains, starts_with, ends_with, str_eq}
use ferrobucket.Base.Text.Utf8.{IsStr, IsStr-IsByte, is_utf8}
use ferrobucket.Error.{ok, Result}
use ferrobucket.Encode.{
  is_alphanumeric, PercentEncoding, encode_key, decode_key, is_traversal_unsafe,
}
use ferrobucket.Encode.Percent.{encoded, encoded-cons, IsByte}

plain_of_alphanumeric : (c : ℕ) → is_alphanumeric c ≡ true → c ≢ b'%'
unfolding is_alphanumeric
plain_of_alphanumeric c h = ground arith

module _ (percent : PercentEncoding) where
  pub decode-encoded : (key : Bytes) → All IsByte key → percent.decode (encoded percent key) ≡ key
  decode-encoded [] h = rw percent.encode-nil percent.decode-nil
  decode-encoded (c ∷ key) (hc, h) =
      rw (encoded-cons percent c key hc) (elim (Bool-cases (is_alphanumeric c)) [
        | inl plain ↦ rw plain (
            percent.decode-plain c (encoded percent key) (plain_of_alphanumeric c plain)
            ∙ ap (λ s. c ∷ s) (decode-encoded key h))
        | inr other ↦ rw other (
            percent.decode-escape c (encoded percent key) hc
            ∙ ap (λ s. c ∷ s) (decode-encoded key h))
      ])

  -- A text key that is accepted for writing is accepted for reading and decodes to itself.
  pub decode_key-encode_key :
      (key e : Bytes) → IsStr key → encode_key percent key ≡ ok e → decode_key percent e ≡ ok key
  unfolding encode_key decode_key
  decode_key-encode_key key e str h = ground (arith, decode-encoded key (IsStr-IsByte key str), str)

  -- Two text keys with the same file name are the same key.
  pub encode_key_injective :
      (j k e : Bytes)
      → IsStr j
      → IsStr k
      → encode_key percent j ≡ ok e
      → encode_key percent k ≡ ok e
      → j ≡ k
  encode_key_injective j k e sj sk hj hk =
      cc (decode_key-encode_key j e sj hj, decode_key-encode_key k e sk hk)

  decode_key-nil : decode_key percent [] ≡ ok []
  unfolding decode_key is_utf8 is_traversal_unsafe contains starts_with ends_with str_eq
  decode_key-nil = rw percent.decode-nil

  -- Only the empty key has the empty name.
  pub name-ne-nil : (key e : Bytes) → IsStr key → encode_key percent key ≡ ok e → key ≢ [] → e ≢ []
  name-ne-nil key e str h ne empty = ne (
      ok_injective
        (sym (decode_key-encode_key key e str h) ∙ ap (decode_key percent) empty ∙ decode_key-nil))
    where
      ok_injective : {s t : Bytes} → ◌≡◌ {A = Result Bytes} (ok s) (ok t) → s ≡ t
      ok_injective p = cc
