-- ===== src/Encode/FileName.antt =====
-- The file names that keys are given: their alphabet and their length.
use ferrobucket.Base.{
  ℕ, ◌<◌, ◌≤◌, ◌≡◌, refl, true, [], ◌∷◌, All, length, arith, Bool-cases, inl, inr, ◌⊎◌,
}
use ferrobucket.Base.Text.{Bytes}
use ferrobucket.Base.Text.Utf8.{IsStr, IsStr-IsByte}
use ferrobucket.Error.{ok}
use ferrobucket.Encode.{is_alphanumeric, hex_digit, PercentEncoding, encode_key}
use ferrobucket.Encode.Percent.{encoded, encoded-cons, IsByte}

-- Letters, digits and the percent sign.
abbrev pub IsFileNameByte : ℕ → Type 0
IsFileNameByte c = (is_alphanumeric c ≡ true) ⊎ (c ≡ b'%')

hex_digit-is_alphanumeric : (n : ℕ) → n < 16 → is_alphanumeric (hex_digit n) ≡ true
unfolding hex_digit is_alphanumeric
hex_digit-is_alphanumeric n h = ground arith

module _ (percent : PercentEncoding) where
  encoded-IsFileNameByte : (key : Bytes) → All IsByte key → All IsFileNameByte (encoded percent key)
  encoded-IsFileNameByte [] h = rw percent.encode-nil tt
  encoded-IsFileNameByte (c ∷ key) (hc, h) =
      rw (encoded-cons percent c key hc) (elim (Bool-cases (is_alphanumeric c)) [
        | inl plain ↦ rw plain (inl plain, encoded-IsFileNameByte key h)
        | inr other ↦ rw other (
          inr refl,
          (
            inl (hex_digit-is_alphanumeric _ (omega arith)),
            (inl (hex_digit-is_alphanumeric _ (omega arith)), encoded-IsFileNameByte key h),
          ),
        )
      ])

  -- The file name of an accepted text key has at most 255 bytes, each a letter, a digit or a
  -- percent sign.
  pub encode_key-IsFileName :
      (key e : Bytes)
      → IsStr key
      → encode_key percent key ≡ ok e
      → All IsFileNameByte e × (length e ≤ 255)
  unfolding encode_key
  encode_key-IsFileName key e str h =
      let same : encoded percent key ≡ e = ground arith in
      (rw (← same) (encoded-IsFileNameByte key (IsStr-IsByte key str)), ground arith)
