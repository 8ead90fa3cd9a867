-- ===== src/Presign.antt =====
-- crates/storage/src/presign.rs: presigned URLs. SHA-256, HMAC and `hex::encode` are a parameter.
pub mod Calendar
use ferrobucket.Base.{
  ℕ, zero, suc, ◌+◌, ◌-◌, ◌*◌, ◌/◌, ◌%◌, List, [], ◌∷◌, ◌++◌, map, take, length, ltb, leb, ◌==◌,
  if◌then◌else◌,
}
use ferrobucket.Base.Text.{Bytes, codes, str_lt, join_with}
use ferrobucket.Base.Decimal.{show}
use ferrobucket.Base.Sort.{sort}

pub record Crypto : Type 0 where
  pub sha256 : Bytes → Bytes
  pub hmac_sha256 : Bytes → Bytes → Bytes
  pub hex_encode : Bytes → Bytes

-- A year, a month and a day.
abbrev pub Ymd : Type 0
Ymd = ℕ × ℕ × ℕ

unfoldable pub days_to_ymd : ℕ → Ymd
days_to_ymd days =
    let z = days + 719468 in
    let era = z / 146097 in
    let doe = z % 146097 in
    let yoe = (doe - doe / 1460 + doe / 36524 - doe / 146096) / 365 in
    let y = yoe + era * 400 in
    let doy = doe - (365 * yoe + yoe / 4 - yoe / 100) in
    let mp = (5 * doy + 2) / 153 in
    let d = doy - (153 * mp + 2) / 5 + 1 in
    let m = if ltb mp 10 then mp + 3 else mp - 9 in ((if leb m 2 then y + 1 else y), m, d)

abbrev pub zeros : ℕ → Bytes
zeros zero = []
zeros (suc n) = b'0' ∷ zeros n

-- `{:0width}`
unfoldable pub padded : ℕ → ℕ → Bytes
padded width n = zeros (width - length (show n)) ++ show n

unfoldable pub format_utc_datetime : ℕ → Bytes
format_utc_datetime unix_secs =
    let (y, mo, d) = days_to_ymd (unix_secs / 86400) in
    let rem = unix_secs % 86400 in
    padded 4 y
    ++ (padded 2 mo
        ++ (padded 2 d
            ++ b'T'
              ∷ (padded 2 (rem / 3600)
                  ++ (padded 2 (rem % 3600 / 60) ++ (padded 2 (rem % 60) ++ codes "Z")))))

-- The time is in seconds since the epoch.
unfoldable pub amz_timestamps : ℕ → Bytes × Bytes
amz_timestamps secs = let amzdate = format_utc_datetime secs in (amzdate, take 8 amzdate)

-- A slash is one byte, and no other character has it among its bytes.
unfoldable pub percent_encode_credential : Bytes → Bytes
percent_encode_credential [] = []
percent_encode_credential (ch ∷ s) =
    let out = percent_encode_credential s in if ch == b'/' then codes "%2F" ++ out else ch ∷ out

-- `{k}={v}`
abbrev pub pair_text : Bytes × Bytes → Bytes
pair_text (k, v) = k ++ b'=' ∷ v

abbrev pub query_params : Bytes → Bytes → ℕ → List (Bytes × Bytes)
query_params credential amzdate expires_secs =
    (codes "X-Amz-Algorithm", codes "AWS4-HMAC-SHA256")
    ∷ (codes "X-Amz-Credential", percent_encode_credential credential)
    ∷ (codes "X-Amz-Date", amzdate)
    ∷ (codes "X-Amz-Expires", show expires_secs)
    ∷ (codes "X-Amz-SignedHeaders", codes "host")
    ∷ []

unfoldable pub build_canonical_qs : Bytes → Bytes → ℕ → Bytes
build_canonical_qs credential amzdate expires_secs =
    join_with b'&'
      (map pair_text (sort (λ a b. str_lt a.0 b.0) (query_params credential amzdate expires_secs)))

module _ (crypto : Crypto) where
  unfoldable pub sha256_hex : Bytes → Bytes
  sha256_hex data_bytes = crypto.hex_encode (crypto.sha256 data_bytes)

  unfoldable pub presign_url : ℕ → Bytes → Bytes → Bytes → ℕ → Bytes → Bytes → Bytes → Bytes
  presign_url now method host path expires_secs access_key signing_key region =
      let (amzdate, datestamp) = amz_timestamps now in
      let credential_scope = datestamp ++ b'/' ∷ (region ++ codes "/s3/aws4_request") in
      let credential = access_key ++ b'/' ∷ credential_scope in
      let canonical_qs = build_canonical_qs credential amzdate expires_secs in
      let canonical_headers = codes "host:" ++ (host ++ codes "\n") in
      let canonical_request =
        method
        ++ codes "\n"
        ++ path
        ++ codes "\n"
        ++ canonical_qs
        ++ codes "\n"
        ++ canonical_headers
        ++ codes "\n"
        ++ codes "host"
        ++ codes "\n"
        ++ codes "UNSIGNED-PAYLOAD" in
      let string_to_sign =
        codes "AWS4-HMAC-SHA256\n"
        ++ amzdate
        ++ codes "\n"
        ++ credential_scope
        ++ codes "\n"
        ++ sha256_hex canonical_request in
      let k_date = crypto.hmac_sha256 (codes "AWS4" ++ signing_key) datestamp in
      let k_region = crypto.hmac_sha256 k_date region in
      let k_service = crypto.hmac_sha256 k_region (codes "s3") in
      let k_signing = crypto.hmac_sha256 k_service (codes "aws4_request") in
      let signature = crypto.hex_encode (crypto.hmac_sha256 k_signing string_to_sign) in
      codes "http://"
      ++ host
      ++ path
      ++ codes "?"
      ++ canonical_qs
      ++ codes "&X-Amz-Signature="
      ++ signature
