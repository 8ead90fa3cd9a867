-- ===== src/Examples/Hosts.antt =====
-- A concrete host: the percent encoding by clauses, and simple codecs with the laws that the crates
-- promise.
use ferrobucket.Base.{
  ℕ, zero, suc, ◌+◌, ◌-◌, ◌*◌, ◌/◌, ◌%◌, ◌<◌, ◌≡◌, ◌≢◌, refl, ap, false, true, not, ◌||◌, Option,
  none, some, [], ◌∷◌, ◌++◌, arith, ltb, leb, ◌==◌, length, take, drop, append_assoc, append-nil,
  drop-length_append, if◌then◌else◌,
}
use ferrobucket.Base.Text.{Bytes, codes, starts_with}
use ferrobucket.Encode.{is_alphanumeric, hex_digit, escape, AsciiSet, PercentEncoding}
use ferrobucket.Listing.Page.{Base64}
use ferrobucket.Meta.{ObjectMeta, BucketInfo, MultipartMeta}
use ferrobucket.Host.{Md5, Host}

unfoldable pub set_add : AsciiSet → ℕ → AsciiSet
set_add set b c = c == b || set c

unfoldable pub percent_encode : Bytes → AsciiSet → Bytes
percent_encode [] set = []
percent_encode (c ∷ s) set =
    (if leb 128 c || set c then escape c else c ∷ []) ++ percent_encode s set

unfoldable pub digit_of : ℕ → ℕ
digit_of c = if ltb c b'A' then c - b'0' else c - b'A' + 10

-- `n` digits of an escape are still to come, and `a` is the value of those before.
unfoldable pub unescape : ℕ → ℕ → Bytes → Bytes
unescape n a [] = []
unescape zero a (c ∷ s) =
    let escaped = unescape 2 0 s in
    let plain = unescape 0 0 s in if c == b'%' then escaped else c ∷ plain
unescape (suc zero) a (c ∷ s) = (a * 16 + digit_of c) ∷ unescape 0 0 s
unescape (suc (suc n)) a (c ∷ s) = unescape 1 (digit_of c) s

digit_of-hex_digit : (n : ℕ) → n < 16 → digit_of (hex_digit n) ≡ n
unfolding digit_of hex_digit
digit_of-hex_digit n h = ground arith

pub unescape-plain : (c : ℕ) (s : Bytes) → c ≢ b'%' → unescape 0 0 (c ∷ s) ≡ c ∷ unescape 0 0 s
unfolding unescape
unescape-plain c s h = ground arith

pub unescape-escape :
    (c : ℕ) (s : Bytes) → c < 256 → unescape 0 0 (escape c ++ s) ≡ c ∷ unescape 0 0 s
unfolding unescape
unescape-escape c s h =
    rw (digit_of-hex_digit (c / 16) (omega arith), digit_of-hex_digit (c % 16) (omega arith))
      (ap (λ x. x ∷ unescape 0 0 s) (omega arith))

unfoldable pub percent : PercentEncoding
unfolding set_add percent_encode unescape
percent = record {
  non_alphanumeric = λ c. not (is_alphanumeric c);
  add = set_add;
  encode = percent_encode;
  decode = unescape 0 0;
  non_alphanumeric_lem = λ c h. refl;
  add_lem = λ set b c. refl;
  encode-nil = λ set. refl;
  encode-cons = λ set c s h. refl;
  decode-nil = refl;
  decode-plain = unescape-plain;
  decode-escape = unescape-escape;
}

abbrev pub base64 : Base64
base64 = record { encode = λ s. s; decode = some; decode-encode = λ s h. refl }

take-length : (s t : Bytes) → take (length s) (s ++ t) ≡ s
take-length [] t = refl
take-length (c ∷ s) t = ap (λ r. c ∷ r) (take-length s t)

-- The lengths come first.
abbrev pub object_to_vec : ObjectMeta → Bytes
object_to_vec m =
    m.size
    ∷ m.last_modified
    ∷ length m.key
    ∷ length m.content_type
    ∷ (m.key ++ (m.content_type ++ m.etag))

abbrev pub object_from_slice : Bytes → Option ObjectMeta
object_from_slice (size ∷ time ∷ k ∷ t ∷ s) = some (record {
  key = take k s;
  size = size;
  content_type = take t (drop k s);
  etag = drop t (drop k s);
  last_modified = time;
})
object_from_slice s = none

pub object_round : (m : ObjectMeta) → object_from_slice (object_to_vec m) ≡ some m
object_round m = rw (
  take-length m.key (m.content_type ++ m.etag),
  drop-length_append m.key (m.content_type ++ m.etag),
  take-length m.content_type m.etag,
  drop-length_append m.content_type m.etag,
)

abbrev pub bucket_to_vec : BucketInfo → Bytes
bucket_to_vec b = b.created_at ∷ b.name

abbrev pub bucket_from_slice : Bytes → Option BucketInfo
bucket_from_slice [] = none
bucket_from_slice (time ∷ s) = some (record { name = s; created_at = time })

abbrev pub multipart_to_vec : MultipartMeta → Bytes
multipart_to_vec m = elim m.content_type [
  | none ↦ 0 ∷ length m.bucket ∷ (m.bucket ++ m.key)
  | some t ↦ 1 ∷ length m.bucket ∷ length m.key ∷ (m.bucket ++ (m.key ++ t))
]

abbrev pub multipart_from_slice : Bytes → Option MultipartMeta
multipart_from_slice (zero ∷ b ∷ s) =
    some (record { bucket = take b s; key = drop b s; content_type = none })
multipart_from_slice (suc n ∷ b ∷ k ∷ s) =
    some (record {
      bucket = take b s;
      key = take k (drop b s);
      content_type = some (drop k (drop b s));
    })
multipart_from_slice s = none

multipart_parts :
    (b k : Bytes) (t : Option Bytes)
    → multipart_from_slice (multipart_to_vec (record { bucket = b; key = k; content_type = t }))
      ≡ some (record { bucket = b; key = k; content_type = t })
multipart_parts b k none = rw (take-length b k, drop-length_append b k)
multipart_parts b k (some t) =
    rw (
      take-length b (k ++ t),
      drop-length_append b (k ++ t),
      take-length k t,
      drop-length_append k t,
    )

pub multipart_round : (m : MultipartMeta) → multipart_from_slice (multipart_to_vec m) ≡ some m
multipart_round m = multipart_parts m.bucket m.key m.content_type

-- The hash of a body is the body.
abbrev pub md5 : Md5 Bytes
md5 = record {
  new = [];
  update = λ h s. h ++ s;
  finalize = λ h. h;
  update-nil = append-nil;
  update-append = append_assoc;
}

-- No system call fails, and the clock counts the system calls.
unfoldable pub host : Host Bytes
unfolding starts_with
host = record {
  percent = percent;
  base64 = base64;
  md5 = md5;
  object_json = record {
    to_vec = object_to_vec;
    from_slice = object_from_slice;
    from_slice-to_vec = object_round;
  };
  bucket_json = record {
    to_vec = bucket_to_vec;
    from_slice = bucket_from_slice;
    from_slice-to_vec = λ b. refl;
  };
  multipart_json = record {
    to_vec = multipart_to_vec;
    from_slice = multipart_from_slice;
    from_slice-to_vec = multipart_round;
  };
  fails = λ n. false;
  survives = λ n p. true;
  short = λ n. 0;
  now_utc = λ n. n;
  new_v4 = λ n. codes "1f";
  new_v4_lem = λ n. (λ e. cc, (refl, (refl, tt)));
  temp_name = λ n. codes ".tmp" ++ ((n + b'0') ∷ []);
  io_text = λ e. codes "other error";
  to_string_lossy = λ s. s;
  to_string_lossy_lem = λ s h. refl;
  temp_name_prefix = λ n. refl;
}
