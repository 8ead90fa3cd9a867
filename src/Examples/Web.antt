-- ===== src/Examples/Web.antt =====
-- A concrete reader of request bodies and JSON arrays, and a concrete reader of headers.
use ferrobucket.Base.{
  ℕ, ◌≤◌, ◌<◌, ◌≡◌, ◌≢◌, refl, ap, ◌∙◌, Bool, true, ◌&&◌, List, [], ◌∷◌, ◌++◌, map, All, all,
  length, leb, ltb, ◌==◌, arith, if◌then◌else◌,
}
use ferrobucket.Base.Text.{Bytes, codes, split, join_with}
use ferrobucket.Base.Text.Split.{split-join_with}
use ferrobucket.Base.Int.{ℤ, pos, negsuc}
use ferrobucket.Base.Decimal.{show, to_string}
use ferrobucket.Base.Decimal.Value.{value, value-show, All-show, show-ne-nil, IsDigit}
use ferrobucket.Error.{Outcome, ok, err}
use ferrobucket.Persist.Body.{content_of}
use ferrobucket.Server.Convert.{StreamingBlob, body_to_stream}
use ferrobucket.Console.Upload.{Web}
use ferrobucket.Console.Download.{HeaderValues}
use ferrobucket.Ui.Transfer.{parts_json}
use ferrobucket.Ui.Transfer.Numbers.{numbers, All-numbers}

abbrev pub collect : StreamingBlob ℕ → Outcome Bytes Bytes
collect [] = ok []
collect (err e ∷ body) = err (codes "broken")
collect (ok chunk ∷ body) = elim (collect body) [ ok rest ↦ ok (chunk ++ rest) | err e ↦ err e ]

abbrev pub limited : ℕ → Outcome Bytes Bytes → Outcome Bytes Bytes
limited limit (err e) = err e
limited limit (ok content) =
    if leb (length content) limit then ok content else err (codes "length limit exceeded")

pub collect-ok :
    (body : StreamingBlob ℕ) {content : Bytes}
    → collect body ≡ ok content
    → content_of (body_to_stream body) ≡ content
unfolding body_to_stream
collect-ok [] h = cc
collect-ok (err e ∷ body) h = absurd cc
collect-ok (ok chunk ∷ body) {content} h = more (collect body) (λ rest e. collect-ok body e) refl h
  where
    more :
        (r : Outcome Bytes Bytes)
        → ((rest : Bytes) → collect body ≡ ok rest → content_of (body_to_stream body) ≡ rest)
        → collect body ≡ r
        → elim r [ ok rest ↦ ok (chunk ++ rest) | err e ↦ err e ] ≡ ok content
        → chunk ++ content_of (body_to_stream body) ≡ content
    more (ok rest) ih e h = ap (λ r. chunk ++ r) (ih rest e) ∙ cc
    more (err x) ih e h = absurd cc

pub limited-ok :
    (limit : ℕ) (r : Outcome Bytes Bytes) {content : Bytes}
    → limited limit r ≡ ok content
    → r ≡ ok content
limited-ok limit (err e) h = absurd cc
limited-ok limit (ok c) h = ground arith

abbrev without_last : Bytes → Bytes
without_last [] = []
without_last (c ∷ []) = []
without_last (c ∷ d ∷ s) = c ∷ without_last (d ∷ s)

without_last-append : (s : Bytes) (c : ℕ) → without_last (s ++ c ∷ []) ≡ s
without_last-append [] c = refl
without_last-append (a ∷ []) c = refl
without_last-append (a ∷ b ∷ s) c = ap (λ r. a ∷ r) (without_last-append (b ∷ s) c)

abbrev number_of : Bytes → ℤ
number_of s = pos (value 0 s)

abbrev items_of : Bytes → List ℤ
items_of [] = []
items_of (c ∷ s) = map number_of (split b',' (c ∷ s))

unfoldable pub from_slice : Bytes → Outcome Bytes (List ℤ)
from_slice [] = err (codes "EOF while parsing a value")
from_slice (c ∷ s) =
    if c == b'[' then ok (items_of (without_last s)) else err (codes "invalid type")

abbrev IsPos : ℤ → Type 0
IsPos (pos n) = Unit
IsPos (negsuc n) = ⊥

no_comma : (s : Bytes) → All IsDigit s → All (λ c. c ≢ b',') s
no_comma [] h = tt
no_comma (c ∷ s) (hc, h) = (omega (arith, hc), no_comma s h)

texts_no_comma : (ns : List ℤ) → All IsPos ns → All (λ q. All (λ c. c ≢ b',') q) (map to_string ns)
unfolding to_string
texts_no_comma [] h = tt
texts_no_comma (pos n ∷ ns) (hn, h) = (no_comma (show n) (All-show n), texts_no_comma ns h)
texts_no_comma (negsuc n ∷ ns) (hn, h) = absurd hn

number_of-to_string : (ns : List ℤ) → All IsPos ns → map number_of (map to_string ns) ≡ ns
unfolding to_string
number_of-to_string [] h = refl
number_of-to_string (pos n ∷ ns) (hn, h) = rw (value-show n, number_of-to_string ns h) refl
number_of-to_string (negsuc n ∷ ns) (hn, h) = absurd hn

items_of-split : (s : Bytes) → s ≢ [] → items_of s ≡ map number_of (split b',' s)
items_of-split [] ne = absurd (ne refl)
items_of-split (c ∷ s) ne = refl

join_with-ne-nil : (p : Bytes) (ps : List Bytes) → p ≢ [] → join_with b',' (p ∷ ps) ≢ []
unfolding join_with
join_with-ne-nil p [] ne = ne
join_with-ne-nil [] (q ∷ ps) ne = absurd (ne refl)
join_with-ne-nil (c ∷ p) (q ∷ ps) ne = λ e. cc

items_of-join : (ns : List ℤ) → All IsPos ns → items_of (join_with b',' (map to_string ns)) ≡ ns
items_of-join [] h = unfold join_with in refl
items_of-join (negsuc n ∷ ns) (hn, h) = absurd hn
items_of-join (pos n ∷ ns) h =
    items_of-split _ (
      join_with-ne-nil (to_string (pos n)) (map to_string ns)
        (λ e. show-ne-nil n (unfold to_string in e)))
    ∙ ap (map number_of) (split-join_with b',' _ _ (texts_no_comma (pos n ∷ ns) h))
    ∙ number_of-to_string (pos n ∷ ns) h

pub from_slice-parts_json : (k : ℕ) → from_slice (parts_json (numbers k)) ≡ ok (numbers k)
unfolding from_slice parts_json
from_slice-parts_json k =
    rw (without_last-append (join_with b',' (map to_string (numbers k))) b']')
      (ap ok (items_of-join (numbers k) (All-numbers IsPos k (λ i h. tt))))

unfoldable pub web : Web ℕ
unfolding from_slice
web = record {
  to_bytes = λ body limit. limited limit (collect body);
  from_slice = from_slice;
  to_bytes_lem = λ body limit h. collect-ok body (limited-ok limit (collect body) h);
}

abbrev pub visible : ℕ → Bool
visible c = leb 32 c && ltb c 127

pub all-visible : (s : Bytes) → All (λ c. (32 ≤ c) × (c < 127)) s → all visible s ≡ true
all-visible [] h = refl
all-visible (c ∷ s) ((lo, hi), h) = ground (arith, all-visible s h)

unfoldable pub headers : HeaderValues
headers = record { is_header_value = all visible; visible_lem = all-visible }
