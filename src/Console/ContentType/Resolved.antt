-- ===== src/Console/ContentType/Resolved.antt =====
-- What the resolution of content types promises.
use ferrobucket.Base.{
  ◌≡◌, ◌≢◌, refl, inl, inr, Bool-cases, Bool, true, false, not, Option, none, some, List, [], ◌∷◌,
  All, all, arith,
}
use ferrobucket.Base.Text.{Bytes, codes, str_eq, str_eq_iff}
use ferrobucket.Console.ContentType.{
  mime_table, row_of, ext_mime, is_generic, essence, extension, resolve_content_type,
}

Informative : Bytes × Bytes → Type 0
Informative row = is_generic row.1 ≡ false

informative : Bytes × Bytes → Bool
informative row = not (is_generic row.1)

All-informative : (rows : List (Bytes × Bytes)) → all informative rows ≡ true → All Informative rows
unfolding Informative informative
All-informative [] h = tt
All-informative (r ∷ rows) h = (ground arith, All-informative rows (ground arith))

table-informative : all informative mime_table ≡ true
unfolding informative is_generic str_eq
table-informative = refl

table-Informative : All Informative mime_table
table-Informative = All-informative mime_table table-informative

row_of-Informative :
    (rows : List (Bytes × Bytes)) (ext t : Bytes)
    → All Informative rows
    → row_of rows ext ≡ some t
    → is_generic t ≡ false
unfolding row_of Informative
row_of-Informative [] ext t h e = absurd cc
row_of-Informative ((x, mime) ∷ rows) ext t (hm, h) e =
    ground (arith, row_of-Informative rows ext t h)

not_generic :
    (t : Bytes)
    → is_generic t ≡ false
    → (t ≢ [])
      × (t ≢ codes "application/octet-stream")
      × (t ≢ codes "application/x-www-form-urlencoded")
unfolding is_generic
not_generic t h = (
  λ e. ground (arith, str_eq_iff t []),
  λ e. ground (arith, str_eq_iff t (codes "application/octet-stream")),
  λ e. ground (arith, str_eq_iff t (codes "application/x-www-form-urlencoded")),
)

resolved :
    (key : Bytes) (header : Option Bytes) (t : Bytes)
    → resolve_content_type key header ≡ some t
    → is_generic t ≡ false
unfolding resolve_content_type ext_mime
resolved key none t e = row_of-Informative mime_table (extension key) t table-Informative e
resolved key (some header) t e = elim (Bool-cases (is_generic (essence header))) [
  | inl generic ↦
      row_of-Informative mime_table (extension key) t table-Informative (rw generic at e)
  | inr specific ↦
      let same : some (essence header) ≡ some t = rw specific at e in cc (same, specific)
]

-- A content type that is resolved for an upload is not empty and is neither of the two generic ones.
pub resolve_content_type-informative :
    (key : Bytes) (header : Option Bytes) {t : Bytes}
    → resolve_content_type key header ≡ some t
    → (t ≢ [])
      × (t ≢ codes "application/octet-stream")
      × (t ≢ codes "application/x-www-form-urlencoded")
resolve_content_type-informative key header {t} e = not_generic t (resolved key header t e)
