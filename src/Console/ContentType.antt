-- ===== src/Console/ContentType.antt =====
-- crates/server/src/ui/upload.rs: the content type that an upload is stored with.
pub mod Resolved
use ferrobucket.Base.{
  Bool, true, false, ◌||◌, not, Option, none, some, List, [], ◌∷◌, if◌then◌else◌,
}
use ferrobucket.Base.Text.{Bytes, codes, str_eq, split}
use ferrobucket.Base.Text.Trim.{trim, to_ascii_lowercase, last_part, head_part}

-- The rows of the `match`, in its order.
abbrev pub mime_table : List (Bytes × Bytes)
mime_table =
    (codes "png", codes "image/png")
    ∷ (codes "jpg", codes "image/jpeg")
    ∷ (codes "jpeg", codes "image/jpeg")
    ∷ (codes "gif", codes "image/gif")
    ∷ (codes "webp", codes "image/webp")
    ∷ (codes "svg", codes "image/svg+xml")
    ∷ (codes "ico", codes "image/x-icon")
    ∷ (codes "bmp", codes "image/bmp")
    ∷ (codes "avif", codes "image/avif")
    ∷ (codes "txt", codes "text/plain")
    ∷ (codes "md", codes "text/markdown")
    ∷ (codes "csv", codes "text/csv")
    ∷ (codes "html", codes "text/html")
    ∷ (codes "htm", codes "text/html")
    ∷ (codes "css", codes "text/css")
    ∷ (codes "js", codes "application/javascript")
    ∷ (codes "mjs", codes "application/javascript")
    ∷ (codes "json", codes "application/json")
    ∷ (codes "xml", codes "application/xml")
    ∷ (codes "yaml", codes "application/yaml")
    ∷ (codes "yml", codes "application/yaml")
    ∷ (codes "toml", codes "application/toml")
    ∷ (codes "pdf", codes "application/pdf")
    ∷ (codes "wasm", codes "application/wasm")
    ∷ (codes "woff2", codes "font/woff2")
    ∷ (codes "mp4", codes "video/mp4")
    ∷ (codes "mov", codes "video/quicktime")
    ∷ (codes "zip", codes "application/zip")
    ∷ (codes "tar", codes "application/x-tar")
    ∷ (codes "gz", codes "application/gzip")
    ∷ []

unfoldable pub row_of : List (Bytes × Bytes) → Bytes → Option Bytes
row_of [] ext = none
row_of ((e, mime) ∷ rows) ext =
    let rest = row_of rows ext in if str_eq ext e then some mime else rest

-- `key.rsplit('.').next()?.to_ascii_lowercase()`: of a key without a dot, the whole key.
unfoldable pub extension : Bytes → Bytes
extension key = to_ascii_lowercase (last_part (split b'.' key))

unfoldable pub ext_mime : Bytes → Option Bytes
unfolding row_of extension
ext_mime key = row_of mime_table (extension key)

unfoldable pub is_generic : Bytes → Bool
is_generic ct =
    str_eq ct []
    || str_eq ct (codes "application/octet-stream")
    || str_eq ct (codes "application/x-www-form-urlencoded")

-- `ct.split(';').next().unwrap_or(ct).trim()`
unfoldable pub essence : Bytes → Bytes
essence ct = trim (head_part (split b';' ct))

-- The header is the Content-Type of the request, if it is there and is text.
unfoldable pub resolve_content_type : Bytes → Option Bytes → Option Bytes
unfolding is_generic essence ext_mime
resolve_content_type key none = ext_mime key
resolve_content_type key (some header) =
    let ct = essence header in if not (is_generic ct) then some ct else ext_mime key
