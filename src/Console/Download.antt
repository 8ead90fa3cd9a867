-- ===== src/Console/Download.antt =====
-- crates/server/src/ui/download.rs: the download route.
use ferrobucket.Base.{◌≤◌, ◌<◌, ◌≡◌, Bool, true, none, ◌++◌, All, if◌then◌else◌}
use ferrobucket.Base.Text.{Bytes, codes, split}
use ferrobucket.Base.Text.Trim.{last_part}
use ferrobucket.Host.{Host}
use ferrobucket.Layout.{FsStorage}
use ferrobucket.Meta.{ObjectMeta}
use ferrobucket.Storage.Objects
use ferrobucket.Console.{Handler, answer}

-- `HeaderValue::from_str` takes visible ASCII at least; what else it takes is not relied on.
pub record HeaderValues : Type 0 where
  pub is_header_value : Bytes → Bool
  pub visible_lem : (s : Bytes) → All (λ c. (32 ≤ c) × (c < 127)) s → is_header_value s ≡ true

pub record Attachment : Type 0 where
  pub content_type : Bytes
  pub disposition : Bytes
  pub body : Bytes

-- A `parse().unwrap()` that fails ends the handler without an answer.
pub data Served : Type 0 where
  attachment : Attachment → Served
  not_found panicked : Served

-- `key.split('/').next_back()`
unfoldable pub file_name : Bytes → Bytes
file_name key = last_part (split b'/' key)

unfoldable pub disposition_of : Bytes → Bytes
unfolding file_name
disposition_of key = codes "attachment; filename=\"" ++ (file_name key ++ codes "\"")

module _ (headers : HeaderValues) where
  unfoldable pub content_type_header : Bytes → Bytes
  content_type_header t = if headers.is_header_value t then t else codes "application/octet-stream"

  unfoldable pub attachment_of : Bytes → ObjectMeta × Bytes → Served
  unfolding content_type_header disposition_of
  attachment_of key (meta, content) =
      if headers.is_header_value (disposition_of key)
      then attachment (record {
        content_type = content_type_header meta.content_type;
        disposition = disposition_of key;
        body = content;
      })
      else panicked

  unfoldable pub download_handler :
      {H : Type 0} → Host H → FsStorage → Bytes → Bytes → Handler Served
  download_handler host storage bucket key =
      answer (Objects.get_object host storage bucket key none) (attachment_of key) (λ e. not_found)
