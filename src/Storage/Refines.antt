-- ===== src/Storage/Refines.antt =====
-- What the object operations promise: a map from buckets and keys to contents with their types.
-- An operation that succeeds changes the map at its key alone.
pub mod Places
pub mod Steps
pub mod Runs
pub mod Tidy
pub mod Listed
use ferrobucket.Base.{◌≡◌, Bool, ◌&&◌, Option, none, some, List, [], ◌∷◌, if◌then◌else◌}
use ferrobucket.Base.Text.{Bytes, str_eq}
use ferrobucket.Act.{Fs, pure, ◌>>=◌, ◌>>◌}
use ferrobucket.Host.{Host}
use ferrobucket.Layout.{FsStorage}
use ferrobucket.Persist.{Body}
use ferrobucket.Persist.Body.{content_of}
use ferrobucket.Storage.Objects.{put_object, delete_object, default_content_type}
use mathlib.Core.Option

pub record Stored : Type 0 where
  pub content_type : Bytes
  pub content : Bytes

abbrev pub Store : Type 0
Store = Bytes → Bytes → Option Stored

abbrev pub nothing : Store
nothing bucket key = none

abbrev pub is_at : Bytes → Bytes → Bytes → Bytes → Bool
is_at bucket key b k = str_eq bucket b && str_eq key k

abbrev pub update : Bytes → Bytes → Option Stored → Store → Store
update bucket key v s b k = if is_at bucket key b k then v else s b k

pub data Op : Type 0 where
  put : Bytes → Bytes → Body → Option Bytes → Op
  delete : Bytes → Bytes → Op

abbrev pub key_of : Op → Bytes
key_of (put bucket key body content_type) = key
key_of (delete bucket key) = key

unfoldable pub apply : Op → Store → Store
apply (put bucket key body content_type) = update bucket key (
    some (record {
      content_type = Option.get_or content_type default_content_type;
      content = content_of body;
    }))
apply (delete bucket key) = update bucket key none

unfoldable pub applies : List Op → Store → Store
applies [] s = s
applies (op ∷ ops) s = applies ops (apply op s)

module _ {H : Type 0} (host : Host H) (self : FsStorage) where
  unfoldable pub perform : Op → Fs (Unit {0})
  perform (put bucket key body content_type) =
      put_object host self bucket key body content_type >> pure tt
  perform (delete bucket key) = delete_object host self bucket key

  unfoldable pub performs : List Op → Fs (Unit {0})
  performs [] = pure tt
  performs (op ∷ ops) = perform op >> performs ops
