-- ===== src/Console/RoundTrip.antt =====
-- What is uploaded through the console is downloaded through it.
use ferrobucket.Base.{Option, ◌++◌, if◌then◌else◌}
use ferrobucket.Base.Text.{Bytes, codes}
use ferrobucket.Error.{Outcome, StorageError}
use ferrobucket.Act.{World}
use ferrobucket.Meta.{ObjectMeta}
use ferrobucket.Host.{Host}
use ferrobucket.Layout.{FsStorage}
use ferrobucket.Persist.Body.{content_of}
use ferrobucket.Storage.Objects.{put_object, default_content_type}
use ferrobucket.Server.Convert.{StreamingBlob, body_to_stream}
use ferrobucket.Console.{Response}
use ferrobucket.Console.ContentType.{resolve_content_type}
use ferrobucket.Console.Upload.{Web, UploadParams, upload_handler}
use ferrobucket.Console.Download.{HeaderValues, Served, attachment, panicked, file_name}
use mathlib.Core.Option

module _ {H E : Type 0} (host : Host H) (web : Web E) (headers : HeaderValues) (storage : FsStorage)
    (bucket key : Bytes) (params : UploadParams) (header : Option Bytes) (body : StreamingBlob E)
    (w : World) where
  abbrev pub uploaded : Response × World
  uploaded = upload_handler host web storage bucket key params header body w

  abbrev pub stored_type : Bytes
  stored_type = Option.get_or (resolve_content_type key header) default_content_type

  abbrev named : Bytes
  named = codes "attachment; filename=\"" ++ (file_name key ++ codes "\"")

  -- The answer to a download: the content, with the type that was stored where a header can hold
  -- it. Where the name of the key is not fit for a header there is none.
  abbrev pub delivered : Served
  delivered =
      if headers.is_header_value named
      then attachment (record {
        content_type =
            (if headers.is_header_value stored_type
              then stored_type
              else codes "application/octet-stream");
        disposition = named;
        body = content_of (body_to_stream body);
      })
      else panicked

  abbrev put : Outcome StorageError ObjectMeta × World
  put = put_object host storage bucket key (body_to_stream body) (resolve_content_type key header) w
