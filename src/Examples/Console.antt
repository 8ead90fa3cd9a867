-- ===== src/Examples/Console.antt =====
-- The routes of the console on concrete requests.
use ferrobucket.Base.{ℕ, Option, none, some, [], ◌∷◌}
use ferrobucket.Base.Text.{Bytes, codes}
use ferrobucket.Error.{ok}
use ferrobucket.Act.After.{After}
use ferrobucket.Console.Upload.{UploadParams}
use ferrobucket.Server.Convert.{StreamingBlob}
use ferrobucket.Storage.Uploads.{create_multipart_upload}
use ferrobucket.Storage.Uploads.Create.{After-create_multipart_upload, Created, Uncreated}
use ferrobucket.Examples.Hosts.{host}
use ferrobucket.Examples.Keys.{bucket, self, key}
use ferrobucket.Examples.Objects.{start}

abbrev header : Option Bytes
header = some (codes " text/plain ; charset=utf-8")

abbrev params : UploadParams
params = record { upload_id = none; part_number = none; action = none }

abbrev chunks : StreamingBlob ℕ
chunks = ok (codes "he") ∷ ok (codes "llo") ∷ []

After-create_multipart_upload_example :
    After
      (λ upload_id w. Created host self bucket key none start.disk upload_id w)
      (λ _ w. Uncreated host self bucket key none start.disk w)
      (create_multipart_upload host self bucket key none)
      start
After-create_multipart_upload_example =
    After-create_multipart_upload host self bucket key none start
