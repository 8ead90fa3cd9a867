-- ===== src/Examples/Aborts.antt =====
-- Uploads aborted, one of them by an identifier that leads to a bucket.
use ferrobucket.Base.{◌≡◌, refl, some, true, [], ◌∷◌, ◌++◌, arith}
use ferrobucket.Base.Text.{codes, split, starts_with, str_eq, list_eq}
use ferrobucket.FilePath.{join, enter, enter_all, path_eq}
use ferrobucket.Error.{ok}
use ferrobucket.Act.After.{After}
use ferrobucket.Disk.{lookup, dir}
use ferrobucket.Layout.{bucket_path, upload_dir, uploads_root}
use ferrobucket.Storage.Uploads.{abort_multipart_upload}
use ferrobucket.Storage.Uploads.Abort.{After-abort_multipart_upload, abort_multipart_upload_escapes}
use ferrobucket.Persist.Partial.Left.{Cleared, Thinned}
use ferrobucket.Act.{World}
use ferrobucket.Disk.Calls.{is_dir, node_at}
use ferrobucket.Examples.Hosts.{host}
use ferrobucket.Examples.Keys.{bucket, self, bucket-valid}
use ferrobucket.Examples.Objects.{start, quiet}

-- Uploads have been made before.
abbrev used : World
used = record { disk = (codes ".uploads" ∷ codes "data" ∷ [], dir) ∷ start.disk; calls = 0 }

After-abort_multipart_upload_example :
    After
      (λ _ w'. Cleared (upload_dir self (codes "id")) used.disk w'.disk)
      (λ _ w'. Thinned (upload_dir self (codes "id")) used.disk w'.disk)
      (abort_multipart_upload host self (codes "id"))
      used
After-abort_multipart_upload_example = After-abort_multipart_upload host self (codes "id") used

bucket_there : lookup (bucket_path self bucket) used.disk ≡ some dir
unfolding bucket_path join enter enter_all split starts_with str_eq list_eq lookup path_eq
bucket_there = refl

uploads_there : is_dir (uploads_root self) used.disk ≡ true
unfolding uploads_root join enter enter_all split starts_with str_eq list_eq lookup path_eq is_dir
    node_at
uploads_there = refl

abort_multipart_upload_escapes_example :
    ((abort_multipart_upload host self (codes "../" ++ bucket) used).0 ≡ ok tt)
    × Cleared
        (bucket_path self bucket)
        used.disk
        (abort_multipart_upload host self (codes "../" ++ bucket) used).1.disk
abort_multipart_upload_escapes_example =
    abort_multipart_upload_escapes host self bucket used bucket-valid uploads_there bucket_there
      (quiet 0 0 (omega arith))
