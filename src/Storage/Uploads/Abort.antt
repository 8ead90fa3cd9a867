-- ===== src/Storage/Uploads/Abort.antt =====
-- crates/storage/src/fs.rs: what `abort_multipart_upload` removes.
use ferrobucket.Base.{suc, ◌≡◌, refl, ap, sym, ◌∙◌, subst, true, false, some, [], ◌∷◌, ◌++◌, arith}
use ferrobucket.Base.Text.{Bytes, codes, starts_with, str_eq, list_eq, str_eq_iff}
use ferrobucket.Base.Text.Split.{split-Lacks, split-append}
use ferrobucket.FilePath.{FilePath, join, join-IsPlain, IsPlain, enter, enter_all, parent}
use ferrobucket.Error.{ok, no_such_upload}
use ferrobucket.Disk.{dir, Disk, lookup}
use ferrobucket.Disk.Calls.{remove_under, remove_dir_all, node_at, is_dir}
use ferrobucket.Act.{World, err_as}
use ferrobucket.Act.After.{After, After-map_err}
use ferrobucket.Host.{Host}
use ferrobucket.Bucket.{validate_bucket_name}
use ferrobucket.Bucket.Rules.{join_valid, valid-IsPlain}
use ferrobucket.Layout.{FsStorage, bucket_path, upload_dir, uploads_root}
use ferrobucket.Layout.Staging.{IsPlain-uploads}
use ferrobucket.Persist.{not_found_as}
use ferrobucket.Persist.Partial.Left.{
  Cleared, Thinned, After-clear_dir, clear_dir-done, remove_dir_all-Cleared,
}
use ferrobucket.Storage.Uploads.{abort_multipart_upload}

-- `..` leaves a directory.
join_up :
    (c : Bytes) (p : FilePath) (s : Bytes) → IsPlain s → join (c ∷ p) (codes "../" ++ s) ≡ s ∷ p
unfolding join enter enter_all parent str_eq list_eq starts_with
join_up c p s plain =
    rw (split-append b'/' (codes "..") s (omega arith), split-Lacks b'/' s plain.no_slash)
      (ground (arith, str_eq_iff s [], str_eq_iff s (codes "."), str_eq_iff s (codes "..")))

upload_dir_up :
    (self : FsStorage) (name : Bytes)
    → IsPlain name
    → upload_dir self (codes "../" ++ name) ≡ name ∷ self.data_root
unfolding upload_dir uploads_root
upload_dir_up self name plain =
    ap (λ p. join p (codes "../" ++ name))
      (join-IsPlain self.data_root (codes ".uploads") IsPlain-uploads)
    ∙ join_up (codes ".uploads") self.data_root name plain

remove_dir_all-done :
    (c : Bytes) (p : FilePath) (d : Disk)
    → lookup (c ∷ p) d ≡ some dir
    → remove_dir_all (c ∷ p) d ≡ ok (tt, remove_under (c ∷ p) d)
unfolding remove_dir_all node_at
remove_dir_all-done c p d there = rw (there, remove_dir_all) refl

module _ {H : Type 0} (host : Host H) (self : FsStorage) where
  -- Whichever system calls fail, aborting an upload either succeeds and has removed its staging
  -- directory with all that is in it and nothing else, or fails and has changed nothing, or removed
  -- some of what is in that directory, and nothing else.
  pub After-abort_multipart_upload :
      (upload_id : Bytes) (w : World)
      → After
          (λ _ w'. Cleared (upload_dir self upload_id) w.disk w'.disk)
          (λ _ w'. Thinned (upload_dir self upload_id) w.disk w'.disk)
          (abort_multipart_upload host self upload_id)
          w
  unfolding abort_multipart_upload
  After-abort_multipart_upload upload_id w =
      After-map_err _ (After-clear_dir host (uploads_root self) (upload_dir self upload_id) w)

  abort_multipart_upload-done :
      (upload_id : Bytes) (w : World) {d : Disk}
      → is_dir (uploads_root self) w.disk ≡ true
      → host.fails w.calls ≡ false
      → remove_dir_all (upload_dir self upload_id) w.disk ≡ ok (tt, d)
      → abort_multipart_upload host self upload_id w
        ≡ (ok tt, record { disk = d; calls = suc w.calls })
  unfolding abort_multipart_upload
  abort_multipart_upload-done upload_id w root fine removed =
      ap (λ r. (err_as (not_found_as (no_such_upload upload_id)) r.0, r.1))
        (clear_dir-done host (uploads_root self) (upload_dir self upload_id) w root fine removed)

  -- Where `.uploads` is there, an identifier that starts with `../` and names a bucket is not
  -- refused: aborting such an upload removes the bucket with all its objects, if no call fails.
  pub abort_multipart_upload_escapes :
      (name : Bytes) (w : World)
      → validate_bucket_name name ≡ ok tt
      → is_dir (uploads_root self) w.disk ≡ true
      → lookup (bucket_path self name) w.disk ≡ some dir
      → host.fails w.calls ≡ false
      → ((abort_multipart_upload host self (codes "../" ++ name) w).0 ≡ ok tt)
        × Cleared
            (bucket_path self name)
            w.disk
            (abort_multipart_upload host self (codes "../" ++ name) w).1.disk
  abort_multipart_upload_escapes name w valid root there fine =
      let here : bucket_path self name ≡ name ∷ self.data_root =
        unfold bucket_path in join_valid self.data_root name valid in
      let up = upload_dir_up self name (valid-IsPlain name valid) in
      let removed =
        ap (λ p. remove_dir_all p w.disk) up
        ∙ remove_dir_all-done name self.data_root w.disk
            (subst (λ p. lookup p w.disk ≡ some dir) here there) in
      let cleared = remove_dir_all-Cleared (name ∷ self.data_root) w.disk _ (
        remove_dir_all-done name self.data_root w.disk
          (subst (λ p. lookup p w.disk ≡ some dir) here there)) in
      rw (abort_multipart_upload-done (codes "../" ++ name) w root fine removed) (
        refl,
        subst (λ p. Cleared p w.disk (remove_under (name ∷ self.data_root) w.disk)) (sym here)
            cleared,
      )
