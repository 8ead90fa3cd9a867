-- ===== src/Storage/Uploads/Part.antt =====
-- What `upload_part` leaves in the staging directory.
use ferrobucket.Base.{ℕ, some, ◌∷◌, ◌≡◌, refl, ap, ◌∙◌, Bool-cases, inl, inr}
use ferrobucket.Base.Text.{Bytes}
use ferrobucket.Base.Int.{ℤ, is_not_positive}
use ferrobucket.Disk.{file, Disk, lookup}
use ferrobucket.Act.{World}
use ferrobucket.Act.After.{After, After-mono, After-bind, After-unless}
use ferrobucket.Host.{Host}
use ferrobucket.Etag
use ferrobucket.Layout.{FsStorage, upload_dir, part_path}
use ferrobucket.Persist.{Body, write_body}
use ferrobucket.Persist.Atomic.{SameBut, After-persist}
use ferrobucket.Persist.Body.{content_of, Measured, Writes-body}
use ferrobucket.Storage.Objects.Put.{After-exists}
use ferrobucket.Storage.Uploads.{upload_part}

module _ {H : Type 0} (host : Host H) (self : FsStorage) (upload_id : Bytes) (part_number : ℤ)
    (body : Body) where
  -- The part's file holds the content, `etag` is its hash, and nothing else has changed.
  abbrev pub Staged : Disk → Bytes → World → Type 0
  Staged d etag w =
      (etag ≡ Etag.finalize host.md5 (host.md5.update host.md5.new (content_of body)))
      × (lookup (part_path self upload_id part_number) w.disk ≡ some (file (content_of body)))
      × SameBut (part_path self upload_id part_number) d w.disk

  -- At most one temporary file of the staging directory has changed.
  abbrev pub Unstaged : Disk → World → Type 0
  Unstaged d w = (n : ℕ) × SameBut (host.temp_name n ∷ upload_dir self upload_id) d w.disk

  -- Whichever system calls fail, a part that is accepted is staged whole under its number with the
  -- hash of its content returned and no other path changed, and one that is refused or fails has
  -- changed nothing but at most the name of one temporary file.
  pub After-upload_part :
      (w : World)
      → After
          (λ etag w'. Staged w.disk etag w')
          (λ _ w'. Unstaged w.disk w')
          (upload_part host self upload_id part_number body)
          w
  unfolding upload_part
  After-upload_part w = elim (Bool-cases (is_not_positive part_number)) [
    | inl refused ↦ rw refused (record { at = (0, λ q _. refl) })
    | inr positive ↦ rw positive (
        After-bind (
          After-mono (After-exists host (upload_dir self upload_id) w)
            (λ there w₁ same₁.
              After-unless there (record { at = (0, λ q _. ap (lookup q) same₁) })
                (After-bind (
                  After-mono
                    (After-persist host (upload_dir self upload_id)
                      (part_path self upload_id part_number) (content_of body)
                      (Measured host (content_of body)) (write_body host body) w₁
                      (Writes-body host w₁.disk (upload_dir self upload_id) body))
                    (λ r w₂ (measured, full, same₂). record {
                      at = (measured.0, full, λ q ne. same₂ q ne ∙ ap (lookup q) same₁);
                    })
                    (λ _ w₂ kept. (w₁.calls, λ q ne. kept q ne ∙ ap (lookup q) same₁)))))
            (λ _ w₁ same₁. (0, λ q _. ap (lookup q) same₁))))
  ]
