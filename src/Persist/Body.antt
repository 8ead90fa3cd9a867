-- ===== src/Persist/Body.antt =====
-- What the writers leave in the temporary file, and the hash and size that they return.
use ferrobucket.Base.{
  ℕ, ◌+◌, ◌%◌, ◌^◌, ◌<◌, ◌≡◌, refl, ap, subst, sym, ◌∙◌, some, [], ◌∷◌, ◌++◌, arith, append-nil,
  append_assoc, length, length-append,
}
use ferrobucket.Base.Text.{Bytes}
use ferrobucket.FilePath.{FilePath}
use ferrobucket.Error.{ok, err}
use ferrobucket.Disk.{file, Disk, lookup, put}
use ferrobucket.Disk.Table.{lookup-put_self, lookup-put_ne}
use ferrobucket.Disk.Calls.{append}
use ferrobucket.Act.{World, call_io}
use ferrobucket.Act.After.{After, After-mono, After-bind, After-call_io}
use ferrobucket.Etag
use ferrobucket.Host.{Host}
use ferrobucket.Persist.{Body, flush, write_chunks, write_body, write_json}
use ferrobucket.Persist.Atomic.{SameBut, Writes}

-- The bytes that a body delivers; a body with an error is never stored.
abbrev pub content_of : Body → Bytes
content_of [] = []
content_of (ok chunk ∷ body) = chunk ++ content_of body
content_of (err e ∷ body) = content_of body

append-ok :
    (c : Bytes) (p : FilePath) (chunk : Bytes) (d d' : Disk) {b : Bytes}
    → lookup (c ∷ p) d ≡ some (file b)
    → append (c ∷ p) chunk d ≡ ok (tt, d')
    → put (c ∷ p) (file (b ++ chunk)) d ≡ d'
unfolding append
append-ok c p chunk d d' at h = ground arith

module _ {H : Type 0} (host : Host H) (name : Bytes) (dir_path : FilePath) where
  abbrev pub tmp : FilePath
  tmp = name ∷ dir_path

  -- The file holds `b`, and nothing else has changed since `d`.
  abbrev pub Holds : Disk → Bytes → World → Type 0
  Holds d b w = (lookup tmp w.disk ≡ some (file b)) × SameBut tmp d w.disk

  pub After-append :
      (d : Disk) (b chunk : Bytes) (w : World)
      → Holds d b w
      → After
          (λ _ w'. Holds d (b ++ chunk) w')
          (λ _ w'. SameBut tmp d w'.disk)
          (call_io host.fails (append tmp chunk))
          w
  After-append d b chunk w (full, same) =
      After-call_io host.fails _
        (λ _ d' h.
          let added : put tmp (file (b ++ chunk)) w.disk ≡ d' =
            append-ok name dir_path chunk w.disk d' full h in
          (
            rw (← added) (lookup-put_self tmp _ w.disk),
            λ q ne. rw (← added) (lookup-put_ne tmp q _ w.disk ne ∙ same q ne),
          ))
        (λ e. same)

  pub After-flush :
      (d : Disk) (b : Bytes) (w : World)
      → Holds d b w
      → After (λ _ w'. Holds d b w') (λ _ w'. SameBut tmp d w'.disk) (call_io host.fails flush) w
  After-flush d b w h =
      After-call_io host.fails _
        (λ _ d' e.
          subst (λ x. (lookup tmp x ≡ some (file b)) × SameBut tmp d x) (flushed w.disk d' e) h)
        (λ e. h.1)
    where
      flushed : (d₁ d₂ : Disk) → flush d₁ ≡ ok (tt, d₂) → d₁ ≡ d₂
      flushed d₁ d₂ e = ground arith

  -- The loop appends the rest of the body, and hashes and counts it.
  After-write_chunks :
      (d : Disk) (b : Bytes) (hasher : H) (n : ℕ) (body : Body) (w : World)
      → n < 2 ^ 64
      → Holds d b w
      → After
          (λ r w'.
            (r.0 ≡ host.md5.update hasher (content_of body))
            × (r.1 ≡ (n + length (content_of body)) % 2 ^ 64)
            × Holds d (b ++ content_of body) w')
          (λ _ w'. SameBut tmp d w'.disk)
          (write_chunks host tmp hasher n body)
          w
  unfolding write_chunks Etag.update
  After-write_chunks d b hasher n [] w fits h = record {
    at = (sym (host.md5.update-nil hasher), omega arith, rw (append-nil b) h);
  }
  After-write_chunks d b hasher n (err e ∷ body) w fits h = record { at = h.1 }
  After-write_chunks d b hasher n (ok chunk ∷ body) w fits h = After-bind (
      After-mono (After-append d b chunk w h)
        (λ _ w₁ h₁.
          After-mono
            (After-write_chunks d (b ++ chunk) (host.md5.update hasher chunk)
              ((n + length chunk) % 2 ^ 64) body w₁ (omega arith) h₁)
            (λ r w₂ (hashed, counted, held). (
              hashed ∙ host.md5.update-append hasher chunk (content_of body),
              omega (arith, counted, length-append chunk (content_of body)),
              rw (append_assoc b chunk (content_of body)) at held,
            ))
            (λ _ _ x. x))
        (λ _ _ x. x))

  After-write_body :
      (body : Body) (w : World)
      → lookup tmp w.disk ≡ some (file [])
      → After
          (λ r w'.
            ((r.0 ≡ Etag.finalize host.md5 (host.md5.update host.md5.new (content_of body)))
              × (r.1 ≡ length (content_of body) % 2 ^ 64))
            × Holds w.disk (content_of body) w')
          (λ _ w'. SameBut tmp w.disk w'.disk)
          (write_body host body tmp)
          w
  unfolding write_body Etag.new
  After-write_body body w empty = After-bind (
      After-mono
        (After-write_chunks w.disk [] host.md5.new 0 body w (omega arith) (empty, λ q ne. refl))
        (λ r w₁ (hashed, counted, held). After-bind (
          After-mono (After-flush w.disk (content_of body) w₁ held)
            (λ _ w₂ held'. record {
              at = ((ap (Etag.finalize host.md5) hashed, omega (arith, counted)), held');
            })
            (λ _ _ x. x)))
        (λ _ _ x. x))

  After-write_json :
      (json : Bytes) (w : World)
      → lookup tmp w.disk ≡ some (file [])
      → After
          (λ _ w'. Holds w.disk json w')
          (λ _ w'. SameBut tmp w.disk w'.disk)
          (write_json host json tmp)
          w
  unfolding write_json
  After-write_json json w empty = After-bind (
      After-mono (After-append w.disk [] json w (empty, λ q ne. refl))
        (λ _ w₁ held. After-bind (
          After-mono (After-flush w.disk json w₁ held) (λ _ w₂ held'. record { at = held' })
            (λ _ _ x. x)))
        (λ _ _ x. x))

-- The etag of a content and its length in 64 bits.
abbrev pub Measured : {H : Type 0} → Host H → Bytes → Bytes × ℕ → Type 0
Measured host content r =
    (r.0 ≡ Etag.finalize host.md5 (host.md5.update host.md5.new content))
    × (r.1 ≡ length content % 2 ^ 64)

module _ {H : Type 0} (host : Host H) (d : Disk) (dir_path : FilePath) where
  pub Writes-body :
      (body : Body)
      → Writes d dir_path (content_of body) (Measured host (content_of body)) (write_body host body)
  Writes-body body = record {
    at = λ name w free same empty.
        After-mono (After-write_body host name dir_path body w empty)
          (λ r w' (measured, (full, same)). (measured, full, same)) (λ _ _ x. x);
  }

  pub Writes-json : (json : Bytes) → Writes d dir_path json (λ _. Unit) (write_json host json)
  Writes-json json = record {
    at = λ name w free same empty.
        After-mono (After-write_json host name dir_path json w empty)
          (λ r w' (full, same). (tt, full, same)) (λ _ _ x. x);
  }
