-- ===== src/Storage/Uploads/Assemble.antt =====
-- The assembly of a multipart upload: the object is the parts' contents, one after the other.
use ferrobucket.Base.{
  ℕ, ◌+◌, ◌%◌, ◌^◌, ◌<◌, ◌≡◌, ap, sym, ◌∙◌, none, List, [], ◌∷◌, ◌++◌, arith, append-nil,
  append_assoc, length, length-append,
}
use ferrobucket.Base.Text.{Bytes}
use ferrobucket.Base.Int.{ℤ}
use ferrobucket.Base.Decimal.{show, to_string}
use ferrobucket.FilePath.{FilePath, join}
use ferrobucket.Error.{ok}
use ferrobucket.Disk.{Disk, lookup}
use ferrobucket.Disk.Calls.{read, node_at}
use ferrobucket.Disk.Reads.{read_once}
use ferrobucket.Act.{World}
use ferrobucket.Act.After.{After, After-mono, After-bind, After-call_io}
use ferrobucket.Host.{Host}
use ferrobucket.Etag
use ferrobucket.Persist.{persist, temp_path}
use ferrobucket.Persist.Atomic.{SameBut, Writes, Persisted, After-persist}
use ferrobucket.Persist.Body.{Holds, After-append, After-flush}
use ferrobucket.Storage.Uploads.{copy_parts, write_parts}

-- The files of the parts have these contents.
abbrev pub PartsAre : Disk → FilePath → List ℤ → List Bytes → Type 0
PartsAre d staging [] [] = Unit
PartsAre d staging [] (c ∷ cs) = ⊥
PartsAre d staging (n ∷ ns) [] = ⊥
PartsAre d staging (n ∷ ns) (c ∷ cs) =
    (read (join staging (to_string n)) d ≡ ok (c, d)) × PartsAre d staging ns cs

abbrev pub concat : List Bytes → Bytes
concat [] = []
concat (c ∷ cs) = c ++ concat cs

-- A file that is there reads the same when another path has changed that was free before.
read-same :
    (p tmp : FilePath) (d₀ d : Disk) (c : Bytes)
    → lookup tmp d₀ ≡ none
    → SameBut tmp d₀ d
    → read p d₀ ≡ ok (c, d₀)
    → read p d ≡ ok (c, d)
unfolding read node_at
read-same [] tmp d₀ d c free same h = absurd (ground arith)
read-same (x ∷ p) tmp d₀ d c free same h =
    let kept : lookup (x ∷ p) d ≡ lookup (x ∷ p) d₀ =
      same (x ∷ p) (λ e. absurd (ground (arith, ap (λ q. lookup q d₀) e, free, h))) in
    ground (arith, kept, h)

module _ {H : Type 0} (host : Host H) (staging : FilePath) (d₀ : Disk) (name : Bytes)
    (dir_path : FilePath) (free : lookup (name ∷ dir_path) d₀ ≡ none) where
  abbrev tmp : FilePath
  tmp = name ∷ dir_path

  -- The loop appends the parts' contents, and hashes and counts them.
  After-copy_parts :
      (b : Bytes) (hasher : H) (n : ℕ) (parts : List ℤ) (contents : List Bytes) (w : World)
      → n < 2 ^ 64
      → PartsAre d₀ staging parts contents
      → Holds host name dir_path d₀ b w
      → After
          (λ r w'.
            (r.0 ≡ host.md5.update hasher (concat contents))
            × (r.1 ≡ (n + length (concat contents)) % 2 ^ 64)
            × Holds host name dir_path d₀ (b ++ concat contents) w')
          (λ _ w'. SameBut tmp d₀ w'.disk)
          (copy_parts host staging tmp hasher n parts)
          w
  unfolding copy_parts Etag.update
  After-copy_parts b hasher n [] [] w fits are h = record {
    at = (sym (host.md5.update-nil hasher), omega arith, rw (append-nil b) h);
  }
  After-copy_parts b hasher n [] (c ∷ cs) w fits are h = absurd are
  After-copy_parts b hasher n (p ∷ ps) [] w fits are h = absurd are
  After-copy_parts b hasher n (p ∷ ps) (c ∷ cs) w fits (here, are) h =
      let now : read (join staging (to_string p)) w.disk ≡ ok (c, w.disk) =
        read-same _ tmp d₀ w.disk c free h.1 here in
      After-bind (
        After-mono
          (After-call_io host.fails {Q = λ chunk w₁. (chunk ≡ c) × Holds host name dir_path d₀ b w₁}
            {R = λ _ w₁. SameBut tmp d₀ w₁.disk} (read (join staging (to_string p)))
            (λ chunk d e.
              let (same_chunk, same) = read_once _ w.disk d chunk c now e in
              (same_chunk, (ap (lookup tmp) same ∙ h.0, λ q ne. ap (lookup q) same ∙ h.1 q ne)))
            (λ e. h.1))
          (λ chunk w₁ (eq, h₁). After-bind (
            After-mono (After-append host name dir_path d₀ b chunk w₁ h₁)
              (λ _ w₂ h₂.
                After-mono
                  (After-copy_parts (b ++ chunk) (host.md5.update hasher chunk)
                    ((n + length chunk) % 2 ^ 64) ps cs w₂ (omega arith) are h₂)
                  (λ r w₃ (hashed, counted, held). (
                    hashed
                        ∙ host.md5.update-append hasher chunk (concat cs)
                        ∙ ap (λ x. host.md5.update hasher (x ++ concat cs)) eq,
                    omega (arith, counted, length-append c (concat cs), ap length eq),
                    rw (append_assoc b chunk (concat cs), eq) at held,
                  ))
                  (λ _ _ x. x))
              (λ _ _ x. x)))
          (λ _ _ x. x))

module _ {H : Type 0} (host : Host H) (staging : FilePath) (parts : List ℤ)
    (contents : List Bytes) where
  -- The tag of the whole content with the number of parts, and its length in 64 bits.
  abbrev pub Assembled : Bytes × ℕ → Type 0
  Assembled r =
      (r.0
        ≡ Etag.finalize host.md5 (host.md5.update host.md5.new (concat contents))
          ++ b'-' ∷ show (length parts))
      × (r.1 ≡ length (concat contents) % 2 ^ 64)

  Writes-parts :
      (d : Disk) (dir_path : FilePath)
      → PartsAre d staging parts contents
      → Writes d dir_path (concat contents) Assembled (write_parts host staging parts)
  unfolding write_parts Etag.new
  Writes-parts d dir_path are = record {
    at = λ name w free same empty. After-bind (
        After-mono
          (After-copy_parts host staging d name dir_path free [] host.md5.new 0 parts contents w
            (omega arith) are (empty, same))
          (λ r w₁ (hashed, counted, held). After-bind (
            After-mono (After-flush host name dir_path d (concat contents) w₁ held)
              (λ _ w₂ (full, kept). record {
                at = (
                  (
                    ap (λ h. Etag.finalize host.md5 h ++ b'-' ∷ show (length parts)) hashed,
                    omega (arith, counted),
                  ),
                  full,
                  λ q ne. kept q ne ∙ sym (same q ne),
                );
              })
              (λ _ _ kept q ne. kept q ne ∙ sym (same q ne))))
          (λ _ _ kept q ne. kept q ne ∙ sym (same q ne)));
  }

  -- Where the files of the parts hold the contents, writing the parts in their order to a target
  -- leaves the concatenation of the contents there, with the hash of all of it and the number of
  -- parts as the tag, and changes no other path, or it fails and changes no path but that of the
  -- temporary file; whichever system calls fail.
  pub After-persist_parts :
      (objects_dir target : FilePath) (w : World)
      → PartsAre w.disk staging parts contents
      → After
          (Persisted target (concat contents) Assembled w.disk)
          (λ _ w'. SameBut (temp_path host objects_dir w) w.disk w'.disk)
          (persist host objects_dir target (write_parts host staging parts))
          w
  After-persist_parts objects_dir target w are =
      After-persist host objects_dir target (concat contents) Assembled
        (write_parts host staging parts) w (Writes-parts w.disk objects_dir are)
