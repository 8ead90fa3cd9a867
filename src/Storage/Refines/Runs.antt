-- ===== src/Storage/Refines/Runs.antt =====
-- Sequences of puts and deletes, against the map.
use ferrobucket.Base.{
  ◌≡◌, ◌≢◌, refl, sym, ap, subst, ◌∙◌, Option, none, some, List, [], ◌∷◌, All, arith, suc,
}
use ferrobucket.Base.Text.{Bytes}
use ferrobucket.Base.Text.Utf8.{IsStr}
use ferrobucket.FilePath.{display}
use ferrobucket.Error.{Outcome, ok, err, StorageError, no_such_key}
use ferrobucket.Disk.{Disk, lookup}
use ferrobucket.Disk.Reads.{read_file, read-missing}
use ferrobucket.Act.{World, Act, continue, ◌>>=◌}
use ferrobucket.Act.After.{After-ok}
use ferrobucket.Act.Steps.{Quiet, >>=-stop, map_err-refused}
use ferrobucket.Meta.{ObjectMeta}
use ferrobucket.Host.{Host}
use ferrobucket.Layout.{FsStorage, meta_path}
use ferrobucket.Persist.{read_sidecar}
use ferrobucket.Storage.Objects.{get_object}
use ferrobucket.Storage.Objects.Put.{After-put_object}
use ferrobucket.Storage.Objects.Delete.{After-delete_object}
use ferrobucket.Storage.Objects.RoundTrip.{get_object-done}
use ferrobucket.Storage.Refines.{
  Stored, Store, Op, put, delete, key_of, apply, applies, perform, performs,
}
use ferrobucket.Storage.Refines.Places.{Place, object_at, meta_at}
use ferrobucket.Storage.Refines.Steps.{Shows, HasAs, put-Shows, delete-Shows}

-- The key of the operation is a non-empty text.
pub record IsText (op : Op) : Type 0 where
  pub str : IsStr (key_of op)
  pub not_empty : key_of op ≢ []

-- A bind that succeeded, taken apart.
pub >>=-ok :
    {E A B : Type 0} (m : Act E A) (f : A → Act E B) (w : World) {b : B}
    → ((m >>= f) w).0 ≡ ok b
    → (a : A) × ((m w).0 ≡ ok a) × ((m >>= f) w ≡ f a (m w).1)
unfolding ◌>>=◌
>>=-ok {E} {A} {B} m f w {b} h = first (m w).0 (m w).1 h
  where
    first :
        (r : Outcome E A) (w₁ : World)
        → (continue r f w₁).0 ≡ ok b
        → (a : A) × (r ≡ ok a) × (continue r f w₁ ≡ f a w₁)
    first (ok a) w₁ e = (a, refl, refl)
    first (err x) w₁ e = absurd cc

module _ {H : Type 0} (host : Host H) (self : FsStorage) where
  perform-Shows :
      (op : Op) (s : Store) (w : World)
      → IsText op
      → Shows host self w.disk s
      → (perform host self op w).0 ≡ ok tt
      → Shows host self (perform host self op w).1.disk (apply op s)
  unfolding perform
  perform-Shows (put bucket key body content_type) s w t shows h =
      let (meta, stored, same) = >>=-ok _ _ w h in
      subst (λ v. Shows host self v.1.disk (apply (put bucket key body content_type) s)) (sym same)
        (put-Shows host self w.disk s bucket key t.str t.not_empty shows _ content_type body meta (
          After-ok (After-put_object host self bucket key content_type body w t.str t.not_empty)
            stored))
  perform-Shows (delete bucket key) s w t shows h =
      delete-Shows host self w.disk s bucket key t.str t.not_empty shows _
        (After-ok (After-delete_object host self bucket key w) h)

  -- What every operation that succeeds keeps, a sequence of them keeps.
  pub performs-keep :
      (I : Disk → Store → Type 0)
      → ((op : Op) (s : Store) (w : World)
          → IsText op
          → I w.disk s
          → (perform host self op w).0 ≡ ok tt
          → I (perform host self op w).1.disk (apply op s))
      → (ops : List Op) (s : Store) (w : World) → All IsText ops
      → I w.disk s
      → (performs host self ops w).0 ≡ ok tt
      → I (performs host self ops w).1.disk (applies ops s)
  unfolding performs applies
  performs-keep I step [] s w t kept h = kept
  performs-keep I step (op ∷ ops) s w (t, ts) kept h =
      let (a, done, same) = >>=-ok (perform host self op) (λ _. performs host self ops) w h in
      subst (λ v. I v.1.disk (applies ops (apply op s))) (sym same)
        (performs-keep I step ops (apply op s) _ ts (step op s w t kept done)
          (ap (λ v. v.0) (sym same) ∙ h))

  pub performs-Shows :
      (ops : List Op) (s : Store) (w : World)
      → All IsText ops
      → Shows host self w.disk s
      → (performs host self ops w).0 ≡ ok tt
      → Shows host self (performs host self ops w).1.disk (applies ops s)
  performs-Shows = performs-keep (Shows host self) perform-Shows

  -- What `get_object` answers according to the map.
  abbrev pub Answers :
      Bytes → Bytes → Option Stored → Outcome StorageError (ObjectMeta × Bytes) → Type 0
  Answers bucket name none r = r ≡ err (no_such_key (display (meta_path self bucket name)))
  Answers bucket name (some v) r =
      (meta : ObjectMeta) × (meta.content_type ≡ v.content_type) × (r ≡ ok (meta, v.content))

  module _ (bucket key name : Bytes) (place : Place host.percent self bucket key name) (w : World)
      (quiet : Quiet host.fails w.calls) where
    read_sidecar-missing :
        lookup (meta_path self bucket name) w.disk ≡ none
        → read_sidecar host (meta_path self bucket name) w ≡ (
          err (no_such_key (display (meta_path self bucket name))),
          record { disk = w.disk; calls = suc w.calls },
        )
    unfolding read_sidecar
    read_sidecar-missing gone = >>=-stop _ _ w (
        map_err-refused host.fails _ w _ (quiet w.calls (omega arith))
          (read-missing _ _ _ w.disk (meta_at host.percent self place) gone))

    get_object-missing :
        lookup (meta_path self bucket name) w.disk ≡ none
        → (get_object host self bucket key none w).0
          ≡ err (no_such_key (display (meta_path self bucket name)))
    unfolding get_object ◌>>=◌
    get_object-missing gone = rw (place.valid, place.named, read_sidecar-missing gone) refl

    get_object-Answers :
        (v : Option Stored)
        → HasAs host self w.disk bucket key name v
        → Answers bucket name v (get_object host self bucket key none w).0
    get_object-Answers none gone = get_object-missing gone
    get_object-Answers (some v) has = (
      has.meta,
      has.typed,
      get_object-done host self bucket key name v.content has.meta w
          (record {
            valid = place.valid;
            named = place.named;
            body = read_file _ name _ w.disk (object_at host.percent self place) has.body;
            sidecar = read_file _ _ _ w.disk (meta_at host.percent self place) has.sidecar;
          })
          quiet none,
    )

  -- After a sequence of puts and deletes under non-empty text keys, all of which succeed, on a disk
  -- that shows a map, and as long as no further system call fails, get_object answers for every
  -- object with a place on the disk by the map that the operations lead to: with the content and
  -- type of the last put if no delete came after it, else by NoSuchKey.
  pub get_object-performs :
      (ops : List Op) (s : Store) (w : World)
      → Shows host self w.disk s
      → All IsText ops
      → (performs host self ops w).0 ≡ ok tt
      → (bucket key name : Bytes) → Place host.percent self bucket key name
      → Quiet host.fails (performs host self ops w).1.calls
      → Answers bucket name
          (applies ops s bucket key)
          (get_object host self bucket key none (performs host self ops w).1).0
  get_object-performs ops s w shows texts done bucket key name place quiet =
      get_object-Answers bucket key name place _ quiet _
        ((performs-Shows ops s w texts shows done).at bucket key name place)
