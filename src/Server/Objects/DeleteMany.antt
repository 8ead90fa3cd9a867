-- ===== src/Server/Objects/DeleteMany.antt =====
-- crates/server/src/s3_impl.rs: the answer to DeleteObjects, key by key.
use ferrobucket.Base.{ℕ, ◌+◌, ◌≡◌, refl, Option, List, [], ◌∷◌, All, if◌then◌else◌}
use ferrobucket.Base.Text.{Bytes, str_eq}
use ferrobucket.Act.{World}
use ferrobucket.Act.After.{After}
use ferrobucket.Host.{Host}
use ferrobucket.Layout.{FsStorage}
use ferrobucket.Storage.Objects
use ferrobucket.Storage.Objects.Gone.{Absent}
use ferrobucket.Server.Convert.{unless_empty}
use ferrobucket.Server.Objects.{DeleteError}
use mathlib.Core.Option

-- How often a key is in a list.
unfoldable pub times : Bytes → List Bytes → ℕ
times k [] = 0
times k (x ∷ xs) = (if str_eq x k then 1 else 0) + times k xs

-- The keys of the errors.
abbrev pub failed : List DeleteError → List Bytes
failed [] = []
failed (e ∷ errors) = e.key ∷ failed errors

pub get_or-unless_empty : {A : Type 0} (xs : List A) → Option.get_or (unless_empty xs) [] ≡ xs
get_or-unless_empty [] = refl
get_or-unless_empty (x ∷ xs) = refl

module _ {H : Type 0} (host : Host H) (storage : FsStorage) (bucket : Bytes) where
  abbrev Gone : World → List Bytes → Type 0
  Gone w keys = All (Absent host storage bucket w.disk) keys

  -- Every key is answered as often as it is in the lists so far and in those still to come, and no
  -- key that is reported as deleted has an object.
  abbrev Answered :
      List Bytes → List DeleteError → List Bytes → List Bytes × List DeleteError → World → Type 0
  Answered deleted errors keys r w =
      ((k : Bytes)
        → times k r.0 + times k (failed r.1)
          ≡ times k deleted + times k (failed errors) + times k keys)
      × Gone w r.0
