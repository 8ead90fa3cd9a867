-- ===== src/Storage/Refines/Tidy.antt =====
-- A bucket whose object files are all in the map.
use ferrobucket.Base.{
  ◌≡◌, ◌≢◌, refl, sym, ap, subst, ◌∙◌, Bool-cases, inl, inr, Option, none, some, List, ◌∷◌, All,
  arith, length,
}
use ferrobucket.Base.Text.{Bytes, codes}
use ferrobucket.FilePath.{FilePath, path_eq, path_eq_iff}
use ferrobucket.Error.{ok}
use ferrobucket.Disk.{Node, dir, Disk, lookup}
use ferrobucket.Act.{World}
use ferrobucket.Act.After.{After-ok}
use ferrobucket.Host.{Host}
use ferrobucket.Encode.{encode_key}
use ferrobucket.Layout.{FsStorage, object_path, meta_path}
use ferrobucket.Storage.Objects.Put.{After-put_object}
use ferrobucket.Storage.Objects.Delete.{After-delete_object}
use ferrobucket.Storage.Refines.{
  Stored, Store, Op, put, delete, update, is_at, apply, applies, perform, performs,
}
use ferrobucket.Storage.Refines.Places.{Place, name_unique, object_at, meta_at}
use ferrobucket.Storage.Refines.Steps.{is_at-eq, is_at_refl}
use ferrobucket.Storage.Refines.Runs.{IsText, >>=-ok, performs-keep}

module _ {H : Type 0} (host : Host H) (self : FsStorage) (bucket : Bytes) where
  -- The file name is that of a key in the map.
  abbrev pub Known : Store → Bytes → Type 0
  Known s name =
      (key : Bytes) × (v : Stored) × Place host.percent self bucket key name
      × (s bucket key ≡ some v)

  abbrev pub objects_place : FilePath
  objects_place = codes "objects" ∷ bucket ∷ self.data_root

  pub record Tidy (d : Disk) (s : Store) : Type 0 where
    pub place : lookup (bucket ∷ self.data_root) d ≡ some dir
    pub objects : lookup objects_place d ≡ some dir
    pub known :
        (name : Bytes) (node : Node) → lookup (name ∷ objects_place) d ≡ some node → Known s name

  module _ (d d' : Disk) (s : Store) (b k name : Bytes) (v : Option Stored)
      (p : Place host.percent self b k name)
      (others : (q : FilePath)
        → object_path self b name ≢ q
        → meta_path self b name ≢ q
        → lookup q d' ≡ lookup q d) where
    -- Above the objects nothing changes.
    above :
        (q : FilePath)
        → (ne : length q ≢ length (name ∷ codes "objects" ∷ b ∷ self.data_root))
        → lookup q d' ≡ lookup q d
    above q ne =
        others q (λ e. ne (ap length (sym e ∙ object_at host.percent self p)))
          (λ e. ne (ap length (sym e ∙ meta_at host.percent self p)))

    same_path :
        (n key : Bytes)
        → Place host.percent self bucket key n
        → (b ≡ bucket) × (k ≡ key)
        → object_path self b name ≡ n ∷ objects_place
    same_path n key place (eb, ek) =
        let same : name ≡ n =
          sym (name_unique host.percent self p n (ap (encode_key host.percent) ek ∙ place.named)) in
        object_at host.percent self p ∙ cc (same, eb)

    Known-update :
        (t : Tidy d s)
        → ((node : Node)
            → lookup (object_path self b name) d' ≡ some node
            → (v₀ : Stored) × (v ≡ some v₀))
        → (n : Bytes) (node : Node) → lookup (n ∷ objects_place) d' ≡ some node
        → Known (update b k v s) n
    Known-update t full n node h =
        elim (Bool-cases (path_eq (object_path self b name) (n ∷ objects_place))) [
          | inl here ↦
              let e = (path_eq_iff (object_path self b name) (n ∷ objects_place)).0 here in
              let same = sym (object_at host.percent self p) ∙ e in
              let (v₀, chosen) = full node (ap (λ q. lookup q d') e ∙ h) in
              let eb : b ≡ bucket = cc same in
              let en : name ≡ n = cc same in
              (
                k,
                v₀,
                subst (λ x. Place host.percent self bucket k x) en
                    (subst (λ x. Place host.percent self x k name) eb p),
                subst (λ x. update b k v s x k ≡ some v₀) eb (rw (is_at_refl host self b k) chosen),
              )
          | inr away ↦
              let away_object : object_path self b name ≢ n ∷ objects_place = λ e.
                absurd (
                  ground
                    (arith, (path_eq_iff (object_path self b name) (n ∷ objects_place)).1 e)) in
              let away_meta : meta_path self b name ≢ n ∷ objects_place =
                λ e. let same = sym (meta_at host.percent self p) ∙ e in cc same in
              let (key, old, place, at) =
                t.known n node (sym (others (n ∷ objects_place) away_object away_meta) ∙ h) in
              elim (Bool-cases (is_at b k bucket key)) [
                | inl taken ↦
                    absurd (
                      away_object (same_path n key place (is_at-eq host self b k bucket key taken)))
                | inr free ↦ (key, old, place, rw free at)
              ]
        ]

    Tidy-update :
        Tidy d s
        → ((node : Node)
            → lookup (object_path self b name) d' ≡ some node
            → (v₀ : Stored) × (v ≡ some v₀))
        → Tidy d' (update b k v s)
    Tidy-update t full = record {
      place = above (bucket ∷ self.data_root) (omega arith) ∙ t.place;
      objects = above objects_place (omega arith) ∙ t.objects;
      known = Known-update t full;
    }

  perform-Tidy :
      (op : Op) (s : Store) (w : World)
      → IsText op
      → Tidy w.disk s
      → (perform host self op w).0 ≡ ok tt
      → Tidy (perform host self op w).1.disk (apply op s)
  unfolding perform apply
  perform-Tidy (put b k body content_type) s w t tidy h =
      let (meta, done, same) = >>=-ok _ _ w h in
      let stored =
        After-ok (After-put_object host self b k content_type body w t.str t.not_empty) done in
      subst (λ v. Tidy v.1.disk (apply (put b k body content_type) s)) (sym same)
        (Tidy-update w.disk _ s b k stored.name _
          (record {
            valid = stored.valid;
            str = t.str;
            not_empty = t.not_empty;
            named = stored.named;
          })
          stored.others tidy (λ node there. (_, refl)))
  perform-Tidy (delete b k) s w t tidy h =
      let gone = After-ok (After-delete_object host self b k w) h in
      Tidy-update w.disk _ s b k gone.name none
        (record { valid = gone.valid; str = t.str; not_empty = t.not_empty; named = gone.named })
        gone.others tidy (λ node there. absurd (cc (gone.no_body, there)))

  pub performs-Tidy :
      (ops : List Op) (s : Store) (w : World)
      → All IsText ops
      → Tidy w.disk s
      → (performs host self ops w).0 ≡ ok tt
      → Tidy (performs host self ops w).1.disk (applies ops s)
  performs-Tidy = performs-keep host self Tidy perform-Tidy
