-- ===== src/Listing/Group.antt =====
-- The loop against a recursive description: neighbours with the same common prefix are one item,
-- and the item keeps its last key.
use mathlib.Core.List.{reverse, reverse-cons}
use ferrobucket.Base.{
  true, false, ◌≡◌, refl, Option, List, [], ◌∷◌, ◌++◌, append_assoc, arith, if◌then◌else◌,
  Bool-cases, inl, inr, length, ◌≤◌, ◌⊎◌,
}
use ferrobucket.Base.Text.{Bytes, str_eq_iff, str_eq_refl}
use ferrobucket.Listing.{
  Item, object, common_prefix, Emitted, classify, same_prefix, emit, emit_all, emitted_of,
}

-- Put one emitted item before others, unless the first of them continues it.
unfoldable pub glue : Emitted → List Emitted → List Emitted
glue e [] = e ∷ []
glue e (f ∷ rest) = if same_prefix e.item f.item then f ∷ rest else e ∷ f ∷ rest

-- An item is either merged away or put in front.
pub glue-cases : (e : Emitted) (g : List Emitted) → (glue e g ≡ g) ⊎ (glue e g ≡ e ∷ g)
unfolding glue
glue-cases e [] = inr refl
glue-cases e (f ∷ rest) = ground arith

module _ (prefix : Bytes) (delimiter : Option Bytes) where
  abbrev pub single : Bytes → Emitted
  single key = record { item = classify prefix delimiter key; last_key = key }

  unfoldable pub group : List Bytes → List Emitted
  group [] = []
  group (key ∷ keys) = glue (single key) (group keys)

pub same_prefix-eq : (i j : Item) → same_prefix i j ≡ true → i ≡ j
unfolding same_prefix
same_prefix-eq (common_prefix x) (common_prefix y) h = ground (arith, str_eq_iff x y)
same_prefix-eq (common_prefix x) (object k) h = ground arith
same_prefix-eq (object k) j h = ground arith

same_prefix_refl : (i j : Item) → same_prefix i j ≡ true → same_prefix i i ≡ true
unfolding same_prefix
same_prefix_refl (common_prefix x) j h = str_eq_refl x
same_prefix_refl (object k) j h = ground arith

-- Items that are one common prefix merge into the one with the later key.
glue-glue_same :
    (e f : Emitted) (rest : List Emitted)
    → same_prefix e.item f.item ≡ true
    → glue e (glue f rest) ≡ glue (record e { last_key = f.last_key }) rest
unfolding glue
glue-glue_same e f [] h = ground (arith, same_prefix-eq e.item f.item)
glue-glue_same e f (g ∷ rest) h = ground (arith, same_prefix-eq e.item f.item)

glue-glue_other :
    (e f : Emitted) (rest : List Emitted)
    → same_prefix e.item f.item ≡ false
    → glue e (glue f rest) ≡ e ∷ glue f rest
unfolding glue
glue-glue_other e f [] h = ground arith
glue-glue_other e f (g ∷ rest) h = ground (arith, same_prefix-eq f.item g.item)

module _ (prefix : Bytes) (delimiter : Option Bytes) where
  -- The first key joins the item behind it, or is an item of its own.
  pub group-cases :
      (key : Bytes) (keys : List Bytes)
      → (group prefix delimiter (key ∷ keys) ≡ group prefix delimiter keys)
        ⊎ (group prefix delimiter (key ∷ keys)
            ≡ single prefix delimiter key ∷ group prefix delimiter keys)
  unfolding group
  group-cases key keys = glue-cases (single prefix delimiter key) (group prefix delimiter keys)

  emit_all-group :
      (e : Emitted) (out : List Emitted) (keys : List Bytes)
      → reverse (emit_all prefix delimiter (e ∷ out) keys)
        ≡ reverse out ++ glue e (group prefix delimiter keys)
  unfolding emit_all emit group
  emit_all-group e out [] = unfold glue in reverse-cons e out
  emit_all-group e out (key ∷ keys) =
      elim (Bool-cases (same_prefix e.item (classify prefix delimiter key))) [
        | inl same ↦
            rw (same, emit_all-group (record e { last_key = key }) out keys)
              (rw
                (glue-glue_same e (single prefix delimiter key) (group prefix delimiter keys) same))
        | inr other ↦
            rw (other, emit_all-group (single prefix delimiter key) (e ∷ out) keys, reverse-cons)
              (rw (
                append_assoc,
                glue-glue_other e (single prefix delimiter key) (group prefix delimiter keys) other,
              ))
      ]

  -- The loop that emits objects and common prefixes computes the recursive grouping in which
  -- neighbouring keys with the same common prefix are one item with the last of their keys.
  pub emitted_of-group :
      (keys : List Bytes) → emitted_of prefix delimiter keys ≡ group prefix delimiter keys
  unfolding emitted_of group
  emitted_of-group [] = refl
  emitted_of-group (key ∷ keys) =
      unfold emit_all emit in emit_all-group (single prefix delimiter key) [] keys

  pub length-group : (keys : List Bytes) → length (group prefix delimiter keys) ≤ length keys
  length-group [] = unfold group in omega arith
  length-group (key ∷ keys) = elim (group-cases key keys) [
    | inl merged ↦ rw merged (omega (arith, length-group keys))
    | inr fresh ↦ rw fresh (omega (arith, length-group keys))
  ]
