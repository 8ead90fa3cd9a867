-- ===== src/Ui/Transfer/Cuts.antt =====
-- The parts that the browser cuts a file into are the file.
use ferrobucket.Base.{
  ℕ, zero, suc, ◌+◌, ◌-◌, ◌*◌, ◌/◌, ◌^◌, ◌≤◌, ◌<◌, ◌≡◌, refl, sym, ap, ◌∙◌, min, inl, inr,
  Bool-cases, ltb, ltb→lt, leb→le, List, [], ◌∷◌, ◌++◌, take, drop, length, length-drop, take_all,
  append_assoc, arith,
}
use ferrobucket.Base.Text.{Bytes}
use ferrobucket.Storage.Uploads.Assemble.{concat}
use ferrobucket.Ui.Transfer.{part_size_bytes, num_parts_of}

take-nil {ℓ} : {A : Type ℓ} (n : ℕ) → take {A = A} n [] ≡ []
take-nil zero = refl
take-nil (suc n) = refl

pub take-add {ℓ} :
    {A : Type ℓ} (m n k : ℕ) (xs : List A) → m + n ≡ k → take k xs ≡ take m xs ++ take n (drop m xs)
take-add zero n k xs e = let same : k ≡ n = omega arith in rw same refl
take-add (suc m) n zero xs e = absurd (omega arith)
take-add (suc m) n (suc k) [] e = sym (take-nil n)
take-add (suc m) n (suc k) (x ∷ xs) e = ap (λ r. x ∷ r) (take-add m n k xs (omega arith))

pub concat-append : (cs ds : List Bytes) → concat (cs ++ ds) ≡ concat cs ++ concat ds
concat-append [] ds = refl
concat-append (c ∷ cs) ds = rw (concat-append cs ds, append_assoc c (concat cs) (concat ds))

-- A window that ends at the end of the list is as good as one that would go on.
pub window-cut {ℓ} :
    {A : Type ℓ} (size start end : ℕ) (xs : List A)
    → start + size ≡ end
    → take (min end (length xs) - start) (drop start xs) ≡ take size (drop start xs)
window-cut size start end xs e = elim (Bool-cases (ltb (length xs) end)) [
  | inl short ↦
      take_all (min end (length xs) - start) (drop start xs) (ground (arith, length-drop start xs))
      ∙ sym (take_all size (drop start xs) (ground (arith, length-drop start xs)))
  | inr long ↦ let same : min end (length xs) - start ≡ size = ground arith in rw same refl
]

pub num_parts_lem :
    (n : ℕ)
    → n < 2 ^ 53
    → (1 ≤ num_parts_of n) × (n ≤ num_parts_of n * part_size_bytes) × (num_parts_of n < 2 ^ 31)
unfolding num_parts_of part_size_bytes
num_parts_lem n h = elim (Bool-cases (ltb (min ((n + 8388608 - 1) / 8388608) 4294967295) 1)) [
  | inl none_needed ↦
      rw none_needed
        (omega (arith, ltb→lt (min ((n + 8388608 - 1) / 8388608) 4294967295) 1 none_needed))
  | inr some_needed ↦
      rw some_needed
        (omega (arith, leb→le 1 (min ((n + 8388608 - 1) / 8388608) 4294967295) (ground arith)))
]
