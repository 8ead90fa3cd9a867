-- ===== src/Ui/Transfer/Numbers.antt =====
-- The numbers of the parts and what the parts hold, one after the other.
use ferrobucket.Base.{
  ℕ, zero, suc, ◌+◌, ◌-◌, ◌*◌, ◌<◌, ◌≡◌, refl, sym, ◌∙◌, true, false, List, [], ◌∷◌, ◌++◌, take,
  drop, length, append-nil, All, All-append_one, lt→ltb, arith,
}
use ferrobucket.Base.Text.{Bytes}
use ferrobucket.Base.Int.{ℤ, pos, negsuc, ◌<ℤ◌}
use ferrobucket.Base.Sort.{sort, sort_of-Ascending, Ascending, Ascending-append_one}
use ferrobucket.Storage.Uploads.Assemble.{concat}
use ferrobucket.Ui.Transfer.{part_size_bytes, start_of, end_of}
use ferrobucket.Ui.Transfer.Cuts.{take-add, concat-append, window-cut}

-- 1 to `k`
unfoldable pub numbers : ℕ → List ℤ
numbers zero = []
numbers (suc k) = numbers k ++ pos (suc k) ∷ []

-- The first `k` parts of a file; the last may be short.
unfoldable pub cuts : Bytes → ℕ → List Bytes
cuts file zero = []
cuts file (suc k) = cuts file k ++ take part_size_bytes (drop (k * part_size_bytes) file) ∷ []

pub All-numbers : (P : ℤ → Type 0) (k : ℕ) → ((i : ℕ) → i < k → P (pos (suc i))) → All P (numbers k)
unfolding numbers
All-numbers P zero h = tt
All-numbers P (suc k) h =
    All-append_one P (pos (suc k)) (numbers k) (All-numbers P k (λ i lt. h i (omega arith)))
      (h k (omega arith))

<ℤ_asym : (a b : ℤ) → (a <ℤ b) ≡ true → (b <ℤ a) ≡ false
unfolding ◌<ℤ◌
<ℤ_asym (pos a) (pos b) h = ground arith
<ℤ_asym (pos a) (negsuc b) h = absurd (ground arith)
<ℤ_asym (negsuc a) (pos b) h = refl
<ℤ_asym (negsuc a) (negsuc b) h = ground arith

numbers-Ascending : (k : ℕ) → Ascending ◌<ℤ◌ (numbers k)
unfolding numbers
numbers-Ascending zero = tt
numbers-Ascending (suc k) =
    Ascending-append_one ◌<ℤ◌ (pos (suc k)) (numbers k) (numbers-Ascending k) (
      All-numbers (λ m. (m <ℤ pos (suc k)) ≡ true) k
        (λ i h. unfold ◌<ℤ◌ in lt→ltb (suc i) (suc k) (omega arith)))

-- The numbers are sorted as they are sent.
pub sort-numbers : (k : ℕ) → sort ◌<ℤ◌ (numbers k) ≡ numbers k
sort-numbers k = sort_of-Ascending ◌<ℤ◌ <ℤ_asym (numbers k) (numbers-Ascending k)

pub next_start : (k : ℕ) → k * part_size_bytes + part_size_bytes ≡ suc k * part_size_bytes
unfolding part_size_bytes
next_start k = omega arith

-- Together the first `k` parts are the start of the file.
pub concat-cuts : (file : Bytes) (k : ℕ) → concat (cuts file k) ≡ take (k * part_size_bytes) file
unfolding cuts
concat-cuts file zero = let none_yet : 0 * part_size_bytes ≡ 0 = omega arith in rw none_yet refl
concat-cuts file (suc k) =
    concat-append (cuts file k) _
    ∙ rw (concat-cuts file k, append-nil (take part_size_bytes (drop (k * part_size_bytes) file)))
        (sym (
          take-add (k * part_size_bytes) part_size_bytes (suc k * part_size_bytes) file
            (next_start k)))

-- What is cut for the part after the first `k`.
pub cut_lem :
    (content : Bytes) (k : ℕ)
    → take (end_of (length content) (suc k) - start_of (suc k)) (drop (start_of (suc k)) content)
      ≡ take part_size_bytes (drop (k * part_size_bytes) content)
cut_lem content k =
    let before : suc k - 1 ≡ k = omega arith in
    rw before (
      window-cut part_size_bytes (k * part_size_bytes) (suc k * part_size_bytes) content
        (next_start k))
