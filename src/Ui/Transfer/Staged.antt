-- ===== src/Ui/Transfer/Staged.antt =====
-- Parts that are staged one after the other stay as they are.
use ferrobucket.Base.{ℕ, suc, ◌≡◌, ◌≢◌, refl, List, [], ◌∷◌, ◌++◌, All, some, arith}
use ferrobucket.Base.Text.{Bytes, codes}
use ferrobucket.Base.Int.{ℤ, pos}
use ferrobucket.Base.Decimal.{show, to_string}
use ferrobucket.Base.Decimal.Value.{All-show, show-ne-nil, show_injective, IsDigit}
use ferrobucket.FilePath.{FilePath, join, IsPlain, join-IsPlain}
use ferrobucket.Error.{ok}
use ferrobucket.Disk.{file, Disk, lookup}
use ferrobucket.Disk.Calls.{read, node_at}
use ferrobucket.Disk.Reads.{read_file}
use ferrobucket.Layout.{FsStorage, upload_dir, part_path}
use ferrobucket.Persist.Atomic.{SameBut}
use ferrobucket.Storage.Uploads.Assemble.{PartsAre}
use ferrobucket.Storage.Uploads.Create.{meta_file, meta_file_lem}
use ferrobucket.Ui.Transfer.Numbers.{numbers, All-numbers}

pub read-SameBut :
    (q p : FilePath) (d d' : Disk) (c : Bytes)
    → p ≢ q
    → SameBut p d d'
    → read q d ≡ ok (c, d)
    → read q d' ≡ ok (c, d')
unfolding read node_at
read-SameBut [] p d d' c ne same h = absurd (ground arith)
read-SameBut (x ∷ q) p d d' c ne same h = ground (arith, same (x ∷ q) ne, h)

PartsAre-SameBut :
    (staging p : FilePath) (d d' : Disk) (ns : List ℤ) (cs : List Bytes)
    → SameBut p d d'
    → All (λ n. p ≢ join staging (to_string n)) ns
    → PartsAre d staging ns cs
    → PartsAre d' staging ns cs
PartsAre-SameBut staging p d d' [] [] same ne h = h
PartsAre-SameBut staging p d d' [] (c ∷ cs) same ne h = h
PartsAre-SameBut staging p d d' (n ∷ ns) [] same ne h = h
PartsAre-SameBut staging p d d' (n ∷ ns) (c ∷ cs) same (here, ne) (hc, h) =
    (read-SameBut _ p d d' c here same hc, PartsAre-SameBut staging p d d' ns cs same ne h)

PartsAre-append_one :
    (d : Disk) (staging : FilePath) (n : ℤ) (c : Bytes) (ns : List ℤ) (cs : List Bytes)
    → PartsAre d staging ns cs
    → read (join staging (to_string n)) d ≡ ok (c, d)
    → PartsAre d staging (ns ++ n ∷ []) (cs ++ c ∷ [])
PartsAre-append_one d staging n c [] [] h new = (new, tt)
PartsAre-append_one d staging n c [] (x ∷ cs) h new = absurd h
PartsAre-append_one d staging n c (m ∷ ns) [] h new = absurd h
PartsAre-append_one d staging n c (m ∷ ns) (x ∷ cs) (hx, h) new =
    (hx, PartsAre-append_one d staging n c ns cs h new)

digits_no_slash : (s : Bytes) → All IsDigit s → All (λ c. c ≢ b'/') s
digits_no_slash [] h = tt
digits_no_slash (c ∷ s) (hc, h) = (omega (arith, hc), digits_no_slash s h)

digits-IsPlain : (s : Bytes) → s ≢ [] → All IsDigit s → IsPlain s
digits-IsPlain [] ne h = absurd (ne refl)
digits-IsPlain (c ∷ s) ne (hc, h) = record {
  no_slash = (omega (arith, hc), digits_no_slash s h);
  not_empty = ne;
  not_dot = λ p. ground (arith, hc);
  not_dot_dot = λ p. ground (arith, hc);
}

module _ (self : FsStorage) (upload_id : Bytes) where
  pub part_path_lem :
      (n : ℕ) → part_path self upload_id (pos n) ≡ show n ∷ upload_dir self upload_id
  unfolding part_path to_string
  part_path_lem n = join-IsPlain _ (show n) (digits-IsPlain (show n) (show-ne-nil n) (All-show n))

  part_path_injective :
      (m n : ℕ) → part_path self upload_id (pos m) ≡ part_path self upload_id (pos n) → m ≡ n
  part_path_injective m n e = show_injective m n (cc (e, part_path_lem m, part_path_lem n))

  pub part_path-ne-meta_file : (n : ℕ) → part_path self upload_id (pos n) ≢ meta_file self upload_id
  part_path-ne-meta_file n e =
      not_digits (show n) (All-show n) (cc (e, part_path_lem n, meta_file_lem self upload_id))
    where
      not_digits : (s : Bytes) → All IsDigit s → s ≢ codes "_meta.json"
      not_digits [] h p = cc
      not_digits (c ∷ s) h p = ground (arith, h.0)

  -- A new part leaves the parts with smaller numbers, and is one more.
  pub PartsAre-next :
      (k : ℕ) (content : Bytes) (d d' : Disk)
      → SameBut (part_path self upload_id (pos (suc k))) d d'
      → lookup (part_path self upload_id (pos (suc k))) d' ≡ some (file content)
      → (cs : List Bytes) → PartsAre d (upload_dir self upload_id) (numbers k) cs
      → PartsAre d' (upload_dir self upload_id) (numbers (suc k)) (cs ++ content ∷ [])
  unfolding numbers part_path
  PartsAre-next k content d d' same new cs h =
      PartsAre-append_one d' (upload_dir self upload_id) (pos (suc k)) content (numbers k) cs
        (PartsAre-SameBut (upload_dir self upload_id) (part_path self upload_id (pos (suc k))) d d'
          (numbers k) cs same
          (All-numbers
            (λ n.
              part_path self upload_id (pos (suc k))
              ≢ join (upload_dir self upload_id) (to_string n))
            k (λ i lt e. absurd (omega (arith, part_path_injective (suc k) (suc i) e))))
          h)
        (read_file _ (show (suc k)) (upload_dir self upload_id) d' (part_path_lem (suc k)) new)
