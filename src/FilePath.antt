-- ===== src/FilePath.antt =====
-- `std::path`: paths as their components from the file system's root, the last one first, so that
-- the parent is the tail. `join` reads its argument as the operating system does, on a disk without
-- symbolic links: an absolute text replaces the path, empty parts and `.` stay, `..` goes up.
use ferrobucket.Base.{
  ◌≡◌, ◌≢◌, refl, ◌↔◌, Bool, true, false, List, [], ◌∷◌, ◌++◌, All, arith, ◌||◌, Bool-cases, inl,
  inr, if◌then◌else◌,
}
use ferrobucket.Base.Text.{
  Bytes, codes, str_eq, str_eq_iff, list_eq, list_eq_iff, starts_with, split,
}
use ferrobucket.Base.Text.Split.{split-Lacks}

abbrev pub FilePath : Type 0
FilePath = List Bytes

unfoldable pub parent : FilePath → FilePath
parent [] = []
parent (c ∷ p) = p

unfoldable pub enter : FilePath → Bytes → FilePath
unfolding parent
enter p c =
    if str_eq c [] || str_eq c (codes ".")
    then p
    else if str_eq c (codes "..")
    then parent p
    else c ∷ p

unfoldable pub enter_all : FilePath → List Bytes → FilePath
unfolding enter
enter_all p [] = p
enter_all p (c ∷ cs) = enter_all (enter p c) cs

unfoldable pub join : FilePath → Bytes → FilePath
unfolding enter_all
join p s = enter_all (if starts_with s (codes "/") then [] else p) (split b'/' s)

-- `path.display()`
unfoldable pub display : FilePath → Bytes
display [] = []
display (c ∷ p) = display p ++ b'/' ∷ c

unfoldable pub path_eq : FilePath → FilePath → Bool
path_eq = list_eq str_eq

pub path_eq_iff : (p q : FilePath) → (path_eq p q ≡ true) ↔ (p ≡ q)
unfolding path_eq
path_eq_iff = list_eq_iff str_eq str_eq_iff

pub path_eq_ne : (p q : FilePath) → p ≢ q → path_eq p q ≡ false
path_eq_ne p q ne = elim (Bool-cases (path_eq p q)) [
  | inl e ↦ absurd (ne ((path_eq_iff p q).0 e))
  | inr e ↦ e
]

-- A name that stands for one entry of a directory.
pub record IsPlain (s : Bytes) : Type 0 where
  pub no_slash : All (λ c. c ≢ b'/') s
  pub not_empty : s ≢ []
  pub not_dot : s ≢ codes "."
  pub not_dot_dot : s ≢ codes ".."

no_slash_start : (s : Bytes) → All (λ c. c ≢ b'/') s → starts_with s (codes "/") ≡ false
unfolding starts_with
no_slash_start [] h = refl
no_slash_start (c ∷ s) (hc, h) = ground arith

pub join-IsPlain : (p : FilePath) (s : Bytes) → IsPlain s → join p s ≡ s ∷ p
unfolding join
join-IsPlain p s plain =
    rw (no_slash_start s plain.no_slash, split-Lacks b'/' s plain.no_slash)
      (ground (arith, str_eq_iff s [], str_eq_iff s (codes "."), str_eq_iff s (codes "..")))
