-- ===== src/Ui/Links/Crumbs.antt =====
-- crates/ui/src/components/breadcrumb.rs: the links to the folders above the one that is shown.
pub mod Above
use ferrobucket.Base.{
  Bool, true, false, not, ◌&&◌, ◌==◌, Option, none, some, List, [], ◌∷◌, ◌++◌, if◌then◌else◌,
  retain,
}
use ferrobucket.Base.Text.{Bytes, codes, split, join_with}
use ferrobucket.Base.Text.Trim.{is_empty}
use ferrobucket.Ui.Links.{urlencoding_simple}

-- `trim_end_matches('/')`
unfoldable pub trim_end_slash : Bytes → Bytes
trim_end_slash [] = []
trim_end_slash (c ∷ s) =
    let rest = trim_end_slash s in if c == b'/' && is_empty rest then [] else c ∷ rest

abbrev pub segments : Bytes → List Bytes
segments [] = []
segments (c ∷ prefix) = retain (λ s. not (is_empty s)) (split b'/' (trim_end_slash (c ∷ prefix)))

-- A segment as it is shown; the last one has no link.
pub record Crumb : Type 0 where
  pub seg_display : Bytes
  pub segment_prefix : Bytes
  pub seg_href : Option Bytes

abbrev pub is_last : List Bytes → Bool
is_last [] = true
is_last (s ∷ rest) = false

abbrev pub seg_href_of : Bytes → Bytes → Bytes
seg_href_of bucket segment_prefix =
    codes "/ui/buckets/" ++ (bucket ++ (codes "?prefix=" ++ urlencoding_simple segment_prefix))

abbrev pub crumb : Bytes → List Bytes → Bytes → List Bytes → Crumb
crumb bucket before seg rest =
    let segment_prefix = join_with b'/' (before ++ seg ∷ []) ++ codes "/" in
    record {
      seg_display = seg;
      segment_prefix = segment_prefix;
      seg_href = if is_last rest then none else some (seg_href_of bucket segment_prefix);
    }

-- The segments with those before them.
unfoldable pub crumbs_from : Bytes → List Bytes → List Bytes → List Crumb
crumbs_from bucket before [] = []
crumbs_from bucket before (seg ∷ rest) =
    crumb bucket before seg rest ∷ crumbs_from bucket (before ++ seg ∷ []) rest

abbrev pub breadcrumb : Bytes → Bytes → List Crumb
breadcrumb bucket prefix = crumbs_from bucket [] (segments prefix)
