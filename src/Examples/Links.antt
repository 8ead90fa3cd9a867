-- ===== src/Examples/Links.antt =====
-- A prefix with a space, escaped, and a folder in a folder.
use ferrobucket.Base.{◌≡◌, refl, [], ◌∷◌, All}
use ferrobucket.Base.Text.{Bytes, codes, join_with}
use ferrobucket.Encode.{is_alphanumeric, hex_digit}
use ferrobucket.Ui.Links.{urlencoding_simple, build_href}
use ferrobucket.Ui.Links.Crumbs.{breadcrumb}
use ferrobucket.Ui.Links.Crumbs.Above.{folder, IsPart, Trail, breadcrumb-folder}
use ferrobucket.Base.Text.Utf8.{IsStr, is_utf8}
use ferrobucket.Examples.Hosts.{percent}
use mathlib.Core.Option.{none}

abbrev prefix : Bytes
prefix = codes "a b/"

prefix_href : build_href (codes "/ui/buckets/x") prefix none ≡ codes "/ui/buckets/x?prefix=a%20b/"
unfolding urlencoding_simple is_alphanumeric hex_digit join_with
prefix_href = refl

parts-IsPart : All IsPart (codes "a b" ∷ codes "c" ∷ [])
parts-IsPart = ((((λ e. cc), ((λ e. cc), ((λ e. cc), tt))), refl), ((((λ e. cc), tt), refl), tt))

parts-IsStr : All IsStr (codes "a b" ∷ codes "c" ∷ [])
unfolding is_utf8
parts-IsStr = (refl, (refl, tt))

breadcrumb-folder_example :
    Trail percent
      (codes "x")
      []
      (codes "a b" ∷ codes "c" ∷ [])
      (breadcrumb (codes "x") (folder (codes "a b" ∷ codes "c" ∷ [])))
breadcrumb-folder_example =
    breadcrumb-folder percent (codes "x") (codes "a b") (codes "c" ∷ []) parts-IsPart parts-IsStr
