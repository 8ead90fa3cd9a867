-- ===== src/Ui/Links.antt =====
-- crates/ui/src/components/{pagination_bar,breadcrumb}.rs: the addresses that the pages link to.
pub mod Distinct
pub mod Crumbs
use ferrobucket.Base.{
  ℕ, ◌/◌, ◌%◌, Bool, not, ◌==◌, ◌||◌, Option, none, some, List, [], ◌∷◌, ◌++◌, if◌then◌else◌,
}
use ferrobucket.Base.Text.{Bytes, codes, join_with}
use ferrobucket.Encode.{is_alphanumeric, hex_digit}

abbrev pub is_unreserved : ℕ → Bool
is_unreserved b = is_alphanumeric b || b == b'-' || b == b'_' || b == b'.' || b == b'~' || b == b'/'

abbrev pub escaped : ℕ → Bytes → Bytes
escaped b out = b'%' ∷ hex_digit (b / 16) ∷ hex_digit (b % 16) ∷ out

-- Every byte but the unreserved ones is escaped.
unfoldable pub urlencoding_simple : Bytes → Bytes
urlencoding_simple [] = []
urlencoding_simple (b ∷ s) =
    let out = urlencoding_simple s in if is_unreserved b then b ∷ out else escaped b out

abbrev pub named_part : Bytes → Bytes → List Bytes
named_part name [] = []
named_part name (c ∷ s) = (name ++ urlencoding_simple (c ∷ s)) ∷ []

abbrev pub with_query : Bytes → List Bytes → Bytes
with_query base_href [] = base_href
with_query base_href (p ∷ parts) = base_href ++ b'?' ∷ join_with b'&' (p ∷ parts)

abbrev pub token_part : Option Bytes → List Bytes
token_part none = []
token_part (some t) = named_part (codes "continuation=") t

-- The address of a page of the listing.
abbrev pub build_href : Bytes → Bytes → Option Bytes → Bytes
build_href base_href prefix token =
    with_query base_href (named_part (codes "prefix=") prefix ++ token_part token)
