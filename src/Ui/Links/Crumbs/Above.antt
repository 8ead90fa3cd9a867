-- ===== src/Ui/Links/Crumbs/Above.antt =====
-- crates/ui/src/components/breadcrumb.rs: where the links lead.
use ferrobucket.Base.{
  ℕ, none, some, All-append, All-append_one, Bool-cases, inl, inr, ◌≡◌, ◌≢◌, refl, sym, ap, ◌∙◌,
  true, false, not, List, [], ◌∷◌, ◌++◌, All, append_assoc, arith, retain, retain-All,
}
use ferrobucket.Base.Text.{Bytes, codes, split, join_with}
use ferrobucket.Base.Text.Trim.{is_empty}
use ferrobucket.Base.Text.Split.{split-join_with}
use ferrobucket.Base.Text.Utf8.{IsStr, IsStr-IsByte}
use ferrobucket.Encode.{PercentEncoding}
use ferrobucket.Encode.Percent.{IsByte}
use ferrobucket.Ui.Links.{urlencoding_simple, is_unreserved}
use ferrobucket.Ui.Links.Distinct.{
  urlencoding_simple-keep, urlencoding_simple-escape, percent_reserved,
}
use ferrobucket.Ui.Links.Crumbs.{
  seg_href_of, trim_end_slash, segments, Crumb, crumbs_from, breadcrumb,
}

-- The prefix of a folder: every part is closed by a slash.
pub folder : List Bytes → Bytes
folder [] = []
folder (p ∷ parts) = p ++ b'/' ∷ folder parts

-- A part has no slash and is not empty.
abbrev pub IsPart : Bytes → Type 0
IsPart p = All (λ c. c ≢ b'/') p × (is_empty p ≡ false)

folder-append : (xs ys : List Bytes) → folder (xs ++ ys) ≡ folder xs ++ folder ys
unfolding folder
folder-append [] ys = refl
folder-append (x ∷ xs) ys =
    ap (λ s. x ++ b'/' ∷ s) (folder-append xs ys)
    ∙ sym (append_assoc x (b'/' ∷ folder xs) (folder ys))

join_with-folder :
    (p : Bytes) (ps : List Bytes) → join_with b'/' (p ∷ ps) ++ codes "/" ≡ folder (p ∷ ps)
unfolding folder join_with
join_with-folder p [] = refl
join_with-folder p (q ∷ ps) =
    append_assoc p (b'/' ∷ join_with b'/' (q ∷ ps)) (codes "/")
    ∙ ap (λ s. p ++ b'/' ∷ s) (join_with-folder q ps)

trim_end_slash-Lacks : (s : Bytes) → All (λ c. c ≢ b'/') s → trim_end_slash s ≡ s
unfolding trim_end_slash
trim_end_slash-Lacks [] h = refl
trim_end_slash-Lacks (c ∷ s) (hc, h) = ground (arith, hc, trim_end_slash-Lacks s h)

is_empty-append : (s t : Bytes) → is_empty t ≡ false → is_empty (s ++ t) ≡ false
is_empty-append [] t h = h
is_empty-append (c ∷ s) t h = refl

trim_end_slash-append :
    (s t : Bytes) → trim_end_slash t ≡ t → is_empty t ≡ false → trim_end_slash (s ++ t) ≡ s ++ t
unfolding trim_end_slash
trim_end_slash-append [] t same full = same
trim_end_slash-append (c ∷ s) t same full =
    ground (arith, trim_end_slash-append s t same full, is_empty-append s t full)

trim_end_slash-closed : (s : Bytes) → trim_end_slash (s ++ codes "/") ≡ trim_end_slash s
unfolding trim_end_slash
trim_end_slash-closed [] = refl
trim_end_slash-closed (c ∷ s) = rw (trim_end_slash-closed s) refl

trim_end_slash-join_with :
    (p : Bytes) (ps : List Bytes)
    → IsPart p
    → All IsPart ps
    → (trim_end_slash (join_with b'/' (p ∷ ps)) ≡ join_with b'/' (p ∷ ps))
      × (is_empty (join_with b'/' (p ∷ ps)) ≡ false)
unfolding join_with
trim_end_slash-join_with p [] (lacks, full) h = (trim_end_slash-Lacks p lacks, full)
trim_end_slash-join_with p (q ∷ ps) hp (hq, h) =
    let (same, full) = trim_end_slash-join_with q ps hq h in
    let closed = trim_end_slash-append (b'/' ∷ []) (join_with b'/' (q ∷ ps)) same full in
    (
      trim_end_slash-append p (b'/' ∷ join_with b'/' (q ∷ ps)) closed refl,
      is_empty-append p (b'/' ∷ join_with b'/' (q ∷ ps)) refl,
    )

segments-cons :
    (s : Bytes)
    → is_empty s ≡ false
    → segments s ≡ retain (λ r. not (is_empty r)) (split b'/' (trim_end_slash s))
segments-cons [] h = absurd (cc)
segments-cons (c ∷ s) h = refl

parts_full : (ps : List Bytes) → All IsPart ps → All (λ r. not (is_empty r) ≡ true) ps
parts_full [] h = tt
parts_full (p ∷ ps) ((lacks, full), h) = (ap not full, parts_full ps h)

parts_lack : (ps : List Bytes) → All IsPart ps → All (λ r. All (λ c. c ≢ b'/') r) ps
parts_lack [] h = tt
parts_lack (p ∷ ps) ((lacks, full), h) = (lacks, parts_lack ps h)

segments-folder :
    (p : Bytes) (ps : List Bytes) → All IsPart (p ∷ ps) → segments (folder (p ∷ ps)) ≡ p ∷ ps
segments-folder p ps (hp, h) =
    let (same, full) = trim_end_slash-join_with p ps hp h in
    let joined = join_with b'/' (p ∷ ps) in
    ap segments (sym (join_with-folder p ps))
    ∙ segments-cons (joined ++ codes "/") (is_empty-append joined (codes "/") refl)
    ∙ ap (λ s. retain (λ r. not (is_empty r)) (split b'/' s)) (trim_end_slash-closed joined ∙ same)
    ∙ ap (retain (λ r. not (is_empty r))) (split-join_with b'/' p ps (parts_lack (p ∷ ps) (hp, h)))
    ∙ retain-All _ (p ∷ ps) (parts_full (p ∷ ps) (hp, h))

folder-IsByte : (parts : List Bytes) → All IsStr parts → All IsByte (folder parts)
unfolding folder
folder-IsByte [] h = tt
folder-IsByte (p ∷ parts) (hp, h) =
    All-append IsByte p (b'/' ∷ folder parts) (IsStr-IsByte p hp)
      (omega arith, folder-IsByte parts h)

module _ (percent : PercentEncoding) where
  -- The escapes of an address are taken back by the percent decoding.
  decode-urlencoding_simple : (s : Bytes) → All IsByte s → percent.decode (urlencoding_simple s) ≡ s
  decode-urlencoding_simple [] h = unfold urlencoding_simple in percent.decode-nil
  decode-urlencoding_simple (b ∷ s) (hb, h) = elim (Bool-cases (is_unreserved b)) [
    | inl plain ↦
        ap percent.decode (urlencoding_simple-keep b s plain)
        ∙ percent.decode-plain b (urlencoding_simple s) (not_percent b plain)
        ∙ ap (λ r. b ∷ r) (decode-urlencoding_simple s h)
    | inr other ↦
        ap percent.decode (urlencoding_simple-escape b s other)
        ∙ percent.decode-escape b (urlencoding_simple s) hb
        ∙ ap (λ r. b ∷ r) (decode-urlencoding_simple s h)
  ]
    where
      not_percent : (c : ℕ) → is_unreserved c ≡ true → c ≢ b'%'
      not_percent c h e = let no = percent_reserved in cc (ap is_unreserved e, h, no)

  module _ (bucket : Bytes) where
    -- The link of a part asks for the folder of the parts up to it.
    abbrev pub Links : Bytes → List Bytes → Type 0
    Links href parts =
        (query : Bytes) × (href ≡ codes "/ui/buckets/" ++ (bucket ++ (codes "?prefix=" ++ query)))
        × (percent.decode query ≡ folder parts)

    -- The parts in order: each but the last is a link, behind those that were before.
    abbrev pub Trail : List Bytes → List Bytes → List Crumb → Type 0
    Trail before [] [] = Unit
    Trail before [] (c ∷ cs) = ⊥
    Trail before (p ∷ parts) [] = ⊥
    Trail before (p ∷ []) (c ∷ []) = (c.seg_display ≡ p) × (c.seg_href ≡ none)
    Trail before (p ∷ []) (c ∷ e ∷ cs) = ⊥
    Trail before (p ∷ q ∷ parts) (c ∷ cs) =
        (c.seg_display ≡ p)
        × ((href : Bytes) × (c.seg_href ≡ some href) × Links href (before ++ p ∷ []))
        × Trail (before ++ p ∷ []) (q ∷ parts) cs

    join_with-last :
        (before : List Bytes) (p : Bytes)
        → join_with b'/' (before ++ p ∷ []) ++ codes "/" ≡ folder (before ++ p ∷ [])
    join_with-last [] p = join_with-folder p []
    join_with-last (b ∷ before) p = join_with-folder b (before ++ p ∷ [])

    Links-seg_href_of :
        (before : List Bytes) (p : Bytes)
        → All IsStr (before ++ p ∷ [])
        → Links
            (seg_href_of bucket (join_with b'/' (before ++ p ∷ []) ++ codes "/"))
            (before ++ p ∷ [])
    Links-seg_href_of before p h = (
      urlencoding_simple (join_with b'/' (before ++ p ∷ []) ++ codes "/"),
      refl,
      rw (join_with-last before p) (
          decode-urlencoding_simple (folder (before ++ p ∷ []))
            (folder-IsByte (before ++ p ∷ []) h)),
    )

    Trail-crumbs_from :
        (before parts : List Bytes)
        → All IsStr before
        → All IsStr parts
        → Trail before parts (crumbs_from bucket before parts)
    unfolding crumbs_from
    Trail-crumbs_from before [] hb h = tt
    Trail-crumbs_from before (p ∷ []) hb h = (refl, refl)
    Trail-crumbs_from before (p ∷ q ∷ parts) hb (hp, h) =
        let texts = All-append_one IsStr p before hb hp in
        (
          refl,
          (_, refl, Links-seg_href_of before p texts),
          Trail-crumbs_from (before ++ p ∷ []) (q ∷ parts) texts h,
        )

    -- For a folder whose parts are texts that are not empty and have no slash, the breadcrumb shows
    -- its parts in order, the last one without a link, and the address of the link of each other
    -- one, with its escapes taken back, asks for the folder of the parts up to it.
    pub breadcrumb-folder :
        (p : Bytes) (ps : List Bytes)
        → All IsPart (p ∷ ps)
        → All IsStr (p ∷ ps)
        → Trail [] (p ∷ ps) (breadcrumb bucket (folder (p ∷ ps)))
    breadcrumb-folder p ps h texts =
        rw (segments-folder p ps h) (Trail-crumbs_from [] (p ∷ ps) tt texts)
