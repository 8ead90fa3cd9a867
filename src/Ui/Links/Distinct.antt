-- ===== src/Ui/Links/Distinct.antt =====
-- crates/ui/src/components/pagination_bar.rs: escapes lose nothing.
use ferrobucket.Base.{
  ℕ, ◌/◌, ◌%◌, ◌≡◌, ◌≢◌, ◌<◌, refl, ap, sym, subst, ◌⊎◌, ◌∙◌, true, false, Bool-cases, inl, inr, [],
  ◌∷◌, arith, All,
}
use ferrobucket.Base.Text.{Bytes}
use ferrobucket.Encode.{is_alphanumeric, hex_digit}
use ferrobucket.Ui.Links.{urlencoding_simple, escaped, is_unreserved}

hex_digit_injective : (m n : ℕ) → m < 16 → n < 16 → hex_digit m ≡ hex_digit n → m ≡ n
unfolding hex_digit
hex_digit_injective m n hm hn e = ground arith

true_ne_false : true ≢ false
true_ne_false e = cc

pub percent_reserved : is_unreserved b'%' ≡ false
unfolding is_alphanumeric
percent_reserved = refl

byte_injective :
    (b c : ℕ)
    → b < 256
    → c < 256
    → hex_digit (b / 16) ≡ hex_digit (c / 16)
    → hex_digit (b % 16) ≡ hex_digit (c % 16)
    → b ≡ c
byte_injective b c hb hc high low = omega (
  arith,
  hex_digit_injective (b / 16) (c / 16) (omega arith) (omega arith) high,
  hex_digit_injective (b % 16) (c % 16) (omega arith) (omega arith) low,
)

pub urlencoding_simple-keep :
    (b : ℕ) (s : Bytes)
    → is_unreserved b ≡ true
    → urlencoding_simple (b ∷ s) ≡ b ∷ urlencoding_simple s
unfolding urlencoding_simple
urlencoding_simple-keep b s h = rw h refl

pub urlencoding_simple-escape :
    (b : ℕ) (s : Bytes)
    → is_unreserved b ≡ false
    → urlencoding_simple (b ∷ s) ≡ escaped b (urlencoding_simple s)
unfolding urlencoding_simple
urlencoding_simple-escape b s h = rw h refl

-- What a text that is not empty becomes: its first byte, or an escape of it.
abbrev FirstOf : ℕ → Bytes → Bytes → Type 0
FirstOf b rest out =
    ((is_unreserved b ≡ true) × (out ≡ b ∷ rest))
    ⊎ ((is_unreserved b ≡ false) × (out ≡ escaped b rest))

urlencoding_simple-FirstOf :
    (b : ℕ) (s : Bytes) → FirstOf b (urlencoding_simple s) (urlencoding_simple (b ∷ s))
urlencoding_simple-FirstOf b s = elim (Bool-cases (is_unreserved b)) [
  | inl h ↦ inl (h, urlencoding_simple-keep b s h)
  | inr h ↦ inr (h, urlencoding_simple-escape b s h)
]

FirstOf-not_empty : (b : ℕ) (rest out : Bytes) → FirstOf b rest out → out ≢ []
FirstOf-not_empty b rest out (inl (h, e)) empty = cc
FirstOf-not_empty b rest out (inr (h, e)) empty = cc

kept_ne_escaped :
    (b c : ℕ) (s t out : Bytes) → is_unreserved b ≡ true → out ≡ b ∷ s → out ≢ escaped c t
kept_ne_escaped b c s t out h e e' =
    let percent : b ≡ b'%' = cc in
    true_ne_false (sym h ∙ ap is_unreserved percent ∙ percent_reserved)

FirstOf-injective :
    (b c : ℕ) (s t out : Bytes)
    → b < 256
    → c < 256
    → FirstOf b s out
    → FirstOf c t out
    → (b ≡ c) × (s ≡ t)
FirstOf-injective b c s t out hb hc (inl (h, e)) (inl (k, e')) = (cc, cc)
FirstOf-injective b c s t out hb hc (inl (h, e)) (inr (k, e')) =
    absurd (kept_ne_escaped b c s t out h e e')
FirstOf-injective b c s t out hb hc (inr (h, e)) (inl (k, e')) =
    absurd (kept_ne_escaped c b t s out k e' e)
FirstOf-injective b c s t out hb hc (inr (h, e)) (inr (k, e')) =
    let high : hex_digit (b / 16) ≡ hex_digit (c / 16) = cc in
    let low : hex_digit (b % 16) ≡ hex_digit (c % 16) = cc in
    (byte_injective b c hb hc high low, cc)

-- Two texts of bytes have the same escaped form only if they are the same.
pub urlencoding_simple_injective :
    (s t : Bytes)
    → All (λ b. b < 256) s
    → All (λ b. b < 256) t
    → urlencoding_simple s ≡ urlencoding_simple t
    → s ≡ t
urlencoding_simple_injective [] [] hs ht e = refl
urlencoding_simple_injective [] (c ∷ t) hs ht e = absurd (
    FirstOf-not_empty c _ _ (urlencoding_simple-FirstOf c t)
      (sym e ∙ unfold urlencoding_simple in refl))
urlencoding_simple_injective (b ∷ s) [] hs ht e = absurd (
    FirstOf-not_empty b _ _ (urlencoding_simple-FirstOf b s)
      (e ∙ unfold urlencoding_simple in refl))
urlencoding_simple_injective (b ∷ s) (c ∷ t) (hb, hs) (hc, ht) e =
    let (same, rest) =
      FirstOf-injective b c _ _ _ hb hc (urlencoding_simple-FirstOf b s)
        (subst (FirstOf c (urlencoding_simple t)) (sym e) (urlencoding_simple-FirstOf c t)) in
    rw (same, urlencoding_simple_injective s t hs ht rest) refl
