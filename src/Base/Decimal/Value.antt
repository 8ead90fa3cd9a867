-- ===== src/Base/Decimal/Value.antt =====
-- The value of a decimal text: the digits of a number are enough, and give the number back.
use Prim.Native.Nat.{ℕ, zero, suc, ◌+◌, ◌-◌, ◌*◌, ◌/◌, ◌%◌, ◌≤◌, ◌<◌}
use mathlib.Core.Path.{◌≡◌, refl, sym, ap, ◌∙◌}
use mathlib.Core.Logic.{◌≢◌, inl, inr}
use mathlib.Core.Bool.{true, false}
use mathlib.Core.List.{[], ◌∷◌}
use native.Mathlib.Omega.{arith}
use ferrobucket.Base.Tests.{ltb, ltb→lt, Bool-cases}
use ferrobucket.Base.Lists.{All}
use ferrobucket.Base.Text.{Bytes}
use ferrobucket.Base.Decimal.{digits, show}

unfoldable pub value : ℕ → Bytes → ℕ
value a [] = a
value a (c ∷ s) = value (a * 10 + (c - b'0')) s

digits-last :
    (fuel n : ℕ) (out : Bytes) → ltb n 10 ≡ true → digits (suc fuel) n out ≡ (b'0' + n) ∷ out
unfolding digits
digits-last fuel n out h = ground arith

digits-more :
    (fuel n : ℕ) (out : Bytes)
    → ltb n 10 ≡ false
    → digits (suc fuel) n out ≡ digits fuel (n / 10) ((b'0' + n % 10) ∷ out)
unfolding digits
digits-more fuel n out h = ground arith

value-digits : (fuel n : ℕ) (out : Bytes) → n < fuel → value 0 (digits fuel n out) ≡ value n out
unfolding value
value-digits zero n out h = absurd (omega arith)
value-digits (suc fuel) n out h = elim (Bool-cases (ltb n 10)) [
  | inl small ↦ rw (digits-last fuel n out small) (ap (λ x. value x out) (omega arith))
  | inr large ↦ rw (digits-more fuel n out large) (
      value-digits fuel (n / 10) ((b'0' + n % 10) ∷ out) (ground arith)
      ∙ ap (λ x. value x out) (omega arith))
]

-- The text of a number has the number as its value.
pub value-show : (n : ℕ) → value 0 (show n) ≡ n
unfolding show
value-show n = value-digits (suc n) n [] (omega arith) ∙ unfold value in refl

pub show_injective : (m n : ℕ) → show m ≡ show n → m ≡ n
show_injective m n e = sym (value-show m) ∙ ap (value 0) e ∙ value-show n

abbrev pub IsDigit : ℕ → Type 0
IsDigit c = (b'0' ≤ c) × (c ≤ b'9')

All-digits : (fuel n : ℕ) (out : Bytes) → All IsDigit out → All IsDigit (digits fuel n out)
unfolding digits
All-digits zero n out h = h
All-digits (suc fuel) n out h = elim (Bool-cases (ltb n 10)) [
  | inl small ↦
      rw (digits-last fuel n out small) ((omega arith, omega (arith, ltb→lt n 10 small)), h)
  | inr large ↦
      rw (digits-more fuel n out large)
        (All-digits fuel (n / 10) ((b'0' + n % 10) ∷ out) ((omega arith, omega arith), h))
]

pub All-show : (n : ℕ) → All IsDigit (show n)
unfolding show
All-show n = All-digits (suc n) n [] tt

digits-ne-nil : (fuel n c : ℕ) (out : Bytes) → digits fuel n (c ∷ out) ≢ []
unfolding digits
digits-ne-nil zero n c out e = cc
digits-ne-nil (suc fuel) n c out e = elim (Bool-cases (ltb n 10)) [
  | inl small ↦ cc (e, digits-last fuel n (c ∷ out) small)
  | inr large ↦
      digits-ne-nil fuel (n / 10) (b'0' + n % 10) (c ∷ out)
        (sym (digits-more fuel n (c ∷ out) large) ∙ e)
]

pub show-ne-nil : (n : ℕ) → show n ≢ []
unfolding show
show-ne-nil n e = elim (Bool-cases (ltb n 10)) [
  | inl small ↦ cc (e, digits-last n n [] small)
  | inr large ↦ digits-ne-nil n (n / 10) (b'0' + n % 10) [] (sym (digits-more n n [] large) ∙ e)
]
