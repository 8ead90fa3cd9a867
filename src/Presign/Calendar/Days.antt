-- ===== src/Presign/Calendar/Days.antt =====
-- The dates of presigned URLs, counted day by day.
use ferrobucket.Base.{
  ℕ, zero, suc, ◌+◌, ◌-◌, ◌*◌, ◌/◌, ◌%◌, ◌<◌, ◌≤◌, ◌≡◌, ◌⊎◌, inl, inr, refl, ap, sym, subst, ◌∙◌,
  arith, true,
}
use ferrobucket.Presign.{Ymd, days_to_ymd}
use ferrobucket.Presign.Calendar.{
  next_day, yoe_of, first_of, yoe_bound, first_of-yoe_of, before_next, yoe_mono, yoe-step, civil,
  civil-next, civil-new_year, is_leap-era, within_year, last_day, is_leap,
}

-- The date of a day of an era.
abbrev date_of : ℕ → ℕ → Ymd
date_of era doe = civil (yoe_of doe + era * 400) (doe - first_of (yoe_of doe))

same_or_next : (a b : ℕ) → a ≤ b → b ≤ a + 1 → (b ≡ a) ⊎ (b ≡ a + 1)
same_or_next a b h k = ground arith

same_date : {y y' d d' : ℕ} → y ≡ y' → d ≡ d' → civil y d ≡ civil y' d'
same_date {y} {y'} {d} {d'} p q = ap (λ x. civil x d) p ∙ ap (civil y') q

one_more : (doe f : ℕ) → f ≤ doe → doe + 1 - f ≡ doe - f + 1
one_more doe f h = omega arith

stays_within :
    (era doe y : ℕ)
    → first_of y ≤ doe
    → (doe + 1 - first_of y < 365)
      ⊎ ((doe + 1 - first_of y ≡ 365) × (is_leap (y + era * 400 + 1) ≡ true))
    → (doe - first_of y + 1 < 365)
      ⊎ ((doe - first_of y + 1 ≡ 365) × (is_leap (y + era * 400 + 1) ≡ true))
stays_within era doe y here (inl less) = inl (omega (arith, less, here))
stays_within era doe y here (inr (last, leap)) = inr (omega (arith, last, here), leap)

-- The next day in the same year, and the next day in the next one.
date-same_year :
    (era doe y y' : ℕ)
    → doe + 1 < 146097
    → y < 400
    → first_of y ≤ doe
    → (y' < 399 → doe + 1 < first_of (y' + 1))
    → y' ≡ y
    → civil (y' + era * 400) (doe + 1 - first_of y')
      ≡ next_day (civil (y + era * 400) (doe - first_of y))
date-same_year era doe y y' h few here before same =
    same_date (ap (λ x. x + era * 400) same)
      (ap (λ x. doe + 1 - first_of x) same ∙ one_more doe (first_of y) here)
    ∙ sym (
        civil-next (y + era * 400) (doe - first_of y) (
          stays_within era doe y here (
            within_year era (doe + 1) y h few
              (subst (λ x. x < 399 → doe + 1 < first_of (x + 1)) same before))))

date-next_year :
    (era doe y y' : ℕ)
    → y' < 400
    → first_of y ≤ doe
    → first_of y' ≤ doe + 1
    → (y < 399 → doe < first_of (y + 1))
    → y' ≡ y + 1
    → civil (y' + era * 400) (doe + 1 - first_of y')
      ≡ next_day (civil (y + era * 400) (doe - first_of y))
date-next_year era doe y y' few here there before next =
    let less : y < 399 = omega (arith, few, next) in
    let there' : first_of (y + 1) ≤ doe + 1 = subst (λ x. first_of x ≤ doe + 1) next there in
    let at : doe + 1 ≡ first_of (y + 1) = omega (arith, before less, there') in
    same_date (omega (arith, next)) (
      ap (λ x. doe + 1 - first_of x) next
      ∙ ap (λ x. x - first_of (y + 1)) at
      ∙ nothing_left (first_of (y + 1)))
    ∙ sym (civil-new_year (y + era * 400) (doe - first_of y) (last_day era doe y less here at))
  where
    nothing_left : (f : ℕ) → f - f ≡ 0
    nothing_left f = omega arith

-- One day on, within an era.
date_of-suc : (era doe : ℕ) → doe + 1 < 146097 → date_of era (doe + 1) ≡ next_day (date_of era doe)
date_of-suc era doe h =
    let now : doe < 146097 = omega (arith, h) in
    elim (same_or_next (yoe_of doe) (yoe_of (doe + 1)) (yoe_mono doe h) (yoe-step doe h)) [
      | inl same ↦
          date-same_year era doe (yoe_of doe) (yoe_of (doe + 1)) h (yoe_bound doe now)
            (first_of-yoe_of doe now) (before_next (doe + 1) h) same
      | inr next ↦
          date-next_year era doe (yoe_of doe) (yoe_of (doe + 1)) (yoe_bound (doe + 1) h)
            (first_of-yoe_of doe now) (first_of-yoe_of (doe + 1) h) (before_next doe now) next
    ]

-- From the last day of an era to the first of the next.
date_of-era : (era : ℕ) → date_of (era + 1) 0 ≡ next_day (date_of era 146096)
date_of-era era =
    same_date {y' = 399 + era * 400 + 1} {d = 0} {d' = 0} (omega arith) refl
    ∙ sym (civil-new_year (399 + era * 400) 365 (inr (refl, is_leap-era era)))

days_to_ymd-date_of :
    (days : ℕ) → days_to_ymd days ≡ date_of ((days + 719468) / 146097) ((days + 719468) % 146097)
unfolding days_to_ymd
days_to_ymd-date_of days = refl

next_in_era :
    (z : ℕ)
    → ((z % 146097 + 1 < 146097)
        × ((z + 1) / 146097 ≡ z / 146097)
        × ((z + 1) % 146097 ≡ z % 146097 + 1))
      ⊎ ((z % 146097 ≡ 146096) × ((z + 1) / 146097 ≡ z / 146097 + 1) × ((z + 1) % 146097 ≡ 0))
next_in_era z = ground arith

date_of-step :
    (z : ℕ)
    → date_of ((z + 1) / 146097) ((z + 1) % 146097) ≡ next_day (date_of (z / 146097) (z % 146097))
date_of-step z = elim (next_in_era z) [
  | inl (h, same, next) ↦
      ap (λ e. date_of e ((z + 1) % 146097)) same
      ∙ ap (date_of (z / 146097)) next
      ∙ date_of-suc (z / 146097) (z % 146097) h
  | inr (last, next, first) ↦
      ap (λ e. date_of e ((z + 1) % 146097)) next
      ∙ ap (date_of (z / 146097 + 1)) first
      ∙ date_of-era (z / 146097)
      ∙ ap (λ d. next_day (date_of (z / 146097) d)) (sym last)
]

days_to_ymd-next : (days : ℕ) → days_to_ymd (days + 1) ≡ next_day (days_to_ymd days)
days_to_ymd-next days =
    days_to_ymd-date_of (days + 1)
    ∙ ap (λ z. date_of (z / 146097) (z % 146097)) (omega arith)
    ∙ date_of-step (days + 719468)
    ∙ ap next_day (sym (days_to_ymd-date_of days))

-- The day that many days after the epoch, counted day by day.
pub day_after_epoch : ℕ → Ymd
unfolding next_day
day_after_epoch zero = (1970, 1, 1)
day_after_epoch (suc days) = next_day (day_after_epoch days)

-- The date computed for a number of days since the epoch is the date that the Gregorian calendar
-- reaches by that many days, counted one by one from 1 January 1970.
pub days_to_ymd-day_after_epoch : (days : ℕ) → days_to_ymd days ≡ day_after_epoch days
days_to_ymd-day_after_epoch zero = unfold days_to_ymd day_after_epoch in refl
days_to_ymd-day_after_epoch (suc days) =
    ap days_to_ymd (omega arith)
    ∙ days_to_ymd-next days
    ∙ ap next_day (days_to_ymd-day_after_epoch days)
    ∙ unfold day_after_epoch in refl
