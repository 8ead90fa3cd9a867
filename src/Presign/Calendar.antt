-- ===== src/Presign/Calendar.antt =====
-- The dates of presigned URLs, against the calendar from one day to the next.
pub mod Days
use ferrobucket.Base.{
  ℕ, zero, suc, ◌+◌, ◌-◌, ◌*◌, ◌/◌, ◌%◌, ◌<◌, ◌≤◌, ◌≡◌, ◌⊎◌, inl, inr, refl, ap, sym, subst, ◌∙◌,
  arith, Bool, true, false, not, ◌&&◌, ◌||◌, ◌==◌, ltb, leb, if◌then◌else◌,
}
use ferrobucket.Presign.{Ymd, days_to_ymd}

pub is_leap : ℕ → Bool
is_leap y = (y % 4 == 0 && not (y % 100 == 0)) || y % 400 == 0

pub days_in_month : ℕ → ℕ → ℕ
days_in_month y m =
    if m == 2
    then (if is_leap y then 29 else 28)
    else if m == 4 || m == 6 || m == 9 || m == 11
    then 30
    else 31

-- The day after.
pub next_day : Ymd → Ymd
unfolding days_in_month
next_day (y, m, d) =
    if ltb d (days_in_month y m)
    then (y, m, d + 1)
    else if ltb m 12
    then (y, m + 1, 1)
    else (y + 1, 1, 1)

-- The year of a day in its era of 400 years, which start in March.
abbrev pub yoe_of : ℕ → ℕ
yoe_of doe = (doe - doe / 1460 + doe / 36524 - doe / 146096) / 365

-- The first day of a year of the era.
abbrev pub first_of : ℕ → ℕ
first_of yoe = 365 * yoe + yoe / 4 - yoe / 100

pub yoe_bound : (doe : ℕ) → doe < 146097 → yoe_of doe < 400
yoe_bound doe h = omega arith

pub first_of-yoe_of : (doe : ℕ) → doe < 146097 → first_of (yoe_of doe) ≤ doe
first_of-yoe_of doe h = omega arith

pub before_next : (doe : ℕ) → doe < 146097 → yoe_of doe < 399 → doe < first_of (yoe_of doe + 1)
before_next doe h y = omega arith

pub yoe_mono : (doe : ℕ) → doe + 1 < 146097 → yoe_of doe ≤ yoe_of (doe + 1)
yoe_mono doe h = omega arith

pub yoe-step : (doe : ℕ) → doe + 1 < 146097 → yoe_of (doe + 1) ≤ yoe_of doe + 1
yoe-step doe h = omega arith

-- The date of a day of a year that starts in March.
abbrev pub civil : ℕ → ℕ → Ymd
civil y doy =
    let mp = (5 * doy + 2) / 153 in
    let m = if ltb mp 10 then mp + 3 else mp - 9 in
    ((if leb m 2 then y + 1 else y), m, doy - (153 * mp + 2) / 5 + 1)

-- Within a year, March to February.
pub civil-next :
    (y doy : ℕ)
    → (doy + 1 < 365) ⊎ ((doy + 1 ≡ 365) × (is_leap (y + 1) ≡ true))
    → next_day (civil y doy) ≡ civil y (doy + 1)
unfolding next_day days_in_month
civil-next y doy h = ground arith

-- From the last day of February to the first of March.
pub civil-new_year :
    (y doy : ℕ)
    → ((doy ≡ 364) × (is_leap (y + 1) ≡ false)) ⊎ ((doy ≡ 365) × (is_leap (y + 1) ≡ true))
    → next_day (civil y doy) ≡ civil (y + 1) 0
unfolding next_day days_in_month
civil-new_year y doy h = ground arith

-- The first day of a year is a year's length behind the one before.
first_of-suc :
    (era y : ℕ)
    → y < 399
    → first_of (y + 1) ≡ first_of y + (if is_leap (y + era * 400 + 1) then 366 else 365)
unfolding is_leap
first_of-suc era y h = ground arith

pub is_leap-era : (era : ℕ) → is_leap (399 + era * 400 + 1) ≡ true
unfolding is_leap
is_leap-era era = ground arith

last_or_before : (y : ℕ) → y < 400 → (y < 399) ⊎ (y ≡ 399)
last_or_before y few = ground arith

-- A year has 365 days, and one more if its February is in a leap year.
pub within_year :
    (era doe y : ℕ)
    → doe < 146097
    → y < 400
    → (y < 399 → doe < first_of (y + 1))
    → (doe - first_of y < 365) ⊎ ((doe - first_of y ≡ 365) × (is_leap (y + era * 400 + 1) ≡ true))
within_year era doe y h few before = elim (last_or_before y few) [
  | inl less ↦ ground (arith, before less, first_of-suc era y less)
  | inr last ↦ ground (arith, last, h, is_leap-era era)
]

pub last_day :
    (era doe y : ℕ)
    → y < 399
    → first_of y ≤ doe
    → doe + 1 ≡ first_of (y + 1)
    → ((doe - first_of y ≡ 364) × (is_leap (y + era * 400 + 1) ≡ false))
      ⊎ ((doe - first_of y ≡ 365) × (is_leap (y + era * 400 + 1) ≡ true))
last_day era doe y less here next = ground (arith, first_of-suc era y less)
