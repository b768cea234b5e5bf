-- ===== src/Validators/Date/Calendar.antt =====
-- date.ts: the dates accepted are those of the calendar.
use godel_design.Prelude.{
  ℕ, zero, suc, ◌+◌, ◌-◌, ◌*◌, ◌/◌, ◌%◌, ◌≤◌, ◌<◌, List, ◌∷◌, true, ◌≡◌, refl, ◌↔◌, arith,
}
use godel_design.Validators.Date.{
  UtcDate, month_days, roll, from_day, full_year, date_utc, same_date,
}

-- A day of a month of a year.
pub record IsCalendarDay (year month day : ℕ) : Type 0 where
  pub month_from : 1 ≤ month
  pub month_to : month ≤ 12
  pub day_from : 1 ≤ day
  pub day_to : day ≤ month_days year month

abbrev IsDay : UtcDate → Type 0
IsDay t = IsCalendarDay t.year t.month t.day

pub month_days_bounds : (y m : ℕ) → (28 ≤ month_days y m) × (month_days y m ≤ 31)
unfolding month_days
month_days_bounds y m = ground arith

december : (y : ℕ) → month_days y 12 ≡ 31
unfolding month_days
december y = refl

roll-IsDay : (f y m d : ℕ) → 1 ≤ m → m ≤ 12 → 1 ≤ d → d ≤ 28 * f → IsDay (roll f y m d)
unfolding roll
roll-IsDay zero y m d a b c e = absurd (omega arith)
roll-IsDay (suc f) y m d a b c e = ground (
  arith,
  month_days_bounds y m,
  roll-IsDay f (y + 1) 1 (d - month_days y m),
  roll-IsDay f y (m + 1) (d - month_days y m),
)

-- A day within its month stays.
roll_within :
    (f y m d : ℕ)
    → d ≤ month_days y m
    → roll (suc f) y m d ≡ record { year = y; month = m; day = d }
unfolding roll
roll_within f y m d h = ground arith

roll-year : (f y m d : ℕ) → y ≤ (roll f y m d).year
unfolding roll
roll-year zero y m d = omega arith
roll-year (suc f) y m d =
    ground (
      arith,
      roll-year f (y + 1) 1 (d - month_days y m),
      roll-year f y (m + 1) (d - month_days y m),
    )

from_day-IsDay : (y m d : ℕ) → 1 ≤ m → m ≤ 12 → d ≤ 99 → IsDay (from_day y m d)
unfolding from_day
from_day-IsDay y m d a b c =
    ground (arith, month_days_bounds (y - 1) 12, month_days_bounds y (m - 1), roll-IsDay 4 y m d)

from_day-year : (y m d : ℕ) → y - 1 ≤ (from_day y m d).year
unfolding from_day
from_day-year y m d = ground (arith, roll-year 4 y m d)

-- Up to 99 for the month and the day, `Date.UTC` gives a day of the calendar.
date_utc-IsDay : (y m d : ℕ) → m ≤ 99 → d ≤ 99 → IsDay (date_utc y m d)
unfolding date_utc
date_utc-IsDay y m d a b = ground (
  arith,
  from_day-IsDay (full_year y - 1) 12 d,
  from_day-IsDay (full_year y + (m - 1) / 12) ((m - 1) % 12 + 1) d,
)

-- Of a year up to 99 it gives a year of another century.
date_utc-year : (y m d : ℕ) → y ≤ 99 → 99 < (date_utc y m d).year
unfolding date_utc full_year
date_utc-year y m d a = ground (
  arith,
  from_day-year (full_year y - 1) 12 d,
  from_day-year (full_year y + (m - 1) / 12) ((m - 1) % 12 + 1) d,
)

date_utc_fixed :
    (y m d : ℕ)
    → 100 ≤ y
    → IsCalendarDay y m d
    → date_utc y m d ≡ record { year = y; month = m; day = d }
unfolding date_utc from_day full_year
date_utc_fixed y m d a h = ground (arith, roll_within 3 y m d)

pub same_date_iff :
    (y m d : ℕ) (rest : List ℕ)
    → m ≤ 99
    → d ≤ 99
    → (same_date (y ∷ m ∷ d ∷ rest) ≡ true) ↔ (IsCalendarDay y m d × (100 ≤ y))
unfolding same_date
same_date_iff y m d rest a b =
    ground (arith, date_utc-IsDay y m d, date_utc-year y m d, date_utc_fixed y m d)
