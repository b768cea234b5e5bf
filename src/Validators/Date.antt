-- ===== src/Validators/Date.antt =====
-- src/lib/validators/date.ts: dates as the input fields send them, `yyyy-mm-dd`. The day of today
-- is an argument, since the code reads it from the clock in the time zone of the shop.
pub mod Calendar
pub mod Spelling
pub mod Order
use godel_design.Prelude.{
  ℕ, zero, suc, ◌+◌, ◌-◌, ◌*◌, ◌/◌, ◌%◌, List, [], ◌∷◌, Bool, true, false, ◌&&◌, ◌||◌, not, ltb,
  leb, ◌==◌, if◌then◌else◌, Option, some, none, map, is_empty,
}
use godel_design.JsText.{Text, is_digit, split}

-- `Number` of a text of digits.
unfoldable pub decimal : ℕ → Text → ℕ
decimal acc [] = acc
decimal acc (c ∷ s) = decimal (acc * 10 + (c - b'0')) s

-- `ISO_DATE_PATTERN`: four digits, a dash, two digits, a dash, two digits.
unfoldable pub matches_iso : Text → Bool
unfolding is_digit
matches_iso (y ∷ e ∷ a ∷ r ∷ p ∷ m ∷ o ∷ q ∷ d ∷ t ∷ []) =
    is_digit y
    && is_digit e
    && is_digit a
    && is_digit r
    && p == b'-'
    && is_digit m
    && is_digit o
    && q == b'-'
    && is_digit d
    && is_digit t
matches_iso _ = false

pub record UtcDate : Type 0 where
  pub year : ℕ
  pub month : ℕ
  pub day : ℕ

unfoldable pub is_leap : ℕ → Bool
is_leap y = (y % 4 == 0) && (not (y % 100 == 0) || y % 400 == 0)

unfoldable pub month_days : ℕ → ℕ → ℕ
unfolding is_leap
month_days y m =
    if m == 2
    then (if is_leap y then 29 else 28)
    else if m == 4 || m == 6 || m == 9 || m == 11
    then 30
    else 31

-- A day past the end of its month falls in the next months; each round takes one month off.
unfoldable pub roll : ℕ → ℕ → ℕ → ℕ → UtcDate
roll zero y m d = record { year = y; month = m; day = d }
roll (suc fuel) y m d =
    let next_year = roll fuel (y + 1) 1 (d - month_days y m) in
    let next_month = roll fuel y (m + 1) (d - month_days y m) in
    if leb d (month_days y m)
    then record { year = y; month = m; day = d }
    else if m == 12
    then next_year
    else next_month

-- Day 0 is the last day of the month before. Two digits pass the end of a month by fewer than four
-- months.
unfoldable pub from_day : ℕ → ℕ → ℕ → UtcDate
from_day y m day =
    if day == 0
    then (if m == 1
        then record { year = y - 1; month = 12; day = month_days (y - 1) 12 }
        else record { year = y; month = m - 1; day = month_days y (m - 1) })
    else roll 4 y m day

-- A year up to 99 is one of the twentieth century.
unfoldable pub full_year : ℕ → ℕ
full_year year = if leb year 99 then 1900 + year else year

-- `new Date(Date.UTC(year, month - 1, day))` as its UTC fields, with the month from 1. A month or a
-- day out of range moves on or back.
unfoldable pub date_utc : ℕ → ℕ → ℕ → UtcDate
date_utc year month day =
    if month == 0
    then from_day (full_year year - 1) 12 day
    else from_day (full_year year + (month - 1) / 12) ((month - 1) % 12 + 1) day

-- The date that the text spells comes back from the calendar unchanged.
unfoldable pub same_date : List ℕ → Bool
same_date (year ∷ month ∷ day ∷ _) =
    let date = date_utc year month day in
    date.year == year && date.month == month && date.day == day
same_date _ = false

unfoldable pub is_valid_iso_date : Text → Bool
is_valid_iso_date value = matches_iso value && same_date (map (decimal 0) (split b'-' value))

-- `<` of strings, unit by unit.
unfoldable pub text_lt : Text → Text → Bool
text_lt s [] = false
text_lt [] (d ∷ t) = true
text_lt (c ∷ s) (d ∷ t) = ltb c d || (c == d && text_lt s t)

unfoldable pub is_past_date_input_value : Text → Text → Bool
is_past_date_input_value value today = is_valid_iso_date value && text_lt value today

pub data FutureDateResult : Type 0 where
  valid empty invalid past : FutureDateResult

-- `null` and the empty text are both falsy.
unfoldable pub validate_optional_future_date : Option Text → Text → FutureDateResult
validate_optional_future_date none today = empty
validate_optional_future_date (some value) today =
    if is_empty value
    then empty
    else if not (is_valid_iso_date value)
    then invalid
    else if is_past_date_input_value value today
    then past
    else valid
