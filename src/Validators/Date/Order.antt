-- ===== src/Validators/Date/Order.antt =====
-- date.ts: the order of the texts is the order of the days.
use godel_design.Prelude.{
  ℕ, suc, ◌+◌, ◌*◌, ◌/◌, ◌%◌, ◌≤◌, ◌<◌, [], ◌∷◌, true, some, ◌≡◌, ◌≢◌, refl, ◌↔◌, arith,
}
use native.Mathlib.Nat.{mul-le-mul_right}
use godel_design.JsText.{Text}
use godel_design.Validators.Date.{
  text_lt, is_past_date_input_value, validate_optional_future_date, past, valid, invalid,
}
use godel_design.Validators.Date.Calendar.{IsCalendarDay, month_days_bounds}
use godel_design.Validators.Date.Spelling.{
  digit, iso_date, IsIsoDate, is_valid_iso_date_iff, iso_date-valid,
}

mul_mono : (w c d : ℕ) → c < d → c * w + w ≤ d * w
mul_mono w c d h = let k : suc c * w ≤ d * w = mul-le-mul_right w h in omega (arith, k)

-- A numeral in front weighs more than all that follows it.
weigh :
    (w c d x y : ℕ) (s t : Text)
    → x < w
    → y < w
    → (text_lt s t ≡ true) ↔ (x < y)
    → (text_lt ((b'0' + c) ∷ s) ((b'0' + d) ∷ t) ≡ true) ↔ (c * w + x < d * w + y)
unfolding text_lt
weigh w c d x y s t hx hy h = ground (arith, mul_mono w c d, mul_mono w d c)

-- One unit in front of both changes nothing.
text_lt_same : (c : ℕ) (s t : Text) → text_lt (c ∷ s) (c ∷ t) ≡ text_lt s t
unfolding text_lt
text_lt_same c s t = ground arith

-- The days in the order of the calendar.
abbrev pub Earlier : ℕ → ℕ → ℕ → ℕ → ℕ → ℕ → Type 0
Earlier y m d y' m' d' = y * 10000 + m * 100 + d < y' * 10000 + m' * 100 + d'

empty_lt : (text_lt [] [] ≡ true) ↔ (0 < 0)
unfolding text_lt
empty_lt = ground arith

-- The last two digits of the month and of the day.
day_lt :
    (d d' : ℕ)
    → (text_lt (digit (d / 10) ∷ digit d ∷ []) (digit (d' / 10) ∷ digit d' ∷ []) ≡ true)
      ↔ (d / 10 % 10 * 10 + (d % 10 * 1 + 0) < d' / 10 % 10 * 10 + (d' % 10 * 1 + 0))
day_lt d d' =
    weigh 10 (d / 10 % 10) (d' / 10 % 10) (d % 10 * 1 + 0) (d' % 10 * 1 + 0) (digit d ∷ [])
      (digit d' ∷ []) (omega arith) (omega arith)
      (weigh 1 (d % 10) (d' % 10) 0 0 [] [] (omega arith) (omega arith) empty_lt)

month_lt :
    (m m' : ℕ) {x y : ℕ} (s t : Text)
    → (text_lt s t ≡ true) ↔ (x < y)
    → x < 100
    → y < 100
    → (text_lt (digit (m / 10) ∷ digit m ∷ s) (digit (m' / 10) ∷ digit m' ∷ t) ≡ true)
      ↔ (m / 10 % 10 * 1000 + (m % 10 * 100 + x) < m' / 10 % 10 * 1000 + (m' % 10 * 100 + y))
month_lt m m' {x} {y} s t h hx hy =
    weigh 1000 (m / 10 % 10) (m' / 10 % 10) (m % 10 * 100 + x) (m' % 10 * 100 + y) (digit m ∷ s)
      (digit m' ∷ t) (omega arith) (omega arith) (weigh 100 (m % 10) (m' % 10) x y s t hx hy h)

year_low_lt :
    (y y' : ℕ) {p q : ℕ} (s t : Text)
    → (text_lt s t ≡ true) ↔ (p < q)
    → p < 10000
    → q < 10000
    → (text_lt (digit (y / 10) ∷ digit y ∷ s) (digit (y' / 10) ∷ digit y' ∷ t) ≡ true) ↔ (
        y / 10 % 10 * 100000 + (y % 10 * 10000 + p) < y' / 10 % 10 * 100000 + (y' % 10 * 10000 + q))
year_low_lt y y' {p} {q} s t h hp hq =
    weigh 100000 (y / 10 % 10) (y' / 10 % 10) (y % 10 * 10000 + p) (y' % 10 * 10000 + q)
      (digit y ∷ s) (digit y' ∷ t) (omega arith) (omega arith)
      (weigh 10000 (y % 10) (y' % 10) p q s t hp hq h)

year_high_lt :
    (y y' : ℕ) {p q : ℕ} (s t : Text)
    → (text_lt s t ≡ true) ↔ (p < q)
    → p < 1000000
    → q < 1000000
    → (text_lt (digit (y / 1000) ∷ digit (y / 100) ∷ s) (digit (y' / 1000) ∷ digit (y' / 100) ∷ t)
        ≡ true)
      ↔ (y / 1000 % 10 * 10000000 + (y / 100 % 10 * 1000000 + p)
          < y' / 1000 % 10 * 10000000 + (y' / 100 % 10 * 1000000 + q))
year_high_lt y y' {p} {q} s t h hp hq =
    weigh 10000000 (y / 1000 % 10) (y' / 1000 % 10) (y / 100 % 10 * 1000000 + p)
      (y' / 100 % 10 * 1000000 + q) (digit (y / 100) ∷ s) (digit (y' / 100) ∷ t) (omega arith)
      (omega arith) (weigh 1000000 (y / 100 % 10) (y' / 100 % 10) p q s t hp hq h)

-- A date as one number, digit by digit.
abbrev weight : ℕ → ℕ → ℕ → ℕ
weight y m d =
    y / 1000 % 10 * 10000000
    + (y / 100 % 10 * 1000000
        + (y / 10 % 10 * 100000
            + (y % 10 * 10000
                + (m / 10 % 10 * 1000 + (m % 10 * 100 + (d / 10 % 10 * 10 + (d % 10 * 1 + 0)))))))

dash_lt :
    {x y : ℕ} (s t : Text)
    → (text_lt s t ≡ true) ↔ (x < y)
    → (text_lt (b'-' ∷ s) (b'-' ∷ t) ≡ true) ↔ (x < y)
dash_lt s t h = rw (text_lt_same b'-' s t) h

text_lt-weight :
    (y m d y' m' d' : ℕ)
    → (text_lt (iso_date y m d) (iso_date y' m' d') ≡ true) ↔ (weight y m d < weight y' m' d')
text_lt-weight y m d y' m' d' =
    let days = dash_lt _ _ (day_lt d d') in
    let months = dash_lt _ _ (month_lt m m' _ _ days (omega arith) (omega arith)) in
    let low = year_low_lt y y' _ _ months (omega arith) (omega arith) in
    year_high_lt y y' _ _ low (omega arith) (omega arith)

weight_lem : (y m d : ℕ) → y ≤ 9999 → m ≤ 99 → d ≤ 99 → weight y m d ≡ y * 10000 + m * 100 + d
weight_lem y m d a b c = omega arith

text_lt_iff :
    (y m d y' m' d' : ℕ)
    → IsCalendarDay y m d
    → IsCalendarDay y' m' d'
    → y ≤ 9999
    → y' ≤ 9999
    → (text_lt (iso_date y m d) (iso_date y' m' d') ≡ true) ↔ Earlier y m d y' m' d'
text_lt_iff y m d y' m' d' c c' a a' =
    let e = weight_lem y m d a (omega arith) (omega (arith, month_days_bounds y m)) in
    let e' = weight_lem y' m' d' a' (omega arith) (omega (arith, month_days_bounds y' m')) in
    rw (← e, ← e') (text_lt-weight y m d y' m' d')

-- The text that is not empty and spells no date of the calendar is `invalid`, and no other text is,
-- whatever day today is.
validate-invalid_iff :
    (s today : Text)
    → (validate_optional_future_date (some s) today ≡ invalid) ↔ ((s ≢ []) × ¬ IsIsoDate s)
unfolding validate_optional_future_date
validate-invalid_iff [] today = ((λ e. cc), λ h. absurd (h.0 refl))
validate-invalid_iff (c ∷ s) today = ground (arith, is_valid_iso_date_iff (c ∷ s))

-- A day of the calendar, written as the field sends it, is `past` exactly when it comes before the
-- day of today, and `valid` exactly when it does not.
validate-past_iff :
    (y m d y' m' d' : ℕ)
    → IsCalendarDay y m d
    → IsCalendarDay y' m' d'
    → 100 ≤ y
    → y ≤ 9999
    → y' ≤ 9999
    → let answer = validate_optional_future_date (some (iso_date y m d)) (iso_date y' m' d') in
      ((answer ≡ past) ↔ Earlier y m d y' m' d') × ((answer ≡ valid) ↔ ¬ Earlier y m d y' m' d')
unfolding validate_optional_future_date is_past_date_input_value
validate-past_iff y m d y' m' d' c c' lo hi hi' =
    ground (arith, text_lt_iff y m d y' m' d', iso_date-valid y m d c lo hi)
