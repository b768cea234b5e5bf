-- ===== src/Validators/Date/Spelling.antt =====
-- date.ts: the texts that are accepted, against the calendar and the digits of a date.
use godel_design.Prelude.{
  ℕ, ◌+◌, ◌-◌, ◌*◌, ◌/◌, ◌%◌, ◌≤◌, [], ◌∷◌, true, map, ◌≡◌, refl, ◌↔◌, arith, and-eq-true, subst,
  ◌∙◌,
}
use godel_design.JsText.{Text, split, push_head}
use godel_design.Validators.Date.{decimal, matches_iso, is_valid_iso_date}
use godel_design.Validators.Date.Calendar.{IsCalendarDay, month_days_bounds, same_date_iff}

abbrev pub digit : ℕ → ℕ
digit n = b'0' + n % 10

-- A date as ten units.
abbrev pub iso_date : ℕ → ℕ → ℕ → Text
iso_date y m d =
    digit (y / 1000)
    ∷ digit (y / 100)
    ∷ digit (y / 10)
    ∷ digit y
    ∷ b'-'
    ∷ digit (m / 10)
    ∷ digit m
    ∷ b'-'
    ∷ digit (d / 10)
    ∷ digit d
    ∷ []

IsDigit : ℕ → Type 0
IsDigit c = (b'0' ≤ c) × (c ≤ b'9')

split_digit : (c : ℕ) (s : Text) → b'0' ≤ c → split b'-' (c ∷ s) ≡ push_head c (split b'-' s)
unfolding split
split_digit c s h = ground arith

split_dash : (s : Text) → split b'-' (b'-' ∷ s) ≡ [] ∷ split b'-' s
unfolding split
split_dash s = refl

split_end : split b'-' [] ≡ [] ∷ []
unfolding split
split_end = refl

-- The three numbers that a text of the pattern spells.
module _ (y e a r m o d t : ℕ) where
  abbrev units : Text
  units = y ∷ e ∷ a ∷ r ∷ b'-' ∷ m ∷ o ∷ b'-' ∷ d ∷ t ∷ []

  abbrev year : ℕ
  year = (((0 * 10 + (y - b'0')) * 10 + (e - b'0')) * 10 + (a - b'0')) * 10 + (r - b'0')

  abbrev month : ℕ
  month = (0 * 10 + (m - b'0')) * 10 + (o - b'0')

  abbrev day : ℕ
  day = (0 * 10 + (d - b'0')) * 10 + (t - b'0')

  abbrev AreDigits : Type 0
  AreDigits =
      ((b'0' ≤ y) × (y ≤ b'9'))
      × ((b'0' ≤ e) × (e ≤ b'9'))
      × ((b'0' ≤ a) × (a ≤ b'9'))
      × ((b'0' ≤ r) × (r ≤ b'9'))
      × ((b'0' ≤ m) × (m ≤ b'9'))
      × ((b'0' ≤ o) × (o ≤ b'9'))
      × ((b'0' ≤ d) × (d ≤ b'9'))
      × ((b'0' ≤ t) × (t ≤ b'9'))

  matches_units : matches_iso units ≡ true → AreDigits
  unfolding matches_iso
  matches_units h = ground arith

  units_match : AreDigits → matches_iso units ≡ true
  unfolding matches_iso
  units_match h = ground arith

  fields : AreDigits → map (decimal 0) (split b'-' units) ≡ year ∷ month ∷ day ∷ []
  unfolding decimal
  fields (hy, he, ha, hr, hm, ho, hd, ht) = rw (
    split_digit y _ hy.0,
    split_digit e _ he.0,
    split_digit a _ ha.0,
    split_digit r _ hr.0,
    split_dash,
    split_digit m _ hm.0,
    split_digit o _ ho.0,
    split_dash,
    split_digit d _ hd.0,
    split_digit t _ ht.0,
    split_end,
  )

  valid_units :
      is_valid_iso_date units ≡ true → AreDigits × IsCalendarDay year month day × (100 ≤ year)
  unfolding is_valid_iso_date
  valid_units h =
      let (p, q) = and-eq-true _ _ h in
      let digits = matches_units p in
      let (c, z) =
        (same_date_iff year month day [] (omega arith) (omega arith)).0 (rw (fields digits) at q) in
      (digits, c, z)

  units_valid :
      AreDigits → IsCalendarDay year month day → 100 ≤ year → is_valid_iso_date units ≡ true
  unfolding is_valid_iso_date
  units_valid digits c z =
      rw (units_match digits, fields digits)
        ((same_date_iff year month day [] (omega arith) (omega arith)).1 (c, z))

-- A text of the pattern is made of eight units and two dashes.
record Spelt (s : Text) : Type 0 where
  y : ℕ
  e : ℕ
  a : ℕ
  r : ℕ
  m : ℕ
  o : ℕ
  d : ℕ
  t : ℕ
  same : s ≡ units y e a r m o d t

spelt : (s : Text) → matches_iso s ≡ true → Spelt s
unfolding matches_iso
spelt (y ∷ e ∷ a ∷ r ∷ p ∷ m ∷ o ∷ q ∷ d ∷ t ∷ []) h = record {
  y = y;
  e = e;
  a = a;
  r = r;
  m = m;
  o = o;
  d = d;
  t = t;
  same = ground arith;
}
spelt _ h = cc

pub IsIsoDate : Text → Type 0
IsIsoDate s =
    (y : ℕ) × (m : ℕ) × (d : ℕ) × IsCalendarDay y m d
    × (100 ≤ y)
    × (y ≤ 9999)
    × (s ≡ iso_date y m d)

spelling :
    (y e a r m o d t : ℕ)
    → AreDigits y e a r m o d t
    → units y e a r m o d t
      ≡ iso_date (year y e a r m o d t) (month y e a r m o d t) (day y e a r m o d t)
spelling y e a r m o d t h = ground arith

iso_date-digits :
    (y m d : ℕ)
    → AreDigits
        (digit (y / 1000))
        (digit (y / 100))
        (digit (y / 10))
        (digit y)
        (digit (m / 10))
        (digit m)
        (digit (d / 10))
        (digit d)
iso_date-digits y m d = omega arith

from_units : (s : Text) → is_valid_iso_date s ≡ true → Spelt s → IsIsoDate s
unfolding IsIsoDate
from_units s h found =
    let (digits, c, lo) =
      valid_units y e a r m o d t (subst (λ x. is_valid_iso_date x ≡ true) same h) in
    (
      year y e a r m o d t,
      month y e a r m o d t,
      day y e a r m o d t,
      c,
      lo,
      omega arith,
      same ∙ spelling y e a r m o d t digits,
    )
  where
    open found use {y, e, a, r, m, o, d, t, same}

valid-IsIsoDate : (s : Text) → is_valid_iso_date s ≡ true → IsIsoDate s
unfolding is_valid_iso_date
valid-IsIsoDate s h = from_units s h (spelt s (and-eq-true (matches_iso s) _ h).0)

-- The digits of a number give it back.
four_digits :
    (y : ℕ)
    → y ≤ 9999
    → (((0 * 10 + (digit (y / 1000) - b'0')) * 10 + (digit (y / 100) - b'0')) * 10
            + (digit (y / 10) - b'0'))
          * 10
        + (digit y - b'0')
      ≡ y
four_digits y h = omega arith

two_digits : (m : ℕ) → m ≤ 99 → (0 * 10 + (digit (m / 10) - b'0')) * 10 + (digit m - b'0') ≡ m
two_digits m h = omega arith

pub iso_date-valid :
    (y m d : ℕ)
    → IsCalendarDay y m d
    → 100 ≤ y
    → y ≤ 9999
    → is_valid_iso_date (iso_date y m d) ≡ true
iso_date-valid y m d c lo hi =
    let ey = four_digits y hi in
    let em = two_digits m (omega arith) in
    let ed = two_digits d (omega (arith, month_days_bounds y m)) in
    units_valid (digit (y / 1000)) (digit (y / 100)) (digit (y / 10)) (digit y) (digit (m / 10))
      (digit m) (digit (d / 10)) (digit d) (iso_date-digits y m d) (rw (ey, em, ed) c) (rw ey lo)

-- The texts that are accepted are exactly the dates of the calendar from the year 100 to the year
-- 9999, written with four, two and two digits.
pub is_valid_iso_date_iff : (s : Text) → (is_valid_iso_date s ≡ true) ↔ IsIsoDate s
unfolding IsIsoDate
is_valid_iso_date_iff s =
    (valid-IsIsoDate s, λ (y, m, d, c, lo, hi, same). rw same (iso_date-valid y m d c lo hi))
