-- ===== src/Tests/Validators.antt =====
-- Form input: texts, ids and dates.
use godel_design.Prelude.{true, false, ◌≡◌, ◌↔◌, refl}
use godel_design.JsText.{Text, codes, split}
use godel_design.Validators.Form.{
  str, normalize_single_line_text, normalize_multiline_text, is_basic_email,
}
use godel_design.Validators.Date.{
  is_valid_iso_date, matches_iso, decimal, same_date, date_utc, from_day, full_year, roll,
  month_days,
}
use godel_design.Validators.Date.Spelling.{IsIsoDate, is_valid_iso_date_iff}

tidied : normalize_single_line_text (str (codes "  a\t\n b  c ")) ≡ codes "a b c"
unfolding normalize_single_line_text
tidied = refl

lines : normalize_multiline_text (str (codes " a  b \r\n\r c\t\td ")) ≡ codes "a b\n\nc d"
unfolding normalize_multiline_text
lines = refl

emails :
    (is_basic_email (codes "ana@taller.cu") ≡ true)
    × (is_basic_email (codes "ana@.cu") ≡ false)
    × (is_basic_email (codes "a@b@c.d") ≡ false)
unfolding is_basic_email
emails = (refl, refl, refl)

abbrev an_id : Text
an_id = codes "3f2504e0-4f89-41d3-9a0c-0305e82c3301"

leap_days :
    (is_valid_iso_date (codes "2024-02-29") ≡ true)
    × (is_valid_iso_date (codes "2023-02-29") ≡ false)
    × (is_valid_iso_date (codes "2024-13-01") ≡ false)
unfolding is_valid_iso_date matches_iso decimal split same_date date_utc from_day full_year roll
    month_days
leap_days = (refl, refl, refl)

is_valid_iso_date_iff_example :
    (is_valid_iso_date (codes "2026-08-11") ≡ true) ↔ IsIsoDate (codes "2026-08-11")
is_valid_iso_date_iff_example = is_valid_iso_date_iff (codes "2026-08-11")
