-- ===== src/Pagination/Bounds.antt =====
-- pagination.ts: the range of a page, and the values that come out of normalising.
use godel_design.Prelude.{
  ℕ, ◌+◌, ◌-◌, ◌*◌, ◌≤◌, ◌<◌, ltb, ltb→lt, ◌≡◌, ◌⊎◌, arith, inl, inr, Bool-cases, Option, some,
  none,
}
use godel_design.JsNumber.{
  Number, nan, infinite, finite, trunc, round_double, is_digits, digits_value, to_number,
}
use godel_design.JsText.{trim}
use godel_design.JsNumber.Rounding.{round_double_exact, round_double_large}
use godel_design.Pagination.{
  PageParam, absent, number, text, PaginationRange, normalize_positive_integer,
  normalize_page_param, normalize_page_size, normalize_total_count, safe_range, range_of,
  get_pagination_range,
}

normalize_positive_integer_bounds :
    (value : Number) (fallback : ℕ)
    → fallback ≤ 1
    → (fallback ≤ normalize_positive_integer value fallback)
      × (normalize_positive_integer value fallback ≤ 9007199254740991)
unfolding normalize_positive_integer
normalize_positive_integer_bounds nan fallback h = (omega arith, omega arith)
normalize_positive_integer_bounds (infinite negative) fallback h = (omega arith, omega arith)
normalize_positive_integer_bounds (finite negative whole fraction) fallback h =
    (ground arith, ground arith)

pub normalize_page_param_bounds :
    (page : PageParam)
    → (1 ≤ normalize_page_param page) × (normalize_page_param page ≤ 9007199254740991)
unfolding normalize_page_param
normalize_page_param_bounds absent = (omega arith, omega arith)
normalize_page_param_bounds (number value) = normalize_positive_integer_bounds value 1 (omega arith)
normalize_page_param_bounds (text value) = elim (Bool-cases (is_digits (trim value))) [
  | inl e ↦
      rw e (
        normalize_positive_integer_bounds (to_number (digits_value 0 (trim value))) 1 (omega arith))
  | inr e ↦ rw e (omega arith, omega arith)
]

pub normalize_page_size_bounds :
    (size : Number) → (1 ≤ normalize_page_size size) × (normalize_page_size size ≤ 9007199254740991)
unfolding normalize_page_size
normalize_page_size_bounds size = normalize_positive_integer_bounds (trunc size) 1 (omega arith)

pub normalize_total_count_bounds :
    (total : Option Number) → normalize_total_count total ≤ 9007199254740991
unfolding normalize_total_count
normalize_total_count_bounds none = omega arith
normalize_total_count_bounds (some total) =
    (normalize_positive_integer_bounds total 0 (omega arith)).1

-- What rounding makes of a number.
abbrev Rounded : ℕ → ℕ → Type 0
Rounded n r = ((n < 9007199254740992) × (r ≡ n)) ⊎ ((9007199254740992 ≤ n) × (9007199254740992 ≤ r))

pub rounded : (n : ℕ) → Rounded n (round_double n)
rounded n = elim (Bool-cases (ltb n 9007199254740992)) [
  | inl e ↦ let small = ltb→lt n 9007199254740992 e in inl (small, round_double_exact n small)
  | inr e ↦
      let large : 9007199254740992 ≤ n = ground arith in inr (large, round_double_large n large)
]

-- The rows of a page behind `before` rows of earlier pages: as many as its size, from the next one
-- on, or those of the first page where their numbers would not be safe integers.
pub record IsRange (before size : ℕ) (r : PaginationRange) : Type 0 where
  pub ordered : r.first ≤ r.last
  pub safe : r.last ≤ 9007199254740991
  pub width : r.last + 1 ≤ r.first + size
  pub placed : before + size < 9007199254740992 → r.first ≡ before
  pub full : before + size < 9007199254740992 → r.last + 1 ≡ before + size
  pub otherwise : (r.first ≡ before) ⊎ ((r.first ≡ 0) × (r.last + 1 ≡ size))

safe_range-IsRange :
    (before size offset sum : ℕ)
    → 1 ≤ size
    → size ≤ 9007199254740991
    → Rounded before offset
    → Rounded (offset + size) sum
    → IsRange before size (safe_range offset (sum - 1) size)
safe_range-IsRange before size offset sum h k r q = record {
  ordered = ground arith;
  safe = ground arith;
  width = ground arith;
  placed = λ below. ground arith;
  full = λ below. ground arith;
  otherwise = ground arith;
}

-- Whatever page and size are asked for, the range is ordered, its end is a safe integer, and it has
-- at most as many rows as the size; as long as the numbers are safe it has all the rows of the page,
-- and otherwise it starts where the page does or is the first page.
pub get_pagination_range-IsRange :
    (page : PageParam) (page_size : Number)
    → IsRange
        ((normalize_page_param page - 1) * normalize_page_size page_size)
        (normalize_page_size page_size)
        (get_pagination_range page page_size)
unfolding get_pagination_range range_of
get_pagination_range-IsRange page page_size =
    let size = normalize_page_size page_size in
    let before = (normalize_page_param page - 1) * size in
    let (low, high) = normalize_page_size_bounds page_size in
    safe_range-IsRange before size (round_double before) (round_double (round_double before + size))
      low high (rounded before) (rounded (round_double before + size))
