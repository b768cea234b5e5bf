-- ===== src/Pagination.antt =====
-- src/lib/pagination.ts: the pages of a list. Products and sums of page numbers are rounded to
-- doubles as the code computes them; the quotient of two safe integers lies on the same side of
-- every whole number as the exact one, so that `Math.ceil` of it is the exact ceiling.
pub mod Bounds
pub mod Pages
use godel_design.Prelude.{
  ℕ, zero, suc, ◌+◌, ◌-◌, ◌*◌, ◌/◌, ◌%◌, min, Bool, true, false, not, ◌&&◌, ◌||◌, ltb, leb, ◌==◌,
  if◌then◌else◌, Option, some, none,
}
use godel_design.JsNumber.{
  Number, nan, infinite, finite, max_safe_integer, is_safe_integer, trunc, round_double, to_number,
  is_digits, digits_value,
}
use godel_design.JsText.{Text, trim}

pub data PageParam : Type 0 where
  absent : PageParam
  number : Number → PageParam
  text : Text → PageParam

unfoldable pub normalize_positive_integer : Number → (fallback : ℕ) → ℕ
normalize_positive_integer nan fallback = fallback
normalize_positive_integer (infinite negative) fallback = fallback
normalize_positive_integer (finite negative whole fraction) fallback =
    if is_safe_integer (finite negative whole fraction) && not negative && leb 1 whole
    then whole
    else fallback

unfoldable pub normalize_page_param : PageParam → ℕ
unfolding normalize_positive_integer trim is_digits to_number
normalize_page_param absent = 1
normalize_page_param (number value) = normalize_positive_integer value 1
normalize_page_param (text value) =
    let trimmed = trim value in
    if not (is_digits trimmed)
    then 1
    else normalize_positive_integer (to_number (digits_value 0 trimmed)) 1

-- `normalizePositiveInteger(Math.trunc(pageSize), 1)`.
unfoldable pub normalize_page_size : Number → ℕ
unfolding normalize_positive_integer
normalize_page_size page_size = normalize_positive_integer (trunc page_size) 1

pub record PaginationRange : Type 0 where
  pub first : ℕ
  pub last : ℕ

-- The first page where a number is not a safe integer. The source takes 1 off a sum that it rounded;
-- that is exact up to the greatest safe integer, and past it either way.
abbrev pub safe_range : (offset last size : ℕ) → PaginationRange
safe_range offset last size =
    if not (leb offset max_safe_integer) || not (leb last max_safe_integer)
    then record { first = 0; last = size - 1 }
    else record { first = offset; last = last }

-- The range from the page and the size once they are normalised.
unfoldable pub range_of : (page size : ℕ) → PaginationRange
unfolding round_double
range_of page size =
    let offset = round_double ((page - 1) * size) in
    safe_range offset (round_double (offset + size) - 1) size

unfoldable pub get_pagination_range : PageParam → (page_size : Number) → PaginationRange
unfolding normalize_page_param normalize_page_size range_of
get_pagination_range page page_size =
    range_of (normalize_page_param page) (normalize_page_size page_size)

pub record PaginationMeta : Type 0 where
  pub page : ℕ
  pub page_size : ℕ
  pub total_count : ℕ
  pub total_pages : ℕ
  pub start_item : ℕ
  pub end_item : ℕ
  pub has_previous_page : Bool
  pub has_next_page : Bool

-- `Math.ceil(total / size)`.
unfoldable pub ceil_div : ℕ → ℕ → ℕ
ceil_div total size = if total % size == 0 then total / size else total / size + 1

unfoldable pub normalize_total_count : Option Number → ℕ
unfolding normalize_positive_integer
normalize_total_count none = 0
normalize_total_count (some total) = normalize_positive_integer total 0

-- The description from the normalised page, size and count.
unfoldable pub meta_of : (page size total : ℕ) → PaginationMeta
unfolding ceil_div round_double
meta_of page size total =
    let pages = if total == 0 then 1 else ceil_div total size in
    let effective = if total == 0 then 1 else min page pages in
    let start =
      if total == 0 then 0 else round_double (round_double ((effective - 1) * size) + 1) in
    record {
      page = effective;
      page_size = size;
      total_count = total;
      total_pages = pages;
      start_item = start;
      end_item = if total == 0 then 0 else min (round_double (start + size) - 1) total;
      has_previous_page = ltb 1 effective;
      has_next_page = ltb effective pages;
    }

unfoldable pub create_pagination_meta :
    PageParam → (page_size : Number) → (total_count : Option Number) → PaginationMeta
unfolding normalize_page_param normalize_page_size normalize_total_count meta_of
create_pagination_meta page page_size total_count =
    meta_of (normalize_page_param page) (normalize_page_size page_size)
      (normalize_total_count total_count)
