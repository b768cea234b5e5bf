-- ===== src/Tests/Paging.antt =====
-- The pages of a list.
use godel_design.Prelude.{◌*◌, ◌≤◌, false, true, Option, some, ◌≡◌, refl, arith}
use godel_design.JsNumber.{Number, finite, round_double}
use godel_design.JsText.{codes}
use godel_design.Pagination.{
  PageParam, text, normalize_page_param, normalize_page_size, normalize_total_count,
  create_pagination_meta,
}
use godel_design.Pagination.Pages.{IsPage, create_pagination_meta-IsPage}

-- Ties go to the even mantissa.
rounds : round_double 9007199254740993 ≡ 9007199254740992
unfolding round_double
rounds = refl

rounds_up : round_double 9007199254740995 ≡ 9007199254740996
unfolding round_double
rounds_up = refl

abbrev page_3 : PageParam
page_3 = text (codes " 3 ")

abbrev fifty : Number
fifty = finite false 50 false

abbrev count : Option Number
count = some (finite false 120 false)

third_page : create_pagination_meta page_3 fifty count ≡ record {
  page = 3;
  page_size = 50;
  total_count = 120;
  total_pages = 3;
  start_item = 101;
  end_item = 120;
  has_previous_page = true;
  has_next_page = false;
}
unfolding create_pagination_meta
third_page = refl

counted : 1 ≤ normalize_total_count count
unfolding normalize_total_count
counted = omega arith

create_pagination_meta-IsPage_example :
    IsPage
      (normalize_page_size fifty)
      (normalize_total_count count)
      (create_pagination_meta page_3 fifty count)
create_pagination_meta-IsPage_example = create_pagination_meta-IsPage page_3 fifty count counted

in_list : 110 ≤ normalize_total_count count
unfolding normalize_total_count
in_list = omega arith

requested : (create_pagination_meta page_3 fifty count).page ≡ normalize_page_param page_3
unfolding create_pagination_meta normalize_page_param
requested = refl

safe : normalize_page_param page_3 * normalize_page_size fifty ≤ 9007199254740991
unfolding normalize_page_param normalize_page_size
safe = omega arith
