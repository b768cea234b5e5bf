-- ===== src/Pagination/Pages.antt =====
-- pagination.ts: the description of a page against the list it is cut from.
use native.Mathlib.Nat.{mul-le-mul_right, suc-mul, mod-add-div', mod-lt, div-eq_of_lt-le, add_comm}
use godel_design.Prelude.{
  ℕ, zero, suc, ◌+◌, ◌-◌, ◌*◌, ◌/◌, ◌%◌, ◌≤◌, ◌<◌, min, false, ltb, ◌==◌, ◌≡◌, ◌↔◌, refl, arith,
  inl, inr, Bool-cases, Option,
}
use godel_design.JsNumber.{Number, round_double}
use godel_design.JsNumber.Rounding.{round_double_exact}
use godel_design.Pagination.{
  PageParam, PaginationMeta, PaginationRange, ceil_div, meta_of, normalize_page_param,
  normalize_page_size, normalize_total_count, create_pagination_meta, get_pagination_range,
}
use godel_design.Pagination.Bounds.{
  IsRange, get_pagination_range-IsRange, rounded, normalize_page_param_bounds,
  normalize_page_size_bounds, normalize_total_count_bounds,
}

-- The last page begins before the end of the list and reaches it.
abbrev Last : ℕ → ℕ → ℕ → Type 0
Last total size pages = (q : ℕ) × (pages ≡ suc q) × (q * size < total) × (total ≤ q * size + size)

exact_pages : (total size d : ℕ) → 1 ≤ size → 1 ≤ total → total ≡ d * size → Last total size d
exact_pages total size zero h k e = absurd (omega arith)
exact_pages total size (suc d) h k e =
    (d, refl, omega (arith, suc-mul d size), omega (arith, suc-mul d size))

ceil_div-Last : (total size : ℕ) → 1 ≤ size → 1 ≤ total → Last total size (ceil_div total size)
unfolding ceil_div
ceil_div-Last total size h k = elim (Bool-cases (total % size == 0)) [
  | inl e ↦
      let none_left : total % size ≡ 0 = ground arith in
      rw e (
        exact_pages total size (total / size) h k
          (omega (arith, none_left, mod-add-div' total size)))
  | inr e ↦
      let left : 1 ≤ total % size = ground arith in
      rw e (
        total / size,
        omega arith,
        omega (arith, left, mod-add-div' total size),
        omega (arith, mod-lt total {m = size} h, mod-add-div' total size),
      )
]

-- The page behind `k` others of a list that is not empty: where it begins and ends, and that it lies
-- in the list.
pub record IsPage (size total : ℕ) (m : PaginationMeta) : Type 0 where
  pub k : ℕ
  pub numbered : m.page ≡ suc k
  pub begins : k * size < total
  pub starts : m.start_item ≡ k * size + 1
  pub ends : m.end_item ≡ min (k * size + size) total
  pub last : Last total size m.total_pages
  pub within : m.page ≤ m.total_pages
  pub previous : m.has_previous_page ≡ ltb 1 m.page
  pub next : m.has_next_page ≡ ltb m.page m.total_pages

start_exact :
    (before total : ℕ)
    → before < total
    → total ≤ 9007199254740991
    → round_double (round_double before + 1) ≡ before + 1
start_exact before total h k =
    let inner = round_double_exact before (omega arith) in
    rw inner (round_double_exact (before + 1) (omega arith))

end_exact :
    (before size total : ℕ)
    → before < total
    → total ≤ 9007199254740991
    → min (round_double (before + 1 + size) - 1) total ≡ min (before + size) total
end_exact before size total h k = elim (rounded (before + 1 + size)) [
  | inl (small, e) ↦ omega arith
  | inr (large, e) ↦ omega arith
]

within-Last : (total size pages k : ℕ) → Last total size pages → suc k ≤ pages → k * size < total
within-Last total size pages k (q, e, before, reach) h =
    omega (arith, mul-le-mul_right {m = k} {n = q} size (omega arith))

cut_pages : (p c : ℕ) → 1 ≤ p → 1 ≤ c → (min p c ≡ suc (min p c - 1)) × (suc (min p c - 1) ≤ c)
cut_pages p c h k = (omega arith, omega arith)

Last-pos : (total size pages : ℕ) → Last total size pages → 1 ≤ pages
Last-pos total size pages (q, e, b, r) = omega arith

meta_of-IsPage :
    (page size total : ℕ)
    → 1 ≤ page
    → 1 ≤ size
    → 1 ≤ total
    → total ≤ 9007199254740991
    → IsPage size total (meta_of page size total)
unfolding meta_of
meta_of-IsPage page size total hp hs ht bound =
    let full : (total == 0) ≡ false = ground arith in
    let pages = ceil_div total size in
    let last = ceil_div-Last total size hs ht in
    let (numbered, within) = cut_pages page pages hp (Last-pos total size pages last) in
    let k = min page pages - 1 in
    let begins = within-Last total size pages k last within in
    let start = start_exact (k * size) total begins bound in
    record {
      k = k;
      numbered = rw full numbered;
      begins = begins;
      starts = rw full start;
      ends = rw (full, start) (end_exact (k * size) size total begins bound);
      last = rw full last;
      within = rw (full, numbered) within;
      previous = refl;
      next = refl;
    }

place_of : (size i k : ℕ) → 1 ≤ size → k * size < i → i ≤ k * size + size → (i - 1) / size ≡ k
place_of size i k h low high =
    div-eq_of_lt-le {k = k} size {m = i - 1} (omega arith)
      (rw (add_comm k 1) (omega (arith, suc-mul k size)))

place_bounds :
    (size i : ℕ)
    → 1 ≤ size
    → 1 ≤ i
    → ((i - 1) / size * size < i) × (i ≤ (i - 1) / size * size + size)
place_bounds size i h k = (
  omega (arith, mod-add-div' (i - 1) size),
  omega (arith, mod-add-div' (i - 1) size, mod-lt (i - 1) {m = size} h),
)

IsPage-holds :
    (size total i : ℕ) (m : PaginationMeta)
    → 1 ≤ size
    → 1 ≤ i
    → i ≤ total
    → IsPage size total m
    → ((m.start_item ≤ i) × (i ≤ m.end_item)) ↔ (m.page ≡ (i - 1) / size + 1)
IsPage-holds size total i m hs hi ht p = (sound, complete)
  where
    sound : (m.start_item ≤ i) × (i ≤ m.end_item) → m.page ≡ (i - 1) / size + 1
    sound (low, high) =
        rw (p.numbered, place_of size i p.k hs (omega (arith, p.starts)) (omega (arith, p.ends)))
          (omega arith)

    complete : m.page ≡ (i - 1) / size + 1 → (m.start_item ≤ i) × (i ≤ m.end_item)
    complete e =
        let place : p.k ≡ (i - 1) / size = omega (arith, e, p.numbered) in
        let (low, high) = place_bounds size i hs hi in
        rw (p.starts, p.ends, place) (omega arith, omega arith)

ranged :
    (number size total : ℕ) (m : PaginationMeta) (r : PaginationRange)
    → m.page ≡ number
    → number * size ≤ 9007199254740991
    → IsPage size total m
    → IsRange ((number - 1) * size) size r
    → (r.first + 1 ≡ m.start_item) × (min (r.last + 1) total ≡ m.end_item)
ranged zero size total m r e safe p q = absurd (omega (arith, e, p.numbered))
ranged (suc k) size total m r e safe p q =
    let same : p.k ≡ k = omega (arith, e, p.numbered) in
    let before : suc k - 1 ≡ k = omega arith in
    let below : (suc k - 1) * size + size < 9007199254740992 =
      rw before (omega (arith, suc-mul k size, safe)) in
    rw (p.starts, p.ends, same, q.placed below, q.full below, before) (refl, refl)

-- The description of a page of a list that is not empty: it is one of the pages, and its items are
-- those of the list from the ones of the earlier pages on, as many as the size and the list allow.
pub create_pagination_meta-IsPage :
    (page : PageParam) (page_size : Number) (total_count : Option Number)
    → 1 ≤ normalize_total_count total_count
    → IsPage
        (normalize_page_size page_size)
        (normalize_total_count total_count)
        (create_pagination_meta page page_size total_count)
unfolding create_pagination_meta
create_pagination_meta-IsPage page page_size total_count some_item =
    meta_of-IsPage (normalize_page_param page) (normalize_page_size page_size)
      (normalize_total_count total_count) (normalize_page_param_bounds page).0
      (normalize_page_size_bounds page_size).0 some_item (normalize_total_count_bounds total_count)

-- An item of the list is on the described page exactly when the full pages before the item are those
-- before the page; so each item is on one page and on no other.
page_holds :
    (page : PageParam) (page_size : Number) (total_count : Option Number) (i : ℕ)
    → 1 ≤ i
    → i ≤ normalize_total_count total_count
    → let m = create_pagination_meta page page_size total_count in
      ((m.start_item ≤ i) × (i ≤ m.end_item))
      ↔ (m.page ≡ (i - 1) / normalize_page_size page_size + 1)
page_holds page page_size total_count i hi ht =
    IsPage-holds (normalize_page_size page_size) (normalize_total_count total_count) i
      (create_pagination_meta page page_size total_count) (normalize_page_size_bounds page_size).0
      hi ht (create_pagination_meta-IsPage page page_size total_count (omega arith))

-- The rows that are fetched for a page are those that its description counts, for a page that the
-- list has and whose end is a safe integer.
range-meta :
    (page : PageParam) (page_size : Number) (total_count : Option Number)
    → 1 ≤ normalize_total_count total_count
    → (create_pagination_meta page page_size total_count).page ≡ normalize_page_param page
    → normalize_page_param page * normalize_page_size page_size ≤ 9007199254740991
    → let r = get_pagination_range page page_size in
      let m = create_pagination_meta page page_size total_count in
      (r.first + 1 ≡ m.start_item)
      × (min (r.last + 1) (normalize_total_count total_count) ≡ m.end_item)
range-meta page page_size total_count some_item requested safe =
    let m = create_pagination_meta page page_size total_count in
    let p = create_pagination_meta-IsPage page page_size total_count some_item in
    ranged (normalize_page_param page) (normalize_page_size page_size)
      (normalize_total_count total_count) m (get_pagination_range page page_size) requested safe p
      (get_pagination_range-IsRange page page_size)
