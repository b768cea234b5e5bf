-- ===== src/Storage/FileName.antt =====
-- src/lib/storage/file-name.ts: the safe name under which a file is stored.
pub mod Shape
use godel_design.Prelude.{
  ℕ, zero, suc, ◌+◌, ◌-◌, ◌≤◌, ◌<◌, max, List, [], ◌∷◌, ◌++◌, map, Bool, true, false, not, ◌&&◌,
  ◌||◌, ltb, leb, ◌==◌, if◌then◌else◌, is_empty, length, take, drop, keep, Option, some, none, All,
  ◌≡◌,
}
use godel_design.JsUnicode.{Unicode, is_lower, is_upper}
use godel_design.JsText.{Text, codes, is_digit, trim, replace_runs, split}

-- `lastIndexOf(unit)`, where -1 is `none`.
unfoldable pub last_index_of : ℕ → Text → Option ℕ
last_index_of unit [] = none
last_index_of unit (c ∷ s) = elim (last_index_of unit s) [
  | some i ↦ some (suc i)
  | none ↦ if c == unit then some 0 else none
]

abbrev or_empty : Option Text → Text
or_empty none = []
or_empty (some s) = s

last_part : List Text → Option Text
last_part [] = none
last_part (p ∷ []) = some p
last_part (p ∷ q ∷ ps) = last_part (q ∷ ps)

abbrev forward_slash : ℕ → ℕ
forward_slash c = if c == b'\\' then b'/' else c

unfoldable pub get_last_path_segment : Text → Text
unfolding last_part split
get_last_path_segment name =
    or_empty (last_part (keep (λ p. not (is_empty p)) (split b'/' (map forward_slash name))))

module _ (u : Unicode) where
  open u use {to_lower_case, normalize_nfd}

  unfoldable pub get_file_extension : Text → Text
  unfolding get_last_path_segment last_index_of trim
  get_file_extension name =
      let segment = trim (get_last_path_segment name) in
      elim (last_index_of b'.' segment) [
        | none ↦ []
        | some i ↦
            if i == 0 || suc i == length segment then [] else to_lower_case (drop (suc i) segment)
      ]

unfoldable pub get_base_file_name : Text → Text
unfolding get_last_path_segment last_index_of trim
get_base_file_name name =
    let segment = trim (get_last_path_segment name) in
    elim (last_index_of b'.' segment) [
      | none ↦ segment
      | some i ↦ if i == 0 then segment else take i segment
    ]

abbrev pub is_lower_alnum : ℕ → Bool
is_lower_alnum c = is_lower c || is_digit c

-- `[a-zA-Z0-9_-]`.
abbrev pub is_name_unit : ℕ → Bool
is_name_unit c = is_lower c || is_upper c || is_digit c || c == b'_' || c == b'-'

abbrev is_combining : ℕ → Bool
is_combining c = leb 0x300 c && leb c 0x36f

abbrev is_control : ℕ → Bool
is_control c = leb c 0x1f || c == 0x7f

abbrev is_quote : ℕ → Bool
is_quote c = c == b'"' || c == b'\'' || c == b'`' || c == 0xb4

-- `[-_.]`.
abbrev pub is_edge : ℕ → Bool
is_edge c = c == b'-' || c == b'_' || c == b'.'

unfoldable pub drop_edge_start : Text → Text
drop_edge_start [] = []
drop_edge_start (c ∷ s) = let rest = drop_edge_start s in if is_edge c then rest else c ∷ s

unfoldable pub drop_edge_end : Text → Text
drop_edge_end [] = []
drop_edge_end (c ∷ s) =
    let rest = drop_edge_end s in if is_empty rest && is_edge c then [] else c ∷ rest

-- The replacements of the base name up to its lower case, in the order of the source: what is
-- dropped, then what becomes a dash, then the ends.
unfoldable pub bare_base : Text → Text
bare_base s =
    keep (λ c. not (is_quote c))
      (keep (λ c. not (is_control c)) (keep (λ c. not (is_combining c)) s))

unfoldable pub named_base : Text → Text
unfolding replace_runs bare_base
named_base s =
    replace_runs (λ c. not (is_name_unit c)) b'-' false
      (replace_runs (λ c. c == b'.') b'-' false (bare_base s))

unfoldable pub dashed_base : Text → Text
unfolding named_base
dashed_base s = replace_runs (λ c. c == b'-') b'-' false (named_base s)

unfoldable pub clean_base : Text → Text
unfolding drop_edge_start drop_edge_end dashed_base
clean_base s = drop_edge_end (drop_edge_start (dashed_base s))

abbrev max_safe_file_name_length : ℕ
max_safe_file_name_length = 120

-- `baseName || DEFAULT_SAFE_FILE_NAME`.
abbrev or_archivo : Text → Text
or_archivo s = if is_empty s then codes "archivo" else s

-- The extension is put behind a base that is cut to fit.
compose : Text → Text → Text
compose extension base =
    let room =
      max_safe_file_name_length - (if is_empty extension then 0 else length extension + 1) in
    let safe = take (max room 1) (or_archivo base) in
    if is_empty extension then safe else safe ++ b'.' ∷ extension

module _ (u : Unicode) where
  open u use {to_lower_case, normalize_nfd}

  safe_extension : Text → Text
  unfolding get_file_extension
  safe_extension name = take 16 (keep is_lower_alnum (get_file_extension u name))

  safe_base : Text → Text
  unfolding get_base_file_name clean_base
  safe_base name = to_lower_case (clean_base (normalize_nfd (get_base_file_name name)))

  unfoldable pub sanitize_file_name : Text → Text
  unfolding safe_extension safe_base compose
  sanitize_file_name name = compose (safe_extension name) (safe_base name)
