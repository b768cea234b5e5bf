-- ===== src/Validators/Form.antt =====
-- src/lib/validators/form.ts: reading a value as text and normalising it, and the results of a
-- validation. An object of field errors is a list of fields with their messages, as `Object.keys`
-- lists it.
pub mod SingleLine
pub mod Verdict
use godel_design.Prelude.{
  ℕ, List, [], ◌∷◌, Bool, true, false, not, ◌&&◌, ◌||◌, ltb, leb, ◌==◌, if◌then◌else◌, is_empty,
  keep, Option, some, none, map,
}
use godel_design.JsText.{Text, is_space, trim, replace_runs, unify_newlines, split, join, is_digit}

-- A value of type `unknown`: a string, a number as the text that `String` gives it, or another.
pub data Unknown : Type 0 where
  str : Text → Unknown
  number : Text → Unknown
  other : Unknown

pub data ValidationResult {ℓ κ} (Data : Type ℓ) (FieldErrors : Type κ) : Type (ℓ ⊔ κ) where
  success : Data → ValidationResult Data FieldErrors
  failure : FieldErrors → ValidationResult Data FieldErrors

abbrev pub has_field_errors {ℓ} : {A : Type ℓ} → List A → Bool
has_field_errors errors = not (is_empty errors)

-- The class of `CONTROL_CHARS_PATTERN`: what is left out is tab, line feed and carriage return.
unfoldable pub is_control : ℕ → Bool
is_control c = leb c 0x8 || c == 0xb || c == 0xc || (leb 0xe c && leb c 0x1f) || c == 0x7f

unfoldable pub get_text_input : Unknown → Text
get_text_input (str s) = s
get_text_input (number s) = s
get_text_input other = []

abbrev blank_control : ℕ → ℕ
blank_control c = if is_control c then b' ' else c

unfoldable pub single_line : Text → Text
unfolding is_control is_space replace_runs trim
single_line s = trim (replace_runs is_space b' ' false (map blank_control s))

unfoldable pub normalize_single_line_text : Unknown → Text
unfolding get_text_input single_line
normalize_single_line_text value = single_line (get_text_input value)

-- `cleaned || null`.
abbrev pub or_null : Text → Option Text
or_null s = if is_empty s then none else some s

unfoldable pub normalize_optional_single_line_text : Unknown → Option Text
unfolding normalize_single_line_text
normalize_optional_single_line_text value = or_null (normalize_single_line_text value)

abbrev is_blank : ℕ → Bool
is_blank c = c == b' ' || c == 0x9

clean_line : Text → Text
unfolding replace_runs trim
clean_line line = trim (replace_runs is_blank b' ' false line)

unfoldable pub multiline : Text → Text
unfolding is_control clean_line unify_newlines split join trim
multiline s = trim (
    join 0xa (map clean_line (split 0xa (keep (λ c. not (is_control c)) (unify_newlines false s)))))

unfoldable pub normalize_multiline_text : Unknown → Text
unfolding get_text_input multiline
normalize_multiline_text value = multiline (get_text_input value)

unfoldable pub normalize_optional_multiline_text : Unknown → Option Text
unfolding normalize_multiline_text
normalize_optional_multiline_text value = or_null (normalize_multiline_text value)

-- `BASIC_EMAIL_PATTERN`: one or more units that are neither white space nor `@`, an `@`, and such
-- units again with a dot that is neither the first nor the last of them.
abbrev is_email_unit : ℕ → Bool
is_email_unit c = not (is_space c) && not (c == b'@')

-- The units behind the `@`; the flags say that a unit stands before, and that a dot with a unit
-- before it does.
email_domain : Bool → Bool → Text → Bool
email_domain some_before dotted [] = false
email_domain some_before dotted (c ∷ []) = dotted && is_email_unit c
email_domain some_before dotted (c ∷ d ∷ s) =
    is_email_unit c && email_domain true (dotted || (some_before && c == b'.')) (d ∷ s)

email_local : Bool → Text → Bool
unfolding email_domain is_space
email_local some_before [] = false
email_local some_before (c ∷ s) =
    let more = email_local true s in
    if c == b'@' then some_before && email_domain false false s else is_email_unit c && more

unfoldable pub is_basic_email : Text → Bool
unfolding email_local
is_basic_email value = email_local false value
