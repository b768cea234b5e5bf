-- ===== src/Validators/Form/SingleLine.antt =====
-- form.ts, `normalizeSingleLineText`: the texts that it gives, and that it leaves those as they are.
use godel_design.Prelude.{
  ℕ, [], ◌∷◌, true, false, ◌⊎◌, inl, inr, ◌≡◌, refl, subst, All, All-imp, arith, Bool-cases, map,
  ◌↔◌, length, length-map, ◌≤◌,
}
use godel_design.JsText.{Text, is_space, replace_runs}
use godel_design.JsText.Trim.{
  StartsPlain, EndsPlain, IsSpaced, trim-StartsPlain, trim-EndsPlain, trim-All, trim-IsSpaced,
  trim_fixed, length-trim,
}
use godel_design.JsText.Runs.{replace_runs-All, replace_runs-IsSpaced, length-replace_runs}
use godel_design.Validators.Form.{
  Unknown, str, is_control, get_text_input, single_line, normalize_single_line_text, blank_control,
}

-- The space, or a unit that is neither white space nor a control.
abbrev pub IsLineUnit : ℕ → Type 0
IsLineUnit c = (c ≡ b' ') ⊎ ((is_space c ≡ false) × (is_control c ≡ false))

-- A line of words with one space between two words.
pub record IsSingleLine (s : Text) : Type 0 where
  pub units : All IsLineUnit s
  pub spaced : IsSpaced s
  pub starts : StartsPlain s
  pub ends : EndsPlain s

abbrev IsTame : ℕ → Type 0
IsTame c = (c ≡ b' ') ⊎ (is_control c ≡ false)

blank_control-IsTame : (s : Text) → All IsTame (map blank_control s)
blank_control-IsTame [] = tt
blank_control-IsTame (c ∷ s) = (ground arith, blank_control-IsTame s)

tame-line : (c : ℕ) → IsTame c → is_space c ≡ false → IsLineUnit c
unfolding is_space
tame-line c h e = ground arith

abbrev squeezed : Text → Text
squeezed s = replace_runs is_space b' ' false (map blank_control s)

single_line-units : (s : Text) → All IsLineUnit (single_line s)
unfolding single_line
single_line-units s = trim-All IsLineUnit _ (
    replace_runs-All IsLineUnit is_space b' ' (inl refl) false (map blank_control s)
      (All-imp tame-line (map blank_control s) (blank_control-IsTame s)))

length-single_line : (s : Text) → length (single_line s) ≤ length s
unfolding single_line
length-single_line s = omega (
  arith,
  length-trim (squeezed s),
  length-replace_runs is_space b' ' false (map blank_control s),
  length-map s blank_control,
)

pub single_line-IsSingleLine : (s : Text) → IsSingleLine (single_line s)
unfolding single_line
single_line-IsSingleLine s = record {
  units = single_line-units s;
  spaced = trim-IsSpaced _ (replace_runs-IsSpaced b' ' false (map blank_control s));
  starts = trim-StartsPlain (squeezed s);
  ends = trim-EndsPlain (squeezed s);
}

unit_fixed : (c : ℕ) → IsLineUnit c → blank_control c ≡ c
unit_fixed c p = ground arith

blank_control_fixed : (s : Text) → All IsLineUnit s → map blank_control s ≡ s
blank_control_fixed [] h = refl
blank_control_fixed (c ∷ s) (p, h) = rw (unit_fixed c p, blank_control_fixed s h)

space_unit : (c : ℕ) → IsLineUnit c → is_space c ≡ true → c ≡ b' '
space_unit c p e = ground arith

-- Where the text starts plain, it does not matter that a run came before.
run_end :
    (s : Text)
    → StartsPlain s
    → replace_runs is_space b' ' true s ≡ replace_runs is_space b' ' false s
unfolding replace_runs
run_end [] h = refl
run_end (c ∷ s) h = rw h

squeeze_fixed : (s : Text) → All IsLineUnit s → IsSpaced s → replace_runs is_space b' ' false s ≡ s
unfolding replace_runs
squeeze_fixed [] h k = refl
squeeze_fixed (c ∷ s) (p, h) (q, k) = elim (Bool-cases (is_space c)) [
  | inl e ↦ rw (e, run_end s (q e), squeeze_fixed s h k, space_unit c p e)
  | inr e ↦ rw (e, squeeze_fixed s h k)
]

single_line_fixed : (s : Text) → IsSingleLine s → single_line s ≡ s
unfolding single_line
single_line_fixed s h =
    rw (blank_control_fixed s h.units, squeeze_fixed s h.units h.spaced)
      (trim_fixed s h.starts h.ends)

-- The texts that normalising a string leaves unchanged are exactly the clean lines: spaces and
-- visible units only, no two spaces side by side, none at either end.
single_line_fixed_iff : (s : Text) → (single_line s ≡ s) ↔ IsSingleLine s
single_line_fixed_iff s =
    (λ e. subst IsSingleLine e (single_line-IsSingleLine s), single_line_fixed s)

-- Whatever value is normalised, the result is a clean line, no longer than the text of the value,
-- and normalising it again changes nothing.
normalize_single_line_text_lem :
    (value : Unknown)
    → IsSingleLine (normalize_single_line_text value)
      × (length (normalize_single_line_text value) ≤ length (get_text_input value))
      × (normalize_single_line_text (str (normalize_single_line_text value))
          ≡ normalize_single_line_text value)
unfolding normalize_single_line_text
normalize_single_line_text_lem value =
    let s = get_text_input value in
    (
      single_line-IsSingleLine s,
      length-single_line s,
      single_line_fixed (single_line s) (single_line-IsSingleLine s),
    )
