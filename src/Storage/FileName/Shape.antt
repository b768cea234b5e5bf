-- ===== src/Storage/FileName/Shape.antt =====
-- file-name.ts: the shape of every safe name.
use godel_design.Prelude.{
  ℕ, zero, suc, ◌+◌, ◌-◌, ◌≤◌, ◌<◌, max, [], ◌∷◌, ◌++◌, map, Bool, true, false, not, ◌&&◌, ◌==◌,
  is_empty, length, length-append, length-take, take, keep, All, All-imp, All-take, ◌≡◌, ◌⊎◌, refl,
  sym, append-nil, arith, Bool-cases, inl, inr,
}
use godel_design.JsText.{Text, codes, is_digit, replace_runs}
use godel_design.JsText.Runs.{replace_runs-All}
use godel_design.JsUnicode.{Unicode, ascii_lower}
use godel_design.Storage.FileName.{
  is_lower_alnum, is_name_unit, is_edge, drop_edge_start, drop_edge_end, bare_base, named_base,
  dashed_base, clean_base, or_archivo, safe_extension, safe_base, compose, sanitize_file_name,
  get_file_extension, get_base_file_name,
}

abbrev pub IsAlnum : ℕ → Type 0
IsAlnum c = is_lower_alnum c ≡ true

-- A lower-case letter, a digit, a dash or an underscore.
abbrev pub IsBaseUnit : ℕ → Type 0
IsBaseUnit c = IsAlnum c ⊎ (c ≡ b'_') ⊎ (c ≡ b'-')

abbrev pub StartsAlnum : Text → Type 0
StartsAlnum [] = ⊥
StartsAlnum (c ∷ s) = IsAlnum c

abbrev pub suffix : Text → Text
suffix [] = []
suffix (c ∷ s) = b'.' ∷ c ∷ s

-- A base that starts with a letter or digit, and an extension of letters and digits behind a dot if
-- there is one; no other unit, and so no slash and no second dot.
pub record IsSafeName (s : Text) : Type 0 where
  pub base : Text
  pub extension : Text
  pub spelt : s ≡ base ++ suffix extension
  pub starts : StartsAlnum base
  pub base_units : All IsBaseUnit base
  pub extension_units : All IsAlnum extension
  pub extension_short : length extension ≤ 16
  pub short : length s ≤ 120

abbrev IsNameUnit : ℕ → Type 0
IsNameUnit c = is_name_unit c ≡ true

-- Of a text cut from the left, the first unit that is left.
abbrev StartsPlain : Text → Type 0
StartsPlain [] = Unit
StartsPlain (c ∷ s) = is_edge c ≡ false

all_units : (s : Text) → All (λ c. not (is_name_unit c) ≡ false → IsNameUnit c) s
all_units [] = tt
all_units (c ∷ s) = ((λ h. unit (is_name_unit c) h), all_units s)
  where
    unit : (b : Bool) → not b ≡ false → b ≡ true
    unit true h = refl
    unit false h = cc

drop_edge_start-All : (s : Text) → All IsNameUnit s → All IsNameUnit (drop_edge_start s)
unfolding drop_edge_start
drop_edge_start-All [] h = tt
drop_edge_start-All (c ∷ s) (p, h) = elim (Bool-cases (is_edge c)) [
  | inl e ↦ rw e (drop_edge_start-All s h)
  | inr e ↦ rw e (p, h)
]

drop_edge_start-StartsPlain : (s : Text) → StartsPlain (drop_edge_start s)
unfolding drop_edge_start
drop_edge_start-StartsPlain [] = tt
drop_edge_start-StartsPlain (c ∷ s) = elim (Bool-cases (is_edge c)) [
  | inl e ↦ rw e (drop_edge_start-StartsPlain s)
  | inr e ↦ rw (e, e) refl
]

drop_edge_end-All : (s : Text) → All IsNameUnit s → All IsNameUnit (drop_edge_end s)
unfolding drop_edge_end
drop_edge_end-All [] h = tt
drop_edge_end-All (c ∷ s) (p, h) = elim (Bool-cases (is_empty (drop_edge_end s) && is_edge c)) [
  | inl e ↦ rw e tt
  | inr e ↦ rw e (p, drop_edge_end-All s h)
]

drop_edge_end-StartsPlain : (s : Text) → StartsPlain s → StartsPlain (drop_edge_end s)
unfolding drop_edge_end
drop_edge_end-StartsPlain [] h = tt
drop_edge_end-StartsPlain (c ∷ s) h = elim (Bool-cases (is_empty (drop_edge_end s) && is_edge c)) [
  | inl e ↦ rw e tt
  | inr e ↦ rw e h
]

named_base-All : (s : Text) → All IsNameUnit (named_base s)
unfolding named_base is_digit
named_base-All s =
    replace_runs-All IsNameUnit (λ c. not (is_name_unit c)) b'-' refl false
      (replace_runs (λ c. c == b'.') b'-' false (bare_base s))
      (all_units (replace_runs (λ c. c == b'.') b'-' false (bare_base s)))

dashed_base-All : (s : Text) → All IsNameUnit (dashed_base s)
unfolding dashed_base is_digit
dashed_base-All s =
    replace_runs-All IsNameUnit (λ c. c == b'-') b'-' refl false (named_base s)
      (All-imp (λ c p _. p) (named_base s) (named_base-All s))

clean_base-All : (s : Text) → All IsNameUnit (clean_base s)
unfolding clean_base
clean_base-All s =
    drop_edge_end-All (drop_edge_start (dashed_base s))
      (drop_edge_start-All (dashed_base s) (dashed_base-All s))

clean_base-StartsPlain : (s : Text) → StartsPlain (clean_base s)
unfolding clean_base
clean_base-StartsPlain s =
    drop_edge_end-StartsPlain (drop_edge_start (dashed_base s))
      (drop_edge_start-StartsPlain (dashed_base s))

lower_unit : (c : ℕ) → IsNameUnit c → IsBaseUnit (ascii_lower c)
unfolding is_digit
lower_unit c h = ground arith

lower_start : (c : ℕ) → IsNameUnit c → is_edge c ≡ false → IsAlnum (ascii_lower c)
unfolding is_digit
lower_start c h e = ground arith

name_ascii : (c : ℕ) → IsNameUnit c → c < 128
unfolding is_digit
name_ascii c h = ground arith

lower_units : (s : Text) → All IsNameUnit s → All IsBaseUnit (map ascii_lower s)
lower_units [] h = tt
lower_units (c ∷ s) (p, h) = (lower_unit c p, lower_units s h)

-- A base that was not empty starts with a letter or digit in lower case.
abbrev StartsAlnumOrEmpty : Text → Type 0
StartsAlnumOrEmpty [] = Unit
StartsAlnumOrEmpty (c ∷ s) = IsAlnum c

lower_starts :
    (s : Text) → All IsNameUnit s → StartsPlain s → StartsAlnumOrEmpty (map ascii_lower s)
lower_starts [] h k = tt
lower_starts (c ∷ s) (p, h) k = lower_start c p k

archivo_units : All IsBaseUnit (codes "archivo")
unfolding is_digit
archivo_units =
    (inl refl, (inl refl, (inl refl, (inl refl, (inl refl, (inl refl, (inl refl, tt)))))))

or_archivo-shape :
    (s : Text)
    → All IsBaseUnit s
    → StartsAlnumOrEmpty s
    → All IsBaseUnit (or_archivo s) × StartsAlnum (or_archivo s)
unfolding is_digit
or_archivo-shape [] h k = (archivo_units, refl)
or_archivo-shape (c ∷ s) h k = (h, k)

take_starts : (n : ℕ) (s : Text) → 1 ≤ n → StartsAlnum s → StartsAlnum (take n s)
take_starts zero s pos h = absurd (omega arith)
take_starts (suc n) (c ∷ s) pos h = h
take_starts (suc n) [] pos h = h

keep-IsAlnum : (s : Text) → All IsAlnum (keep is_lower_alnum s)
keep-IsAlnum [] = tt
keep-IsAlnum (c ∷ s) = elim (Bool-cases (is_lower_alnum c)) [
  | inl e ↦ rw e (e, keep-IsAlnum s)
  | inr e ↦ rw e (keep-IsAlnum s)
]

compose-IsSafeName :
    (extension base : Text)
    → All IsAlnum extension
    → length extension ≤ 16
    → All IsBaseUnit base
    → StartsAlnumOrEmpty base
    → IsSafeName (compose extension base)
unfolding compose
compose-IsSafeName [] base he len hb hs =
    let (units, starts) = or_archivo-shape base hb hs in
    record {
      base = take 120 (or_archivo base);
      extension = [];
      spelt = sym (append-nil (take 120 (or_archivo base)));
      starts = take_starts 120 (or_archivo base) (omega arith) starts;
      base_units = All-take IsBaseUnit 120 (or_archivo base) units;
      extension_units = tt;
      extension_short = omega arith;
      short = omega (arith, length-take 120 (or_archivo base));
    }
compose-IsSafeName (c ∷ e) base he len hb hs =
    let (units, starts) = or_archivo-shape base hb hs in
    let room = max (120 - (length (c ∷ e) + 1)) 1 in
    let cut = take room (or_archivo base) in
    record {
      base = cut;
      extension = c ∷ e;
      spelt = refl;
      starts = take_starts room (or_archivo base) (omega arith) starts;
      base_units = All-take IsBaseUnit room (or_archivo base) units;
      extension_units = he;
      extension_short = len;
      short = omega (arith, length-take room (or_archivo base), length-append cut (b'.' ∷ c ∷ e));
    }

module _ (u : Unicode) where
  abbrev to_nfd : Text → Text
  to_nfd name = u.normalize_nfd (get_base_file_name name)

  safe_base-shape :
      (name : Text) → All IsBaseUnit (safe_base u name) × StartsAlnumOrEmpty (safe_base u name)
  unfolding safe_base
  safe_base-shape name =
      let clean = clean_base (to_nfd name) in
      let named = clean_base-All (to_nfd name) in
      rw (u.to_lower_case_ascii clean (All-imp name_ascii clean named))
        (lower_units clean named, lower_starts clean named (clean_base-StartsPlain (to_nfd name)))

  -- Whatever the name of a file is, its safe name has the shape that is stored: at most 120 units, a
  -- base of lower-case letters, digits, dashes and underscores that starts with a letter or digit,
  -- and at most one dot, before an extension of at most 16 letters and digits.
  pub sanitize_file_name-IsSafeName : (name : Text) → IsSafeName (sanitize_file_name u name)
  unfolding sanitize_file_name safe_extension
  sanitize_file_name-IsSafeName name =
      let (units, starts) = safe_base-shape name in
      let raw = keep is_lower_alnum (get_file_extension u name) in
      compose-IsSafeName (take 16 raw) (safe_base u name)
        (All-take IsAlnum 16 raw (keep-IsAlnum (get_file_extension u name)))
        (omega (arith, length-take 16 raw)) units starts
