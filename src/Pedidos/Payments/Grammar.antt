-- ===== src/Pedidos/Payments/Grammar.antt =====
-- payment-validation.ts: the texts that denote an amount.
use godel_design.Prelude.{
  ◌∙◌, ℕ, ◌≤◌, List, [], ◌∷◌, ◌++◌, append-nil, true, false, ltb, ◌==◌, is_empty, all, length, ◌≡◌,
  ◌↔◌, refl, sym, arith, inl, inr, and-eq-true, Bool-cases,
}
use godel_design.JsNumber.{is_digits}
use godel_design.JsText.{Text, codes, is_digit, trim, split, join, starts_with}
use godel_design.JsText.Parts.{join-split}
use godel_design.Pedidos.Payments.{
  parsed, is_decimal_parts, whole_part, decimal_part, cents_of, parse_parts, parse_payment_amount,
}

abbrev pub point : Text → Text
point [] = []
point (c ∷ s) = b'.' ∷ c ∷ s

-- Digits, and behind a point one or two more if there is one; they denote so many hundredths.
pub record Spells (s : Text) (n : ℕ) : Type 0 where
  pub whole : Text
  pub decimals : Text
  pub whole_digits : is_digits whole ≡ true
  pub decimal_digits : all is_digit decimals ≡ true
  pub few : length decimals ≤ 2
  pub spelt : s ≡ whole ++ point decimals
  pub value : n ≡ cents_of whole decimals
  pub bounded : n ≤ 999999999999

split_digits : (s : Text) → all is_digit s ≡ true → split b'.' s ≡ s ∷ []
unfolding split is_digit
split_digits [] h = refl
split_digits (c ∷ s) h =
    let later = split_digits s (ground arith) in
    let plain : (c == b'.') ≡ false = ground arith in rw (later, plain) refl

split_digits_point :
    (s t : Text) → all is_digit s ≡ true → split b'.' (s ++ b'.' ∷ t) ≡ s ∷ split b'.' t
unfolding split is_digit
split_digits_point [] t h = refl
split_digits_point (c ∷ s) t h =
    let later = split_digits_point s t (ground arith) in
    let plain : (c == b'.') ≡ false = ground arith in rw (later, plain) refl

-- What the tests on the parts leave.
abbrev pub Parts : List Text → ℕ → Type 0
Parts parts n =
    (is_decimal_parts parts ≡ true)
    × (length (decimal_part parts) ≤ 2)
    × (n ≡ cents_of (whole_part parts) (decimal_part parts))
    × (n ≤ 999999999999)

parse_parts_sound :
    (label : Text) (parts : List Text) (n : ℕ) → parse_parts label parts ≡ parsed n → Parts parts n
unfolding parse_parts
parse_parts_sound label parts n h = elim (Bool-cases (is_decimal_parts parts)) [
  | inr e ↦ absurd (ground arith)
  | inl e ↦ elim (Bool-cases (ltb 2 (length (decimal_part parts)))) [
    | inl f ↦ absurd (ground arith)
    | inr f ↦ (e, ground arith, ground arith, ground arith)
  ]
]

parse_parts_complete :
    (label : Text) (parts : List Text) (n : ℕ) → Parts parts n → parse_parts label parts ≡ parsed n
unfolding parse_parts
parse_parts_complete label parts n (e, f, g, k) = ground arith

pub Parts-spell :
    (s : Text) (parts : List Text) (n : ℕ) → join b'.' parts ≡ s → Parts parts n → Spells s n
unfolding join is_decimal_parts
Parts-spell s [] n e h = absurd (ground arith)
Parts-spell s (i ∷ []) n e (f, g, k, l) = record {
  whole = i;
  decimals = [];
  whole_digits = f;
  decimal_digits = refl;
  few = omega arith;
  spelt = sym (append-nil i ∙ e);
  value = k;
  bounded = l;
}
Parts-spell s (i ∷ [] ∷ []) n e (f, g, k, l) = absurd (ground arith)
Parts-spell s (i ∷ (c ∷ d) ∷ []) n e (f, g, k, l) = record {
  whole = i;
  decimals = c ∷ d;
  whole_digits = (and-eq-true (is_digits i) (is_digits (c ∷ d)) f).0;
  decimal_digits = (and-eq-true (is_digits i) (is_digits (c ∷ d)) f).1;
  few = g;
  spelt = sym e;
  value = k;
  bounded = l;
}
Parts-spell s (i ∷ j ∷ k ∷ ps) n e h = absurd (ground arith)

digits_all : (s : Text) → is_digits s ≡ true → all is_digit s ≡ true
unfolding is_digits
digits_all s h = ground arith

digits_more : (c : ℕ) (d : Text) → all is_digit (c ∷ d) ≡ true → is_digits (c ∷ d) ≡ true
unfolding is_digits
digits_more c d p = p

pub spelt_split :
    (i d : Text) (n : ℕ)
    → is_digits i ≡ true
    → all is_digit d ≡ true
    → length d ≤ 2
    → n ≡ cents_of i d
    → n ≤ 999999999999
    → Parts (split b'.' (i ++ point d)) n
unfolding is_decimal_parts
spelt_split i [] n h p few v b = rw (append-nil i, split_digits i (digits_all i h)) (h, few, v, b)
spelt_split i (c ∷ d) n h p few v b =
    rw (split_digits_point i (c ∷ d) (digits_all i h), split_digits (c ∷ d) p)
      (rw h (digits_more c d p), few, v, b)

pub spelt_start :
    (i d : Text)
    → is_digits i ≡ true
    → (is_empty (i ++ d) ≡ false) × (starts_with (codes "-") (i ++ d) ≡ false)
unfolding is_digits is_digit starts_with
spelt_start [] d h = absurd (ground arith)
spelt_start (c ∷ i) d h = (refl, ground arith)

-- An amount is read from a text exactly when, without the space around it, the text is digits with
-- at most two decimals behind a point and denotes at most 9999999999.99; it is read as the
-- hundredths that the digits denote.
pub parse_payment_amount_iff :
    (value label : Text) (n : ℕ)
    → (parse_payment_amount value label ≡ parsed n) ↔ Spells (trim value) n
unfolding parse_payment_amount
parse_payment_amount_iff value label n = (sound, complete)
  where
    sound : parse_payment_amount value label ≡ parsed n → Spells (trim value) n
    sound h =
        let parts = split b'.' (trim value) in
        Parts-spell (trim value) parts n (join-split b'.' (trim value))
          (parse_parts_sound label parts n (ground arith))

    complete : Spells (trim value) n → parse_payment_amount value label ≡ parsed n
    complete h =
        let (some_unit, unsigned) = spelt_start h.whole (point h.decimals) h.whole_digits in
        let parts =
          spelt_split h.whole h.decimals n h.whole_digits h.decimal_digits h.few h.value
            h.bounded in
        rw (h.spelt, some_unit, unsigned)
          (parse_parts_complete label (split b'.' (h.whole ++ point h.decimals)) n parts)
