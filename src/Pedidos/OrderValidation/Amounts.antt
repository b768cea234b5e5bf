-- ===== src/Pedidos/OrderValidation/Amounts.antt =====
-- order-validation.ts: the total of an order is read as the amounts of its payment are.
use godel_design.Prelude.{
  ℕ, List, [], ◌∷◌, ◌++◌, ◌&&◌, leb, length, ◌≡◌, ◌↔◌, refl, arith, inl, inr, Bool-cases,
}
use godel_design.JsText.{Text, split}
use godel_design.JsText.Parts.{join-split}
use godel_design.Validators.Form.{Unknown, normalize_single_line_text}
use godel_design.Pedidos.Payments.{is_decimal_parts, decimal_part}
use godel_design.Pedidos.Payments.Grammar.{
  Spells, Parts, point, Parts-spell, spelt_split, spelt_start,
}
use godel_design.Pedidos.OrderValidation.{
  accepted, is_cents_parts, total_parts, validate_pedido_total_amount,
}

cents_parts :
    (parts : List Text)
    → is_cents_parts parts ≡ (is_decimal_parts parts && leb (length (decimal_part parts)) 2)
unfolding is_cents_parts is_decimal_parts
cents_parts [] = refl
cents_parts (whole ∷ []) = ground arith
cents_parts (whole ∷ decimals ∷ []) = ground arith
cents_parts (a ∷ b ∷ c ∷ ps) = refl

total_parts_sound : (parts : List Text) (n : ℕ) → total_parts parts ≡ accepted n → Parts parts n
unfolding total_parts
total_parts_sound parts n h = elim (Bool-cases (is_decimal_parts parts)) [
  | inr e ↦ absurd (ground arith)
  | inl e ↦ elim (Bool-cases (is_cents_parts parts)) [
    | inr f ↦ absurd (ground arith)
    | inl f ↦ (e, ground (arith, cents_parts parts), ground arith, ground arith)
  ]
]

total_parts_complete : (parts : List Text) (n : ℕ) → Parts parts n → total_parts parts ≡ accepted n
unfolding total_parts
total_parts_complete parts n (e, f, g, k) = ground (arith, cents_parts parts)

-- The total of an order is accepted exactly when, normalised to one line, its text is digits with at
-- most two decimals behind a point and denotes at most 9999999999.99; it is the hundredths that the
-- digits denote.
validate_pedido_total_amount_iff :
    (value : Unknown) (n : ℕ)
    → (validate_pedido_total_amount value ≡ accepted n)
      ↔ Spells (normalize_single_line_text value) n
unfolding validate_pedido_total_amount
validate_pedido_total_amount_iff value n = (sound, complete)
  where
    sound :
        validate_pedido_total_amount value ≡ accepted n
        → Spells (normalize_single_line_text value) n
    sound h =
        let text = normalize_single_line_text value in
        Parts-spell text (split b'.' text) n (join-split b'.' text)
          (total_parts_sound (split b'.' text) n (ground arith))

    complete :
        Spells (normalize_single_line_text value) n
        → validate_pedido_total_amount value ≡ accepted n
    complete h =
        let (some_unit, unsigned) = spelt_start h.whole (point h.decimals) h.whole_digits in
        let parts =
          spelt_split h.whole h.decimals n h.whole_digits h.decimal_digits h.few h.value
            h.bounded in
        rw (h.spelt, some_unit, unsigned)
          (total_parts_complete (split b'.' (h.whole ++ point h.decimals)) n parts)
