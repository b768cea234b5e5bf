-- ===== src/Pedidos/Payments.antt =====
-- src/lib/pedidos/payment-validation.ts, payment-errors.ts and payment-mappers.ts. A number that a
-- text of at most two decimals denotes stands here as its hundredths: every double that the code
-- computes from one up to its limit lies nearer to that number of hundredths than to any other, so
-- that `Math.round(value * 100)` gives it back, and the comparisons come out as on the hundredths.
pub mod Grammar
use godel_design.Prelude.{
  ℕ, zero, suc, ◌+◌, ◌-◌, ◌*◌, ◌^◌, List, [], ◌∷◌, ◌++◌, Bool, true, false, not, ◌&&◌, ◌||◌, ltb,
  leb, ◌==◌, if◌then◌else◌, is_empty, all, length, find, Option, some, none,
}
use godel_design.Database.{PedidoPagoEstado}
use godel_design.JsNumber.{is_digits, digits_value}
use godel_design.Backend.{mentions}
use godel_design.JsText.{Text, codes, is_digit, trim, split, starts_with, includes}

pub data ParsedPaymentAmount : Type 0 where
  parsed : (cents : ℕ) → ParsedPaymentAmount
  refused : (error : Text) → ParsedPaymentAmount

-- 9999999999.99.
abbrev pub max_payment_cents : ℕ
max_payment_cents = 999999999999

pub record PaymentValues : Type 0 where
  pub paid_cash_amount : Text
  pub paid_transfer_amount : Text

unfoldable pub get_update_pedido_payment_values : Text → Text → PaymentValues
unfolding trim
get_update_pedido_payment_values cash transfer = record {
  paid_cash_amount = trim cash;
  paid_transfer_amount = trim transfer;
}

-- `/^\d+(?:\.\d+)?$/`, read off the parts between the dots.
unfoldable pub is_decimal_parts : List Text → Bool
unfolding is_digits
is_decimal_parts (whole ∷ []) = is_digits whole
is_decimal_parts (whole ∷ decimals ∷ []) = is_digits whole && is_digits decimals
is_decimal_parts _ = false

-- `const [, decimalPart = ""] = …` and the part before it.
abbrev pub whole_part : List Text → Text
whole_part [] = []
whole_part (whole ∷ _) = whole

abbrev pub decimal_part : List Text → Text
decimal_part (_ ∷ decimals ∷ _) = decimals
decimal_part _ = []

-- `Number(normalized)` in hundredths, of a text with at most two decimals.
abbrev pub cents_of : Text → Text → ℕ
cents_of whole [] = digits_value 0 whole * 100
cents_of whole (c ∷ []) = digits_value 0 whole * 100 + (c - b'0') * 10
cents_of whole (c ∷ d ∷ _) = digits_value 0 whole * 100 + (c - b'0') * 10 + (d - b'0')

-- From here on a number is read as infinity.
abbrev pub infinite_cents : ℕ
infinite_cents = 100 * (2 ^ 1024 - 2 ^ 970)

abbrev about : Text → Text → Text
about label rest = codes "El monto pagado " ++ label ++ rest

-- The tests from the form of the text on.
parse_parts : Text → List Text → ParsedPaymentAmount
unfolding is_decimal_parts
parse_parts label parts =
    let cents = cents_of (whole_part parts) (decimal_part parts) in
    if not (is_decimal_parts parts)
    then refused (about label (codes " debe ser un número válido."))
    else if ltb 2 (length (decimal_part parts))
    then refused (about label (codes " no puede tener más de 2 decimales."))
    else if leb infinite_cents cents
    then refused (about label (codes " debe ser un número válido."))
    else if ltb max_payment_cents cents
    then refused (about label (codes " supera el máximo permitido."))
    else parsed cents

unfoldable pub parse_payment_amount : Text → (field_label : Text) → ParsedPaymentAmount
unfolding trim split starts_with parse_parts
parse_payment_amount value label =
    let normalized = trim value in
    if is_empty normalized
    then refused (about label (codes " es obligatorio."))
    else if starts_with (codes "-") normalized
    then refused (about label (codes " no puede ser negativo."))
    else parse_parts label (split b'.' normalized)

-- `fieldErrors` of a failure.
pub record PaymentFieldErrors : Type 0 where
  pub pedido_id : Option Text
  pub paid_cash_amount : Option Text
  pub paid_transfer_amount : Option Text

abbrev pub amount_error : ParsedPaymentAmount → Option Text
amount_error (parsed cents) = none
amount_error (refused error) = some error

abbrev pub get_payment_amount_field_errors :
    ParsedPaymentAmount → ParsedPaymentAmount → PaymentFieldErrors
get_payment_amount_field_errors cash transfer = record {
  pedido_id = none;
  paid_cash_amount = amount_error cash;
  paid_transfer_amount = amount_error transfer;
}

abbrev is_present : Option Text → Bool
is_present none = false
is_present (some _) = true

abbrev pub has_payment_field_errors : PaymentFieldErrors → Bool
has_payment_field_errors errors =
    is_present errors.pedido_id
    || is_present errors.paid_cash_amount
    || is_present errors.paid_transfer_amount

-- The total of the order is given in hundredths as well.
abbrev pub is_payment_total_exceeded : ParsedPaymentAmount → ParsedPaymentAmount → ℕ → Bool
is_payment_total_exceeded (parsed cash) (parsed transfer) total = ltb total (cash + transfer)
is_payment_total_exceeded _ _ total = false

abbrev exceeded_message : Text
exceeded_message = codes "La suma de efectivo y transferencia supera el total."

abbrev pub get_payment_total_exceeded_field_errors : PaymentFieldErrors
get_payment_total_exceeded_field_errors = record {
  pedido_id = none;
  paid_cash_amount = some exceeded_message;
  paid_transfer_amount = some exceeded_message;
}

-- The amount that is sent to the database.
abbrev pub amount_or_zero : ParsedPaymentAmount → ℕ
amount_or_zero (parsed cents) = cents
amount_or_zero (refused error) = 0

abbrev pub generic_payment_update_error : Text
generic_payment_update_error =
    codes "No se pudo actualizar el pago del pedido. Inténtalo nuevamente."

abbrev pub safe_rpc_payment_messages : List Text
safe_rpc_payment_messages =
    codes "El monto pagado en efectivo es obligatorio"
    ∷ codes "El monto pagado por transferencia es obligatorio"
    ∷ codes "El monto pagado en efectivo no puede ser negativo"
    ∷ codes "El monto pagado por transferencia no puede ser negativo"
    ∷ codes "El monto pagado en efectivo no puede tener mas de 2 decimales"
    ∷ codes "El monto pagado por transferencia no puede tener mas de 2 decimales"
    ∷ codes "El monto pagado en efectivo supera el maximo permitido"
    ∷ codes "El monto pagado por transferencia supera el maximo permitido"
    ∷ codes "El total pagado no puede superar el total del pedido"
    ∷ []

unfoldable pub get_safe_rpc_payment_error_message : Option Text → Text
unfolding mentions
get_safe_rpc_payment_error_message message =
    elim (find (mentions message) safe_rpc_payment_messages) [
      | none ↦ generic_payment_update_error
      | some safe ↦ safe
    ]

-- The columns of `pedido_pagos` that the service reads, the amounts in hundredths.
pub record PaymentRow : Type 0 where
  pub total_amount : ℕ
  pub paid_cash_amount : ℕ
  pub paid_transfer_amount : ℕ
  pub payment_status : PedidoPagoEstado
  pub paid_at : Option Text

pub record UpdatedPedidoPayment : Type 0 where
  pub row : PaymentRow
  pub paid_total_amount : ℕ
  pub pending_amount : ℕ

-- The subtraction stops at 0, as `Math.max(0, …)` does.
abbrev pub map_updated_pedido_payment : PaymentRow → UpdatedPedidoPayment
map_updated_pedido_payment row =
    let paid = row.paid_cash_amount + row.paid_transfer_amount in
    record { row = row; paid_total_amount = paid; pending_amount = row.total_amount - paid }
