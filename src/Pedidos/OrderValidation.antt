-- ===== src/Pedidos/OrderValidation.antt =====
-- src/lib/pedidos/order-validation.ts: what an order is made from and changed to. The errors of a
-- validation are the fields with their messages in the order in which they are found; each field is
-- set once at most. The day of today is an argument, and amounts are in hundredths.
pub mod Amounts
pub mod Updates
pub mod Creation
use godel_design.Prelude.{
  ℕ, zero, suc, ◌+◌, ◌/◌, ◌%◌, List, [], ◌∷◌, ◌++◌, Bool, true, false, not, ◌&&◌, ◌||◌, ltb, leb,
  ◌==◌, if◌then◌else◌, is_empty, any, all, find, length, Option, some, none,
}
use godel_design.Database.{
  WorkflowType, encargo, impresion, pedido_prioridades, pedido_prioridad_name,
}
use godel_design.JsNumber.{
  Number, nan, infinite, finite, is_safe_integer, is_digits, digits_value, to_number,
}
use godel_design.JsText.{Text, codes, is_digit, split, join, starts_with, text_eq}
use godel_design.Validators.Form.{
  Unknown, ValidationResult, success, failure, has_field_errors, normalize_single_line_text,
  normalize_optional_single_line_text, normalize_multiline_text, normalize_optional_multiline_text,
}
use godel_design.Validators.Date.{
  FutureDateResult, valid, invalid, past, is_valid_iso_date, validate_optional_future_date,
}
use godel_design.Validators.Uuid.{is_valid_uuid}
use godel_design.Pedidos.Payments.{
  is_decimal_parts, whole_part, decimal_part, cents_of, infinite_cents,
}

pub data PedidoField : Type 0 where
  service_id cliente_id title description total_amount priority : PedidoField
  estimated_delivery_date print_copies print_color_mode print_paper_size print_sides : PedidoField
  print_notes : PedidoField

abbrev pub FieldErrors : Type 0
FieldErrors = List (PedidoField × Text)

abbrev pub error_on : PedidoField → Text → FieldErrors
error_on field message = (field, message) ∷ []

pub data TotalAmountResult : Type 0 where
  accepted : (cents : ℕ) → TotalAmountResult
  rejected : (error : Text) → TotalAmountResult

-- `/^\d+(?:\.\d{1,2})?$/`, read off the parts between the dots.
unfoldable pub is_cents_parts : List Text → Bool
unfolding is_digits
is_cents_parts (whole ∷ []) = is_digits whole
is_cents_parts (whole ∷ decimals ∷ []) =
    is_digits whole && is_digits decimals && leb (length decimals) 2
is_cents_parts _ = false

abbrev pub max_total_cents : ℕ
max_total_cents = 999999999999

-- The tests from the form of the text on.
total_parts : List Text → TotalAmountResult
unfolding is_decimal_parts is_cents_parts
total_parts parts =
    let cents = cents_of (whole_part parts) (decimal_part parts) in
    if not (is_decimal_parts parts)
    then rejected (codes "El precio total debe ser un número válido.")
    else if not (is_cents_parts parts)
    then rejected (codes "El precio total no puede tener más de 2 decimales.")
    else if leb infinite_cents cents
    then rejected (codes "El precio total debe ser un número válido.")
    else if ltb max_total_cents cents
    then rejected (codes "El precio total supera el máximo permitido.")
    else accepted cents

unfoldable pub validate_pedido_total_amount : Unknown → TotalAmountResult
unfolding normalize_single_line_text split starts_with total_parts
validate_pedido_total_amount value =
    let text = normalize_single_line_text value in
    if is_empty text
    then rejected (codes "El precio total es obligatorio.")
    else if starts_with (codes "-") text
    then rejected (codes "El precio total no puede ser negativo.")
    else total_parts (split b'.' text)

unfoldable pub is_pedido_prioridad : Text → Bool
unfolding text_eq pedido_prioridad_name
is_pedido_prioridad value = any (λ p. text_eq value (pedido_prioridad_name p)) pedido_prioridades

-- `totalAmountValidation.ok ? totalAmountValidation.value : 0`.
abbrev pub amount_or_zero : TotalAmountResult → ℕ
amount_or_zero (accepted cents) = cents
amount_or_zero (rejected error) = 0

abbrev pub amount_errors : TotalAmountResult → FieldErrors
amount_errors (accepted cents) = []
amount_errors (rejected error) = error_on total_amount error

unfoldable pub priority_errors : Text → FieldErrors
unfolding is_pedido_prioridad
priority_errors value =
    if not (is_pedido_prioridad value)
    then error_on priority (codes "Selecciona una prioridad válida.")
    else []

-- A text that is required and limited in length, with its two messages.
abbrev pub required_errors : PedidoField → ℕ → (missing long : Text) → Text → FieldErrors
required_errors field limit missing long value =
    if is_empty value
    then error_on field missing
    else if ltb limit (length value)
    then error_on field long
    else []

abbrev pub max_titulo_length : ℕ
max_titulo_length = 160

abbrev pub max_descripcion_length : ℕ
max_descripcion_length = 3000

abbrev pub long_title : Text
long_title = codes "El título no puede superar 160 caracteres."

abbrev pub long_description : Text
long_description = codes "La descripción no puede superar 3000 caracteres."

pub record UpdatePedidoInput : Type 0 where
  pub service_id : Unknown
  pub title : Unknown
  pub description : Unknown
  pub total_amount : Unknown
  pub priority : Unknown
  pub estimated_delivery_date : Unknown

pub record UpdatePedidoData : Type 0 where
  pub service_id : Text
  pub title : Text
  pub description : Text
  pub total_amount : ℕ
  pub priority : Text
  pub estimated_delivery_date : Option Text

unfoldable pub update_data : UpdatePedidoInput → UpdatePedidoData
unfolding normalize_single_line_text normalize_multiline_text normalize_optional_single_line_text
    validate_pedido_total_amount
update_data input = record {
  service_id = normalize_single_line_text input.service_id;
  title = normalize_single_line_text input.title;
  description = normalize_multiline_text input.description;
  total_amount = amount_or_zero (validate_pedido_total_amount input.total_amount);
  priority = normalize_single_line_text input.priority;
  estimated_delivery_date = normalize_optional_single_line_text input.estimated_delivery_date;
}

unfoldable pub service_errors : Text → FieldErrors
unfolding is_valid_uuid
service_errors value =
    if is_empty value
    then error_on service_id (codes "Selecciona un servicio.")
    else if not (is_valid_uuid value)
    then error_on service_id (codes "Selecciona un servicio válido.")
    else []

unfoldable pub date_errors : Option Text → FieldErrors
unfolding is_valid_iso_date
date_errors none = []
date_errors (some date) =
    if not (is_empty date) && not (is_valid_iso_date date)
    then error_on estimated_delivery_date (codes "Selecciona una fecha válida.")
    else []

unfoldable pub update_errors : UpdatePedidoInput → FieldErrors
unfolding update_data service_errors priority_errors date_errors validate_pedido_total_amount
update_errors input =
    let values = update_data input in
    service_errors values.service_id
    ++ required_errors title max_titulo_length (codes "El título del pedido es obligatorio.")
        long_title values.title
    ++ required_errors description max_descripcion_length
        (codes "La descripción del pedido es obligatoria.") long_description values.description
    ++ priority_errors values.priority
    ++ amount_errors (validate_pedido_total_amount input.total_amount)
    ++ date_errors values.estimated_delivery_date

unfoldable pub validate_pedido_update_input :
    UpdatePedidoInput → ValidationResult UpdatePedidoData FieldErrors
unfolding update_errors update_data
validate_pedido_update_input input =
    let errors = update_errors input in
    if has_field_errors errors then failure errors else success (update_data input)
