-- ===== src/Pedidos/OrderValidation/Creation.antt =====
-- order-validation.ts, `validatePedidoInput`: what an order is made from.
pub mod Sound
use godel_design.Prelude.{
  ℕ, zero, suc, ◌+◌, ◌/◌, ◌%◌, List, [], ◌∷◌, ◌++◌, Bool, true, false, not, ◌&&◌, ◌||◌, ltb, leb,
  ◌==◌, if◌then◌else◌, is_empty, any, all, find, length, Option, some, none,
}
use godel_design.Database.{WorkflowType, encargo, impresion}
use godel_design.JsNumber.{Number, nan, infinite, finite, is_safe_integer, digits_value, to_number}
use godel_design.JsText.{Text, codes, is_digit, join, text_eq}
use godel_design.Validators.Form.{
  Unknown, ValidationResult, success, failure, has_field_errors, normalize_single_line_text,
  normalize_optional_single_line_text, normalize_multiline_text, normalize_optional_multiline_text,
}
use godel_design.Validators.Date.{
  FutureDateResult, valid, empty, invalid, past, validate_optional_future_date,
}
use godel_design.Validators.Uuid.{is_valid_uuid}
use godel_design.Pedidos.OrderValidation.{
  PedidoField, cliente_id, title, description, estimated_delivery_date, print_copies,
  print_color_mode, print_paper_size, print_sides, print_notes, FieldErrors, error_on,
  validate_pedido_total_amount, amount_or_zero, amount_errors, priority_errors, required_errors,
  max_titulo_length, max_descripcion_length, long_title, long_description,
}

-- The values of the options with their labels.
abbrev pub print_color_mode_options : List (Text × Text)
print_color_mode_options =
    (codes "blanco_negro", codes "Blanco y negro") ∷ (codes "color", codes "Color") ∷ []

abbrev pub print_paper_size_options : List (Text × Text)
print_paper_size_options =
    (codes "carta", codes "Carta")
    ∷ (codes "a4", codes "A4")
    ∷ (codes "oficio", codes "Oficio")
    ∷ (codes "otro", codes "Otro")
    ∷ []

abbrev pub print_sides_options : List (Text × Text)
print_sides_options =
    (codes "una_cara", codes "Una cara") ∷ (codes "doble_cara", codes "Doble cara") ∷ []

unfoldable pub is_option_value : Text → List (Text × Text) → Bool
unfolding text_eq
is_option_value value options = any (λ o. text_eq o.0 value) options

abbrev label_or : Text → Option (Text × Text) → Text
label_or value none = value
label_or value (some o) = o.1

unfoldable pub get_option_label : Text → List (Text × Text) → Text
unfolding text_eq
get_option_label value options = label_or value (find (λ o. text_eq o.0 value) options)

pub record CreatePedidoInput : Type 0 where
  pub cliente_id : Unknown
  pub title : Unknown
  pub description : Unknown
  pub total_amount : Unknown
  pub priority : Unknown
  pub estimated_delivery_date : Unknown
  pub print_copies : Unknown
  pub print_color_mode : Unknown
  pub print_paper_size : Unknown
  pub print_sides : Unknown
  pub print_notes : Unknown

pub record PedidoResolvedService : Type 0 where
  pub id : Text
  pub name : Text
  pub workflow_type : WorkflowType

pub record PrintData : Type 0 where
  pub copies : ℕ
  pub color_mode : Text
  pub paper_size : Text
  pub sides : Text
  pub notes : Option Text

pub record CreatePedidoData : Type 0 where
  pub service_id : Text
  pub workflow_type : WorkflowType
  pub cliente_id : Option Text
  pub title : Text
  pub description : Text
  pub total_amount : ℕ
  pub priority : Text
  pub estimated_delivery_date : Option Text
  -- What an order of the workflow for printing has besides.
  pub print_data : Option PrintData

-- The input after its values were normalised.
pub record NormalizedInput : Type 0 where
  pub cliente_id : Option Text
  pub title : Text
  pub description : Text
  pub priority : Text
  pub estimated_delivery_date : Option Text
  pub copies : Text
  pub color_mode : Text
  pub paper_size : Text
  pub sides : Text
  pub notes : Option Text

unfoldable pub normalize_input : CreatePedidoInput → NormalizedInput
unfolding normalize_single_line_text normalize_optional_single_line_text normalize_multiline_text
    normalize_optional_multiline_text
normalize_input input = record {
  cliente_id = normalize_optional_single_line_text input.cliente_id;
  title = normalize_single_line_text input.title;
  description = normalize_multiline_text input.description;
  priority = normalize_single_line_text input.priority;
  estimated_delivery_date = normalize_optional_single_line_text input.estimated_delivery_date;
  copies = normalize_single_line_text input.print_copies;
  color_mode = normalize_single_line_text input.print_color_mode;
  paper_size = normalize_single_line_text input.print_paper_size;
  sides = normalize_single_line_text input.print_sides;
  notes = normalize_optional_multiline_text input.print_notes;
}

unfoldable pub cliente_errors : Option Text → FieldErrors
unfolding is_valid_uuid
cliente_errors none = []
cliente_errors (some id) =
    if not (is_empty id) && not (is_valid_uuid id)
    then error_on cliente_id (codes "Selecciona un cliente válido o deja el campo vacío.")
    else []

abbrev future_errors : FutureDateResult → FieldErrors
future_errors invalid = error_on estimated_delivery_date (codes "Selecciona una fecha válida.")
future_errors past =
    error_on estimated_delivery_date
      (codes "La fecha estimada de entrega no puede estar en el pasado.")
future_errors _ = []

-- An absent date is not looked at, and neither is an empty one, which the test calls empty.
unfoldable pub delivery_errors : Option Text → (today : Text) → FieldErrors
unfolding validate_optional_future_date
delivery_errors date today = future_errors (validate_optional_future_date date today)

-- `/^[1-9]\d*$/`.
abbrev pub is_positive_digits : Text → Bool
is_positive_digits [] = false
is_positive_digits (c ∷ s) = leb b'1' c && leb c b'9' && all (λ d. leb b'0' d && leb d b'9') s

abbrev pub max_print_copies : ℕ
max_print_copies = 10000

-- `!Number.isSafeInteger(copies) || copies > MAX_PRINT_COPIES`.
abbrev pub is_out_of_range : Number → Bool
is_out_of_range nan = true
is_out_of_range (infinite negative) = true
is_out_of_range (finite negative whole fraction) =
    not (is_safe_integer (finite negative whole fraction))
    || (not negative && ltb max_print_copies whole)

unfoldable pub copies_errors : Text → FieldErrors
unfolding to_number
copies_errors value =
    if is_empty value
    then error_on print_copies (codes "Indica la cantidad de copias.")
    else if not (is_positive_digits value)
    then error_on print_copies (codes "Ingresa una cantidad de copias válida.")
    else if is_out_of_range (to_number (digits_value 0 value))
    then error_on print_copies (codes "La cantidad de copias debe estar entre 1 y 10000.")
    else []

unfoldable pub option_errors : PedidoField → Text → Text → List (Text × Text) → FieldErrors
unfolding is_option_value
option_errors field message value options =
    if not (is_option_value value options) then error_on field message else []

notes_errors : Option Text → FieldErrors
notes_errors none = []
notes_errors (some notes) =
    if not (is_empty notes) && ltb 1000 (length notes)
    then error_on print_notes (codes "Las observaciones no pueden superar 1000 caracteres.")
    else []

encargo_errors : NormalizedInput → FieldErrors
encargo_errors values =
    required_errors title max_titulo_length (codes "El título del trabajo es obligatorio.")
      long_title values.title
    ++ required_errors description max_descripcion_length (codes "La descripción es obligatoria.")
        long_description values.description

impresion_errors : NormalizedInput → FieldErrors
unfolding copies_errors option_errors notes_errors
impresion_errors values =
    (if ltb max_titulo_length (length values.title) then error_on title long_title else [])
    ++ copies_errors values.copies
    ++ option_errors print_color_mode (codes "Selecciona el modo de color.") values.color_mode
        print_color_mode_options
    ++ option_errors print_paper_size (codes "Selecciona el tamaño de papel.") values.paper_size
        print_paper_size_options
    ++ option_errors print_sides (codes "Selecciona si será a una cara o doble cara.") values.sides
        print_sides_options
    ++ notes_errors values.notes

abbrev workflow_errors : WorkflowType → NormalizedInput → FieldErrors
unfolding encargo_errors impresion_errors
workflow_errors encargo values = encargo_errors values
workflow_errors impresion values = impresion_errors values

unfoldable pub create_errors : CreatePedidoInput → WorkflowType → (today : Text) → FieldErrors
unfolding normalize_input cliente_errors priority_errors validate_pedido_total_amount
    delivery_errors workflow_errors
create_errors input workflow today =
    let values = normalize_input input in
    cliente_errors values.cliente_id
    ++ priority_errors values.priority
    ++ amount_errors (validate_pedido_total_amount input.total_amount)
    ++ delivery_errors values.estimated_delivery_date today
    ++ workflow_errors workflow values

-- The decimal digits of a number; a safe integer has at most 16.
unfoldable pub show_number : (fuel : ℕ) → ℕ → Text → Text
show_number zero n rest = rest
show_number (suc fuel) n rest =
    let digit = n % 10 + b'0' in
    let more = show_number fuel (n / 10) (digit ∷ rest) in if ltb n 10 then digit ∷ rest else more

abbrev or_no_notes : Option Text → Text
or_no_notes none = codes "Sin observaciones."
or_no_notes (some notes) = notes

unfoldable pub build_print_description : (service_name : Text) → PrintData → Text
unfolding show_number get_option_label join
build_print_description service_name p = join 0xa (
    (codes "Tipo de trabajo: " ++ service_name)
    ∷ []
    ∷ (codes "Cantidad de copias: " ++ show_number 16 p.copies [])
    ∷ (codes "Modo de color: " ++ get_option_label p.color_mode print_color_mode_options)
    ∷ (codes "Tamaño de papel: " ++ get_option_label p.paper_size print_paper_size_options)
    ∷ (codes "Caras: " ++ get_option_label p.sides print_sides_options)
    ∷ []
    ∷ codes "Observaciones:"
    ∷ or_no_notes p.notes
    ∷ [])

-- `title || DEFAULT_PRINT_TITLE`.
abbrev or_default_title : Text → Text
or_default_title value = if is_empty value then codes "Pedido de impresión" else value

abbrev pub whole_of : Number → ℕ
whole_of (finite negative whole fraction) = whole
whole_of _ = 0

unfoldable pub print_data_of : NormalizedInput → PrintData
unfolding to_number
print_data_of values = record {
  copies = whole_of (to_number (digits_value 0 values.copies));
  color_mode = values.color_mode;
  paper_size = values.paper_size;
  sides = values.sides;
  notes = values.notes;
}

unfoldable pub create_data : CreatePedidoInput → PedidoResolvedService → CreatePedidoData
unfolding normalize_input validate_pedido_total_amount build_print_description print_data_of
create_data input service =
    let values = normalize_input input in
    let printed = print_data_of values in
    let common : CreatePedidoData = record {
      service_id = service.id;
      workflow_type = service.workflow_type;
      cliente_id = values.cliente_id;
      title = values.title;
      description = values.description;
      total_amount = amount_or_zero (validate_pedido_total_amount input.total_amount);
      priority = values.priority;
      estimated_delivery_date = values.estimated_delivery_date;
      print_data = none;
    } in
    elim service.workflow_type [
      | encargo ↦ common
      | impresion ↦ record common {
        title = or_default_title values.title;
        description = build_print_description service.name printed;
        print_data = some printed;
      }
    ]

unfoldable pub validate_pedido_input :
    CreatePedidoInput
    → PedidoResolvedService
    → (today : Text) → ValidationResult CreatePedidoData FieldErrors
unfolding create_errors create_data
validate_pedido_input input service today =
    let errors = create_errors input service.workflow_type today in
    if has_field_errors errors then failure errors else success (create_data input service)
