-- ===== src/Solicitudes/PublicRequest.antt =====
-- src/lib/solicitudes/public-request-validation.ts with its files -types, -common, -encargo and
-- -impresion: the form by which a customer asks for work. The errors are the fields with their
-- messages in the order in which they are found; the day of today is an argument.
pub mod Accepted
use godel_design.Prelude.{
  ℕ, List, [], ◌∷◌, ◌++◌, Bool, true, false, not, ◌&&◌, ltb, if◌then◌else◌, is_empty, length,
  Option, some, none,
}
use godel_design.Database.{WorkflowType, encargo, impresion}
use godel_design.JsNumber.{digits_value, to_number}
use godel_design.JsText.{Text, codes, join}
use godel_design.Validators.Form.{
  Unknown, ValidationResult, success, failure, has_field_errors, normalize_single_line_text,
  normalize_optional_single_line_text, normalize_multiline_text, normalize_optional_multiline_text,
  is_basic_email,
}
use godel_design.Validators.Date.{
  FutureDateResult, valid, empty, invalid, past, validate_optional_future_date,
}
use godel_design.Pedidos.OrderValidation.Creation.{
  PedidoResolvedService, print_color_mode_options, print_paper_size_options, print_sides_options,
  is_option_value, get_option_label, is_positive_digits, is_out_of_range, whole_of, show_number,
}

pub data PublicField : Type 0 where
  service_id client_name client_phone client_email description desired_date : PublicField
  notes print_copies print_color_mode print_paper_size print_sides files : PublicField

abbrev pub FieldErrors : Type 0
FieldErrors = List (PublicField × Text)

abbrev pub error_on : PublicField → Text → FieldErrors
error_on field message = (field, message) ∷ []

pub record PublicInput : Type 0 where
  pub service_id : Unknown
  pub client_name : Unknown
  pub client_phone : Unknown
  pub client_email : Unknown
  pub description : Unknown
  pub desired_date : Unknown
  pub notes : Unknown
  pub print_copies : Unknown
  pub print_color_mode : Unknown
  pub print_paper_size : Unknown
  pub print_sides : Unknown
  pub has_files : Bool

pub record NormalizedPublicInput : Type 0 where
  pub service_id : Text
  pub client_name : Text
  pub client_phone : Text
  pub client_email : Option Text
  pub description : Text
  pub desired_date : Option Text
  pub notes : Option Text
  pub has_files : Bool
  pub copies : Text
  pub color_mode : Text
  pub paper_size : Text
  pub sides : Text

unfoldable pub normalize_public_input : PublicInput → NormalizedPublicInput
unfolding normalize_single_line_text normalize_optional_single_line_text normalize_multiline_text
    normalize_optional_multiline_text
normalize_public_input input = record {
  service_id = normalize_single_line_text input.service_id;
  client_name = normalize_single_line_text input.client_name;
  client_phone = normalize_single_line_text input.client_phone;
  client_email = normalize_optional_single_line_text input.client_email;
  description = normalize_multiline_text input.description;
  desired_date = normalize_optional_single_line_text input.desired_date;
  notes = normalize_optional_multiline_text input.notes;
  has_files = input.has_files;
  copies = normalize_single_line_text input.print_copies;
  color_mode = normalize_single_line_text input.print_color_mode;
  paper_size = normalize_single_line_text input.print_paper_size;
  sides = normalize_single_line_text input.print_sides;
}

-- A text that is required and limited in length, with its two messages.
abbrev pub required_errors : PublicField → ℕ → (missing long : Text) → Text → FieldErrors
required_errors field limit missing long value =
    if is_empty value
    then error_on field missing
    else if ltb limit (length value)
    then error_on field long
    else []

unfoldable pub email_errors : Option Text → FieldErrors
unfolding is_basic_email
email_errors none = []
email_errors (some email) =
    if is_empty email
    then []
    else if ltb 254 (length email)
    then error_on client_email (codes "El correo es demasiado largo.")
    else if not (is_basic_email email)
    then error_on client_email (codes "Ingresa un correo válido.")
    else []

unfoldable pub notes_errors : Option Text → FieldErrors
notes_errors none = []
notes_errors (some s) =
    if not (is_empty s) && ltb 1000 (length s)
    then error_on notes (codes "Las observaciones son demasiado largas.")
    else []

unfoldable pub common_errors : NormalizedPublicInput → FieldErrors
unfolding email_errors notes_errors
common_errors input =
    required_errors client_name 120 (codes "Ingresa el nombre del cliente.")
      (codes "El nombre es demasiado largo.") input.client_name
    ++ required_errors client_phone 40 (codes "Ingresa un teléfono de contacto.")
        (codes "El teléfono es demasiado largo.") input.client_phone
    ++ email_errors input.client_email
    ++ notes_errors input.notes

abbrev pub future_errors : FutureDateResult → FieldErrors
future_errors invalid = error_on desired_date (codes "Ingresa una fecha válida.")
future_errors past = error_on desired_date (codes "La fecha deseada no puede ser anterior a hoy.")
future_errors _ = []

-- An absent date is not looked at, and neither is an empty one, which the test calls empty.
unfoldable pub encargo_errors : NormalizedPublicInput → (today : Text) → FieldErrors
unfolding validate_optional_future_date
encargo_errors input today =
    required_errors description 2000 (codes "Describe el trabajo solicitado.")
      (codes "La descripción es demasiado larga.") input.description
    ++ future_errors (validate_optional_future_date input.desired_date today)

unfoldable pub copies_errors : Text → FieldErrors
unfolding to_number
copies_errors value =
    if not (is_positive_digits value)
    then error_on print_copies (codes "Ingresa una cantidad de copias válida.")
    else if is_out_of_range (to_number (digits_value 0 value))
    then error_on print_copies (codes "La cantidad de copias debe estar entre 1 y 10000.")
    else []

unfoldable pub option_errors : PublicField → Text → Text → List (Text × Text) → FieldErrors
unfolding is_option_value
option_errors field message value options =
    if not (is_option_value value options) then error_on field message else []

abbrev pub files_errors : Bool → FieldErrors
files_errors has_files =
    if not has_files
    then error_on files
        (codes "Para solicitar una impresión debes adjuntar el documento a imprimir.")
    else []

unfoldable pub impresion_errors : NormalizedPublicInput → FieldErrors
unfolding copies_errors option_errors
impresion_errors input =
    copies_errors input.copies
    ++ option_errors print_color_mode (codes "Selecciona el modo de color.") input.color_mode
        print_color_mode_options
    ++ option_errors print_paper_size (codes "Selecciona el tamaño de papel.") input.paper_size
        print_paper_size_options
    ++ option_errors print_sides (codes "Selecciona la cantidad de caras.") input.sides
        print_sides_options
    ++ files_errors input.has_files

pub record PrintRequest : Type 0 where
  pub copies : ℕ
  pub color_mode : Text
  pub paper_size : Text
  pub sides : Text

pub record PublicData : Type 0 where
  pub service_id : Text
  pub workflow_type : WorkflowType
  pub client_name : Text
  pub client_phone : Text
  pub client_email : Option Text
  pub description : Text
  pub desired_date : Option Text
  pub notes : Option Text
  -- What a request for printing has besides.
  pub print_request : Option PrintRequest

abbrev or_no_notes : Option Text → Text
or_no_notes none = codes "Sin observaciones."
or_no_notes (some s) = s

unfoldable pub build_print_description : (service_name : Text) → PrintRequest → Option Text → Text
unfolding show_number get_option_label join
build_print_description service_name p s = join 0xa (
    (codes "Tipo de trabajo: " ++ service_name)
    ∷ []
    ∷ (codes "Cantidad de copias: " ++ show_number 16 p.copies [])
    ∷ (codes "Modo de color: " ++ get_option_label p.color_mode print_color_mode_options)
    ∷ (codes "Tamaño de papel: " ++ get_option_label p.paper_size print_paper_size_options)
    ∷ (codes "Caras: " ++ get_option_label p.sides print_sides_options)
    ∷ []
    ∷ codes "Observaciones:"
    ∷ or_no_notes s
    ∷ [])

unfoldable pub print_request_of : NormalizedPublicInput → PrintRequest
unfolding to_number
print_request_of input = record {
  copies = whole_of (to_number (digits_value 0 input.copies));
  color_mode = input.color_mode;
  paper_size = input.paper_size;
  sides = input.sides;
}

unfoldable pub build_encargo_data : NormalizedPublicInput → PedidoResolvedService → PublicData
build_encargo_data input service = record {
  service_id = service.id;
  workflow_type = encargo;
  client_name = input.client_name;
  client_phone = input.client_phone;
  client_email = input.client_email;
  description = input.description;
  desired_date = input.desired_date;
  notes = input.notes;
  print_request = none;
}

unfoldable pub build_impresion_data : NormalizedPublicInput → PedidoResolvedService → PublicData
unfolding build_print_description print_request_of
build_impresion_data input service = record {
  service_id = service.id;
  workflow_type = impresion;
  client_name = input.client_name;
  client_phone = input.client_phone;
  client_email = input.client_email;
  description = build_print_description service.name (print_request_of input) input.notes;
  desired_date = none;
  notes = input.notes;
  print_request = some (print_request_of input);
}

abbrev pub workflow_errors : WorkflowType → NormalizedPublicInput → (today : Text) → FieldErrors
workflow_errors encargo input today = encargo_errors input today
workflow_errors impresion input today = impresion_errors input

abbrev pub build_data : WorkflowType → NormalizedPublicInput → PedidoResolvedService → PublicData
build_data encargo input service = build_encargo_data input service
build_data impresion input service = build_impresion_data input service

unfoldable pub validate_public_input :
    PublicInput → PedidoResolvedService → (today : Text) → ValidationResult PublicData FieldErrors
unfolding normalize_public_input common_errors encargo_errors impresion_errors build_encargo_data
    build_impresion_data
validate_public_input input service today =
    let values = normalize_public_input input in
    let errors = common_errors values ++ workflow_errors service.workflow_type values today in
    if has_field_errors errors
    then failure errors
    else success (build_data service.workflow_type values service)
