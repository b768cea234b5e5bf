-- ===== src/Solicitudes/PublicCreation.antt =====
-- src/lib/solicitudes/public-reference.ts and create-public-solicitud-without-upload.ts, with
-- src/lib/service-types/get-public-service-type-by-id.ts: a customer's request without files is
-- created under a reference that is drawn at random, again where the reference is taken. What is
-- logged is left out.
pub mod References
pub mod Tries
use godel_design.Prelude.{
  ℕ, zero, suc, ◌<◌, List, [], ◌∷◌, ◌++◌, Bool, true, false, not, ◌&&◌, ◌||◌, leb, ◌==◌,
  if◌then◌else◌, is_empty, all, length, take, drop, Option, some, none,
}
use godel_design.Database.{WorkflowType, encargo, impresion}
use godel_design.JsText.{Text, codes, trim, includes, text_eq, starts_with}
use godel_design.JsUnicode.{Unicode}
use godel_design.Backend.{Response, answer, error, threw}
use godel_design.Validators.Form.{Unknown, ValidationResult}
use godel_design.Validators.Uuid.{is_valid_uuid}
use godel_design.Pedidos.OrderValidation.Creation.{PedidoResolvedService}
use godel_design.Solicitudes.PublicRequest.{
  PublicField, FieldErrors, error_on, service_id, PublicInput, PublicData, validate_public_input,
}

abbrev pub public_reference_alphabet : Text
public_reference_alphabet = codes "ABCDEFGHIJKLMNOPQRSTUVWXYZ0123456789"

abbrev pub public_reference_attempts : ℕ
public_reference_attempts = 5

-- `text.charAt(index)`.
abbrev pub char_at : ℕ → Text → Text
char_at n s = take 1 (drop n s)

-- An error of the database, of which three parts are read.
pub record DatabaseError : Type 0 where
  pub code : Option Text
  pub message : Option Text
  pub details : Option Text

pub data CreateAnswer : Type 0 where
  -- The first row, where it has two texts.
  row : Option (Text × Text) → CreateAnswer
  rejected : DatabaseError → CreateAnswer
  failed : CreateAnswer

pub record CreateArguments : Type 0 where
  pub public_reference : Text
  pub service_id : Text
  pub client_name : Text
  pub client_phone : Text
  pub client_email : Option Text
  pub description : Option Text
  pub desired_date : Option Text
  pub notes : Option Text

pub record PublicClient (World : Type 0) : Type 0 where
  -- `randomInt(36)`.
  pub random_int : World → World × ℕ
  -- The service with this id that is publicly available.
  pub find_service : World → Text → Response (Option PedidoResolvedService)
  pub create_client : World → Response (Unit {0})
  -- `rpc("crear_solicitud_publica_sin_archivos", …)`.
  pub create_solicitud : World → CreateArguments → World × CreateAnswer

pub data CreateResult : Type 0 where
  success : (solicitud_id public_reference : Text) → CreateResult
  failure : (validation : Bool) → (message : Text) → FieldErrors → CreateResult

abbrev pub generic_create_error : CreateResult
generic_create_error =
    failure false (codes "No se pudo registrar la solicitud. Inténtalo nuevamente.") []

abbrev text_or_empty : Option Text → Text
text_or_empty none = []
text_or_empty (some s) = s

abbrev is_unique_violation : Option Text → Bool
unfolding text_eq
is_unique_violation none = false
is_unique_violation (some code) = text_eq code (codes "23505")

unfoldable pub is_public_reference_conflict : Unicode → DatabaseError → Bool
unfolding is_unique_violation includes
is_public_reference_conflict u e =
    let s = u.to_lower_case (text_or_empty e.message ++ codes " " ++ text_or_empty e.details) in
    is_unique_violation e.code && includes (codes "public_reference") s

-- The class `[A-Z0-9]`.
abbrev pub is_reference_unit : ℕ → Bool
is_reference_unit c = (leb b'A' c && leb c b'Z') || (leb b'0' c && leb c b'9')

-- `/^GD-[A-Z0-9]{4}-[A-Z0-9]{4}$/`.
unfoldable pub is_public_reference : Text → Bool
unfolding starts_with text_eq
is_public_reference s =
    starts_with (codes "GD-") s
    && length s == 12
    && all is_reference_unit (take 4 (drop 3 s))
    && text_eq (char_at 7 s) (codes "-")
    && all is_reference_unit (drop 8 s)

unfoldable pub parse_created_solicitud : Option (Text × Text) → Option (Text × Text)
unfolding is_valid_uuid is_public_reference
parse_created_solicitud none = none
parse_created_solicitud (some (id, reference)) =
    if not (is_valid_uuid id) || not (is_public_reference reference)
    then none
    else some (id, reference)

-- `value ? { … } : {}`.
abbrev pub given : Option Text → Option Text
given none = none
given (some []) = none
given (some (c ∷ s)) = some (c ∷ s)

abbrev described : PublicData → Option Text × Option Text
described d = elim d.workflow_type [
  | encargo ↦ (some d.description, given d.desired_date)
  | impresion ↦ (none, none)
]

abbrev pub create_arguments : PublicData → (public_reference : Text) → CreateArguments
create_arguments d reference = record {
  public_reference = reference;
  service_id = d.service_id;
  client_name = d.client_name;
  client_phone = d.client_phone;
  client_email = given d.client_email;
  description = (described d).0;
  desired_date = (described d).1;
  notes = given d.notes;
}

abbrev pub service_not_available : Text
service_not_available =
    codes
      "El servicio seleccionado ya no está disponible. Elige otro servicio e inténtalo nuevamente."

abbrev pub generic_get_error : Text
generic_get_error = codes "No pudimos validar el servicio seleccionado. Inténtalo nuevamente."

pub data ServiceAnswer : Type 0 where
  found : PedidoResolvedService → ServiceAnswer
  unavailable : (message : Text) → ServiceAnswer

abbrev read_service : Response (Option PedidoResolvedService) → ServiceAnswer
read_service (answer (some s)) = found s
read_service (answer none) = unavailable service_not_available
read_service _ = unavailable generic_get_error

module _ (u : Unicode) {World : Type 0} (client : PublicClient World) where
  open client use {random_int, find_service, create_client, create_solicitud}

  unfoldable pub get_public_service_type_by_id : World → Text → ServiceAnswer
  unfolding trim is_valid_uuid
  get_public_service_type_by_id w id =
      if not (is_valid_uuid (trim id))
      then unavailable service_not_available
      else read_service (find_service w (trim id))

  -- As many units of the alphabet, drawn one after the other.
  unfoldable pub draw_token : (units : ℕ) → World → World × Text
  draw_token zero w = (w, [])
  draw_token (suc n) w =
      let (w1, index) = random_int w in
      let (w2, token) = draw_token n w1 in (w2, char_at index public_reference_alphabet ++ token)

  unfoldable pub generate_public_reference : World → World × Text
  unfolding draw_token
  generate_public_reference w =
      let (w', token) = draw_token 8 w in
      (w', codes "GD-" ++ take 4 token ++ codes "-" ++ take 4 (drop 4 token))

  abbrev pub created : Option (Text × Text) → CreateResult
  created none = generic_create_error
  created (some (id, reference)) = success id reference

  -- The answer to a try: a conflict, where there are tries left, leads to the next.
  unfoldable pub next_try :
      (left : ℕ) → World → (retry : World × CreateResult) → CreateAnswer → World × CreateResult
  unfolding parse_created_solicitud is_public_reference_conflict
  next_try left w retry (row r) = (w, created (parse_created_solicitud r))
  next_try left w retry (rejected e) =
      if not (left == 0) && is_public_reference_conflict u e
      then retry
      else (w, generic_create_error)
  next_try left w retry failed = (w, generic_create_error)

  unfoldable pub create_loop : (tries : ℕ) → World → PublicData → World × CreateResult
  unfolding generate_public_reference next_try
  create_loop zero w d = (w, generic_create_error)
  create_loop (suc left) w d =
      let (w1, reference) = generate_public_reference w in
      let (w2, a) = create_solicitud w1 (create_arguments d reference) in
      next_try left w2 (create_loop left w2 d) a

  create_validated : World → ValidationResult PublicData FieldErrors → World × CreateResult
  unfolding create_loop
  create_validated w (ValidationResult.failure errors) =
      (w, failure true (codes "Revisa los campos marcados antes de enviar la solicitud.") errors)
  create_validated w (ValidationResult.success d) = elim (create_client w) [
    | answer _ ↦ create_loop public_reference_attempts w d
    | _ ↦ (w, generic_create_error)
  ]

  -- `typeof input.service_id === "string" ? input.service_id : ""`.
  abbrev string_or_empty : Unknown → Text
  string_or_empty (Unknown.str s) = s
  string_or_empty _ = []

  -- `{ ...input, hasFiles: false }`.
  abbrev without_files : PublicInput → PublicInput
  without_files input = record input { has_files = false }

  unfoldable pub create_public_solicitud_without_upload :
      World → PublicInput → (today : Text) → World × CreateResult
  unfolding get_public_service_type_by_id create_validated validate_public_input
  create_public_solicitud_without_upload w input today =
      elim (get_public_service_type_by_id w (string_or_empty input.service_id)) [
        | unavailable message ↦ (w, failure true message (error_on service_id message))
        | found service ↦
            create_validated w (validate_public_input (without_files input) service today)
      ]
