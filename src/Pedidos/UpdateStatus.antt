-- ===== src/Pedidos/UpdateStatus.antt =====
-- src/lib/pedidos/update-internal-pedido-status.ts and ensure-pedido-review-started.ts: the service
-- that moves an order, over the client of the database. What is logged is left out.
pub mod Guards
pub mod EndToEnd
use godel_design.Prelude.{
  ℕ, List, [], ◌∷◌, Bool, true, false, not, ◌&&◌, ◌||◌, if◌then◌else◌, find, Option, some, none,
  ◌≡◌,
}
use godel_design.Database.{AppRole, PedidoEstado, creado, solicitud_recibida}
use godel_design.JsText.{Text, codes, trim, includes, text_eq}
use godel_design.Validators.Uuid.{is_valid_uuid}
use godel_design.Permissions.{pedidos_change_status, has_permission}
use godel_design.Backend.{mentions, Response, answer, error, threw, Profile}
use godel_design.Pedidos.Status.{is_pedido_status, is_pedido_initial_status}

pub record StatusClient (World : Type 0) : Type 0 where
  pub current_profile : World → Option Profile
  -- `from("pedidos").select("id").eq("id", …).maybeSingle()`.
  pub find_pedido : World → Text → Response (Option Text)
  -- The same with the status of the order.
  pub find_status : World → Text → Response (Option PedidoEstado)
  -- `rpc("actualizar_estado_pedido", …)`.
  pub move_pedido : World → Text → PedidoEstado → World × Response (Unit {0})

pub data Reason : Type 0 where
  unauthorized forbidden invalid_id invalid_status not_found transition unexpected : Reason

-- `fieldErrors` of a failure, which names one field at most.
pub data FieldErrors : Type 0 where
  no_field : FieldErrors
  pedido_id status : Text → FieldErrors

pub data ServiceResult (A : Type 0) : Type 0 where
  success : A → ServiceResult A
  failure : Reason → (message : Text) → FieldErrors → ServiceResult A

abbrev generic_status_error : Text
generic_status_error = codes "No se pudo actualizar el estado del pedido. Inténtalo nuevamente."

abbrev missing_pedido : Text
missing_pedido = codes "El pedido solicitado no existe."

abbrev unknown_status : Text
unknown_status = codes "Selecciona un estado válido."

abbrev safe_rpc_status_messages : List Text
safe_rpc_status_messages =
    codes "No se puede pasar a producción sin tareas registradas."
    ∷ codes "No se puede pasar a produccion sin tareas registradas."
    ∷ codes "No se puede marcar como listo para entrega hasta completar todas las tareas."
    ∷ codes "Solo se puede marcar como entregado un pedido listo para entrega."
    ∷ codes "No se puede cambiar el estado de un pedido cerrado."
    ∷ codes "Transición de estado no permitida."
    ∷ codes "Transicion de estado no permitida."
    ∷ []

abbrev or_generic : Option Text → Text
or_generic none = generic_status_error
or_generic (some message) = message

unfoldable pub get_safe_rpc_status_error_message : Option Text → Text
unfolding mentions
get_safe_rpc_status_error_message message =
    if mentions message (codes "No se puede marcar como entregado un pedido con pago pendiente.")
    then codes "No se puede entregar el pedido porque el pago no está completo."
    else if mentions message (codes "No se puede validar el pago del pedido.")
    then codes "No se puede validar el pago del pedido."
    else or_generic (find (mentions message) safe_rpc_status_messages)

-- A failed call of the function of the database.
abbrev pub rpc_failure : {A : Type 0} → Option Text → ServiceResult A
rpc_failure message =
    let safe = get_safe_rpc_status_error_message message in
    if not (text_eq safe generic_status_error)
    then failure transition safe (status safe)
    else failure unexpected generic_status_error no_field

abbrev pub move_result : Response (Unit {0}) → ServiceResult (Unit {0})
move_result (answer _) = success tt
move_result (error message) = rpc_failure message
move_result threw = failure unexpected generic_status_error no_field

module _ {World : Type 0} (client : StatusClient World) where
  open client use {current_profile, find_pedido, find_status, move_pedido}

  abbrev stop : {A : Type 0} → World → Reason → Text → FieldErrors → World × ServiceResult A
  stop w reason message fields = (w, failure reason message fields)

  -- From the query of the order on; the call of the database is the only step that changes it.
  move_found :
      World → Text → PedidoEstado → Response (Option Text) → World × ServiceResult (Unit {0})
  move_found w id target (error message) = stop w unexpected generic_status_error no_field
  move_found w id target threw = stop w unexpected generic_status_error no_field
  move_found w id target (answer none) = stop w not_found missing_pedido no_field
  move_found w id target (answer (some _)) =
      let (w', response) = move_pedido w id target in (w', move_result response)

  move_as : World → Text → PedidoEstado → Option Profile → World × ServiceResult (Unit {0})
  unfolding move_found
  move_as w id target none =
      stop w unauthorized (codes "Debes iniciar sesión con un usuario interno activo.") no_field
  move_as w id target (some profile) =
      if not (has_permission profile.role pedidos_change_status)
      then stop w forbidden (codes "No tienes permiso para cambiar el status de pedidos.") no_field
      else move_found w id target (find_pedido w id)

  unfoldable pub update_internal_pedido_status :
      World → Text → Text → World × ServiceResult (Unit {0})
  unfolding move_as
  update_internal_pedido_status w pedido_id_input status_input =
      let id = trim pedido_id_input in
      if not (is_valid_uuid id)
      then stop w invalid_id missing_pedido (pedido_id missing_pedido)
      else elim (is_pedido_status (trim status_input)) [
        | none ↦ stop w invalid_status unknown_status (status unknown_status)
        | some target ↦ move_as w id target (current_profile w)
      ]

  abbrev generic_ensure_review_error : Text
  generic_ensure_review_error = codes "No se pudo iniciar la revisión. Inténtalo nuevamente."

  -- After a refused move the order may be past its first states already.
  recheck :
      World
      → Text
      → FieldErrors
      → Response (Option PedidoEstado)
      → World × ServiceResult PedidoEstado
  recheck w message fields (error _) = stop w unexpected generic_ensure_review_error no_field
  recheck w message fields threw = stop w unexpected generic_ensure_review_error no_field
  recheck w message fields (answer none) = stop w transition message fields
  recheck w message fields (answer (some s)) =
      if not (is_pedido_initial_status s) then (w, success s) else stop w transition message fields

  abbrev review_name : Text
  review_name = codes "en_revision"

  ensure_from : Text → World × ServiceResult (Unit {0}) → World × ServiceResult PedidoEstado
  unfolding recheck
  ensure_from id (w, success _) = (w, success PedidoEstado.en_revision)
  ensure_from id (w, failure transition message fields) =
      recheck w message fields (find_status w (trim id))
  ensure_from id (w, failure reason message fields) = stop w reason message fields

  unfoldable pub ensure_pedido_review_started : World → Text → World × ServiceResult PedidoEstado
  unfolding update_internal_pedido_status ensure_from
  ensure_pedido_review_started w id =
      ensure_from id (update_internal_pedido_status w id review_name)
