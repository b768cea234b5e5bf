-- ===== src/Solicitudes/UpdateStatus.antt =====
-- src/lib/solicitudes/update-internal-solicitud-status.ts: the service that moves a request, over
-- the client of the database. What is logged is left out.
pub mod Guards
pub mod Errors
use godel_design.Prelude.{
  ℕ, List, [], ◌∷◌, Bool, true, false, not, if◌then◌else◌, find, Option, some, none,
}
use godel_design.Database.{SolicitudEstado}
use godel_design.JsText.{Text, codes, trim, includes}
use godel_design.Validators.Uuid.{is_valid_uuid}
use godel_design.Permissions.{solicitudes_manage, has_permission}
use godel_design.Backend.{mentions, Response, answer, error, threw, Profile}
use godel_design.Solicitudes.Status.{is_solicitud_status, is_manual_solicitud_status}

pub record StatusClient (World : Type 0) : Type 0 where
  pub current_profile : World → Option Profile
  -- `from("solicitudes").select("id").eq("id", …).maybeSingle()`.
  pub find_solicitud : World → Text → Response (Option Text)
  -- `updateSolicitudStatusRpc(supabase, …)`.
  pub move_solicitud : World → Text → SolicitudEstado → World × Response (Unit {0})

pub data Reason : Type 0 where
  unauthorized forbidden invalid_id invalid_status not_found transition unexpected : Reason

pub data ServiceResult : Type 0 where
  success : SolicitudEstado → ServiceResult
  failure : Reason → (message : Text) → ServiceResult

abbrev pub generic_update_error : Text
generic_update_error = codes "No se pudo actualizar el estado. Inténtalo nuevamente."

abbrev pub no_permission : Text
no_permission = codes "No tienes permiso para cambiar el estado de solicitudes."

abbrev missing_solicitud : Text
missing_solicitud = codes "La solicitud no existe."

abbrev safe_rpc_forbidden_messages : List Text
safe_rpc_forbidden_messages =
    codes "No tienes permiso para cambiar el estado de esta solicitud."
    ∷ codes "Usuario inactivo o sin perfil valido"
    ∷ codes "Usuario inactivo o sin perfil válido"
    ∷ codes "Usuario sin perfil valido"
    ∷ codes "Usuario sin perfil válido"
    ∷ []

abbrev safe_rpc_transition_messages : List Text
safe_rpc_transition_messages =
    codes "Transición de estado no permitida."
    ∷ codes "Transicion de estado no permitida."
    ∷ codes "La solicitud ya está cerrada."
    ∷ codes "No se puede cambiar el estado de una solicitud cerrada."
    ∷ codes "No se puede cambiar desde el estado actual."
    ∷ codes "El estado convertida solo se asigna al convertir la solicitud en pedido."
    ∷ []

unfoldable pub classify_rpc_status_error : Option Text → Reason × Text
unfolding mentions
classify_rpc_status_error message = elim (find (mentions message) safe_rpc_forbidden_messages) [
  | some _ ↦ (forbidden, no_permission)
  | none ↦ elim (find (mentions message) safe_rpc_transition_messages) [
    | some m ↦ (transition, m)
    | none ↦ (unexpected, generic_update_error)
  ]
]

unfoldable pub move_result : SolicitudEstado → Response (Unit {0}) → ServiceResult
unfolding classify_rpc_status_error
move_result target (answer _) = success target
move_result target (error message) =
    let (reason, text) = classify_rpc_status_error message in failure reason text
move_result target threw = failure unexpected generic_update_error

module _ {World : Type 0} (client : StatusClient World) where
  open client use {current_profile, find_solicitud, move_solicitud}

  abbrev stop : World → Reason → Text → World × ServiceResult
  stop w reason message = (w, failure reason message)

  -- From the query of the request on; the call of the database is the only step that changes it.
  move_found : World → Text → SolicitudEstado → Response (Option Text) → World × ServiceResult
  unfolding move_result
  move_found w id target (error message) = stop w unexpected generic_update_error
  move_found w id target threw = stop w unexpected generic_update_error
  move_found w id target (answer none) = stop w not_found missing_solicitud
  move_found w id target (answer (some _)) =
      let (w', response) = move_solicitud w id target in (w', move_result target response)

  move_as : World → Text → SolicitudEstado → Option Profile → World × ServiceResult
  unfolding move_found has_permission
  move_as w id target none = stop w unauthorized no_permission
  move_as w id target (some profile) =
      if not (has_permission profile.role solicitudes_manage)
      then stop w forbidden no_permission
      else move_found w id target (find_solicitud w id)

  -- The status is one of the list, and then one of those that are set by hand.
  move_named : World → Text → Text → World × ServiceResult
  unfolding move_as is_solicitud_status is_manual_solicitud_status
  move_named w id name = elim (is_solicitud_status name) [
    | none ↦ stop w invalid_status (codes "Selecciona un estado válido.")
    | some _ ↦ elim (is_manual_solicitud_status name) [
      | none ↦
          stop w invalid_status
            (codes "El estado convertida solo se asigna al convertir la solicitud en pedido.")
      | some target ↦ move_as w id target (current_profile w)
    ]
  ]

  unfoldable pub update_internal_solicitud_status : World → Text → Text → World × ServiceResult
  unfolding move_named is_valid_uuid trim
  update_internal_solicitud_status w solicitud_id_input status_input =
      let id = trim solicitud_id_input in
      if not (is_valid_uuid id)
      then stop w invalid_id missing_solicitud
      else move_named w id (trim status_input)
