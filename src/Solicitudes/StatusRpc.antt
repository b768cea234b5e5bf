-- ===== src/Solicitudes/StatusRpc.antt =====
-- supabase/migrations/20260811131826_03_business_rpcs.sql, `actualizar_estado_solicitud`: the
-- function of the database that moves a request. The row lock is left out, since a call is one step.
pub mod Flow
use godel_design.Prelude.{Bool, true, false, not, ◌||◌, if◌then◌else◌, Option, some, none}
use godel_design.Database.{
  AppRole, admin, supervisor, trabajador, SolicitudEstado, nueva, contactada, aprobada, rechazada,
  convertida, same_solicitud_estado,
}
use godel_design.Backend.{Caller, is_admin_or_supervisor}
use godel_design.JsText.{Text, codes}

-- The columns of `solicitudes` that the function reads or writes.
pub record Solicitud : Type 0 where
  pub status : SolicitudEstado
  pub reviewed_by : Option Text

pub data RaisedException : Type 0 where
  not_authenticated inactive_user not_allowed only_by_conversion : RaisedException
  solicitud_not_found closed_solicitud transition_not_allowed : RaisedException

unfoldable pub exception_message : RaisedException → Text
exception_message not_authenticated = codes "Usuario no autenticado"
exception_message inactive_user = codes "Usuario inactivo o sin perfil valido"
exception_message not_allowed = codes "No tienes permiso para cambiar el estado de esta solicitud."
exception_message only_by_conversion =
    codes "El estado convertida solo se asigna al convertir la solicitud en pedido."
exception_message solicitud_not_found = codes "Solicitud no encontrada"
exception_message closed_solicitud = codes "No se puede cambiar el estado de una solicitud cerrada."
exception_message transition_not_allowed = codes "Transicion de estado no permitida."

pub data RpcResult : Type 0 where
  returned : Solicitud → RpcResult
  raised : RaisedException → RpcResult

abbrev is : SolicitudEstado → SolicitudEstado → Bool
unfolding same_solicitud_estado
is = same_solicitud_estado

-- The chain on the old state: whether the new one follows it.
follows : SolicitudEstado → SolicitudEstado → Bool
unfolding is
follows nueva new = is new SolicitudEstado.en_revision || is new rechazada
follows SolicitudEstado.en_revision new = is new contactada || is new rechazada
follows contactada new = is new aprobada || is new rechazada
follows aprobada new = is new rechazada
follows _ new = false

change_found : Text → Solicitud → SolicitudEstado → RpcResult
unfolding is follows
change_found actor solicitud new =
    if is solicitud.status new
    then returned solicitud
    else if is solicitud.status rechazada || is solicitud.status convertida
    then raised closed_solicitud
    else if not (follows solicitud.status new)
    then raised transition_not_allowed
    else returned (record solicitud { status = new; reviewed_by = some actor })

unfoldable pub actualizar_estado_solicitud : Caller → Option Solicitud → SolicitudEstado → RpcResult
unfolding is change_found
actualizar_estado_solicitud caller found new = elim caller.uid [
  | none ↦ raised not_authenticated
  | some actor ↦
      if not caller.is_active
      then raised inactive_user
      else if not (is_admin_or_supervisor caller.role)
      then raised not_allowed
      else if is new convertida
      then raised only_by_conversion
      else elim found [
        | none ↦ raised solicitud_not_found
        | some solicitud ↦ change_found actor solicitud new
      ]
]
