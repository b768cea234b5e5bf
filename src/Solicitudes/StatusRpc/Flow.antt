-- ===== src/Solicitudes/StatusRpc/Flow.antt =====
-- The database against the page of the request: `actualizar_estado_solicitud` beside
-- `getSolicitudStatusFlow`.
use godel_design.Prelude.{Bool, true, false, some, ◌≡◌, ◌≢◌, arith}
use godel_design.Database.{
  SolicitudEstado, nueva, contactada, aprobada, rechazada, convertida, same_solicitud_estado,
}
use godel_design.JsText.{Text}
use godel_design.Solicitudes.Status.{get_solicitud_status_flow}
use godel_design.Solicitudes.Status.Lifecycle.{offers}
use godel_design.Backend.{Caller, is_admin_or_supervisor}
use godel_design.Solicitudes.StatusRpc.{
  Solicitud, RpcResult, returned, raised, change_found, actualizar_estado_solicitud,
}

-- A caller whom the database lets change a request.
pub record MayChange (caller : Caller) (actor : Text) : Type 0 where
  pub signed_in : caller.uid ≡ some actor
  pub active : caller.is_active ≡ true
  pub allowed : is_admin_or_supervisor caller.role ≡ true

-- What comes of a move that was asked for: refused where the flow does not offer it, and else the
-- request in its new state, reviewed by the caller.
abbrev pub Outcome : Bool → Text → SolicitudEstado → RpcResult → Type 0
Outcome offered actor new (returned s) =
    (offered ≡ true) × (s.status ≡ new) × (s.reviewed_by ≡ some actor)
Outcome offered actor new (raised e) = offered ≡ false

change_found-offers :
    (actor : Text) (solicitud : Solicitud) (new : SolicitudEstado)
    → solicitud.status ≢ new
    → Outcome
        (offers (get_solicitud_status_flow solicitud.status) new)
        actor
        new
        (change_found actor solicitud new)
unfolding change_found get_solicitud_status_flow same_solicitud_estado
change_found-offers actor solicitud new n = ground arith

never_converted : (s : SolicitudEstado) → offers (get_solicitud_status_flow s) convertida ≡ false
unfolding get_solicitud_status_flow same_solicitud_estado
never_converted s = ground arith

-- For a caller who may change requests, the database moves a request to another state exactly when
-- its flow offers the move; the request is then in that state and reviewed by the caller.
pub actualizar_estado_solicitud-offers :
    (caller : Caller) (actor : Text) (solicitud : Solicitud) (new : SolicitudEstado)
    → MayChange caller actor
    → solicitud.status ≢ new
    → Outcome
        (offers (get_solicitud_status_flow solicitud.status) new)
        actor
        new
        (actualizar_estado_solicitud caller (some solicitud) new)
unfolding actualizar_estado_solicitud same_solicitud_estado
actualizar_estado_solicitud-offers caller actor solicitud convertida may n =
    rw (may.signed_in, may.active, may.allowed) (never_converted solicitud.status)
actualizar_estado_solicitud-offers caller actor solicitud nueva may n =
    rw (may.signed_in, may.active, may.allowed) (change_found-offers actor solicitud nueva n)
actualizar_estado_solicitud-offers caller actor solicitud SolicitudEstado.en_revision may n =
    rw (may.signed_in, may.active, may.allowed)
      (change_found-offers actor solicitud SolicitudEstado.en_revision n)
actualizar_estado_solicitud-offers caller actor solicitud contactada may n =
    rw (may.signed_in, may.active, may.allowed) (change_found-offers actor solicitud contactada n)
actualizar_estado_solicitud-offers caller actor solicitud aprobada may n =
    rw (may.signed_in, may.active, may.allowed) (change_found-offers actor solicitud aprobada n)
actualizar_estado_solicitud-offers caller actor solicitud rechazada may n =
    rw (may.signed_in, may.active, may.allowed) (change_found-offers actor solicitud rechazada n)
