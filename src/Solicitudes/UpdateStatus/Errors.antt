-- ===== src/Solicitudes/UpdateStatus/Errors.antt =====
-- update-internal-solicitud-status.ts: what the service makes of the exceptions of
-- `actualizar_estado_solicitud`.
use godel_design.Prelude.{some, ◌≡◌, refl}
use godel_design.JsText.{Text, includes, trim, starts_with}
use godel_design.Solicitudes.StatusRpc.{
  RaisedException, exception_message, not_authenticated, inactive_user, not_allowed,
  only_by_conversion, solicitud_not_found, closed_solicitud, transition_not_allowed,
}
use godel_design.Solicitudes.UpdateStatus.{
  Reason, forbidden, transition, unexpected, classify_rpc_status_error, no_permission,
  generic_update_error,
}

-- Those about the caller's rights become the service's own message; those about the move keep the
-- message of the database; a caller or request that is gone is an unexpected error.
abbrev pub blamed : RaisedException → Reason × Text
blamed not_authenticated = (unexpected, generic_update_error)
blamed inactive_user = (forbidden, no_permission)
blamed not_allowed = (forbidden, no_permission)
blamed only_by_conversion = (transition, exception_message only_by_conversion)
blamed solicitud_not_found = (unexpected, generic_update_error)
blamed closed_solicitud = (transition, exception_message closed_solicitud)
blamed transition_not_allowed = (transition, exception_message transition_not_allowed)

-- Of the exceptions of the function of the database, the two about the rights of an active user are
-- forbidden with the service's own message, the three about the move are a failed transition with
-- the message of the database, and the other two are the general error.
pub classify_table :
    (e : RaisedException) → classify_rpc_status_error (some (exception_message e)) ≡ blamed e
unfolding classify_rpc_status_error exception_message includes trim starts_with
classify_table not_authenticated = refl
classify_table _ = refl
