-- ===== src/Tests/Requests.antt =====
-- The requests of customers.
use godel_design.Prelude.{ℕ, ◌+◌, ◌≤◌, true, some, none, ◌≡◌, ◌≢◌, ◌⊎◌, refl}
use godel_design.Database.{
  supervisor, SolicitudEstado, nueva, contactada, aprobada, rechazada, convertida,
  same_solicitud_estado,
}
use godel_design.JsText.{Text, codes, trim}
use godel_design.Backend.{Caller, answer}
use godel_design.Solicitudes.Status.{get_solicitud_status_flow}
use godel_design.Solicitudes.Status.Lifecycle.{offers, Reach, here, next, Reach-bounded}
use godel_design.Solicitudes.StatusRpc.{
  Solicitud, closed_solicitud, exception_message, actualizar_estado_solicitud,
}
use godel_design.Solicitudes.StatusRpc.Flow.{Outcome, actualizar_estado_solicitud-offers}
use godel_design.Solicitudes.UpdateStatus.{
  StatusClient, success, transition, classify_rpc_status_error, update_internal_solicitud_status,
}
use godel_design.Solicitudes.UpdateStatus.Guards.{Passes, Moved, Stopped, update_solicitud_guarded}
use godel_design.Solicitudes.ReviewStart.{ensure_solicitud_review_started}
use godel_design.Solicitudes.ReviewStart.EndToEnd.{
  Store, database_client, find_stored, reviewed, CanReview, ensure_solicitud_reviewed,
}
use godel_design.Permissions.{has_permission}
use godel_design.Validators.Uuid.{is_valid_uuid}

approved : Reach nueva 3 aprobada
unfolding get_solicitud_status_flow same_solicitud_estado
approved = next aprobada (next contactada (next SolicitudEstado.en_revision here refl) refl) refl

Reach-bounded_example : (3 ≤ 4) × (aprobada ≢ convertida)
Reach-bounded_example = Reach-bounded 3 aprobada approved

abbrev a_caller : Caller
a_caller = record { uid = some (codes "u1"); is_active = true; role = supervisor }

abbrev a_request : Solicitud
a_request = record { status = nueva; reviewed_by = none }

actualizar_estado_solicitud-offers_example :
    Outcome
      (offers (get_solicitud_status_flow nueva) rechazada)
      (codes "u1")
      rechazada
      (actualizar_estado_solicitud a_caller (some a_request) rechazada)
actualizar_estado_solicitud-offers_example =
    actualizar_estado_solicitud-offers a_caller (codes "u1") a_request rechazada
      (record { signed_in = refl; active = refl; allowed = refl }) (λ e. cc)

closed_message :
    classify_rpc_status_error (some (exception_message closed_solicitud))
    ≡ (transition, codes "No se puede cambiar el estado de una solicitud cerrada.")
unfolding classify_rpc_status_error exception_message
closed_message = refl

-- A client that counts the moves it was asked for.
abbrev counting : StatusClient ℕ
counting = record {
  current_profile = λ w. some (record { id = codes "u1"; role = supervisor });
  find_solicitud = λ w id. answer (some id);
  move_solicitud = λ w id target. (w + 1, answer tt);
}

abbrev request_id : Text
request_id = codes " 3f2504e0-4f89-41d3-9a0c-0305e82c3301 "

update_solicitud_guarded_example :
    let result = update_internal_solicitud_status counting 0 request_id (codes "contactada") in
    ((target : SolicitudEstado) × Passes counting 0 request_id (codes "contactada") target
      × Moved counting 0 (trim request_id) target result)
    ⊎ Stopped counting 0 result
update_solicitud_guarded_example =
    update_solicitud_guarded counting 0 request_id (codes "contactada")

abbrev a_store : SolicitudEstado → Store
a_store s = record {
  caller = a_caller;
  profile = some (record { id = codes "u1"; role = supervisor });
  requests = λ k. some (record { status = s; reviewed_by = none });
}

can_review :
    (s : SolicitudEstado)
    → CanReview (a_store s) request_id (record { status = s; reviewed_by = none })
unfolding is_valid_uuid trim has_permission
can_review s = record {
  actor = codes "u1";
  profile = record { id = codes "u1"; role = supervisor };
  well_formed = refl;
  signed_in = refl;
  permitted = refl;
  may_change = record { signed_in = refl; active = refl; allowed = refl };
  stored = refl;
}

ensure_solicitud_reviewed_example :
    let result =
      ensure_solicitud_review_started database_client find_stored (a_store nueva) request_id in
    (result.1 ≡ success (reviewed nueva))
    × ((s : Solicitud) × (result.0.requests (trim request_id) ≡ some s)
        × (s.status ≡ reviewed nueva))
ensure_solicitud_reviewed_example =
    ensure_solicitud_reviewed (a_store nueva) request_id a_request (can_review nueva)
