-- ===== src/Solicitudes/ReviewStart/EndToEnd.antt =====
-- The services of a request over the database: a client whose store holds the requests and whose
-- call moves them by `actualizar_estado_solicitud`.
use godel_design.Prelude.{
  Bool, true, false, if◌then◌else◌, Option, some, none, ◌≡◌, ◌⊎◌, refl, arith,
}
use godel_design.Database.{SolicitudEstado, same_solicitud_estado}
use godel_design.JsText.{Text, codes, trim, text_eq, text_eq_refl}
use godel_design.Validators.Uuid.{is_valid_uuid}
use godel_design.Permissions.{solicitudes_manage, has_permission}
use godel_design.Backend.{Response, answer, error, Profile, Caller}
use godel_design.Solicitudes.Status.{
  is_solicitud_status, is_manual_solicitud_status, is_solicitud_initial_status,
}
use godel_design.Solicitudes.StatusRpc.{
  Solicitud, RpcResult, returned, raised, RaisedException, exception_message,
  actualizar_estado_solicitud, closed_solicitud, transition_not_allowed, only_by_conversion,
}
use godel_design.Solicitudes.StatusRpc.Flow.{MayChange}
use godel_design.Solicitudes.UpdateStatus.{
  StatusClient, ServiceResult, success, failure, transition, update_internal_solicitud_status,
  move_result,
}
use godel_design.Solicitudes.UpdateStatus.Errors.{classify_table}
use godel_design.Solicitudes.ReviewStart.{ensure_solicitud_review_started, ensure_from, recheck}

pub record Store : Type 0 where
  pub caller : Caller
  pub profile : Option Profile
  pub requests : Text → Option Solicitud

abbrev put : (Text → Option Solicitud) → Text → Solicitud → Text → Option Solicitud
put requests id solicitud k = if text_eq k id then some solicitud else requests k

abbrev moved : Store → Text → RpcResult → Store × Response (Unit {0})
moved w id (returned solicitud) = (record w { requests = put w.requests id solicitud }, answer tt)
moved w id (raised e) = (w, error (some (exception_message e)))

abbrev pub database_client : StatusClient Store
database_client = record {
  current_profile = λ w. w.profile;
  find_solicitud = λ w id. answer (elim (w.requests id) [ none ↦ none | some s ↦ some id ]);
  move_solicitud =
      λ w id target. moved w id (actualizar_estado_solicitud w.caller (w.requests id) target);
}

abbrev pub find_stored : Store → Text → Response (Option SolicitudEstado)
find_stored w id = answer (elim (w.requests id) [ none ↦ none | some s ↦ some s.status ])

-- The exceptions that are about the move.
abbrev is_about_move : RaisedException → Bool
is_about_move closed_solicitud = true
is_about_move transition_not_allowed = true
is_about_move only_by_conversion = true
is_about_move _ = false

-- What the function of the database makes of a start of the review.
abbrev ReviewOutcome : Solicitud → RpcResult → Type 0
ReviewOutcome solicitud (returned s) =
    (s.status ≡ SolicitudEstado.en_revision)
    × ((is_solicitud_initial_status solicitud.status ≡ true)
        ⊎ (solicitud.status ≡ SolicitudEstado.en_revision))
ReviewOutcome solicitud (raised e) =
    (is_about_move e ≡ true) × (is_solicitud_initial_status solicitud.status ≡ false)

review_outcome :
    (caller : Caller) (actor : Text) (solicitud : Solicitud)
    → MayChange caller actor
    → ReviewOutcome solicitud
        (actualizar_estado_solicitud caller (some solicitud) SolicitudEstado.en_revision)
unfolding actualizar_estado_solicitud same_solicitud_estado is_solicitud_initial_status
review_outcome caller actor solicitud may =
    rw (may.signed_in, may.active, may.allowed) (ground arith)

-- The state in which a request is once its review was asked for.
abbrev pub reviewed : SolicitudEstado → SolicitudEstado
reviewed s = if is_solicitud_initial_status s then SolicitudEstado.en_revision else s

-- The request is there, named by a well-formed id, for a profile that may move it.
pub record CanReview (w : Store) (id : Text) (solicitud : Solicitud) : Type 0 where
  pub actor : Text
  pub profile : Profile
  pub well_formed : is_valid_uuid (trim id) ≡ true
  pub signed_in : w.profile ≡ some profile
  pub permitted : has_permission profile.role solicitudes_manage ≡ true
  pub may_change : MayChange w.caller actor
  pub stored : w.requests (trim id) ≡ some solicitud

en_revision_known :
    is_solicitud_status (trim (codes "en_revision")) ≡ some SolicitudEstado.en_revision
unfolding is_solicitud_status trim
en_revision_known = refl

en_revision_manual :
    is_manual_solicitud_status (trim (codes "en_revision")) ≡ some SolicitudEstado.en_revision
unfolding is_manual_solicitud_status trim
en_revision_manual = refl

move_run :
    (w : Store) (id : Text) (solicitud : Solicitud)
    → CanReview w id solicitud
    → update_internal_solicitud_status database_client w id (codes "en_revision") ≡ (
        let response =
          moved w
            (trim id)
            (actualizar_estado_solicitud w.caller (some solicitud) SolicitudEstado.en_revision) in
        (response.0, move_result SolicitudEstado.en_revision response.1))
unfolding update_internal_solicitud_status
move_run w id solicitud h = ground (arith, en_revision_known, en_revision_manual)

abbrev IsReviewed : Store × ServiceResult → Text → Solicitud → Type 0
IsReviewed result id solicitud =
    (result.1 ≡ success (reviewed solicitud.status))
    × ((s : Solicitud) × (result.0.requests (trim id) ≡ some s)
        × (s.status ≡ reviewed solicitud.status))

about_move :
    (e : RaisedException)
    → is_about_move e ≡ true
    → (m : Text) × (move_result SolicitudEstado.en_revision (error (some (exception_message e)))
        ≡ failure transition m)
unfolding move_result
about_move closed_solicitud h =
    (exception_message closed_solicitud, rw (classify_table closed_solicitud) refl)
about_move transition_not_allowed h =
    (exception_message transition_not_allowed, rw (classify_table transition_not_allowed) refl)
about_move only_by_conversion h =
    (exception_message only_by_conversion, rw (classify_table only_by_conversion) refl)
about_move e h = ground arith

after_call :
    (w : Store) (id : Text) (solicitud : Solicitud) (r : RpcResult)
    → w.requests (trim id) ≡ some solicitud
    → ReviewOutcome solicitud r
    → let response = moved w (trim id) r in
      IsReviewed
        (ensure_from database_client find_stored id
          (response.0, move_result SolicitudEstado.en_revision response.1))
        id
        solicitud
unfolding ensure_from move_result recheck
after_call w id solicitud (returned s) stored h =
    (ground arith, (s, rw (text_eq_refl (trim id)), ground arith))
after_call w id solicitud (raised e) stored h =
    let (m, failed) = about_move e h.0 in rw (failed, stored, h.1) (refl, (solicitud, stored, refl))

-- Starting the review of a request succeeds whatever its state: a new request is under review
-- afterwards, and any other is left in its state, which is the answer.
pub ensure_solicitud_reviewed :
    (w : Store) (id : Text) (solicitud : Solicitud)
    → CanReview w id solicitud
    → let result = ensure_solicitud_review_started database_client find_stored w id in
      (result.1 ≡ success (reviewed solicitud.status))
      × ((s : Solicitud) × (result.0.requests (trim id) ≡ some s)
          × (s.status ≡ reviewed solicitud.status))
unfolding ensure_solicitud_review_started
ensure_solicitud_reviewed w id solicitud h =
    rw (move_run w id solicitud h) (
      after_call w id solicitud _ h.stored (review_outcome w.caller h.actor solicitud h.may_change))
