-- ===== src/Solicitudes/ReviewStart.antt =====
-- src/lib/solicitudes/ensure-solicitud-review-started.ts: the start of the review of a request, over
-- the service that moves it. What is logged is left out.
pub mod EndToEnd
use godel_design.Prelude.{Bool, not, if◌then◌else◌, Option, some, none}
use godel_design.Database.{SolicitudEstado}
use godel_design.JsText.{Text, codes, trim}
use godel_design.Backend.{Response, answer, error, threw}
use godel_design.Solicitudes.Status.{is_solicitud_initial_status}
use godel_design.Solicitudes.UpdateStatus.{
  StatusClient, ServiceResult, success, failure, Reason, transition, unexpected,
  update_internal_solicitud_status,
}

abbrev pub generic_ensure_review_error : Text
generic_ensure_review_error = codes "No se pudo iniciar la revisión. Inténtalo nuevamente."

-- `find_status` is the query `from("solicitudes").select("id, status").eq("id", …).maybeSingle()`.
module _ {World : Type 0} (client : StatusClient World)
    (find_status : World → Text → Response (Option SolicitudEstado)) where
  -- After a refused move the request may be past its first state already.
  unfoldable pub recheck : World → Text → Response (Option SolicitudEstado) → World × ServiceResult
  unfolding is_solicitud_initial_status
  recheck w message (error _) = (w, failure unexpected generic_ensure_review_error)
  recheck w message threw = (w, failure unexpected generic_ensure_review_error)
  recheck w message (answer none) = (w, failure transition message)
  recheck w message (answer (some s)) =
      if not (is_solicitud_initial_status s)
      then (w, success s)
      else (w, failure transition message)

  unfoldable pub ensure_from : Text → World × ServiceResult → World × ServiceResult
  unfolding recheck
  ensure_from id (w, success s) = (w, success s)
  ensure_from id (w, failure transition message) = recheck w message (find_status w (trim id))
  ensure_from id (w, failure reason message) = (w, failure reason message)

  unfoldable pub ensure_solicitud_review_started : World → Text → World × ServiceResult
  unfolding update_internal_solicitud_status ensure_from
  ensure_solicitud_review_started w id =
      ensure_from id (update_internal_solicitud_status client w id (codes "en_revision"))
