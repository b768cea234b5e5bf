-- ===== src/Usuarios/PasswordReset/Service.antt =====
-- reset-internal-user-password.ts, `resetInternalUserPassword`. The functions after the beginning
-- catch what their calls throw, so that of the outer `catch` only the case before the attempt is
-- reached. Those that are returned within the inner `try` are not awaited in it.
use godel_design.Prelude.{
  [], ◌∷◌, Bool, false, not, ◌&&◌, if◌then◌else◌, is_empty, Option, some, none,
}
use godel_design.JsText.{Text, codes, trim, text_eq}
use godel_design.JsUnicode.{Unicode}
use godel_design.Validators.Form.{ValidationResult}
use godel_design.Validators.Uuid.{is_valid_uuid}
use godel_design.Permissions.{usuarios_manage, has_permission}
use godel_design.Usuarios.PasswordReset.{
  Answer, reply, fault, threw, ActorProfile, AuthUser, TerminalStatus, ResetErrorCode, ResetClient,
  Reason, unauthorized, forbidden, onboarding_required, self_reset_forbidden, validation_error,
  password, FieldErrors, ResetResult, success, failure, BeginReason, BeginAttempt, allowed, limited,
  CompleteResult, completed, AuthFailure, email_password_match, generic_reset_error,
  rate_limit_reset_error, is_indeterminate_auth_mutation_error, map_auth_failure, AuditStateResult,
}
use godel_design.Usuarios.PasswordReset.Validation.{ResetInput, text_or_empty, validate_reset_input}
use godel_design.Usuarios.PasswordReset.Audit.{
  begin_password_reset_attempt, complete_password_reset_with_retry, get_password_reset_audit_state,
  is_succeeded_audit_state, is_confirmed, return_completion_failure, return_failure_after_rollback,
  completion_error_message, rollback_error_message,
}

abbrev pub forbidden_message : Text
forbidden_message = codes "No tienes permiso para restablecer contraseñas de usuarios internos."

abbrev pub missing_user : Text
missing_user = codes "El usuario solicitado no existe."

abbrev pub indeterminate_message : Text
indeterminate_message =
    codes
      "No pudimos confirmar el resultado del cambio de contraseña. El usuario quedó bloqueado para proteger su acceso. No repitas la operación. Requiere revisión administrativa."

abbrev pub plain_failure : Reason → Text → ResetResult
plain_failure reason message = failure reason message none []

abbrev pub unchanged_failure : Reason → Text → ResetResult
unchanged_failure reason message = failure reason message (some false) []

abbrev pub refused_begin : BeginReason → ResetResult
refused_begin BeginReason.not_found = plain_failure Reason.not_found missing_user
refused_begin BeginReason.already_in_progress =
    plain_failure Reason.already_in_progress
      (codes "Ya existe un restablecimiento de contraseña en curso para este usuario.")
refused_begin BeginReason.rollback_error =
    unchanged_failure Reason.rollback_error rollback_error_message
refused_begin _ = plain_failure Reason.unexpected generic_reset_error

abbrev pub auth_error_failure : AuthFailure
auth_error_failure = record {
  reason = Reason.auth_error;
  message = generic_reset_error;
  fields = [];
  audit_error_code = ResetErrorCode.auth_error;
}

abbrev pub no_auth_user_failure : AuthFailure
no_auth_user_failure = record {
  reason = Reason.auth_user_not_found;
  message = codes "No existe el usuario de autenticación asociado.";
  fields = [];
  audit_error_code = ResetErrorCode.auth_user_not_found;
}

abbrev pub same_as_email_failure : AuthFailure
same_as_email_failure = record {
  reason = validation_error;
  message = codes "Revisa los datos del formulario.";
  fields = (password, codes "La contraseña temporal no puede ser igual al correo.") ∷ [];
  audit_error_code = email_password_match;
}

abbrev pub configuration_failure : AuthFailure
configuration_failure = record {
  reason = Reason.configuration_error;
  message = codes "El cliente administrativo de usuarios no está configurado.";
  fields = [];
  audit_error_code = ResetErrorCode.configuration_error;
}

module _ (u : Unicode) {World : Type 0} (client : ResetClient World) where
  open client use {current_profile, create_client, create_admin_client, get_user, update_user}

  -- `authUser.email && password.toLowerCase() === authUser.email.toLowerCase()`.
  unfoldable pub is_email : Text → Option Text → Bool
  unfolding text_eq
  is_email new none = false
  is_email new (some email) =
      not (is_empty email) && text_eq (u.to_lower_case new) (u.to_lower_case email)

  -- The final state, where the success was not confirmed.
  unfoldable pub finalized :
      World → (attempt_id target_id : Text) → Bool → AuditStateResult → World × ResetResult
  unfolding return_completion_failure
  finalized w attempt_id target_id was_active state =
      if is_confirmed is_succeeded_audit_state state
      then (w, success target_id was_active)
      else return_completion_failure u client w attempt_id target_id completion_error_message

  unfoldable pub finish :
      (attempt_id target_id : Text) → Bool → World × CompleteResult → World × ResetResult
  unfolding finalized get_password_reset_audit_state
  finish attempt_id target_id was_active (w, completed id) = (w, success target_id was_active)
  finish attempt_id target_id was_active (w, CompleteResult.refused reason) =
      let (w', state) = get_password_reset_audit_state u client w attempt_id target_id in
      finalized w' attempt_id target_id was_active state

  -- From the answer to the change of the password on.
  unfoldable pub after_update :
      World → (attempt_id target_id : Text) → Bool → Answer (Option AuthUser) → World × ResetResult
  unfolding return_completion_failure return_failure_after_rollback finish
      complete_password_reset_with_retry text_eq
  after_update w attempt_id target_id was_active threw =
      return_completion_failure u client w attempt_id target_id indeterminate_message
  after_update w attempt_id target_id was_active (fault e) =
      if is_indeterminate_auth_mutation_error u e
      then return_completion_failure u client w attempt_id target_id indeterminate_message
      else return_failure_after_rollback u client w attempt_id target_id (map_auth_failure u e)
  after_update w attempt_id target_id was_active (reply none) =
      return_completion_failure u client w attempt_id target_id indeterminate_message
  after_update w attempt_id target_id was_active (reply (some user)) =
      if not (text_eq user.id target_id)
      then return_completion_failure u client w attempt_id target_id indeterminate_message
      else finish attempt_id target_id was_active
          (complete_password_reset_with_retry u client w attempt_id TerminalStatus.succeeded none)

  -- From the answer to the query of the user on.
  unfoldable pub with_user :
      World
      → (attempt_id target_id new : Text) → Bool
      → Answer (Option AuthUser)
      → World × ResetResult
  unfolding return_failure_after_rollback after_update
  with_user w attempt_id target_id new was_active threw =
      return_failure_after_rollback u client w attempt_id target_id auth_error_failure
  with_user w attempt_id target_id new was_active (fault e) =
      return_failure_after_rollback u client w attempt_id target_id (map_auth_failure u e)
  with_user w attempt_id target_id new was_active (reply none) =
      return_failure_after_rollback u client w attempt_id target_id no_auth_user_failure
  with_user w attempt_id target_id new was_active (reply (some user)) =
      if is_email new user.email
      then return_failure_after_rollback u client w attempt_id target_id same_as_email_failure
      else let (w', answer) = update_user w target_id new in
        after_update w' attempt_id target_id was_active answer

  -- The inner `try`.
  unfoldable pub change_password :
      World → (attempt_id target_id new : Text) → Bool → Answer (Unit {0}) → World × ResetResult
  unfolding return_failure_after_rollback with_user
  change_password w attempt_id target_id new was_active (reply _) =
      let (w', answer) = get_user w target_id in
      with_user w' attempt_id target_id new was_active answer
  change_password w attempt_id target_id new was_active _ =
      return_failure_after_rollback u client w attempt_id target_id configuration_failure

  unfoldable pub begun :
      (attempt_id target_id new : Text) → World × BeginAttempt → World × ResetResult
  unfolding change_password
  begun attempt_id target_id new (w, BeginAttempt.refused reason) = (w, refused_begin reason)
  begun attempt_id target_id new (w, limited _ _ _ _) =
      (w, plain_failure Reason.rate_limited rate_limit_reset_error)
  begun attempt_id target_id new (w, allowed _ was_active _) =
      change_password w attempt_id target_id new was_active (create_admin_client w)

  unfoldable pub validated :
      World
      → (attempt_id target_id : Text) → ValidationResult Text FieldErrors
      → World × ResetResult
  unfolding begun begin_password_reset_attempt
  validated w attempt_id target_id (ValidationResult.failure errors) =
      (w, failure validation_error (codes "Revisa los datos del formulario.") none errors)
  validated w attempt_id target_id (ValidationResult.success new) = elim (create_client w) [
    | reply _ ↦
        begun attempt_id target_id new
          (begin_password_reset_attempt u client w target_id attempt_id)
    | _ ↦ (w, unchanged_failure Reason.unexpected generic_reset_error)
  ]

  unfoldable pub reset_as :
      World → (attempt_id : Text) → ResetInput → ActorProfile → World × ResetResult
  unfolding validated validate_reset_input has_permission trim is_valid_uuid text_eq
  reset_as w attempt_id input profile =
      let target_id = trim (text_or_empty input.id) in
      if profile.must_change_password
      then (
        w,
        plain_failure onboarding_required
            (codes "Completa el cambio de contraseña inicial antes de restablecer contraseñas."),
      )
      else if not (has_permission profile.role usuarios_manage)
      then (w, plain_failure forbidden forbidden_message)
      else if not (is_valid_uuid target_id)
      then (w, plain_failure Reason.not_found missing_user)
      else if text_eq target_id profile.id
      then (
        w,
        plain_failure self_reset_forbidden (codes "No puedes restablecer tu propia contraseña."),
      )
      else validated w attempt_id target_id (validate_reset_input input)

  -- `attempt_id` is the one that `randomUUID` gives.
  unfoldable pub reset_internal_user_password :
      World → (attempt_id : Text) → ResetInput → World × ResetResult
  unfolding reset_as
  reset_internal_user_password w attempt_id input = elim (current_profile w) [
    | reply none ↦ (w, plain_failure unauthorized forbidden_message)
    | reply (some profile) ↦ reset_as w attempt_id input profile
    | _ ↦ (w, unchanged_failure Reason.unexpected generic_reset_error)
  ]
