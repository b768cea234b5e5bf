-- ===== src/Usuarios/PasswordReset/Flow.antt =====
-- The promise of the result, along `resetInternalUserPassword`.
use godel_design.Prelude.{
  List, Bool, false, Option, some, none, ◌≡◌, refl, sym, subst, ◌∙◌, inl, inr, Bool-cases,
}
use godel_design.JsText.{Text, codes, text_eq}
use godel_design.JsUnicode.{Unicode}
use godel_design.Validators.Form.{ValidationResult}
use godel_design.Usuarios.PasswordReset.{
  Answer, reply, fault, threw, AuthUser, BeginReason, FieldErrors, AuthFailure, Reason, ResetResult,
  failure, already_in_progress, is_indeterminate_auth_mutation_error, map_auth_failure,
  generic_reset_error, rate_limit_reset_error, TerminalStatus,
}
use godel_design.Usuarios.PasswordReset.Audit.{
  begin_password_reset_attempt, return_completion_failure, return_failure_after_rollback,
  complete_password_reset_with_retry,
}
use godel_design.Usuarios.PasswordReset.Database.{Turn}
use godel_design.Usuarios.PasswordReset.Remote.{World, Setting, remote}
use godel_design.Usuarios.PasswordReset.Stages.{Stage, untouched, blocked, stopped, world_at}
use godel_design.Usuarios.PasswordReset.Beginning.{Turns}
use godel_design.Usuarios.PasswordReset.Recovery.{Refusal, attempt_cases}
use godel_design.Usuarios.PasswordReset.Outcome.{
  IsHonest, IsKept, Promise, kept, completion_failure-Kept, failure_after_rollback-Kept,
  finish-Kept,
}
use godel_design.Usuarios.PasswordReset.Service.{
  after_update, with_user, change_password, begun, validated, indeterminate_message, is_email,
  refused_begin, finish, auth_error_failure, no_auth_user_failure, same_as_email_failure,
  configuration_failure, plain_failure, unchanged_failure,
}

module _ (u : Unicode) (setting : Setting) (target_id id : Text) (was must : Bool) (Good : Type 0)
    (honest : IsHonest u target_id setting) where
  abbrev at : List Turn → Stage → Bool → World
  at = world_at target_id was must

  abbrev pub Keeps : World × ResetResult → Type 0
  Keeps = IsKept u setting target_id id was must Good

  -- The password was not changed.
  pub unchanged :
      (turns : List Turn) (g : Stage) (result : ResetResult)
      → Promise Good was g false result
      → Keeps (at turns g false, result)
  unchanged turns g result p =
      kept u setting target_id id was must Good turns g false result (λ h. absurd (cc)) p

  ends :
      (ts : List Turn) (f : AuthFailure)
      → Keeps
          (return_failure_after_rollback u (remote setting) (at ts blocked false) id target_id f)
  ends ts f = failure_after_rollback-Kept u setting target_id id was must Good ts f

  indeterminate-Keeps :
      (ts : List Turn) (applied : Bool)
      → Keeps (
          return_completion_failure u
            (remote setting)
            (at ts blocked applied)
            id
            target_id
            indeterminate_message)
  indeterminate-Keeps ts applied =
      completion_failure-Kept u setting target_id id was must Good ts blocked applied
        indeterminate_message refl

  after_update-Keeps :
      (ts : List Turn) (applied : Bool)
      → setting.update_applied ≡ applied
      → (answer : Answer (Option AuthUser)) → setting.updated ≡ answer
      → Keeps (after_update u (remote setting) (at ts blocked applied) id target_id was answer)
  unfolding after_update
  after_update-Keeps ts applied a threw h = indeterminate-Keeps ts applied
  after_update-Keeps ts applied a (reply none) h = indeterminate-Keeps ts applied
  after_update-Keeps ts applied a (fault e) h =
      elim (Bool-cases (is_indeterminate_auth_mutation_error u e)) [
        | inl p ↦ rw p (indeterminate-Keeps ts applied)
        | inr p ↦ rw p (
            subst
              (λ b. Keeps (
                return_failure_after_rollback u (remote setting) (at ts blocked b) id target_id
                  (map_auth_failure u e)))
              (sym (honest.denied e h p) ∙ a) (ends ts (map_auth_failure u e)))
      ]
  after_update-Keeps ts applied a (reply (some user)) h =
      elim (Bool-cases (text_eq user.id target_id)) [
        | inl p ↦ rw p (
            subst
              (λ b. Keeps (
                finish u (remote setting) id target_id was (
                  complete_password_reset_with_retry u (remote setting) (at ts blocked b) id
                    TerminalStatus.succeeded none)))
              (sym (honest.confirmed user h p) ∙ a)
              (finish-Kept u setting target_id id was must Good ts))
        | inr p ↦ rw p (indeterminate-Keeps ts applied)
      ]

  with_user-Keeps :
      (ts : List Turn) (new : Text) (answer : Answer (Option AuthUser))
      → Keeps (with_user u (remote setting) (at ts blocked false) id target_id new was answer)
  unfolding with_user remote
  with_user-Keeps ts new threw = ends ts auth_error_failure
  with_user-Keeps ts new (fault e) = ends ts (map_auth_failure u e)
  with_user-Keeps ts new (reply none) = ends ts no_auth_user_failure
  with_user-Keeps ts new (reply (some user)) =
      elim (Bool-cases (is_email u (remote setting) new user.email)) [
        | inl p ↦ rw p (ends ts same_as_email_failure)
        | inr p ↦ rw p (after_update-Keeps ts setting.update_applied refl setting.updated refl)
      ]

  change_password-Keeps :
      (ts : List Turn) (new : Text) (answer : Answer (Unit {0}))
      → Keeps (change_password u (remote setting) (at ts blocked false) id target_id new was answer)
  unfolding change_password remote
  change_password-Keeps ts new (reply _) = with_user-Keeps ts new setting.user
  change_password-Keeps ts new (fault e) = ends ts configuration_failure
  change_password-Keeps ts new threw = ends ts configuration_failure

  refused-Keeps :
      (ts : List Turn) (g : Stage) (reason : BeginReason)
      → Refusal Good g reason
      → Keeps (at ts g false, refused_begin reason)
  refused-Keeps ts g BeginReason.rollback_error h =
      unchanged ts g (refused_begin BeginReason.rollback_error) refl
  refused-Keeps ts g BeginReason.not_found h =
      unchanged ts g (refused_begin BeginReason.not_found) (refl, h)
  refused-Keeps ts g already_in_progress h =
      unchanged ts g (refused_begin already_in_progress) (refl, h)
  refused-Keeps ts g BeginReason.auth_error h =
      unchanged ts g (refused_begin BeginReason.auth_error) (refl, h)
  refused-Keeps ts g BeginReason.unexpected h =
      unchanged ts g (refused_begin BeginReason.unexpected) (refl, h)

  module _ (turns : List Turn) (good : Turns u setting target_id id was must Good turns) where
    begun-Keeps :
        (new : Text)
        → Keeps (
            begun u (remote setting) id target_id new (
              begin_password_reset_attempt u
                (remote setting)
                (at turns untouched false)
                target_id
                id))
    unfolding begun remote
    begun-Keeps new =
        attempt_cases u setting target_id id was must Good false
          (λ p. Keeps (begun u (remote setting) id target_id new p))
          (λ ts. change_password-Keeps ts new setting.admin_client)
          (λ ts scope o.
            unchanged ts (stopped scope) (plain_failure Reason.rate_limited rate_limit_reset_error)
              (refl, λ _. refl))
          refused-Keeps turns good

    pub validated-Keeps :
        (v : ValidationResult Text FieldErrors)
        → Keeps (validated u (remote setting) (at turns untouched false) id target_id v)
    unfolding validated remote
    validated-Keeps (ValidationResult.failure errors) =
        unchanged turns untouched
          (failure Reason.validation_error (codes "Revisa los datos del formulario.") none errors)
          (refl, λ _. refl)
    validated-Keeps (ValidationResult.success new) =
        elim setting.server_client
          as (λ c. Keeps (elim c [
            | reply _ ↦ begun u (remote setting) id target_id new (
                begin_password_reset_attempt u (remote setting) (at turns untouched false) target_id
                  id)
            | _ ↦
                (at turns untouched false, unchanged_failure Reason.unexpected generic_reset_error)
          ])) [
            | reply _ ↦ begun-Keeps new
            | fault _ ↦
                unchanged turns untouched (unchanged_failure Reason.unexpected generic_reset_error)
                  refl
            | threw ↦
                unchanged turns untouched (unchanged_failure Reason.unexpected generic_reset_error)
                  refl
          ]
