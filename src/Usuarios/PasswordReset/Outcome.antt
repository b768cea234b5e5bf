-- ===== src/Usuarios/PasswordReset/Outcome.antt =====
-- What a result of the reset promises of the stage of the attempt, and that the ends of the code keep
-- it, whatever calls are lost.
use godel_design.Prelude.{List, [], Bool, true, false, some, none, ◌≡◌, refl, arith}
use godel_design.JsText.{Text, text_eq}
use godel_design.JsUnicode.{Unicode}
use godel_design.Usuarios.PasswordReset.{
  ErrorLike, reply, fault, AuthUser, TerminalStatus, AuthFailure, AuditStateResult, Reason,
  ResetResult, success, failure, rollback_failed, finalization_failed,
  is_indeterminate_auth_mutation_error,
}
use godel_design.Usuarios.PasswordReset.Audit.{
  return_failure_after_rollback, rolled_back, return_completion_failure, is_confirmed,
  is_failed_audit_state, get_password_reset_audit_state, complete_password_reset_with_retry,
  completion_error_message, rollback_error_message,
}
use godel_design.Usuarios.PasswordReset.Database.{Turn}
use godel_design.Usuarios.PasswordReset.Remote.{World, Setting, remote}
use godel_design.Usuarios.PasswordReset.Stages.{
  Stage, blocked, succeeded, failed, inspected, is_forced, completed_stage, world_at,
}
use godel_design.Usuarios.PasswordReset.Calls.{state_cases}
use godel_design.Usuarios.PasswordReset.Completion.{completion_cases, attention_cases}
use godel_design.Usuarios.PasswordReset.Recovery.{same_refl}
use godel_design.Usuarios.PasswordReset.Service.{finalized, finish}

-- What a result promises of the stage of the attempt, and of whether the password was changed.
abbrev pub Promise : (Good : Type 0) → (was : Bool) → Stage → Bool → ResetResult → Type 0
Promise Good was g changed (success user_id was_active) =
    (g ≡ succeeded) × (changed ≡ true) × (was_active ≡ was)
Promise Good was g changed (failure reason message none fields) =
    (changed ≡ false) × (Good → is_forced g ≡ false)
Promise Good was g changed (failure reason message (some false) fields) = changed ≡ false
Promise Good was g changed (failure reason message (some true) fields) = is_forced g ≡ true

module _ (target_id : Text) (was must : Bool) (Good : Type 0) where
  abbrev pub Kept : World × ResetResult → Type 0
  Kept (w, result) =
      (turns : List Turn) × (g : Stage) × (changed : Bool) × (w
        ≡ world_at target_id was must turns g changed)
      × (changed ≡ true → is_forced g ≡ true)
      × Promise Good was g changed result

-- What the service of authentication tells of a change is true, where it tells it definitely.
pub record IsHonest (u : Unicode) (target_id : Text) (setting : Setting) : Type 0 where
  pub confirmed :
      (user : AuthUser)
      → setting.updated ≡ reply (some user)
      → text_eq user.id target_id ≡ true
      → setting.update_applied ≡ true
  pub denied :
      (e : ErrorLike)
      → setting.updated ≡ fault e
      → is_indeterminate_auth_mutation_error u e ≡ false
      → setting.update_applied ≡ false

module _ (u : Unicode) (setting : Setting) (target_id id : Text) (was must : Bool)
    (Good : Type 0) where
  abbrev at : List Turn → Stage → Bool → World
  at = world_at target_id was must

  abbrev pub IsKept : World × ResetResult → Type 0
  IsKept = Kept target_id was must Good

  pub kept :
      (turns : List Turn) (g : Stage) (changed : Bool) (result : ResetResult)
      → (changed ≡ true → is_forced g ≡ true)
      → Promise Good was g changed result
      → IsKept (at turns g changed, result)
  kept turns g changed result h p = (turns, g, changed, refl, h, p)

  inspected-is_forced :
      (g : Stage)
      → is_forced g ≡ true
      → is_forced (completed_stage TerminalStatus.attention_required g) ≡ true
  inspected-is_forced g h = ground arith

  pub completion_failure-Kept :
      (turns : List Turn) (g : Stage) (changed : Bool) (message : Text)
      → is_forced g ≡ true
      → IsKept
          (return_completion_failure u (remote setting) (at turns g changed) id target_id message)
  unfolding return_completion_failure
  completion_failure-Kept turns g changed message h =
      let result = failure Reason.completion_error message (some true) [] in
      attention_cases u setting target_id id was must changed finalization_failed refl
        (λ w. IsKept (w, result)) turns g (λ ts. kept ts g changed result (λ _. h) h)
        (λ ts.
          kept ts (completed_stage TerminalStatus.attention_required g) changed result
            (λ _. inspected-is_forced g h) (inspected-is_forced g h))

  rolled_back_blocked :
      (turns : List Turn) (f : AuthFailure)
      → IsKept (rolled_back u (remote setting) (at turns blocked false) id target_id f false)
  unfolding rolled_back
  rolled_back_blocked turns f =
      let result = failure Reason.rollback_error rollback_error_message (some false) [] in
      attention_cases u setting target_id id was must false rollback_failed refl
        (λ w. IsKept (w, result)) turns blocked
        (λ ts. kept ts blocked false result (λ h. refl) refl)
        (λ ts. kept ts inspected false result (λ h. refl) refl)

  rolled_back_failed :
      (turns : List Turn) (f : AuthFailure)
      → IsKept (rolled_back u (remote setting) (at turns failed false) id target_id f true)
  unfolding rolled_back
  rolled_back_failed turns f =
      kept turns failed false (failure f.reason f.message none f.fields) (λ h. absurd (cc))
        (refl, λ _. refl)

  rolled_back_unread :
      (turns : List Turn) (f : AuthFailure)
      → IsKept (rolled_back u (remote setting) (at turns failed false) id target_id f false)
  unfolding rolled_back
  rolled_back_unread turns f =
      let result = failure Reason.rollback_error rollback_error_message (some false) [] in
      attention_cases u setting target_id id was must false rollback_failed refl
        (λ w. IsKept (w, result)) turns failed
        (λ ts. kept ts failed false result (λ h. absurd (cc)) refl)
        (λ ts. kept ts failed false result (λ h. absurd (cc)) refl)

  pub failure_after_rollback-Kept :
      (turns : List Turn) (f : AuthFailure)
      → IsKept
          (return_failure_after_rollback u (remote setting) (at turns blocked false) id target_id f)
  unfolding return_failure_after_rollback
  failure_after_rollback-Kept turns f =
      let R = λ (q : World × AuditStateResult). IsKept (
        rolled_back u (remote setting) q.0 id target_id f
          (is_confirmed is_failed_audit_state q.1)) in
      let ended : (ts : List Turn)
          → R (
              get_password_reset_audit_state u (remote setting) (at ts failed false) id target_id) =
        λ ts.
          state_cases u setting target_id id was must R ts failed false
            (λ ts. rolled_back_unread ts f)
            (λ ts. rw (same_refl was, same_refl must) (rolled_back_failed ts f)) in
      completion_cases u setting target_id id was must
        (λ p. R (get_password_reset_audit_state u (remote setting) p.0 id target_id)) false
        TerminalStatus.failed (some f.audit_error_code) refl turns blocked
        (λ ts _.
          state_cases u setting target_id id was must R ts blocked false
            (λ ts. rolled_back_blocked ts f) (λ ts. rolled_back_blocked ts f))
        (λ ts _. ended ts) (λ ts _. ended ts)

  pub finish-Kept :
      (turns : List Turn)
      → IsKept (
          finish u (remote setting) id target_id was (
            complete_password_reset_with_retry u
              (remote setting)
              (at turns blocked true)
              id
              TerminalStatus.succeeded
              none))
  unfolding finish finalized
  finish-Kept turns =
      let R = λ (q : World × AuditStateResult).
        IsKept (finalized u (remote setting) q.0 id target_id was q.1) in
      let good : (ts : List Turn) → IsKept (at ts succeeded true, success target_id was) =
        λ ts. kept ts succeeded true (success target_id was) (λ _. refl) (refl, refl, refl) in
      completion_cases u setting target_id id was must
        (λ p. IsKept (finish u (remote setting) id target_id was p)) true TerminalStatus.succeeded
        none refl turns blocked
        (λ ts _.
          state_cases u setting target_id id was must R ts blocked true
            (λ ts. completion_failure-Kept ts blocked true completion_error_message refl)
            (λ ts. completion_failure-Kept ts blocked true completion_error_message refl))
        (λ ts _.
          state_cases u setting target_id id was must R ts succeeded true
            (λ ts. completion_failure-Kept ts succeeded true completion_error_message refl)
            (λ ts. rw (same_refl was) (good ts)))
        (λ ts _. good ts)
