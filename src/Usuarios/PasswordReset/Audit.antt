-- ===== src/Usuarios/PasswordReset/Audit.antt =====
-- reset-internal-user-password.ts: beginning and completing an attempt, from
-- `isPasswordResetAuditStatus` to `beginPasswordResetAttempt`. Each of the three calls of the
-- database is tried a second time where it was not confirmed.
use godel_design.Prelude.{
  ℕ, zero, suc, [], Bool, true, false, not, ◌&&◌, ◌||◌, if◌then◌else◌, Option, some, none,
}
use godel_design.JsText.{Text, codes, text_eq}
use godel_design.JsUnicode.{Unicode}
use godel_design.Usuarios.PasswordReset.{
  ErrorLike, Answer, reply, fault, threw, BeginRow, StateRow, TerminalStatus, ResetErrorCode,
  ResetClient, Reason, ResetResult, failure, LimitedScope, actor, target, global, BeginReason,
  BeginAttempt, allowed, limited, AuditStatus, AuditState, AuditStateResult, found, absent,
  query_error, invalid_response, CompleteReason, CompleteResult, completed, AuthFailure,
  unexpected_error, finalization_failed, rollback_failed, conflict, normalize_error_token,
  map_begin_password_reset_error, pending, completion_error,
}

-- `value === b` of two Booleans.
abbrev pub same : Bool → Bool → Bool
same true b = b
same false b = not b

unfoldable pub audit_status_of : Text → Option AuditStatus
unfolding text_eq
audit_status_of s =
    if text_eq s (codes "pending")
    then some pending
    else if text_eq s (codes "succeeded")
    then some AuditStatus.succeeded
    else if text_eq s (codes "failed")
    then some AuditStatus.failed
    else if text_eq s (codes "rate_limited")
    then some AuditStatus.rate_limited
    else if text_eq s (codes "attention_required")
    then some AuditStatus.attention_required
    else none

unfoldable pub map_limited_scope : Option Text → Option LimitedScope
unfolding text_eq
map_limited_scope none = none
map_limited_scope (some s) =
    if text_eq s (codes "actor")
    then some actor
    else if text_eq s (codes "target")
    then some target
    else if text_eq s (codes "global")
    then some global
    else none

abbrev is_succeeded : AuditStatus → Bool
is_succeeded AuditStatus.succeeded = true
is_succeeded _ = false

abbrev is_failed : AuditStatus → Bool
is_failed AuditStatus.failed = true
is_failed _ = false

abbrev is_attention_required : AuditStatus → Bool
is_attention_required AuditStatus.attention_required = true
is_attention_required _ = false

abbrev pub is_succeeded_audit_state : AuditState → Bool
is_succeeded_audit_state state =
    is_succeeded state.status
    && same state.current_is_active state.previous_is_active
    && state.current_must_change_password

abbrev pub is_failed_audit_state : AuditState → Bool
is_failed_audit_state state =
    is_failed state.status
    && same state.current_is_active state.previous_is_active
    && same state.current_must_change_password state.previous_must_change_password

abbrev pub is_attention_required_audit_state : AuditState → Bool
is_attention_required_audit_state state =
    is_attention_required state.status
    && not state.current_is_active
    && state.current_must_change_password

-- The four columns and the status, once all of them are there.
abbrev pub state_columns :
    StateRow
    → Option AuditStatus
    → Option Bool
    → Option Bool
    → Option Bool
    → Option Bool
    → AuditStateResult
state_columns row (some status) (some was) (some must) (some is) (some now) = found (record {
  attempt_id = row.attempt_id;
  status = status;
  target_profile_id = row.target_profile_id;
  previous_is_active = was;
  previous_must_change_password = must;
  current_is_active = is;
  current_must_change_password = now;
})
state_columns row _ _ _ _ _ = invalid_response

unfoldable pub read_state :
    (attempt_id target_id : Text) → Answer (Option StateRow) → AuditStateResult
unfolding text_eq audit_status_of
read_state attempt_id target_id (fault e) = query_error
read_state attempt_id target_id threw = query_error
read_state attempt_id target_id (reply none) = absent
read_state attempt_id target_id (reply (some row)) =
    if not (text_eq row.attempt_id attempt_id) || not (text_eq row.target_profile_id target_id)
    then invalid_response
    else state_columns row (audit_status_of row.status) row.previous_is_active
        row.previous_must_change_password row.current_is_active row.current_must_change_password

-- The answer of the beginning, once its two flags are there.
unfoldable pub begin_columns : BeginRow → Option Bool → Option Bool → Option Bool → BeginAttempt
unfolding map_limited_scope
begin_columns row (some true) (some was) (some must) = allowed row.attempt_id was must
begin_columns row (some false) (some was) (some must) =
    limited row.attempt_id (map_limited_scope row.limited_scope) was must
begin_columns row _ _ _ = BeginAttempt.refused BeginReason.unexpected

-- A throw is caught by the caller.
unfoldable pub read_begin :
    Unicode → (attempt_id : Text) → Answer (Option BeginRow) → Option BeginAttempt
unfolding map_begin_password_reset_error text_eq begin_columns
read_begin u attempt_id (fault e) = some (map_begin_password_reset_error u e)
read_begin u attempt_id threw = none
read_begin u attempt_id (reply none) = some (BeginAttempt.refused BeginReason.unexpected)
read_begin u attempt_id (reply (some row)) =
    if not (text_eq row.attempt_id attempt_id)
    then some (BeginAttempt.refused BeginReason.unexpected)
    else some
        (begin_columns row row.allowed row.previous_is_active row.previous_must_change_password)

unfoldable pub completion_reason : Unicode → ErrorLike → CompleteReason
unfolding normalize_error_token text_eq
completion_reason u e =
    let code = normalize_error_token u e.code in
    if text_eq code (codes "p0002")
    then CompleteReason.not_found
    else if text_eq code (codes "p0001")
    then conflict
    else CompleteReason.unexpected

unfoldable pub read_completion :
    Unicode → (attempt_id : Text) → Answer (Option Text) → CompleteResult
unfolding completion_reason text_eq
read_completion u attempt_id (fault e) = CompleteResult.refused (completion_reason u e)
read_completion u attempt_id threw = CompleteResult.refused CompleteReason.unexpected
read_completion u attempt_id (reply none) = CompleteResult.refused conflict
read_completion u attempt_id (reply (some id)) =
    if not (text_eq id attempt_id) then CompleteResult.refused conflict else completed id

abbrev pub rollback_error_message : Text
rollback_error_message =
    codes
      "No se pudo restablecer la contraseña temporal y el usuario quedó bloqueado preventivamente. Requiere revisión administrativa."

abbrev pub completion_error_message : Text
completion_error_message =
    codes
      "La contraseña temporal se actualizó, pero el usuario quedó bloqueado para proteger su acceso. No repitas la operación. Requiere revisión administrativa."

-- The attempt ended as the test asks.
abbrev pub is_confirmed : (AuditState → Bool) → AuditStateResult → Bool
is_confirmed test (found state) = test state
is_confirmed test _ = false

module _ (u : Unicode) {World : Type 0} (client : ResetClient World) where
  open client use {begin_reset, reset_state, complete_reset}

  unfoldable pub get_password_reset_audit_state :
      World → (attempt_id target_id : Text) → World × AuditStateResult
  unfolding read_state
  get_password_reset_audit_state w attempt_id target_id =
      let (w', answer) = reset_state w attempt_id in (w', read_state attempt_id target_id answer)

  unfoldable pub begin_password_reset_once :
      World → (target_id attempt_id : Text) → World × Option BeginAttempt
  unfolding read_begin
  begin_password_reset_once w target_id attempt_id =
      let (w', answer) = begin_reset w target_id attempt_id in (w', read_begin u attempt_id answer)

  unfoldable pub complete_password_reset_attempt :
      World → (attempt_id : Text) → TerminalStatus → Option ResetErrorCode → World × CompleteResult
  unfolding read_completion
  complete_password_reset_attempt w attempt_id status code =
      let (w', answer) = complete_reset w attempt_id status code in
      (w', read_completion u attempt_id answer)

  -- What the first try gave decides whether there is a second.
  unfoldable pub retry :
      (attempt_id : Text)
      → TerminalStatus
      → Option ResetErrorCode
      → World × CompleteResult
      → World × CompleteResult
  unfolding complete_password_reset_attempt
  retry attempt_id status code (w, completed id) = (w, completed id)
  retry attempt_id status code (w, CompleteResult.refused reason) =
      complete_password_reset_attempt w attempt_id status code

  unfoldable pub complete_password_reset_with_retry :
      World → (attempt_id : Text) → TerminalStatus → Option ResetErrorCode → World × CompleteResult
  unfolding retry complete_password_reset_attempt
  complete_password_reset_with_retry w attempt_id status code =
      retry attempt_id status code (complete_password_reset_attempt w attempt_id status code)

  -- Nothing depends on whether the state was confirmed but what is logged, and that the source
  -- returns.
  unfoldable pub mark_attention_required :
      World → (attempt_id target_id : Text) → ResetErrorCode → World × Bool
  unfolding complete_password_reset_with_retry get_password_reset_audit_state
  mark_attention_required w attempt_id target_id code =
      let (w1, _) =
        complete_password_reset_with_retry w attempt_id TerminalStatus.attention_required
          (some code) in
      let (w2, state) = get_password_reset_audit_state w1 attempt_id target_id in
      (w2, is_confirmed is_attention_required_audit_state state)

  -- After the rollback was asked for: the failure, where the state confirms it.
  unfoldable pub rolled_back :
      World → (attempt_id target_id : Text) → AuthFailure → Bool → World × ResetResult
  unfolding mark_attention_required
  rolled_back w attempt_id target_id f true = (w, failure f.reason f.message none f.fields)
  rolled_back w attempt_id target_id f false =
      let (w', _) = mark_attention_required w attempt_id target_id rollback_failed in
      (w', failure Reason.rollback_error rollback_error_message (some false) [])

  unfoldable pub return_failure_after_rollback :
      World → (attempt_id target_id : Text) → AuthFailure → World × ResetResult
  unfolding complete_password_reset_with_retry get_password_reset_audit_state rolled_back
  return_failure_after_rollback w attempt_id target_id f =
      let (w1, _) =
        complete_password_reset_with_retry w attempt_id TerminalStatus.failed
          (some f.audit_error_code) in
      let (w2, state) = get_password_reset_audit_state w1 attempt_id target_id in
      rolled_back w2 attempt_id target_id f (is_confirmed is_failed_audit_state state)

  unfoldable pub return_completion_failure :
      World → (attempt_id target_id message : Text) → World × ResetResult
  unfolding mark_attention_required
  return_completion_failure w attempt_id target_id message =
      let (w', _) = mark_attention_required w attempt_id target_id finalization_failed in
      (w', failure completion_error message (some true) [])

  -- After the rollback of an unconfirmed beginning.
  unfoldable pub recovered :
      World → (attempt_id target_id : Text) → AuditStateResult → World × BeginAttempt
  unfolding mark_attention_required
  recovered w attempt_id target_id (found state) =
      let (w', _) = mark_attention_required w attempt_id target_id rollback_failed in
      if is_failed_audit_state state
      then (w, BeginAttempt.refused BeginReason.unexpected)
      else (w', BeginAttempt.refused BeginReason.rollback_error)
  recovered w attempt_id target_id absent =
      let (w', _) = mark_attention_required w attempt_id target_id rollback_failed in
      (w', BeginAttempt.refused BeginReason.rollback_error)
  recovered w attempt_id target_id _ = (w, BeginAttempt.refused BeginReason.rollback_error)

  unfoldable pub roll_back_pending : World → (attempt_id target_id : Text) → World × BeginAttempt
  unfolding complete_password_reset_with_retry get_password_reset_audit_state recovered
  roll_back_pending w attempt_id target_id =
      let (w1, _) =
        complete_password_reset_with_retry w attempt_id TerminalStatus.failed
          (some unexpected_error) in
      let (w2, state) = get_password_reset_audit_state w1 attempt_id target_id in
      recovered w2 attempt_id target_id state

  -- By the status of the attempt that was found.
  unfoldable pub recover_found :
      World → (attempt_id target_id : Text) → AuditState → AuditStatus → World × BeginAttempt
  unfolding roll_back_pending
  recover_found w attempt_id target_id state AuditStatus.rate_limited = (
    w,
    limited state.attempt_id none state.previous_is_active state.previous_must_change_password,
  )
  recover_found w attempt_id target_id state pending =
      if not state.current_is_active && state.current_must_change_password
      then roll_back_pending w attempt_id target_id
      else (w, BeginAttempt.refused BeginReason.unexpected)
  recover_found w attempt_id target_id state _ = (w, BeginAttempt.refused BeginReason.unexpected)

  unfoldable pub recover_from :
      World → (attempt_id target_id : Text) → AuditStateResult → World × BeginAttempt
  unfolding recover_found
  recover_from w attempt_id target_id absent = (w, BeginAttempt.refused BeginReason.unexpected)
  recover_from w attempt_id target_id (found state) =
      recover_found w attempt_id target_id state state.status
  recover_from w attempt_id target_id _ = (w, BeginAttempt.refused BeginReason.rollback_error)

  unfoldable pub recover_unconfirmed_begin :
      World → (target_id attempt_id : Text) → World × BeginAttempt
  unfolding get_password_reset_audit_state recover_from
  recover_unconfirmed_begin w target_id attempt_id =
      let (w', state) = get_password_reset_audit_state w attempt_id target_id in
      recover_from w' attempt_id target_id state

  -- What a try that was not caught returns, unless it is the general error.
  abbrev pub settled : Option BeginAttempt → Option BeginAttempt
  settled none = none
  settled (some (BeginAttempt.refused BeginReason.unexpected)) = none
  settled (some attempt) = some attempt

  -- The loop goes on for at most `tries` rounds, and recovers after the last.
  unfoldable pub begin_loop :
      (tries : ℕ) → World → (target_id attempt_id : Text) → World × BeginAttempt
  unfolding begin_password_reset_once recover_unconfirmed_begin
  begin_loop zero w target_id attempt_id = recover_unconfirmed_begin w target_id attempt_id
  begin_loop (suc tries) w target_id attempt_id =
      let (w', once) = begin_password_reset_once w target_id attempt_id in
      elim (settled once) [
        | some attempt ↦ (w', attempt)
        | none ↦ begin_loop tries w' target_id attempt_id
      ]

  unfoldable pub begin_password_reset_attempt :
      World → (target_id attempt_id : Text) → World × BeginAttempt
  unfolding begin_loop
  begin_password_reset_attempt w target_id attempt_id = begin_loop 2 w target_id attempt_id
