-- ===== src/Usuarios/PasswordReset/Database.antt =====
-- The functions of the database behind the reset of a password,
-- supabase/migrations/20260811131828_05_auth_admin_user_lifecycle.sql, as they are called with one
-- target and one attempt. The store is what they read and write then: the two flags of the target's
-- profile, and the row of the attempt. The rows of other attempts are inputs of a call; the caller
-- of all calls of an attempt is the one that began it. Of `error_code` only the limit is kept, which
-- is all that is read back. A call may be lost, before or after it took effect.
use godel_design.Prelude.{ℕ, Bool, true, false, not, ◌||◌, leb, if◌then◌else◌, Option, some, none}
use godel_design.JsText.{Text, codes, text_eq}
use godel_design.Usuarios.PasswordReset.{
  ErrorLike, Answer, reply, fault, BeginRow, StateRow, TerminalStatus, ResetErrorCode, LimitedScope,
  actor, target, global, AuditStatus, pending, succeeded, failed, rate_limited, attention_required,
}

pub record Attempt : Type 0 where
  pub target_profile_id : Text
  pub status : AuditStatus
  pub limit : Option LimitedScope
  pub previous_is_active : Bool
  pub previous_must_change_password : Bool

pub record Store : Type 0 where
  pub is_active : Bool
  pub must_change_password : Bool
  pub attempt : Option Attempt

pub data Delivery : Type 0 where
  delivered : Delivery
  request_lost response_lost : Option ErrorLike → Delivery

-- What a call meets: how it is delivered, whether the caller is an administrator in service other
-- than the target, whether the target has a profile, and what the rows of other attempts say.
pub record Turn : Type 0 where
  pub delivery : Delivery
  pub is_authorized : Bool
  pub has_target : Bool
  pub other_pending : Bool
  pub actor_attempts : ℕ
  pub target_attempts : ℕ
  pub global_attempts : ℕ

abbrev pub raised : (code message : Text) → ErrorLike
raised code message = record {
  name = none;
  code = some code;
  status = none;
  message = some message;
}

abbrev pub status_text : AuditStatus → Text
status_text pending = codes "pending"
status_text succeeded = codes "succeeded"
status_text failed = codes "failed"
status_text rate_limited = codes "rate_limited"
status_text attention_required = codes "attention_required"

abbrev pub scope_text : LimitedScope → Text
scope_text actor = codes "actor"
scope_text target = codes "target"
scope_text global = codes "global"

abbrev scope_or_null : Option LimitedScope → Option Text
scope_or_null none = none
scope_or_null (some scope) = some (scope_text scope)

abbrev pub limit_of : Turn → Option LimitedScope
limit_of turn =
    if leb 3 turn.actor_attempts
    then some actor
    else if leb 3 turn.target_attempts
    then some target
    else if leb 20 turn.global_attempts
    then some global
    else none

abbrev pub begin_row : Text → Bool → Option Text → Bool → Bool → BeginRow
begin_row id allowed limit was must = record {
  attempt_id = id;
  allowed = some allowed;
  limited_scope = limit;
  previous_is_active = some was;
  previous_must_change_password = some must;
}

-- The attempt is there already.
abbrev pub begin_by_status : Store → Text → Attempt → AuditStatus → Answer (Option BeginRow)
begin_by_status s id a pending =
    if s.is_active || not s.must_change_password
    then fault (raised (codes "P0001") (codes "El intento pendiente requiere atención."))
    else reply (some (begin_row id true none a.previous_is_active a.previous_must_change_password))
begin_by_status s id a rate_limited = reply (
    some (
      begin_row id false (scope_or_null a.limit) a.previous_is_active
        a.previous_must_change_password))
begin_by_status s id a _ = fault (raised (codes "P0001") (codes "El intento ya fue finalizado."))

unfoldable pub begin_again :
    Store → (target_id attempt_id : Text) → Attempt → Answer (Option BeginRow)
unfolding text_eq
begin_again s target_id id a =
    if not (text_eq a.target_profile_id target_id)
    then fault (raised (codes "P0001") (codes "Intento de restablecimiento inválido."))
    else begin_by_status s id a a.status

-- The attempt is new and the target free.
abbrev pub begin_new :
    Store → (target_id attempt_id : Text) → Option LimitedScope → Store × Answer (Option BeginRow)
begin_new s target_id id (some scope) = (
  record {
    is_active = s.is_active;
    must_change_password = s.must_change_password;
    attempt = some (record {
      target_profile_id = target_id;
      status = rate_limited;
      limit = some scope;
      previous_is_active = s.is_active;
      previous_must_change_password = s.must_change_password;
    });
  },
  reply (some (begin_row id false (some (scope_text scope)) s.is_active s.must_change_password)),
)
begin_new s target_id id none = (
  record {
    is_active = false;
    must_change_password = true;
    attempt = some (record {
      target_profile_id = target_id;
      status = pending;
      limit = none;
      previous_is_active = s.is_active;
      previous_must_change_password = s.must_change_password;
    });
  },
  reply (some (begin_row id true none s.is_active s.must_change_password)),
)

unfoldable pub begin_by_attempt :
    Turn → Store → (target_id attempt_id : Text) → Option Attempt → Store × Answer (Option BeginRow)
unfolding begin_again
begin_by_attempt turn s target_id id (some a) = (s, begin_again s target_id id a)
begin_by_attempt turn s target_id id none =
    if not turn.has_target
    then (s, fault (raised (codes "P0002") (codes "No existe el usuario objetivo.")))
    else if turn.other_pending
    then (s, fault (raised (codes "P0001") (codes "reset_in_progress")))
    else begin_new s target_id id (limit_of turn)

unfoldable pub begin_internal_user_password_reset :
    Turn → Store → (target_id attempt_id : Text) → Store × Answer (Option BeginRow)
unfolding begin_by_attempt
begin_internal_user_password_reset turn s target_id id =
    if not turn.is_authorized
    then (s, fault (raised (codes "42501") (codes "No autorizado.")))
    else begin_by_attempt turn s target_id id s.attempt

abbrev state_of : Store → (attempt_id : Text) → Option Attempt → Option StateRow
state_of s id none = none
state_of s id (some a) = some (record {
  attempt_id = id;
  status = status_text a.status;
  target_profile_id = a.target_profile_id;
  previous_is_active = some a.previous_is_active;
  previous_must_change_password = some a.previous_must_change_password;
  current_is_active = some s.is_active;
  current_must_change_password = some s.must_change_password;
})

unfoldable pub get_internal_user_password_reset_state :
    Store → (attempt_id : Text) → Answer (Option StateRow)
get_internal_user_password_reset_state s id = reply (state_of s id s.attempt)

abbrev pub status_named : TerminalStatus → AuditStatus
status_named TerminalStatus.succeeded = succeeded
status_named TerminalStatus.failed = failed
status_named TerminalStatus.attention_required = attention_required

abbrev with_status : Attempt → AuditStatus → Option Attempt
with_status a status = some (record {
  target_profile_id = a.target_profile_id;
  status = status;
  limit = a.limit;
  previous_is_active = a.previous_is_active;
  previous_must_change_password = a.previous_must_change_password;
})

abbrev complete_pending : Attempt → TerminalStatus → Store
complete_pending a TerminalStatus.succeeded = record {
  is_active = a.previous_is_active;
  must_change_password = true;
  attempt = with_status a succeeded;
}
complete_pending a TerminalStatus.failed = record {
  is_active = a.previous_is_active;
  must_change_password = a.previous_must_change_password;
  attempt = with_status a failed;
}
complete_pending a TerminalStatus.attention_required = record {
  is_active = false;
  must_change_password = true;
  attempt = with_status a attention_required;
}

abbrev same_status : AuditStatus → TerminalStatus → Bool
same_status succeeded TerminalStatus.succeeded = true
same_status failed TerminalStatus.failed = true
same_status attention_required TerminalStatus.attention_required = true
same_status _ _ = false

abbrev complete_by_status :
    Store → Text → Attempt → TerminalStatus → AuditStatus → Store × Answer (Option Text)
complete_by_status s id a status pending = (complete_pending a status, reply (some id))
complete_by_status s id a status other =
    if same_status other status
    then (s, reply (some id))
    else (s, fault (raised (codes "P0001") (codes "El intento ya fue finalizado con otro estado.")))

abbrev pub complete_attempt :
    Store → Text → TerminalStatus → Option Attempt → Store × Answer (Option Text)
complete_attempt s id status none =
    (s, fault (raised (codes "P0002") (codes "No existe el intento de restablecimiento.")))
complete_attempt s id status (some a) = complete_by_status s id a status a.status

-- The code of an error that is required of the outcome, and allowed with it.
abbrev pub is_code_allowed : TerminalStatus → Option ResetErrorCode → Bool
is_code_allowed TerminalStatus.succeeded code = elim code [ none ↦ true | some _ ↦ false ]
is_code_allowed TerminalStatus.failed code = elim code [ none ↦ false | some _ ↦ true ]
is_code_allowed TerminalStatus.attention_required none = true
is_code_allowed TerminalStatus.attention_required (some ResetErrorCode.finalization_failed) = true
is_code_allowed TerminalStatus.attention_required (some ResetErrorCode.rollback_failed) = true
is_code_allowed TerminalStatus.attention_required (some _) = false

unfoldable pub complete_internal_user_password_reset :
    Store
    → (attempt_id : Text) → TerminalStatus
    → Option ResetErrorCode
    → Store × Answer (Option Text)
complete_internal_user_password_reset s id status code =
    if is_code_allowed status code
    then complete_attempt s id status s.attempt
    else (s, fault (raised (codes "22023") (codes "Finalización exitosa inválida.")))
