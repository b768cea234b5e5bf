-- ===== src/Usuarios/PasswordReset.antt =====
-- src/lib/usuarios/reset-internal-user-password.ts: the reset of a user's password by an
-- administrator. The user is blocked while an attempt is pending; the attempt ends by giving back
-- what was, or by leaving the user blocked for an inspection. Here: the data, the client, and how
-- errors are classified. What is logged is left out.
pub mod Validation
pub mod Audit
pub mod Service
pub mod Database
pub mod Remote
pub mod Stages
pub mod Calls
pub mod Completion
pub mod Beginning
pub mod Recovery
pub mod Outcome
pub mod Flow
pub mod Promises
pub mod Retry
pub mod Success
pub mod Safety
use godel_design.Prelude.{
  ℕ, List, [], ◌∷◌, Bool, true, false, ◌&&◌, ◌||◌, ◌==◌, leb, if◌then◌else◌, any, Option, some,
  none,
}
use godel_design.Database.{AppRole}
use godel_design.JsText.{Text, codes, includes, text_eq}
use godel_design.JsUnicode.{Unicode}

-- An error that a call reports; a part of another type than the code tests for is absent.
pub record ErrorLike : Type 0 where
  pub name : Option Text
  pub code : Option Text
  pub status : Option ℕ
  pub message : Option Text

pub data Answer (A : Type 0) : Type 0 where
  reply : A → Answer A
  fault : ErrorLike → Answer A
  threw : Answer A

pub record ActorProfile : Type 0 where
  pub id : Text
  pub role : AppRole
  pub must_change_password : Bool

-- The rows that the functions of the database give; a column of another type is absent.
pub record BeginRow : Type 0 where
  pub attempt_id : Text
  pub allowed : Option Bool
  pub limited_scope : Option Text
  pub previous_is_active : Option Bool
  pub previous_must_change_password : Option Bool

pub record StateRow : Type 0 where
  pub attempt_id : Text
  pub status : Text
  pub target_profile_id : Text
  pub previous_is_active : Option Bool
  pub previous_must_change_password : Option Bool
  pub current_is_active : Option Bool
  pub current_must_change_password : Option Bool

pub record AuthUser : Type 0 where
  pub id : Text
  pub email : Option Text

pub data TerminalStatus : Type 0 where
  succeeded failed attention_required : TerminalStatus

pub data ResetErrorCode : Type 0 where
  email_password_match auth_user_not_found weak_password auth_rate_limited : ResetErrorCode
  configuration_error auth_error unexpected_error finalization_failed : ResetErrorCode
  rollback_failed : ResetErrorCode

-- The server client, with the three functions of the database, and the administrative client.
pub record ResetClient (World : Type 0) : Type 0 where
  pub current_profile : World → Answer (Option ActorProfile)
  pub create_client : World → Answer (Unit {0})
  -- `rpc("begin_internal_user_password_reset", …)` with the target and the attempt.
  pub begin_reset : World → Text → Text → World × Answer (Option BeginRow)
  -- `rpc("get_internal_user_password_reset_state", …)`.
  pub reset_state : World → Text → World × Answer (Option StateRow)
  -- `rpc("complete_internal_user_password_reset", …)`.
  pub complete_reset :
      World → Text → TerminalStatus → Option ResetErrorCode → World × Answer (Option Text)
  pub create_admin_client : World → Answer (Unit {0})
  -- `auth.admin.getUserById` and `auth.admin.updateUserById` with a password.
  pub get_user : World → Text → World × Answer (Option AuthUser)
  pub update_user : World → Text → Text → World × Answer (Option AuthUser)

pub data Reason : Type 0 where
  unauthorized forbidden onboarding_required self_reset_forbidden : Reason
  validation_error not_found already_in_progress rate_limited : Reason
  configuration_error auth_user_not_found auth_error rollback_error : Reason
  completion_error unexpected : Reason

pub data ResetField : Type 0 where
  password password_confirmation confirm_reset : ResetField

abbrev pub FieldErrors : Type 0
FieldErrors = List (ResetField × Text)

-- A failure with its message, whether it says that the password was changed, and its fields.
pub data ResetResult : Type 0 where
  success : (user_id : Text) → (was_active : Bool) → ResetResult
  failure : Reason → (message : Text) → (password_changed : Option Bool) → FieldErrors → ResetResult

pub data LimitedScope : Type 0 where
  actor target global : LimitedScope

pub data BeginReason : Type 0 where
  not_found already_in_progress auth_error rollback_error unexpected : BeginReason

pub data BeginAttempt : Type 0 where
  allowed : (attempt_id : Text) → (was_active must_change : Bool) → BeginAttempt
  limited :
      (attempt_id : Text) → Option LimitedScope → (was_active must_change : Bool) → BeginAttempt
  refused : BeginReason → BeginAttempt

pub data AuditStatus : Type 0 where
  pending succeeded failed rate_limited attention_required : AuditStatus

pub record AuditState : Type 0 where
  pub attempt_id : Text
  pub status : AuditStatus
  pub target_profile_id : Text
  pub previous_is_active : Bool
  pub previous_must_change_password : Bool
  pub current_is_active : Bool
  pub current_must_change_password : Bool

pub data AuditStateResult : Type 0 where
  found : AuditState → AuditStateResult
  absent query_error invalid_response : AuditStateResult

pub data CompleteReason : Type 0 where
  not_found conflict unexpected : CompleteReason

pub data CompleteResult : Type 0 where
  completed : (attempt_id : Text) → CompleteResult
  refused : CompleteReason → CompleteResult

-- A failure of the result, with the code for the audit.
pub record AuthFailure : Type 0 where
  pub reason : Reason
  pub message : Text
  pub fields : FieldErrors
  pub audit_error_code : ResetErrorCode

abbrev pub generic_reset_error : Text
generic_reset_error = codes "No se pudo restablecer la contraseña temporal. Inténtalo nuevamente."

abbrev pub rate_limit_reset_error : Text
rate_limit_reset_error =
    codes "Se alcanzó el límite temporal de restablecimientos. Inténtalo más tarde."

abbrev pub auth_rate_limit_codes : List Text
auth_rate_limit_codes =
    codes "over_request_rate_limit"
    ∷ codes "over_email_send_rate_limit"
    ∷ codes "over_sms_send_rate_limit"
    ∷ []

abbrev pub is_status : ℕ → Option ℕ → Bool
is_status n none = false
is_status n (some m) = m == n

abbrev is_server_status : Option ℕ → Bool
is_server_status none = false
is_server_status (some m) = leb 500 m && leb m 599

module _ (u : Unicode) where
  -- A missing part is the empty text.
  unfoldable pub normalize_error_token : Option Text → Text
  normalize_error_token none = []
  normalize_error_token (some value) = u.to_lower_case value

  unfoldable pub is_rate_limit_error : ErrorLike → Bool
  unfolding normalize_error_token text_eq
  is_rate_limit_error e =
      is_status 429 e.status || any (text_eq (normalize_error_token e.code)) auth_rate_limit_codes

  unfoldable pub is_weak_password_error : ErrorLike → Bool
  unfolding normalize_error_token text_eq includes
  is_weak_password_error e =
      text_eq (normalize_error_token e.code) (codes "weak_password")
      || includes (codes "weak") (normalize_error_token e.message)

  unfoldable pub is_auth_user_not_found_error : ErrorLike → Bool
  unfolding normalize_error_token text_eq includes
  is_auth_user_not_found_error e =
      let code = normalize_error_token e.code in
      text_eq code (codes "user_not_found")
      || text_eq code (codes "not_found")
      || is_status 404 e.status
      || includes (codes "user not found") (normalize_error_token e.message)

  unfoldable pub is_indeterminate_auth_mutation_error : ErrorLike → Bool
  unfolding normalize_error_token text_eq
  is_indeterminate_auth_mutation_error e =
      let name = normalize_error_token e.name in
      text_eq name (codes "authretryablefetcherror")
      || text_eq name (codes "authunknownerror")
      || is_status 0 e.status
      || is_status 408 e.status
      || is_server_status e.status

  unfoldable pub begin_reason : ErrorLike → BeginReason
  unfolding normalize_error_token text_eq
  begin_reason e =
      let code = normalize_error_token e.code in
      if text_eq (normalize_error_token e.message) (codes "reset_in_progress")
      then already_in_progress
      else if text_eq code (codes "p0002")
      then not_found
      else if text_eq code (codes "42501")
      then auth_error
      else unexpected

  unfoldable pub map_begin_password_reset_error : ErrorLike → BeginAttempt
  unfolding begin_reason
  map_begin_password_reset_error e = refused (begin_reason e)

  unfoldable pub map_auth_failure : ErrorLike → AuthFailure
  unfolding is_auth_user_not_found_error is_weak_password_error is_rate_limit_error
  map_auth_failure e =
      if is_auth_user_not_found_error e
      then record {
        reason = auth_user_not_found;
        message = codes "No existe el usuario de autenticación asociado.";
        fields = [];
        audit_error_code = auth_user_not_found;
      }
      else if is_weak_password_error e
      then record {
        reason = validation_error;
        message = codes "La contraseña temporal no cumple los requisitos de seguridad.";
        fields =
            (password, codes "La contraseña temporal no cumple los requisitos de seguridad.") ∷ [];
        audit_error_code = weak_password;
      }
      else if is_rate_limit_error e
      then record {
        reason = rate_limited;
        message = rate_limit_reset_error;
        fields = [];
        audit_error_code = auth_rate_limited;
      }
      else record {
        reason = auth_error;
        message = generic_reset_error;
        fields = [];
        audit_error_code = auth_error;
      }
