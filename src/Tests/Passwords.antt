-- ===== src/Tests/Passwords.antt =====
-- The reset of a password, over the modelled database.
use godel_design.Prelude.{
  List, [], ◌∷◌, Bool, true, false, none, some, ◌≡◌, ◌↔◌, refl, ap, arith, All,
}
use godel_design.Database.{admin}
use godel_design.JsText.{Text, codes, includes, text_eq, is_digit, trim}
use godel_design.Validators.Uuid.{is_valid_uuid}
use godel_design.Validators.Form.{ValidationResult}
use godel_design.Permissions.{has_permission}
use godel_design.Usuarios.PasswordReset.{
  BeginAttempt, BeginReason, ErrorLike, reply, fault, ActorProfile, AuthUser, Reason, ResetResult,
  success, failure, password, is_weak_password_error, is_auth_user_not_found_error,
  is_indeterminate_auth_mutation_error, map_auth_failure, normalize_error_token,
}
use godel_design.Usuarios.PasswordReset.Validation.{
  error_on, password_errors, confirmation_errors, confirm_errors, ResetInput, Asks,
  validate_reset_input, validate_reset_input-success_iff,
}
use godel_design.Usuarios.PasswordReset.Database.{
  Turn, response_lost, begin_internal_user_password_reset, begin_by_attempt, begin_again,
  complete_internal_user_password_reset, get_internal_user_password_reset_state,
}
use godel_design.Usuarios.PasswordReset.Remote.{World, Setting, remote, clear_turn}
use godel_design.Usuarios.PasswordReset.Stages.{untouched, blocked, succeeded, world_at}
use godel_design.Usuarios.PasswordReset.Beginning.{IsGood}
use godel_design.Usuarios.PasswordReset.Outcome.{IsHonest}
use godel_design.Usuarios.PasswordReset.Safety.{
  target_of, outcome, reset-changed_is_temporary, reset-success_is_whole, reset-failure_is_true,
  reset-failure_restores,
}
use godel_design.Usuarios.PasswordReset.Audit.{
  begin_password_reset_attempt, begin_loop, begin_password_reset_once, read_begin, begin_columns,
  return_failure_after_rollback, complete_password_reset_with_retry, retry,
  complete_password_reset_attempt, read_completion, read_state, audit_status_of, rolled_back,
  get_password_reset_audit_state,
}
use godel_design.Usuarios.PasswordReset.Retry.{
  unauthorized_retry_leaves_blocked, lost_answer, unauthorized,
}
use godel_design.Usuarios.PasswordReset.Success.{
  MayReset, ready, free_turn, arriving, reset-succeeds,
}
use godel_design.Usuarios.PasswordReset.Service.{
  reset_internal_user_password, is_email, reset_as, validated, begun, change_password, with_user,
  after_update,
}
use godel_design.Tests.Files.{ascii}

abbrev target : Text
target = codes "22222222-2222-4222-8222-222222222222"

abbrev new : Text
new = codes "Temporal#2026"

abbrev request : ResetInput
request = record {
  id = some target;
  password = some new;
  password_confirmation = some new;
  confirm_reset = some (codes "true");
}

request-Asks : Asks request new
unfolding is_digit
request-Asks = record {
  given = refl;
  strong = record {
    long = omega arith;
    short = omega arith;
    lower = refl;
    upper = refl;
    digit = refl;
    symbol = refl;
  };
  confirmed = refl;
  agreed = refl;
}

abbrev boss : ActorProfile
boss = record {
  id = codes "11111111-1111-4111-8111-111111111111";
  role = admin;
  must_change_password = false;
}

abbrev ana : AuthUser
ana = record { id = target; email = some (codes "ana@example.com") }

boss-MayReset : MayReset request boss new
unfolding has_permission is_valid_uuid text_eq trim is_digit
boss-MayReset = record {
  settled = refl;
  permitted = refl;
  valid = refl;
  other = refl;
  asks = request-Asks;
}

validate_reset_input-success_iff_example :
    (validate_reset_input request ≡ ValidationResult.success new) ↔ Asks request new
validate_reset_input-success_iff_example = validate_reset_input-success_iff request new

ana_fresh :
    is_email ascii (remote (ready boss ana ana)) new (some (codes "ana@example.com")) ≡ false
unfolding is_email text_eq
ana_fresh = refl

abbrev attempt : Text
attempt = codes "33333333-3333-4333-8333-333333333333"

-- One attempt is left of each limit.
abbrev nearly_limited : List Turn
nearly_limited = free_turn 2 2 19 ∷ arriving clear_turn ∷ []

reset-succeeds_example :
    reset_internal_user_password ascii
      (remote (ready boss ana ana))
      (world_at target true false nearly_limited untouched false)
      attempt
      request
    ≡ (world_at target true false [] succeeded true, success target true)
unfolding trim
reset-succeeds_example =
    reset-succeeds ascii attempt request true false boss ana ana 2 2 19 clear_turn [] new
      boss-MayReset
      (record { few_by_actor = omega arith; few_by_target = omega arith; few_by_all = omega arith })
      ana_fresh refl

confirmed-IsHonest : IsHonest ascii (target_of request) (ready boss ana ana)
confirmed-IsHonest = record { confirmed = λ user e h. refl; denied = λ e h d. absurd (cc) }

reset-changed_is_temporary_example :
    (outcome ascii
      (ready boss ana ana)
      attempt
      request
      true
      false
      nearly_limited).0.store.must_change_password
    ≡ true
unfolding trim
reset-changed_is_temporary_example =
    reset-changed_is_temporary ascii (ready boss ana ana) attempt request true false nearly_limited
      confirmed-IsHonest (ap (λ (p : World × ResetResult). p.0.changed) reset-succeeds_example)

reset-success_is_whole_example :
    ((outcome ascii (ready boss ana ana) attempt request true false nearly_limited).0.changed
      ≡ true)
    × ((outcome ascii
          (ready boss ana ana)
          attempt
          request
          true
          false
          nearly_limited).0.store.is_active
        ≡ true)
    × ((outcome ascii
          (ready boss ana ana)
          attempt
          request
          true
          false
          nearly_limited).0.store.must_change_password
        ≡ true)
    × ◌≡◌ {A = Bool} true true
reset-success_is_whole_example =
    reset-success_is_whole ascii (ready boss ana ana) attempt request true false nearly_limited
      confirmed-IsHonest target true (ap (λ (p : World × ResetResult). p.1) reset-succeeds_example)

-- The service of authentication finds the password weak.
abbrev weak : ErrorLike
weak = record {
  name = none;
  code = some (codes "weak_password");
  status = some 422;
  message = none;
}

abbrev refusing : Setting
refusing = record {
  profile = reply (some boss);
  server_client = reply tt;
  admin_client = reply tt;
  user = reply (some ana);
  update_applied = false;
  updated = fault weak;
}

refusal-IsHonest : IsHonest ascii (target_of request) refusing
refusal-IsHonest = record { confirmed = λ user e h. absurd (cc); denied = λ e h d. refl }

-- The answers to the beginning and to the rollback are lost.
abbrev lossy : Turn
lossy = record {
  delivery = response_lost none;
  is_authorized = true;
  has_target = true;
  other_pending = false;
  actor_attempts = 0;
  target_attempts = 0;
  global_attempts = 0;
}

abbrev losses : List Turn
losses = lossy ∷ clear_turn ∷ lossy ∷ []

losses-IsGood : All (IsGood ascii) losses
losses-IsGood = (
  record { authorized = refl; quiet = tt },
  (record { authorized = refl; quiet = tt }, (record { authorized = refl; quiet = tt }, tt)),
)

abbrev weak_message : Text
weak_message = codes "La contraseña temporal no cumple los requisitos de seguridad."

refused_run :
    (outcome ascii refusing attempt request true false losses).1
    ≡ failure Reason.validation_error weak_message none (error_on password weak_message)
unfolding reset_internal_user_password reset_as validated begun change_password with_user
    after_update is_email remote begin_password_reset_attempt begin_loop begin_password_reset_once
    read_begin begin_columns has_permission is_valid_uuid text_eq trim is_digit validate_reset_input
    password_errors confirmation_errors confirm_errors begin_internal_user_password_reset
    begin_by_attempt begin_again complete_internal_user_password_reset
    get_internal_user_password_reset_state return_failure_after_rollback
    complete_password_reset_with_retry retry complete_password_reset_attempt read_completion
    read_state audit_status_of rolled_back get_password_reset_audit_state is_weak_password_error
    is_auth_user_not_found_error is_indeterminate_auth_mutation_error map_auth_failure
    normalize_error_token includes
refused_run = refl

reset-failure_is_true_example :
    (outcome ascii refusing attempt request true false losses).0.changed ≡ false
reset-failure_is_true_example =
    reset-failure_is_true ascii refusing attempt request true false losses refusal-IsHonest
      Reason.validation_error weak_message none (error_on password weak_message) refused_run
      (λ h. absurd (cc))

reset-failure_restores_example :
    ((outcome ascii refusing attempt request true false losses).0.store.is_active ≡ true)
    × ((outcome ascii refusing attempt request true false losses).0.store.must_change_password
        ≡ false)
reset-failure_restores_example =
    reset-failure_restores ascii refusing attempt request true false losses refusal-IsHonest
      Reason.validation_error weak_message (error_on password weak_message) refused_run
      losses-IsGood

unauthorized_retry_leaves_blocked_example :
    begin_password_reset_attempt ascii
      (remote refusing)
      (world_at target true false
        (lost_answer 0 0 0 ∷ unauthorized clear_turn ∷ [])
        untouched
        false)
      target
      attempt
    ≡ (world_at target true false [] blocked false, BeginAttempt.refused BeginReason.auth_error)
unauthorized_retry_leaves_blocked_example =
    unauthorized_retry_leaves_blocked ascii refusing target attempt true false false 0 0 0
      clear_turn [] (omega arith) (omega arith) (omega arith)
