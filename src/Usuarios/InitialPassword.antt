-- ===== src/Usuarios/InitialPassword.antt =====
-- src/lib/auth/initial-password-validation.ts and complete-initial-password-change.ts: the change of
-- a temporary password by its user, after which the duty to change it is lifted. What is logged is
-- left out.
pub mod Database
pub mod Verdict
pub mod Accepted
use godel_design.Prelude.{
  ℕ, List, [], ◌∷◌, ◌++◌, Bool, true, false, not, ◌&&◌, ◌||◌, ltb, if◌then◌else◌, is_empty, any,
  length, Option, some, none,
}
use godel_design.JsText.{Text, codes, is_digit, includes, text_eq}
use godel_design.JsUnicode.{Unicode, is_lower, is_upper}
use godel_design.Validators.Form.{ValidationResult, has_field_errors}
use godel_design.Usuarios.PasswordReset.{
  ErrorLike, Answer, reply, fault, threw, AuthUser, normalize_error_token, is_rate_limit_error,
  is_weak_password_error,
}
use godel_design.Usuarios.PasswordReset.Validation.{has_allowed_password_symbol}

pub data InitialField : Type 0 where
  password password_confirmation : InitialField

abbrev pub FieldErrors : Type 0
FieldErrors = List (InitialField × Text)

abbrev pub error_on : InitialField → Text → FieldErrors
error_on field message = (field, message) ∷ []

-- `options.email && password.toLowerCase() === options.email.toLowerCase()`.
unfoldable pub is_own_email : Unicode → Text → Option Text → Bool
unfolding text_eq
is_own_email u new none = false
is_own_email u new (some email) =
    not (is_empty email) && text_eq (u.to_lower_case new) (u.to_lower_case email)

unfoldable pub initial_password_errors : Unicode → (email : Option Text) → Text → FieldErrors
unfolding is_own_email is_digit
initial_password_errors u email s =
    if is_empty s
    then error_on password (codes "Ingresa una nueva contraseña.")
    else if ltb (length s) 8
    then error_on password (codes "La nueva contraseña debe tener al menos 8 caracteres.")
    else if ltb 72 (length s)
    then error_on password (codes "La nueva contraseña no puede superar 72 caracteres.")
    else if not (any is_lower s)
    then error_on password (codes "La nueva contraseña debe incluir al menos una letra minúscula.")
    else if not (any is_upper s)
    then error_on password (codes "La nueva contraseña debe incluir al menos una letra mayúscula.")
    else if not (any is_digit s)
    then error_on password (codes "La nueva contraseña debe incluir al menos un número.")
    else if not (has_allowed_password_symbol s)
    then error_on password (codes "La nueva contraseña debe incluir al menos un carácter especial.")
    else if is_own_email u s email
    then error_on password (codes "La nueva contraseña no puede ser igual al correo.")
    else []

unfoldable pub initial_confirmation_errors : Text → Text → FieldErrors
unfolding text_eq
initial_confirmation_errors s confirmation =
    if is_empty confirmation
    then error_on password_confirmation (codes "Confirma la nueva contraseña.")
    else if not (text_eq confirmation s)
    then error_on password_confirmation
        (codes "La confirmación debe coincidir exactamente con la nueva contraseña.")
    else []

pub record InitialInput : Type 0 where
  pub password : Text
  pub password_confirmation : Text

unfoldable pub validate_initial_input :
    Unicode → InitialInput → (email : Option Text) → ValidationResult Text FieldErrors
unfolding initial_password_errors initial_confirmation_errors
validate_initial_input u input email =
    let errors =
      initial_password_errors u email input.password
      ++ initial_confirmation_errors input.password input.password_confirmation in
    if has_field_errors errors
    then ValidationResult.failure errors
    else ValidationResult.success input.password

pub record ProfileState : Type 0 where
  pub is_active : Option Bool
  pub must_change_password : Option Bool

-- The client of the user, and the privileged one.
pub record InitialClient (World : Type 0) : Type 0 where
  pub create_client : World → Answer (Unit {0})
  pub get_user : World → Answer (Option AuthUser)
  pub find_profile : World → Text → Answer (Option ProfileState)
  -- `auth.updateUser({ password })`, with the id of the user that it answers.
  pub update_user : World → Text → World × Answer (Option Text)
  pub create_admin_client : World → Answer (Unit {0})
  -- `rpc("complete_initial_password_change", …)`.
  pub complete_change : World → Text → World × Answer (Option Text)
  pub read_flag : World → Text → World × Answer (Option (Option Bool))

pub data Reason : Type 0 where
  unauthorized inactive not_required validation_error : Reason
  reauthentication_required weak_password rate_limited auth_error : Reason
  completion_error unexpected : Reason

-- A failure with its message, whether it says that the password was changed, and its fields.
pub data InitialResult : Type 0 where
  success : InitialResult
  failure :
      Reason → (message : Text) → (password_changed : Option Bool) → FieldErrors → InitialResult

abbrev pub plain_failure : Reason → Text → InitialResult
plain_failure reason message = failure reason message none []

abbrev pub generic_auth_error : Text
generic_auth_error = codes "No se pudo actualizar la contraseña. Inténtalo nuevamente."

abbrev pub completion_failure : InitialResult
completion_failure =
    failure completion_error
      (codes
        "Tu contraseña se actualizó, pero no pudimos completar la activación del acceso. No vuelvas a utilizar la contraseña temporal. Cierra sesión y contacta al administrador.")
      (some true) []

abbrev is_true : Option Bool → Bool
is_true (some true) = true
is_true _ = false

abbrev pub is_inactive : Option ProfileState → Bool
is_inactive none = true
is_inactive (some profile) = not (is_true profile.is_active)

abbrev pub requires_change : Option ProfileState → Bool
requires_change none = false
requires_change (some profile) = is_true profile.must_change_password

unfoldable pub is_user : Text → Option Text → Bool
unfolding text_eq
is_user id none = false
is_user id (some other) = text_eq other id

unfoldable pub map_update_password_failure : Unicode → ErrorLike → InitialResult
unfolding is_rate_limit_error is_weak_password_error normalize_error_token text_eq
map_update_password_failure u e =
    if is_rate_limit_error u e
    then plain_failure rate_limited
        (codes "Se alcanzó el límite temporal de intentos. Inténtalo más tarde.")
    else if text_eq (normalize_error_token u e.code) (codes "same_password")
    then failure validation_error (codes "Revisa los datos del formulario.") none (
        error_on password (codes "La nueva contraseña debe ser diferente de la contraseña actual."))
    else if text_eq (normalize_error_token u e.code) (codes "reauthentication_needed")
    then plain_failure reauthentication_required (
        codes
          "Por seguridad, vuelve a iniciar sesión con la contraseña temporal antes de continuar.")
    else if is_weak_password_error u e
    then failure weak_password (codes "La nueva contraseña no cumple los requisitos de seguridad.")
        none
        (error_on password (codes "La nueva contraseña no cumple los requisitos de seguridad."))
    else plain_failure auth_error generic_auth_error

module _ (u : Unicode) {World : Type 0} (client : InitialClient World) where
  open client use {
    create_client, get_user, find_profile, update_user, create_admin_client, complete_change,
    read_flag,
  }

  -- A throw is caught.
  unfoldable pub read_completion : Text → Answer (Option Text) → Bool
  unfolding is_user
  read_completion id (reply answer) = is_user id answer
  read_completion id _ = false

  -- `none` is a throw, which the caller catches.
  abbrev pub flag_is_lifted : Answer (Option (Option Bool)) → Option Bool
  flag_is_lifted (reply (some (some false))) = some true
  flag_is_lifted (reply _) = some false
  flag_is_lifted (fault e) = some false
  flag_is_lifted threw = none

  unfoldable pub has_completed_profile_flag : World → Text → World × Option Bool
  has_completed_profile_flag w id = let (w', a) = read_flag w id in (w', flag_is_lifted a)

  unfoldable pub call_completion_rpc : World → Text → World × Bool
  unfolding read_completion
  call_completion_rpc w id = let (w', a) = complete_change w id in (w', read_completion id a)

  -- After the second try, and after the first.
  unfoldable pub second_tried : Text → World × Bool → World × Option Bool
  unfolding has_completed_profile_flag
  second_tried id (w, true) = (w, some true)
  second_tried id (w, false) = has_completed_profile_flag w id

  unfoldable pub first_tried : Text → World × Bool → World × Option Bool
  unfolding second_tried call_completion_rpc
  first_tried id (w, true) = (w, some true)
  first_tried id (w, false) = second_tried id (call_completion_rpc w id)

  unfoldable pub complete_profile_flag_with_retry : World → Text → World × Option Bool
  unfolding has_completed_profile_flag first_tried call_completion_rpc
  complete_profile_flag_with_retry w id = elim (create_admin_client w) [
    | reply _ ↦ first_tried id (call_completion_rpc w id)
    | _ ↦ has_completed_profile_flag w id
  ]

  abbrev pub finished : World × Option Bool → World × InitialResult
  finished (w, some true) = (w, success)
  finished (w, _) = (w, completion_failure)

  -- From the answer to the change on.
  unfoldable pub after_change : Text → World × Answer (Option Text) → World × InitialResult
  unfolding complete_profile_flag_with_retry map_update_password_failure is_user
  after_change id (w, threw) = (w, plain_failure unexpected generic_auth_error)
  after_change id (w, fault e) = (w, map_update_password_failure u e)
  after_change id (w, reply answer) =
      if not (is_user id answer)
      then (w, plain_failure auth_error generic_auth_error)
      else finished (complete_profile_flag_with_retry w id)

  unfoldable pub change_validated :
      World → Text → ValidationResult Text FieldErrors → World × InitialResult
  unfolding after_change
  change_validated w id (ValidationResult.failure errors) =
      (w, failure validation_error (codes "Revisa los datos del formulario.") none errors)
  change_validated w id (ValidationResult.success new) = after_change id (update_user w new)

  unfoldable pub change_with_profile :
      World → InitialInput → AuthUser → Answer (Option ProfileState) → World × InitialResult
  unfolding change_validated validate_initial_input
  change_with_profile w input user threw = (w, plain_failure unexpected generic_auth_error)
  change_with_profile w input user (fault e) = (
    w,
    plain_failure auth_error
        (codes "No pudimos comprobar el estado de tu usuario. Inténtalo nuevamente."),
  )
  change_with_profile w input user (reply profile) =
      if is_inactive profile
      then (
        w,
        plain_failure inactive
            (codes "Tu usuario no tiene acceso interno activo. Contacta al administrador."),
      )
      else if not (requires_change profile)
      then (w, plain_failure not_required (codes "Tu contraseña inicial ya fue actualizada."))
      else change_validated w user.id (validate_initial_input u input user.email)

  unfoldable pub change_as : World → InitialInput → Answer (Option AuthUser) → World × InitialResult
  unfolding change_with_profile
  change_as w input threw = (w, plain_failure unexpected generic_auth_error)
  change_as w input (fault e) = (w, plain_failure auth_error generic_auth_error)
  change_as w input (reply none) =
      (w, plain_failure unauthorized (codes "Inicia sesión para cambiar tu contraseña."))
  change_as w input (reply (some user)) = change_with_profile w input user (find_profile w user.id)

  unfoldable pub complete_initial_password_change : World → InitialInput → World × InitialResult
  unfolding change_as
  complete_initial_password_change w input = elim (create_client w) [
    | reply _ ↦ change_as w input (get_user w)
    | _ ↦ (w, plain_failure unexpected generic_auth_error)
  ]
