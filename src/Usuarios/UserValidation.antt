-- ===== src/Usuarios/UserValidation.antt =====
-- src/lib/usuarios/user-validation.ts and roles.ts: the forms by which an administrator creates a
-- user and changes one. The errors are the fields of both forms with their messages.
pub mod Accepted
use godel_design.Prelude.{
  ℕ, List, [], ◌∷◌, ◌++◌, Bool, true, false, not, ◌&&◌, ◌||◌, ◌==◌, ltb, if◌then◌else◌, is_empty,
  any, keep, length, Option, some, none,
}
use godel_design.Database.{AppRole, admin, supervisor, trabajador}
use godel_design.JsText.{Text, codes, trim, split, is_digit, is_space, text_eq}
use godel_design.JsUnicode.{Unicode, is_lower, is_upper}
use godel_design.Validators.Form.{
  Unknown, ValidationResult, success, failure, has_field_errors, get_text_input,
  normalize_single_line_text, normalize_optional_single_line_text, is_basic_email,
}
use godel_design.Usuarios.PasswordReset.Validation.{has_allowed_password_symbol}

pub data UserField : Type 0 where
  email password password_confirmation full_name phone avatar_url role is_active : UserField
  confirm_admin : UserField

abbrev pub FieldErrors : Type 0
FieldErrors = List (UserField × Text)

abbrev pub error_on : UserField → Text → FieldErrors
error_on field message = (field, message) ∷ []

pub record ProfileInput : Type 0 where
  pub full_name : Unknown
  pub phone : Unknown
  pub avatar_url : Unknown
  pub role : Unknown

pub record ProfileData : Type 0 where
  pub full_name : Text
  pub phone : Option Text
  pub avatar_url : Option Text
  pub role : AppRole

pub record CreateInput : Type 0 where
  pub email : Unknown
  pub password : Unknown
  pub password_confirmation : Unknown
  pub profile : ProfileInput
  pub confirm_admin : Unknown

-- The fields of the profile stand together.
pub record CreateData : Type 0 where
  pub email : Text
  pub password : Text
  pub profile : ProfileData

pub record UpdateData : Type 0 where
  pub profile : ProfileData
  pub is_active : Bool

-- `typeof value === "string" ? value : ""`.
abbrev pub string_or_empty : Unknown → Text
string_or_empty (Unknown.str s) = s
string_or_empty _ = []

-- `value === "…"`.
abbrev pub is_string : Unknown → Text → Bool
is_string (Unknown.str s) t = text_eq s t
is_string _ t = false

unfoldable pub is_internal_user_role : Text → Option AppRole
unfolding text_eq
is_internal_user_role name =
    if text_eq name (codes "admin")
    then some admin
    else if text_eq name (codes "supervisor")
    then some supervisor
    else if text_eq name (codes "trabajador")
    then some trabajador
    else none

unfoldable pub parse_active_value : Unknown → Option Bool
unfolding text_eq
parse_active_value value =
    if is_string value (codes "true")
    then some true
    else if is_string value (codes "false")
    then some false
    else none

unfoldable pub normalize_role : Unicode → Unknown → Option AppRole
unfolding is_internal_user_role normalize_single_line_text
normalize_role u value = is_internal_user_role (u.to_lower_case (normalize_single_line_text value))

unfoldable pub full_name_errors : Text → FieldErrors
full_name_errors s =
    if is_empty s
    then error_on full_name (codes "El nombre completo es obligatorio.")
    else if ltb 120 (length s)
    then error_on full_name (codes "El nombre completo no puede superar 120 caracteres.")
    else []

abbrev pub limit_errors : UserField → ℕ → (long : Text) → Option Text → FieldErrors
limit_errors field limit long none = []
limit_errors field limit long (some s) =
    if not (is_empty s) && ltb limit (length s) then error_on field long else []

abbrev pub role_errors : Option AppRole → FieldErrors
role_errors none = error_on role (codes "Selecciona un rol válido.")
role_errors (some r) = []

unfoldable pub profile_errors : Text → Option Text → Option Text → Option AppRole → FieldErrors
unfolding full_name_errors
profile_errors name telephone picture chosen =
    full_name_errors name
    ++ limit_errors phone 40 (codes "El teléfono no puede superar 40 caracteres.") telephone
    ++ limit_errors avatar_url 500 (codes "La URL de avatar no puede superar 500 caracteres.")
        picture
    ++ role_errors chosen

-- What was built, where there is a role and no field has an error.
abbrev pub when_clear : {A : Type 0} → FieldErrors → Option A → Option A
when_clear errors none = none
when_clear errors (some a) = if has_field_errors errors then none else some a

abbrev pub with_role : Text → Option Text → Option Text → Option AppRole → Option ProfileData
with_role name telephone picture none = none
with_role name telephone picture (some chosen) =
    some (record { full_name = name; phone = telephone; avatar_url = picture; role = chosen })

unfoldable pub validate_profile_fields : Unicode → ProfileInput → Option ProfileData × FieldErrors
unfolding normalize_single_line_text normalize_optional_single_line_text normalize_role
    profile_errors
validate_profile_fields u input =
    let name = normalize_single_line_text input.full_name in
    let telephone = normalize_optional_single_line_text input.phone in
    let picture = normalize_optional_single_line_text input.avatar_url in
    let chosen = normalize_role u input.role in
    let errors = profile_errors name telephone picture chosen in
    (when_clear errors (with_role name telephone picture chosen), errors)

-- `const [, domain = ""] = email.split("@")`.
abbrev pub second_part : List Text → Text
second_part (_ ∷ domain ∷ _) = domain
second_part _ = []

unfoldable pub email_errors : (raw : Text) → Text → FieldErrors
unfolding is_space split is_basic_email
email_errors raw s =
    if is_empty s
    then error_on email (codes "El correo es obligatorio.")
    else if any (λ c. c == 0xd || c == 0xa) raw
    then error_on email (codes "El correo debe estar en una sola línea.")
    else if ltb 254 (length s)
    then error_on email (codes "El correo no puede superar 254 caracteres.")
    else if any is_space s
    then error_on email (codes "El correo no puede contener espacios.")
    else if not (length (keep (λ c. c == b'@') s) == 1) || is_empty (second_part (split b'@' s))
    then error_on email (codes "Ingresa un correo válido.")
    else if not (is_basic_email s)
    then error_on email (codes "Ingresa un correo válido.")
    else []

unfoldable pub validate_email : Unicode → Unknown → Option Text × FieldErrors
unfolding email_errors get_text_input trim
validate_email u value =
    let raw = get_text_input value in
    let s = u.to_lower_case (trim raw) in
    let errors = email_errors raw s in (when_clear errors (some s), errors)

-- `email && password.toLowerCase() === email`.
abbrev pub equals_email : Unicode → Text → Option Text → Bool
equals_email u s none = false
equals_email u s (some address) = not (is_empty address) && text_eq (u.to_lower_case s) address

unfoldable pub password_errors : Unicode → (address : Option Text) → Text → FieldErrors
unfolding text_eq is_digit
password_errors u address s =
    if is_empty s
    then error_on password (codes "La contraseña temporal es obligatoria.")
    else if ltb (length s) 8
    then error_on password (codes "La contraseña temporal debe tener al menos 8 caracteres.")
    else if ltb 72 (length s)
    then error_on password (codes "La contraseña temporal no puede superar 72 caracteres.")
    else if not (any is_lower s)
    then error_on password (codes "La contraseña temporal debe incluir una minúscula.")
    else if not (any is_upper s)
    then error_on password (codes "La contraseña temporal debe incluir una mayúscula.")
    else if not (any is_digit s)
    then error_on password (codes "La contraseña temporal debe incluir un número.")
    else if not (has_allowed_password_symbol s)
    then error_on password
        (codes "La contraseña temporal debe incluir un carácter no alfanumérico.")
    else if equals_email u s address
    then error_on password (codes "La contraseña temporal no puede ser igual al correo.")
    else []

unfoldable pub confirmation_errors : Text → Text → FieldErrors
unfolding text_eq
confirmation_errors s again =
    if is_empty again
    then error_on password_confirmation (codes "Confirma la contraseña temporal.")
    else if not (text_eq s again)
    then error_on password_confirmation (codes "La confirmación debe coincidir exactamente.")
    else []

unfoldable pub validate_temporary_password :
    Unicode → (secret again : Unknown) → Option Text → Option Text × FieldErrors
unfolding password_errors confirmation_errors
validate_temporary_password u secret again address =
    let s = string_or_empty secret in
    let errors = password_errors u address s ++ confirmation_errors s (string_or_empty again) in
    (when_clear errors (some s), errors)

unfoldable pub validate_user_input :
    Unicode → ProfileInput → (active : Unknown) → ValidationResult UpdateData FieldErrors
unfolding validate_profile_fields parse_active_value
validate_user_input u input active =
    let (found, errors) = validate_profile_fields u input in
    elim (parse_active_value active) [
      | none ↦ failure (errors ++ error_on is_active (codes "Selecciona un estado válido."))
      | some flag ↦ elim found [
        | none ↦ failure errors
        | some profile ↦
            if has_field_errors errors
            then failure errors
            else success (record { profile = profile; is_active = flag })
      ]
    ]

abbrev pub is_admin_role : AppRole → Bool
is_admin_role admin = true
is_admin_role _ = false

unfoldable pub confirm_errors : Option ProfileData → Unknown → FieldErrors
unfolding text_eq
confirm_errors none confirm = []
confirm_errors (some profile) confirm =
    if is_admin_role profile.role && not (is_string confirm (codes "true"))
    then error_on confirm_admin
        (codes "Confirma que el usuario tendrá acceso administrativo completo.")
    else []

abbrev pub create_verdict :
    Option Text
    → Option Text
    → Option ProfileData
    → FieldErrors
    → ValidationResult CreateData FieldErrors
create_verdict (some address) (some secret) (some profile) errors =
    if has_field_errors errors
    then failure errors
    else success (record { email = address; password = secret; profile = profile })
create_verdict _ _ _ errors = failure errors

unfoldable pub validate_create_internal_user_input :
    Unicode → CreateInput → ValidationResult CreateData FieldErrors
unfolding validate_email validate_temporary_password validate_profile_fields confirm_errors
validate_create_internal_user_input u input =
    let (address, in_email) = validate_email u input.email in
    let (secret, in_password) =
      validate_temporary_password u input.password input.password_confirmation address in
    let (profile, in_profile) = validate_profile_fields u input.profile in
    create_verdict address secret profile
      (in_email ++ in_password ++ in_profile ++ confirm_errors profile input.confirm_admin)
