-- ===== src/Usuarios/PasswordReset/Validation.antt =====
-- src/lib/usuarios/reset-internal-user-password-validation.ts: the temporary password. Its symbols
-- are single code units, so that looking through code points and through units is the same.
use godel_design.Prelude.{
  ◌≤◌, [], ◌∷◌, ◌++◌, Bool, true, false, not, ltb, ◌==◌, if◌then◌else◌, is_empty, any, length,
  Option, some, none, ◌≡◌, ◌≢◌, ◌↔◌, refl, sym, subst, ap, arith,
}
use godel_design.JsText.{Text, codes, is_digit, text_eq, text_eq_iff}
use godel_design.JsUnicode.{is_lower, is_upper}
use godel_design.Validators.Form.{ValidationResult, success, failure, has_field_errors}
use godel_design.Validators.Form.Verdict.{append_nil_iff, verdict_iff}
use godel_design.Usuarios.PasswordReset.{
  ResetField, FieldErrors, password, password_confirmation, confirm_reset,
}

abbrev pub allowed_password_symbols : Text
allowed_password_symbols = codes "!@#$%^&*()_+-=[]{};'\\:\"|<>?,./`~"

abbrev pub has_allowed_password_symbol : Text → Bool
has_allowed_password_symbol s = any (λ c. any (λ d. d == c) allowed_password_symbols) s

pub record ResetInput : Type 0 where
  pub id : Option Text
  pub password : Option Text
  pub password_confirmation : Option Text
  pub confirm_reset : Option Text

abbrev pub text_or_empty : Option Text → Text
text_or_empty none = []
text_or_empty (some s) = s

abbrev pub error_on : ResetField → Text → FieldErrors
error_on field message = (field, message) ∷ []

unfoldable pub password_errors : Text → FieldErrors
unfolding is_digit
password_errors s =
    if is_empty s
    then error_on password (codes "Ingresa una contraseña temporal.")
    else if ltb (length s) 8
    then error_on password (codes "La contraseña temporal debe tener al menos 8 caracteres.")
    else if ltb 72 (length s)
    then error_on password (codes "La contraseña temporal no puede superar 72 caracteres.")
    else if not (any is_lower s)
    then error_on password (codes "La contraseña temporal debe incluir una minúscula.")
    else if not (any is_upper s)
    then error_on password (codes "La contraseña temporal debe incluir una mayúscula.")
    else if not (any is_digit s)
    then error_on password (codes "La contraseña temporal debe incluir un número.")
    else if not (has_allowed_password_symbol s)
    then error_on password
        (codes "La contraseña temporal debe incluir un carácter no alfanumérico.")
    else []

unfoldable pub confirmation_errors : Text → Text → FieldErrors
unfolding text_eq
confirmation_errors s confirmation =
    if is_empty confirmation
    then error_on password_confirmation (codes "Confirma la contraseña temporal.")
    else if not (text_eq s confirmation)
    then error_on password_confirmation (codes "La confirmación debe coincidir exactamente.")
    else []

-- `input.confirm_reset !== "true"`.
abbrev is_true_text : Option Text → Bool
unfolding text_eq
is_true_text none = false
is_true_text (some s) = text_eq s (codes "true")

unfoldable pub confirm_errors : Option Text → FieldErrors
unfolding is_true_text
confirm_errors confirm =
    if not (is_true_text confirm)
    then error_on confirm_reset
        (codes "Confirma que deseas restablecer la contraseña de este usuario.")
    else []

unfoldable pub validate_reset_input : ResetInput → ValidationResult Text FieldErrors
unfolding password_errors confirmation_errors confirm_errors
validate_reset_input input =
    let s = text_or_empty input.password in
    let errors =
      password_errors s
      ++ confirmation_errors s (text_or_empty input.password_confirmation)
      ++ confirm_errors input.confirm_reset in
    if has_field_errors errors then failure errors else success s

-- What a temporary password has to satisfy.
pub record IsStrong (s : Text) : Type 0 where
  pub long : 8 ≤ length s
  pub short : length s ≤ 72
  pub lower : any is_lower s ≡ true
  pub upper : any is_upper s ≡ true
  pub digit : any is_digit s ≡ true
  pub symbol : has_allowed_password_symbol s ≡ true

password_errors_iff : (s : Text) → (password_errors s ≡ []) ↔ IsStrong s
unfolding password_errors
password_errors_iff s = ground arith

confirmation_errors_iff : (s t : Text) → (confirmation_errors s t ≡ []) ↔ ((t ≢ []) × (s ≡ t))
unfolding confirmation_errors
confirmation_errors_iff s [] = ground arith
confirmation_errors_iff s (c ∷ t) = ground (arith, text_eq_iff s (c ∷ t))

confirm_errors_iff : (c : Option Text) → (confirm_errors c ≡ []) ↔ (c ≡ some (codes "true"))
unfolding confirm_errors is_true_text
confirm_errors_iff none = ground arith
confirm_errors_iff (some t) = ground (arith, text_eq_iff t (codes "true"))

-- The input is as a reset needs it, and asks for `s`.
pub record Asks (input : ResetInput) (s : Text) : Type 0 where
  pub given : text_or_empty input.password ≡ s
  pub strong : IsStrong s
  pub confirmed : text_or_empty input.password_confirmation ≡ s
  pub agreed : input.confirm_reset ≡ some (codes "true")

pub IsStrong-nonempty : (s : Text) → IsStrong s → s ≢ []
IsStrong-nonempty s strong e = absurd (ground (arith, strong.long, ap length e))

-- All three lists of errors are empty where the input asks for a password.
errors-Asks_iff :
    (input : ResetInput)
    → ((password_errors (text_or_empty input.password)
          ++ confirmation_errors
              (text_or_empty input.password)
              (text_or_empty input.password_confirmation)
          ++ confirm_errors input.confirm_reset)
        ≡ [])
      ↔ Asks input (text_or_empty input.password)
errors-Asks_iff input =
    let s = text_or_empty input.password in
    let t = text_or_empty input.password_confirmation in
    let strong = password_errors_iff s in
    let equal = confirmation_errors_iff s t in
    let agreed = confirm_errors_iff input.confirm_reset in
    let left =
      append_nil_iff (password_errors s ++ confirmation_errors s t)
        (confirm_errors input.confirm_reset) in
    let both = append_nil_iff (password_errors s) (confirmation_errors s t) in
    (
      λ h. record {
        given = refl;
        strong = strong.0 (both.0 (left.0 h).0).0;
        confirmed = sym (equal.0 (both.0 (left.0 h).0).1).1;
        agreed = agreed.0 (left.0 h).1;
      },
      λ a. left.1 (
        both.1 (
          strong.1 a.strong,
          equal.1 (
            subst (λ x. x ≢ []) (sym a.confirmed) (IsStrong-nonempty s a.strong),
            sym a.confirmed,
          ),
        ),
        agreed.1 a.agreed,
      ),
    )

-- The input asks for `s` where the validation gives `s`, and only there.
pub validate_reset_input-success_iff :
    (input : ResetInput) → (s : Text) → (validate_reset_input input ≡ success s) ↔ Asks input s
unfolding validate_reset_input
validate_reset_input-success_iff input s =
    let verdict = verdict_iff _ (text_or_empty input.password) s in
    let asks = errors-Asks_iff input in
    (
      λ h. subst (Asks input) (verdict.0 h).1 (asks.0 (verdict.0 h).0),
      λ a. verdict.1 (asks.1 (subst (Asks input) (sym a.given) a), a.given),
    )
