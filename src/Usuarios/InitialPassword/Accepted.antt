-- ===== src/Usuarios/InitialPassword/Accepted.antt =====
-- initial-password-validation.ts: which new passwords are accepted.
use godel_design.Prelude.{[], ◌∷◌, false, Option, some, none, ◌≡◌, ◌≢◌, ◌↔◌, sym, subst, arith}
use godel_design.JsText.{Text, text_eq_iff}
use godel_design.JsUnicode.{Unicode}
use godel_design.Validators.Form.{ValidationResult}
use godel_design.Validators.Form.Verdict.{append_iff, verdict_iff}
use godel_design.Usuarios.PasswordReset.Validation.{IsStrong, IsStrong-nonempty}
use godel_design.Usuarios.InitialPassword.{
  InitialInput, is_own_email, initial_password_errors, initial_confirmation_errors,
  validate_initial_input,
}

-- The password, in lower case, is not the e-mail in lower case, where there is one.
abbrev pub DiffersFrom : Unicode → (email : Option Text) → Text → Type 0
DiffersFrom u none s = Unit
DiffersFrom u (some []) s = Unit
DiffersFrom u (some (c ∷ t)) s = u.to_lower_case s ≢ u.to_lower_case (c ∷ t)

own_email_iff :
    (u : Unicode) (email : Option Text) (s : Text)
    → (is_own_email u s email ≡ false) ↔ DiffersFrom u email s
unfolding is_own_email
own_email_iff u none s = ground arith
own_email_iff u (some []) s = ground arith
own_email_iff u (some (c ∷ t)) s =
    let same = text_eq_iff (u.to_lower_case s) (u.to_lower_case (c ∷ t)) in ground (arith, same)

initial_password_errors_iff :
    (u : Unicode) (email : Option Text) (s : Text)
    → (initial_password_errors u email s ≡ []) ↔ (IsStrong s × DiffersFrom u email s)
unfolding initial_password_errors
initial_password_errors_iff u email s = ground (arith, own_email_iff u email s)

initial_confirmation_errors_iff :
    (s t : Text) → (initial_confirmation_errors s t ≡ []) ↔ ((t ≢ []) × (t ≡ s))
unfolding initial_confirmation_errors
initial_confirmation_errors_iff s [] = ground arith
initial_confirmation_errors_iff s (c ∷ t) = ground (arith, text_eq_iff (c ∷ t) s)

-- A new password is accepted exactly when it has 8 to 72 units with a lower-case letter, an
-- upper-case letter, a digit and an allowed symbol, is not the e-mail of its user, and its
-- confirmation is equal; it is accepted as it is.
pub validate_initial_input-success_iff :
    (u : Unicode) (input : InitialInput) (email : Option Text) (s : Text)
    → (validate_initial_input u input email ≡ ValidationResult.success s) ↔ (
        (input.password ≡ s)
        × IsStrong s
        × DiffersFrom u email s
        × (input.password_confirmation ≡ s))
unfolding validate_initial_input
validate_initial_input-success_iff u input email s =
    let new = input.password in
    let again = input.password_confirmation in
    let verdict = verdict_iff _ new s in
    let parts =
      append_iff _ _ (initial_password_errors_iff u email new)
        (initial_confirmation_errors_iff new again) in
    let Good = λ (p : Text). IsStrong p × DiffersFrom u email p × (again ≡ p) in
    (
      λ h.
          let (clear, same) = verdict.0 h in
          let ((strong, other), (_, equal)) = parts.0 clear in
          let good : Good s = subst Good same (strong, other, equal) in
          (same, good.0, good.1, good.2),
      λ (same, strong, other, equal).
          let good : Good new = subst Good (sym same) (strong, other, equal) in
          let filled : again ≢ [] =
            subst (λ t. t ≢ []) (sym good.2) (IsStrong-nonempty new good.0) in
          verdict.1 (parts.1 ((good.0, good.1), (filled, good.2)), same),
    )
