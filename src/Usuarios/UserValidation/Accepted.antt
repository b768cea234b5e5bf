-- ===== src/Usuarios/UserValidation/Accepted.antt =====
-- user-validation.ts: which users are accepted, and as what.
use godel_design.Prelude.{
  ℕ, ◌≤◌, [], ◌∷◌, ◌++◌, true, false, ◌||◌, ◌==◌, ◌⊎◌, any, keep, is_empty, Option, some, none,
  length, ◌≡◌, ◌≢◌, ◌↔◌, refl, sym, ap, subst, ◌∙◌, arith,
}
use godel_design.Database.{AppRole}
use godel_design.JsText.{Text, codes, trim, split, is_space, text_eq_iff}
use godel_design.JsUnicode.{Unicode}
use godel_design.Validators.Form.{
  Unknown, success, get_text_input, is_basic_email, normalize_single_line_text,
  normalize_optional_single_line_text,
}
use godel_design.Validators.Form.Verdict.{append_iff, four_iff, verdict_iff}
use godel_design.Usuarios.PasswordReset.Validation.{IsStrong, IsStrong-nonempty}
use godel_design.Usuarios.UserValidation.{
  UserField, FieldErrors, ProfileInput, ProfileData, CreateInput, CreateData, when_clear,
  create_verdict, string_or_empty, is_string, normalize_role, full_name_errors, limit_errors,
  profile_errors, role_errors, phone, avatar_url, password_errors, confirmation_errors,
  equals_email, confirm_errors, email_errors, validate_create_internal_user_input, validate_email,
  validate_temporary_password, validate_profile_fields, with_role, second_part, is_admin_role,
}

-- The three parts of the form are clear of errors and what they built is the result.
create_verdict_iff :
    (a s : Text) (e₁ e₂ e₃ : FieldErrors) (built : Option ProfileData)
    (confirm : Option ProfileData → FieldErrors) (d : CreateData)
    → (create_verdict
          (when_clear e₁ (some a))
          (when_clear e₂ (some s))
          (when_clear e₃ built)
          (e₁ ++ e₂ ++ e₃ ++ confirm (when_clear e₃ built))
        ≡ success d)
      ↔ ((e₁ ≡ [])
          × (e₂ ≡ [])
          × (e₃ ≡ [])
          × (confirm built ≡ [])
          × (built ≡ some d.profile)
          × (a ≡ d.email)
          × (s ≡ d.password))
create_verdict_iff a s [] [] [] (some p) confirm d =
    let built : CreateData = record { email = a; password = s; profile = p } in
    let verdict = verdict_iff (confirm (some p)) built d in
    (
      λ h.
          let (clear, same) = verdict.0 h in
          (
            refl,
            refl,
            refl,
            clear,
            ap (λ x. some x.profile) same,
            ap (λ x. x.email) same,
            ap (λ x. x.password) same,
          ),
      λ (_, _, _, clear, profile, email, password). verdict.1 (clear, ground arith),
    )
create_verdict_iff a s [] [] [] none confirm d = ground arith
create_verdict_iff a s [] [] (e ∷ e₃) built confirm d =
    (λ h. elim built [ none ↦ ground arith | some p ↦ ground arith ], λ h. ground arith)
create_verdict_iff a s [] (e ∷ e₂) e₃ built confirm d = ground arith
create_verdict_iff a s (e ∷ e₁) e₂ e₃ built confirm d = ground arith

-- The e-mail: one line of at most 254 units without white space, with one `@`, and of the basic form.
abbrev pub IsUserEmail : (raw : Text) → Text → Type 0
IsUserEmail raw s =
    (s ≢ [])
    × (any (λ c. c == 0xd || c == 0xa) raw ≡ false)
    × (length s ≤ 254)
    × (any is_space s ≡ false)
    × (length (keep (λ c. c == b'@') s) ≡ 1)
    × (second_part (split b'@' s) ≢ [])
    × (is_basic_email s ≡ true)

is_empty_cons : (s : Text) → (is_empty s ≡ false) ↔ (s ≢ [])
is_empty_cons [] = ground arith
is_empty_cons (c ∷ s) = ground arith

email_errors_iff : (raw s : Text) → (email_errors raw s ≡ []) ↔ IsUserEmail raw s
unfolding email_errors
email_errors_iff raw s = ground (arith, is_empty_cons s, is_empty_cons (second_part (split b'@' s)))

password_errors_iff :
    (u : Unicode) (a s : Text)
    → (password_errors u (some a) s ≡ []) ↔ (IsStrong s × (equals_email u s (some a) ≡ false))
unfolding password_errors
password_errors_iff u a s = ground arith

confirmation_errors_iff : (s t : Text) → (confirmation_errors s t ≡ []) ↔ ((t ≢ []) × (s ≡ t))
unfolding confirmation_errors
confirmation_errors_iff s [] = ground arith
confirmation_errors_iff s (c ∷ t) = ground (arith, text_eq_iff s (c ∷ t))

abbrev pub IsShort : ℕ → Option Text → Type 0
IsShort limit none = Unit
IsShort limit (some s) = length s ≤ limit

limit_errors_iff :
    (field : UserField) (limit : ℕ) (long : Text) (o : Option Text)
    → (limit_errors field limit long o ≡ []) ↔ IsShort limit o
limit_errors_iff field limit long none = ground arith
limit_errors_iff field limit long (some []) = ground arith
limit_errors_iff field limit long (some (c ∷ s)) = ground arith

full_name_errors_iff : (s : Text) → (full_name_errors s ≡ []) ↔ ((1 ≤ length s) × (length s ≤ 120))
unfolding full_name_errors
full_name_errors_iff [] = ground arith
full_name_errors_iff (c ∷ s) = ground arith

role_errors_iff : (r : Option AppRole) → (role_errors r ≡ []) ↔ (r ≢ none)
role_errors_iff none = ground arith
role_errors_iff (some r) = ground arith

profile_errors_iff :
    (name : Text) (telephone picture : Option Text) (chosen : Option AppRole)
    → (profile_errors name telephone picture chosen ≡ []) ↔ (
        ((1 ≤ length name) × (length name ≤ 120))
        × IsShort 40 telephone
        × IsShort 500 picture
        × (chosen ≢ none))
unfolding profile_errors
profile_errors_iff name telephone picture chosen =
    four_iff _ _ _ _ (full_name_errors_iff name)
      (limit_errors_iff phone 40 (codes "El teléfono no puede superar 40 caracteres.") telephone)
      (limit_errors_iff avatar_url 500 (codes "La URL de avatar no puede superar 500 caracteres.")
        picture)
      (role_errors_iff chosen)

confirm_errors_iff :
    (p : ProfileData) (confirm : Unknown)
    → (confirm_errors (some p) confirm ≡ [])
      ↔ ((is_admin_role p.role ≡ false) ⊎ (is_string confirm (codes "true") ≡ true))
unfolding confirm_errors
confirm_errors_iff p confirm = ground arith

-- The errors of the password are found with the e-mail, where that has none.
create_parts_iff :
    (a s : Text) (e₁ e₃ : FieldErrors) (secret : Option Text → FieldErrors)
    (built : Option ProfileData) (confirm : Option ProfileData → FieldErrors) (d : CreateData)
    → let e₂ = secret (when_clear e₁ (some a)) in
      (create_verdict
          (when_clear e₁ (some a))
          (when_clear e₂ (some s))
          (when_clear e₃ built)
          (e₁ ++ e₂ ++ e₃ ++ confirm (when_clear e₃ built))
        ≡ success d)
      ↔ ((e₁ ≡ [])
          × (secret (some a) ≡ [])
          × (e₃ ≡ [])
          × (confirm built ≡ [])
          × (built ≡ some d.profile)
          × (a ≡ d.email)
          × (s ≡ d.password))
create_parts_iff a s [] e₃ secret built confirm d =
    create_verdict_iff a s [] (secret (some a)) e₃ built confirm d
create_parts_iff a s (e ∷ e₁) e₃ secret built confirm d = (λ h. ground arith, λ h. ground arith)

abbrev pub built_profile : Unicode → ProfileInput → Option ProfileData
built_profile u input =
    with_role (normalize_single_line_text input.full_name)
      (normalize_optional_single_line_text input.phone)
      (normalize_optional_single_line_text input.avatar_url) (normalize_role u input.role)

-- What the fields of a profile have to satisfy; the role is one of the three.
abbrev pub IsProfile : ProfileData → Type 0
IsProfile p =
    ((1 ≤ length p.full_name) × (length p.full_name ≤ 120))
    × IsShort 40 p.phone
    × IsShort 500 p.avatar_url

IsProfile-iff :
    (name : Text) (telephone picture : Option Text) (chosen : Option AppRole) (p : ProfileData)
    → ((profile_errors name telephone picture chosen ≡ [])
        × (with_role name telephone picture chosen ≡ some p))
      ↔ (IsProfile p × (with_role name telephone picture chosen ≡ some p))
IsProfile-iff name telephone picture none p = ground arith
IsProfile-iff name telephone picture (some r) p =
    let q : ProfileData = record {
      full_name = name;
      phone = telephone;
      avatar_url = picture;
      role = r;
    } in
    let fields = profile_errors_iff name telephone picture (some r) in
    let same = λ (e : some q ≡ some p). ap (λ o. elim o [ none ↦ q | some x ↦ x ]) e in
    (
      λ (clear, e).
          let (full, short, url, _) = fields.0 clear in
          (subst IsProfile (same e) (full, short, url), e),
      λ (good, e).
          let (full, short, url) = subst IsProfile (sym (same e)) good in
          (fields.1 (full, short, url, λ h. ground arith), e),
    )

abbrev form_errors : Unicode → ProfileInput → FieldErrors
form_errors u input =
    profile_errors (normalize_single_line_text input.full_name)
      (normalize_optional_single_line_text input.phone)
      (normalize_optional_single_line_text input.avatar_url) (normalize_role u input.role)

-- What is accepted, and that it is what the fields say.
abbrev pub IsAcceptable : Unicode → CreateInput → CreateData → Type 0
IsAcceptable u input d =
    (u.to_lower_case (trim (get_text_input input.email)) ≡ d.email)
    × IsUserEmail (get_text_input input.email) d.email
    × (string_or_empty input.password ≡ d.password)
    × IsStrong d.password
    × (equals_email u d.password (some d.email) ≡ false)
    × (string_or_empty input.password_confirmation ≡ d.password)
    × (built_profile u input.profile ≡ some d.profile)
    × IsProfile d.profile
    × ((is_admin_role d.profile.role ≡ false)
        ⊎ (is_string input.confirm_admin (codes "true") ≡ true))

-- The form of a new user is accepted exactly where the e-mail, trimmed and in lower case, is an
-- address on one line of at most 254 units, the password has 8 to 72 units with a lower-case letter,
-- an upper-case letter, a digit and an allowed symbol, is in lower case not the e-mail and is
-- confirmed, the profile has a name of 1 to 120 units, at most 40 of telephone and 500 of picture
-- and one of the three roles, and an administrator is confirmed as one; and what is accepted is
-- these values.
pub validate_create-success_iff :
    (u : Unicode) (input : CreateInput) (d : CreateData)
    → (validate_create_internal_user_input u input ≡ success d) ↔ IsAcceptable u input d
unfolding validate_create_internal_user_input validate_email validate_temporary_password
    validate_profile_fields
validate_create-success_iff u input d =
    let raw = get_text_input input.email in
    let a = u.to_lower_case (trim raw) in
    let s = string_or_empty input.password in
    let again = string_or_empty input.password_confirmation in
    let built = built_profile u input.profile in
    let confirm = λ (p : Option ProfileData). confirm_errors p input.confirm_admin in
    let secret = λ (o : Option Text). password_errors u o s ++ confirmation_errors s again in
    let parts =
      create_parts_iff a s (email_errors raw a) (form_errors u input.profile) secret built confirm
        d in
    let secrets =
      λ (o : Text). append_iff _ _ (password_errors_iff u o s) (confirmation_errors_iff s again) in
    (
      λ h.
          let (mail, key, profile, may, made, ea, es) = parts.0 h in
          let ((strong, other), (filled, equal)) = (secrets a).0 key in
          (
            ea,
            subst (IsUserEmail raw) ea ((email_errors_iff raw a).0 mail),
            es,
            subst IsStrong es strong,
            rw (es, ea) at other,
            sym equal ∙ es,
            made,
            ((IsProfile-iff _ _ _ (normalize_role u input.profile.role) d.profile).0
                (profile, made)).0,
            (confirm_errors_iff d.profile input.confirm_admin).0 (rw made at may),
          ),
      λ (ea, mail, es, strong, other, equal, made, good, may). parts.1 (
        (email_errors_iff raw a).1 (subst (IsUserEmail raw) (sym ea) mail),
        (secrets a).1 (
          (subst IsStrong (sym es) strong, rw (es, ea) other),
          (subst (λ t. t ≢ []) (sym equal) (IsStrong-nonempty d.password strong), es ∙ sym equal),
        ),
        ((IsProfile-iff _ _ _ (normalize_role u input.profile.role) d.profile).1 (good, made)).0,
        rw made ((confirm_errors_iff d.profile input.confirm_admin).1 may),
        made,
        ea,
        es,
      ),
    )
