-- ===== src/Usuarios/PasswordReset/Safety.antt =====
-- What the reset of a password leaves behind. Its calls of the database may be lost in any way; what
-- the service of authentication tells definitely is true.
use godel_design.Prelude.{
  List, Bool, true, false, Option, some, none, ◌≡◌, ◌≢◌, refl, All, inl, inr, Bool-cases,
}
use godel_design.JsText.{Text, codes, trim, text_eq}
use godel_design.JsUnicode.{Unicode}
use godel_design.Validators.Uuid.{is_valid_uuid}
use godel_design.Permissions.{usuarios_manage, has_permission}
use godel_design.Usuarios.PasswordReset.{
  reply, fault, threw, ActorProfile, Reason, ResetResult, success, failure, unauthorized, forbidden,
  onboarding_required, self_reset_forbidden, FieldErrors, generic_reset_error,
}
use godel_design.Usuarios.PasswordReset.Validation.{ResetInput, text_or_empty, validate_reset_input}
use godel_design.Usuarios.PasswordReset.Database.{Turn}
use godel_design.Usuarios.PasswordReset.Remote.{World, Setting, remote}
use godel_design.Usuarios.PasswordReset.Stages.{untouched, world_at}
use godel_design.Usuarios.PasswordReset.Beginning.{IsGood}
use godel_design.Usuarios.PasswordReset.Outcome.{IsHonest, Promise, Kept}
use godel_design.Usuarios.PasswordReset.Promises.{
  changed_of-Kept, success_of-Kept, denial_of-Kept, restored_of-Kept,
}
use godel_design.Usuarios.PasswordReset.Flow.{unchanged, validated-Keeps}
use godel_design.Usuarios.PasswordReset.Service.{
  reset_as, reset_internal_user_password, plain_failure, unchanged_failure, forbidden_message,
  missing_user,
}

abbrev pub target_of : ResetInput → Text
unfolding trim
target_of input = trim (text_or_empty input.id)

module _ (u : Unicode) (setting : Setting) (id : Text) (input : ResetInput) (was must : Bool)
    (turns : List Turn) where
  abbrev Good : Type 0
  Good = All (IsGood u) turns

  abbrev pub start : World
  start = world_at (target_of input) was must turns untouched false

  -- The reset of a target with these two flags, which no attempt has touched.
  abbrev pub outcome : World × ResetResult
  outcome = reset_internal_user_password u (remote setting) start id input

  module _ (honest : IsHonest u (target_of input) setting) where
    stays :
        (result : ResetResult)
        → Promise Good was untouched false result
        → Kept (target_of input) was must Good (start, result)
    stays result p =
        unchanged u setting (target_of input) id was must Good honest turns untouched result p

    reset_as-Kept :
        (profile : ActorProfile)
        → Kept (target_of input) was must Good (reset_as u (remote setting) start id input profile)
    unfolding reset_as
    reset_as-Kept profile = elim (Bool-cases profile.must_change_password) [
      | inl e ↦ rw e (
          stays
            (plain_failure onboarding_required
              (codes "Completa el cambio de contraseña inicial antes de restablecer contraseñas."))
            (refl, λ _. refl))
      | inr e ↦ rw e elim (Bool-cases (has_permission profile.role usuarios_manage)) [
        | inr p ↦ rw p (stays (plain_failure forbidden forbidden_message) (refl, λ _. refl))
        | inl p ↦ rw p elim (Bool-cases (is_valid_uuid (target_of input))) [
          | inr v ↦ rw v (stays (plain_failure Reason.not_found missing_user) (refl, λ _. refl))
          | inl v ↦ rw v elim (Bool-cases (text_eq (target_of input) profile.id)) [
            | inl s ↦ rw s (
                stays
                  (plain_failure self_reset_forbidden
                    (codes "No puedes restablecer tu propia contraseña."))
                  (refl, λ _. refl))
            | inr s ↦ rw s (
                validated-Keeps u setting (target_of input) id was must Good honest turns (λ h. h)
                  (validate_reset_input input))
          ]
        ]
      ]
    ]

    reset-Kept :
        Kept
          (target_of input)
          was
          must
          Good
          (reset_internal_user_password u (remote setting) start id input)
    unfolding reset_internal_user_password remote
    reset-Kept =
        elim setting.profile
          as (λ a. Kept (target_of input) was must Good (elim a [
            | reply none ↦ (start, plain_failure unauthorized forbidden_message)
            | reply (some profile) ↦ reset_as u (remote setting) start id input profile
            | _ ↦ (start, unchanged_failure Reason.unexpected generic_reset_error)
          ])) [
            | reply none ↦ stays (plain_failure unauthorized forbidden_message) (refl, λ _. refl)
            | reply (some profile) ↦ reset_as-Kept profile
            | fault _ ↦ stays (unchanged_failure Reason.unexpected generic_reset_error) refl
            | threw ↦ stays (unchanged_failure Reason.unexpected generic_reset_error) refl
          ]

    -- Where the password of the target was changed, the target has to set another one: whatever the
    -- calls of the database meet, whichever of them are lost, and whatever the result is.
    pub reset-changed_is_temporary :
        outcome.0.changed ≡ true → outcome.0.store.must_change_password ≡ true
    reset-changed_is_temporary = changed_of-Kept (target_of input) was must Good outcome reset-Kept

    -- A success means that the password was changed, that the target is as active as before the
    -- attempt and as the result says, and has to set another password.
    pub reset-success_is_whole :
        (user_id : Text)
        → (was_active : Bool) → outcome.1 ≡ success user_id was_active
        → (outcome.0.changed ≡ true)
          × (outcome.0.store.is_active ≡ was)
          × (outcome.0.store.must_change_password ≡ true)
          × (was_active ≡ was)
    reset-success_is_whole = success_of-Kept (target_of input) was must Good outcome reset-Kept

    -- A failure that does not say that the password was changed is right: it was not.
    pub reset-failure_is_true :
        (reason : Reason)
        → (message : Text) → (said : Option Bool) → (fields : FieldErrors)
        → outcome.1 ≡ failure reason message said fields
        → said ≢ some true
        → outcome.0.changed ≡ false
    reset-failure_is_true = denial_of-Kept (target_of input) was must Good outcome reset-Kept

    -- A failure that says nothing of the password leaves the target's two flags as they were, where
    -- the caller remains an administrator in service throughout, and no lost call is taken for an
    -- error of the database.
    pub reset-failure_restores :
        (reason : Reason)
        → (message : Text) → (fields : FieldErrors) → outcome.1 ≡ failure reason message none fields
        → All (IsGood u) turns
        → (outcome.0.store.is_active ≡ was) × (outcome.0.store.must_change_password ≡ must)
    reset-failure_restores = restored_of-Kept (target_of input) was must Good outcome reset-Kept
