-- ===== src/Usuarios/InitialPassword/Verdict.antt =====
-- complete-initial-password-change.ts over the modelled database: what its result says of the
-- password and of the duty to change it, whatever calls of the database are lost.
use godel_design.Prelude.{
  List, [], Bool, true, false, Option, some, none, ◌≡◌, ◌⊎◌, inl, inr, refl, sym, subst, arith,
  Bool-cases,
}
use godel_design.JsText.{Text, codes, text_eq}
use godel_design.JsUnicode.{Unicode}
use godel_design.Validators.Form.{ValidationResult}
use godel_design.Usuarios.PasswordReset.{
  ErrorLike, Answer, reply, fault, threw, AuthUser, is_rate_limit_error, is_weak_password_error,
  normalize_error_token,
}
use godel_design.Usuarios.PasswordReset.Database.{Delivery, delivered, request_lost, response_lost}
use godel_design.Usuarios.PasswordReset.Remote.{lost}
use godel_design.Usuarios.InitialPassword.{
  FieldErrors, ProfileState, InitialInput, InitialResult, success, failure, Reason, plain_failure,
  generic_auth_error, is_user, read_completion, flag_is_lifted, has_completed_profile_flag,
  call_completion_rpc, second_tried, first_tried, complete_profile_flag_with_retry, finished,
  after_change, change_validated, change_with_profile, change_as, complete_initial_password_change,
  map_update_password_failure, is_inactive, requires_change, validate_initial_input,
}
use godel_design.Usuarios.InitialPassword.Database.{
  World, Setting, CallState, complete_initial_password_function, deliver, remote, next_call,
  later_calls,
}

abbrev pub world_at : List CallState → (must changed : Bool) → World
world_at cs must changed = record { calls = cs; must_change_password = must; changed = changed }

module _ (u : Unicode) (setting : Setting) (id : Text) where
  deliver_cases :
      {A : Type 0}
      → (R : World × Answer A → Type 0) → (d : Delivery) → (cs : List CallState)
      → (changed before after : Bool) → (a : Answer A) → R (world_at cs after changed, a)
      → ((e : Option ErrorLike) → R (world_at cs before changed, lost e))
      → ((e : Option ErrorLike) → R (world_at cs after changed, lost e))
      → R (deliver d cs changed before (after, a))
  deliver_cases R delivered cs changed before after a h f g = h
  deliver_cases R (request_lost e) cs changed before after a h f g = f e
  deliver_cases R (response_lost e) cs changed before after a h f g = g e

  lost-lifted :
      (must : Bool) (e : Option ErrorLike)
      → flag_is_lifted u (remote setting) (lost e) ≡ some true
      → must ≡ false
  lost-lifted must none h = absurd (cc)
  lost-lifted must (some e) h = absurd (cc)

  told-lifted :
      (must : Bool)
      → flag_is_lifted u (remote setting) (reply (some (some must))) ≡ some true
      → must ≡ false
  told-lifted true h = absurd (ground arith)
  told-lifted false h = refl

  flag_cases :
      (R : World × Option Bool → Type 0)
      → (cs : List CallState) → (must changed : Bool)
      → ((ts : List CallState) (o : Option Bool)
          → (o ≡ some true → must ≡ false)
          → R (world_at ts must changed, o))
      → R (has_completed_profile_flag u (remote setting) (world_at cs must changed) id)
  unfolding has_completed_profile_flag remote
  flag_cases R cs must changed h =
      let ts = later_calls cs in
      deliver_cases (λ p. R (p.0, flag_is_lifted u (remote setting) p.1)) (next_call cs).delivery ts
        changed must must (reply (some (some must))) (h ts _ (told-lifted must))
        (λ e. h ts _ (lost-lifted must e)) (λ e. h ts _ (lost-lifted must e))

  read_completion-lost :
      (e : Option ErrorLike) → read_completion u (remote setting) id (lost e) ≡ false
  unfolding read_completion
  read_completion-lost none = refl
  read_completion-lost (some e) = refl

  function_cases :
      (P : Bool × Answer (Option Text) → Type 0)
      → (is_active must : Bool) → ((e : ErrorLike) → P (must, fault e))
      → P (false, reply (some id))
      → P (complete_initial_password_function is_active must id)
  unfolding complete_initial_password_function
  function_cases P true must h k = k
  function_cases P false must h k = h _

  rpc_cases :
      (R : World × Bool → Type 0)
      → (cs : List CallState) → (must changed : Bool)
      → ((ts : List CallState) → R (world_at ts must changed, false))
      → ((ts : List CallState) (b : Bool) → R (world_at ts false changed, b))
      → R (call_completion_rpc u (remote setting) (world_at cs must changed) id)
  unfolding call_completion_rpc remote read_completion
  rpc_cases R cs must changed stay lift =
      let ts = later_calls cs in
      let c = next_call cs in
      let P =
        λ (p : World × Answer (Option Text)). R (p.0, read_completion u (remote setting) id p.1) in
      let kept : (e : Option ErrorLike) → P (world_at ts must changed, lost e) = λ e.
        subst (λ b. R (world_at ts must changed, b)) (sym (read_completion-lost e)) (stay ts) in
      let lifted : (e : Option ErrorLike) → P (world_at ts false changed, lost e) =
        λ e. lift ts _ in
      function_cases (λ q. P (deliver c.delivery ts changed must q)) c.is_active must
        (λ e. deliver_cases P c.delivery ts changed must must (fault e) (stay ts) kept kept)
        (deliver_cases P c.delivery ts changed must false (reply (some id)) (lift ts _) kept lifted)

  module _ (R : World × Option Bool → Type 0) (changed : Bool)
      (told : (ts : List CallState) (must : Bool) (o : Option Bool)
        → (o ≡ some true → must ≡ false)
        → R (world_at ts must changed, o)) where
    second_cases :
        (cs : List CallState) (must : Bool)
        → R (second_tried u (remote setting) id (world_at cs must changed, false))
    unfolding second_tried
    second_cases cs must = flag_cases R cs must changed (λ ts. told ts must)

    second_answered :
        (cs : List CallState) (b : Bool)
        → R (second_tried u (remote setting) id (world_at cs false changed, b))
    unfolding second_tried
    second_answered cs true = told cs false (some true) (λ _. refl)
    second_answered cs false = second_cases cs false

    first_cases :
        (cs : List CallState) (must : Bool)
        → R (first_tried u (remote setting) id (world_at cs must changed, false))
    unfolding first_tried
    first_cases cs must =
        rpc_cases (λ p. R (second_tried u (remote setting) id p)) cs must changed
          (λ ts. second_cases ts must) second_answered

    first_answered :
        (cs : List CallState) (b : Bool)
        → R (first_tried u (remote setting) id (world_at cs false changed, b))
    unfolding first_tried
    first_answered cs true = told cs false (some true) (λ _. refl)
    first_answered cs false = first_cases cs false

    -- Where the flag is told to be lifted, it is.
    retry_cases :
        (cs : List CallState) (must : Bool)
        → R (complete_profile_flag_with_retry u (remote setting) (world_at cs must changed) id)
    unfolding complete_profile_flag_with_retry remote
    retry_cases cs must =
        elim setting.admin_client
          as (λ a. R (elim a [
            | reply _ ↦
                first_tried u (remote setting) id
                  (call_completion_rpc u (remote setting) (world_at cs must changed) id)
            | _ ↦ has_completed_profile_flag u (remote setting) (world_at cs must changed) id
          ])) [
            | reply _ ↦
                rpc_cases (λ p. R (first_tried u (remote setting) id p)) cs must changed
                  (λ ts. first_cases ts must) first_answered
            | fault _ ↦ flag_cases R cs must changed (λ ts. told ts must)
            | threw ↦ flag_cases R cs must changed (λ ts. told ts must)
          ]

-- What a result says, for a user with the duty `must` before.
abbrev pub Promise : (must : Bool) → World → InitialResult → Type 0
Promise must w success = (w.changed ≡ true) × (w.must_change_password ≡ false)
Promise must w (failure reason message none fields) = w.must_change_password ≡ must
Promise must w (failure reason message (some said) fields) = (said ≡ true) × (w.changed ≡ true)

-- Besides, the duty is lifted only where the password was changed.
abbrev pub Kept : (must : Bool) → World × InitialResult → Type 0
Kept must (w, result) =
    Promise must w result × (w.must_change_password ≡ false → (must ≡ false) ⊎ (w.changed ≡ true))

-- A user that the service of authentication answers for a change is one whose password it changed.
pub record IsTruthful (setting : Setting) : Type 0 where
  pub confirmed : (id : Text) → setting.updated ≡ reply (some id) → setting.update_applied ≡ true

module _ (u : Unicode) (setting : Setting) (truthful : IsTruthful setting) (cs : List CallState)
    (must : Bool) where
  -- A failure before the duty was looked at again.
  stays :
      (changed : Bool) (reason : Reason) (message : Text) (fields : FieldErrors)
      → Kept must (world_at cs must changed, failure reason message none fields)
  stays changed reason message fields = (refl, λ h. inl h)

  finished-Kept :
      (ts : List CallState) (now : Bool) (o : Option Bool)
      → (o ≡ some true → now ≡ false)
      → Kept must (finished u (remote setting) (world_at ts now true, o))
  finished-Kept ts now (some true) h = ((refl, h refl), λ _. inr refl)
  finished-Kept ts now (some false) h = ((refl, refl), λ _. inr refl)
  finished-Kept ts now none h = ((refl, refl), λ _. inr refl)

  mapped-Kept :
      (changed : Bool) (e : ErrorLike)
      → Kept must (world_at cs must changed, map_update_password_failure u e)
  unfolding map_update_password_failure
  mapped-Kept changed e = elim (Bool-cases (is_rate_limit_error u e)) [
    | inl a ↦ rw a (refl, λ h. inl h)
    | inr a ↦
        rw a elim (Bool-cases (text_eq (normalize_error_token u e.code) (codes "same_password"))) [
          | inl b ↦ rw b (refl, λ h. inl h)
          | inr b ↦
              rw b
                elim (Bool-cases
                  (text_eq (normalize_error_token u e.code) (codes "reauthentication_needed"))) [
                    | inl c ↦ rw c (refl, λ h. inl h)
                    | inr c ↦ rw c elim (Bool-cases (is_weak_password_error u e)) [
                      | inl d ↦ rw d (refl, λ h. inl h)
                      | inr d ↦ rw d (refl, λ h. inl h)
                    ]
                  ]
        ]
  ]

  answered-Kept :
      (id : Text) (applied : Bool) (a : Option Text)
      → (is_user id a ≡ true → applied ≡ true)
      → Kept must (after_change u (remote setting) id (world_at cs must applied, reply a))
  unfolding after_change
  answered-Kept id applied a h = elim (Bool-cases (is_user id a)) [
    | inl e ↦
        rw (e, h e)
          (retry_cases u setting id (λ p. Kept must (finished u (remote setting) p)) true
            finished-Kept cs must)
    | inr e ↦ rw e (stays applied Reason.auth_error generic_auth_error [])
  ]

  updated-Kept :
      (id : Text) (a : Answer (Option Text))
      → setting.updated ≡ a
      → Kept must (after_change u (remote setting) id (world_at cs must setting.update_applied, a))
  unfolding after_change is_user
  updated-Kept id threw h = stays setting.update_applied Reason.unexpected generic_auth_error []
  updated-Kept id (fault e) h = mapped-Kept setting.update_applied e
  updated-Kept id (reply none) h = answered-Kept id setting.update_applied none (λ e. absurd (cc))
  updated-Kept id (reply (some other)) h =
      answered-Kept id setting.update_applied (some other) (λ _. truthful.confirmed other h)

  validated-Kept :
      (id : Text) (v : ValidationResult Text FieldErrors)
      → Kept must (change_validated u (remote setting) (world_at cs must false) id v)
  unfolding change_validated remote
  validated-Kept id (ValidationResult.failure errors) =
      stays false Reason.validation_error (codes "Revisa los datos del formulario.") errors
  validated-Kept id (ValidationResult.success new) = updated-Kept id setting.updated refl

  profile-Kept :
      (input : InitialInput) (user : AuthUser) (a : Answer (Option ProfileState))
      → Kept must (change_with_profile u (remote setting) (world_at cs must false) input user a)
  unfolding change_with_profile
  profile-Kept input user threw = (refl, λ h. inl h)
  profile-Kept input user (fault e) = (refl, λ h. inl h)
  profile-Kept input user (reply profile) = elim (Bool-cases (is_inactive profile)) [
    | inl e ↦ rw e (refl, λ h. inl h)
    | inr e ↦ rw e elim (Bool-cases (requires_change profile)) [
      | inl r ↦ rw r (validated-Kept user.id (validate_initial_input u input user.email))
      | inr r ↦ rw r (refl, λ h. inl h)
    ]
  ]

  user-Kept :
      (input : InitialInput) (a : Answer (Option AuthUser))
      → Kept must (change_as u (remote setting) (world_at cs must false) input a)
  unfolding change_as remote
  user-Kept input threw = (refl, λ h. inl h)
  user-Kept input (fault e) = (refl, λ h. inl h)
  user-Kept input (reply none) = (refl, λ h. inl h)
  user-Kept input (reply (some user)) = profile-Kept input user setting.profile

  -- Whatever calls of the database are lost, and whatever else is answered: a success means that the
  -- password was changed and the duty to change it lifted; a failure that says that the password was
  -- changed is right; any other leaves the duty as it was; and the duty is lifted only where the
  -- password was changed.
  pub complete_initial_password_change-Kept :
      (input : InitialInput)
      → Kept must
          (complete_initial_password_change u (remote setting) (world_at cs must false) input)
  unfolding complete_initial_password_change remote
  complete_initial_password_change-Kept input =
      elim setting.client
        as (λ a. Kept must (elim a [
          | reply _ ↦ change_as u (remote setting) (world_at cs must false) input setting.user
          | _ ↦ (world_at cs must false, plain_failure Reason.unexpected generic_auth_error)
        ])) [
          | reply _ ↦ user-Kept input setting.user
          | fault _ ↦ stays false Reason.unexpected generic_auth_error []
          | threw ↦ stays false Reason.unexpected generic_auth_error []
        ]
