-- ===== src/Usuarios/PasswordReset/Success.antt =====
-- The reset of a password where nothing stands in its way.
use godel_design.Prelude.{
  ℕ, ◌<◌, leb, List, ◌∷◌, Option, arith, Bool, true, false, some, none, ◌≡◌, refl, ap, ◌∙◌,
}
use godel_design.JsText.{Text, text_eq, text_eq_refl}
use godel_design.JsUnicode.{Unicode}
use godel_design.Validators.Form.{ValidationResult}
use godel_design.Validators.Uuid.{is_valid_uuid}
use godel_design.Permissions.{usuarios_manage, has_permission}
use godel_design.Usuarios.PasswordReset.{
  Answer, BeginRow, BeginAttempt, reply, ResetClient, ActorProfile, AuthUser, allowed,
  CompleteResult, TerminalStatus, ResetResult, success,
}
use godel_design.Usuarios.PasswordReset.Validation.{
  ResetInput, Asks, validate_reset_input, validate_reset_input-success_iff,
}
use godel_design.Usuarios.PasswordReset.Audit.{
  begin_password_reset_attempt, begin_loop, begin_password_reset_once, read_begin, settled,
  begin_columns, complete_password_reset_with_retry, complete_password_reset_attempt, retry,
  read_completion,
}
use godel_design.Usuarios.PasswordReset.Database.{
  Store, Turn, delivered, limit_of, begin_row, begin_new, begin_internal_user_password_reset,
  begin_by_attempt, complete_internal_user_password_reset,
}
use godel_design.Usuarios.PasswordReset.Remote.{World, Setting, remote}
use godel_design.Usuarios.PasswordReset.Stages.{store_at, untouched, blocked, succeeded, world_at}
use godel_design.Usuarios.PasswordReset.Safety.{target_of}
use godel_design.Usuarios.PasswordReset.Service.{
  reset_internal_user_password, reset_as, validated, begun, change_password, with_user, is_email,
  after_update, finish,
}

-- Who calls may reset the password of the target, and the input asks for `new`.
pub record MayReset (input : ResetInput) (profile : ActorProfile) (new : Text) : Type 0 where
  pub settled : profile.must_change_password ≡ false
  pub permitted : has_permission profile.role usuarios_manage ≡ true
  pub valid : is_valid_uuid (target_of input) ≡ true
  pub other : text_eq (target_of input) profile.id ≡ false
  pub asks : Asks input new

-- Both services answer, and the service of authentication changes the password.
abbrev pub ready : ActorProfile → (user updated : AuthUser) → Setting
ready profile user updated = record {
  profile = reply (some profile);
  server_client = reply tt;
  admin_client = reply tt;
  user = reply (some user);
  update_applied = true;
  updated = reply (some updated);
}

-- The turn of a beginning that is delivered: the caller is an administrator in service, the target
-- is there and free, and so many attempts were made lately.
abbrev pub free_turn : (by_actor by_target by_all : ℕ) → Turn
free_turn by_actor by_target by_all = record {
  delivery = delivered;
  is_authorized = true;
  has_target = true;
  other_pending = false;
  actor_attempts = by_actor;
  target_attempts = by_target;
  global_attempts = by_all;
}

-- A turn that is delivered.
abbrev pub arriving : Turn → Turn
arriving turn = record {
  delivery = delivered;
  is_authorized = turn.is_authorized;
  has_target = turn.has_target;
  other_pending = turn.other_pending;
  actor_attempts = turn.actor_attempts;
  target_attempts = turn.target_attempts;
  global_attempts = turn.global_attempts;
}

-- The attempts of the turn are below the limits of the database.
pub record AreBelow (by_actor by_target by_all : ℕ) : Type 0 where
  pub few_by_actor : by_actor < 3
  pub few_by_target : by_target < 3
  pub few_by_all : by_all < 20

limit_of-free :
    (by_actor by_target by_all : ℕ)
    → AreBelow by_actor by_target by_all
    → limit_of (free_turn by_actor by_target by_all) ≡ none
limit_of-free by_actor by_target by_all few =
    let la : leb 3 by_actor ≡ false = ground arith in
    let lb : leb 3 by_target ≡ false = ground arith in
    let lc : leb 20 by_all ≡ false = ground arith in rw (la, lb, lc) refl

reset_as-validated :
    (u : Unicode) {World : Type 0} (c : ResetClient World) (w : World) (id : Text)
    (input : ResetInput) (profile : ActorProfile) (new : Text)
    → MayReset input profile new
    → reset_as u c w id input profile
      ≡ validated u c w id (target_of input) (ValidationResult.success new)
unfolding reset_as
reset_as-validated u c w id input profile new may =
    let v : validate_reset_input input ≡ ValidationResult.success new =
      (validate_reset_input-success_iff input new).1 may.asks in
    rw (may.settled, may.permitted, may.valid, may.other)
      (ap (validated u c w id (target_of input)) v)

module _ (u : Unicode) (id : Text) (input : ResetInput) (was must : Bool) (profile : ActorProfile)
    (user updated : AuthUser) (by_actor by_target by_all : ℕ) (other : Turn)
    (later : List Turn) where
  -- The turn of the beginning, and the turn of the completion.
  abbrev turns : List Turn
  turns = free_turn by_actor by_target by_all ∷ arriving other ∷ later

  abbrev client : Setting
  client = ready profile user updated

  function_blocks :
      AreBelow by_actor by_target by_all
      → begin_internal_user_password_reset
          (free_turn by_actor by_target by_all)
          (store_at (target_of input) was must untouched)
          (target_of input)
          id
        ≡ (
          store_at (target_of input) was must blocked,
          reply (some (begin_row id true none was must)),
        )
  unfolding begin_internal_user_password_reset begin_by_attempt
  function_blocks few =
      ap (begin_new (store_at (target_of input) was must untouched) (target_of input) id)
        (limit_of-free by_actor by_target by_all few)

  first_try_begins :
      AreBelow by_actor by_target by_all
      → begin_password_reset_once u
          (remote client)
          (world_at (target_of input) was must turns untouched false)
          (target_of input)
          id
        ≡ (
          world_at (target_of input) was must (arriving other ∷ later) blocked false,
          some (allowed id was must),
        )
  unfolding begin_password_reset_once remote read_begin begin_columns
  first_try_begins few =
      ap
        (λ (p : Store × Answer (Option BeginRow)). (
          record { turns = arriving other ∷ later; store = p.0; changed = false },
          read_begin u id p.1,
        ))
        (function_blocks few)
      ∙ rw (text_eq_refl id) refl

  after_first : World × Option BeginAttempt → World × BeginAttempt
  after_first p = elim (settled u (remote client) p.1) [
    | some attempt ↦ (p.0, attempt)
    | none ↦ begin_loop u (remote client) 1 p.0 (target_of input) id
  ]

  begins :
      AreBelow by_actor by_target by_all
      → begin_password_reset_attempt u
          (remote client)
          (world_at (target_of input) was must turns untouched false)
          (target_of input)
          id
        ≡ (
          world_at (target_of input) was must (arriving other ∷ later) blocked false,
          allowed id was must,
        )
  unfolding begin_password_reset_attempt begin_loop after_first
  begins few = ap after_first (first_try_begins few)

  completes :
      complete_password_reset_with_retry u
        (remote client)
        (world_at (target_of input) was must (arriving other ∷ later) blocked true)
        id
        TerminalStatus.succeeded
        none
      ≡ (world_at (target_of input) was must later succeeded true, CompleteResult.completed id)
  unfolding complete_password_reset_with_retry complete_password_reset_attempt retry read_completion
      remote complete_internal_user_password_reset
  completes = rw (text_eq_refl id) refl

  abbrev end : World × ResetResult
  end = (world_at (target_of input) was must later succeeded true, success (target_of input) was)

  after_update-succeeds :
      text_eq updated.id (target_of input) ≡ true
      → after_update u
          (remote client)
          (world_at (target_of input) was must (arriving other ∷ later) blocked true)
          id
          (target_of input)
          was
          (reply (some updated))
        ≡ end
  unfolding after_update finish
  after_update-succeeds confirmed =
      rw confirmed (ap (finish u (remote client) id (target_of input) was) completes)

  change_password-succeeds :
      (new : Text)
      → is_email u (remote client) new user.email ≡ false
      → text_eq updated.id (target_of input) ≡ true
      → change_password u
          (remote client)
          (world_at (target_of input) was must (arriving other ∷ later) blocked false)
          id
          (target_of input)
          new
          was
          (reply tt)
        ≡ end
  unfolding change_password with_user remote
  change_password-succeeds new fresh confirmed = rw fresh (after_update-succeeds confirmed)

  validated-succeeds :
      (new : Text)
      → AreBelow by_actor by_target by_all
      → is_email u (remote client) new user.email ≡ false
      → text_eq updated.id (target_of input) ≡ true
      → validated u
          (remote client)
          (world_at (target_of input) was must turns untouched false)
          id
          (target_of input)
          (ValidationResult.success new)
        ≡ end
  unfolding validated begun remote
  validated-succeeds new few fresh confirmed =
      ap (begun u (remote client) id (target_of input) new) (begins few)
      ∙ change_password-succeeds new fresh confirmed

  -- Where no call is lost, the target is free, the attempts that the database counts are fewer than
  -- 3 of the caller, 3 for the target and 20 in all, the caller may reset the password, the new one
  -- is not the e-mail of the target, and the service of authentication confirms the change, the
  -- reset succeeds: the attempt ends as succeeded.
  pub reset-succeeds :
      (new : Text)
      → MayReset input profile new
      → AreBelow by_actor by_target by_all
      → is_email u (remote client) new user.email ≡ false
      → updated.id ≡ target_of input
      → reset_internal_user_password u
          (remote client)
          (world_at (target_of input) was must turns untouched false)
          id
          input
        ≡ (world_at (target_of input) was must later succeeded true, success (target_of input) was)
  unfolding reset_internal_user_password remote
  reset-succeeds new may few fresh same =
      let confirmed : text_eq updated.id (target_of input) ≡ true =
        rw same (text_eq_refl (target_of input)) in
      reset_as-validated u (remote client) _ id input profile new may
      ∙ validated-succeeds new few fresh confirmed
