-- ===== src/Usuarios/PasswordReset/Remote.antt =====
-- The client of the reset over the modelled functions of the database. Each call of the database
-- takes the next turn; the service of authentication is called at most once for each purpose, and
-- what it answers is given. `changed` says whether the password of the target was changed.
use godel_design.Prelude.{List, [], ◌∷◌, Bool, true, false, ◌||◌, Option, some, none}
use godel_design.Usuarios.PasswordReset.{
  ErrorLike, Answer, fault, threw, ActorProfile, AuthUser, ResetClient,
}
use godel_design.Usuarios.PasswordReset.Database.{
  Store, Delivery, delivered, request_lost, response_lost, Turn, begin_internal_user_password_reset,
  get_internal_user_password_reset_state, complete_internal_user_password_reset,
}

pub record World : Type 0 where
  pub turns : List Turn
  pub store : Store
  pub changed : Bool

pub record Setting : Type 0 where
  pub profile : Answer (Option ActorProfile)
  pub server_client : Answer (Unit {0})
  pub admin_client : Answer (Unit {0})
  pub user : Answer (Option AuthUser)
  pub update_applied : Bool
  pub updated : Answer (Option AuthUser)

-- Nothing is lost, and nothing stands in the way.
abbrev pub clear_turn : Turn
clear_turn = record {
  delivery = delivered;
  is_authorized = true;
  has_target = true;
  other_pending = false;
  actor_attempts = 0;
  target_attempts = 0;
  global_attempts = 0;
}

abbrev pub next_turn : List Turn → Turn
next_turn [] = clear_turn
next_turn (turn ∷ turns) = turn

abbrev pub later_turns : List Turn → List Turn
later_turns [] = []
later_turns (turn ∷ turns) = turns

abbrev pub lost : {A : Type 0} → Option ErrorLike → Answer A
lost none = threw
lost (some e) = fault e

abbrev pub deliver :
    {A : Type 0} → Delivery → List Turn → Bool → Store → Store × Answer A → World × Answer A
deliver delivered turns changed s (s', answer) =
    (record { turns = turns; store = s'; changed = changed }, answer)
deliver (request_lost e) turns changed s (s', answer) =
    (record { turns = turns; store = s; changed = changed }, lost e)
deliver (response_lost e) turns changed s (s', answer) =
    (record { turns = turns; store = s'; changed = changed }, lost e)

abbrev pub call : {A : Type 0} → World → (Turn → Store → Store × Answer A) → World × Answer A
call w f =
    let turn = next_turn w.turns in
    deliver turn.delivery (later_turns w.turns) w.changed w.store (f turn w.store)

unfoldable pub remote : Setting → ResetClient World
unfolding begin_internal_user_password_reset get_internal_user_password_reset_state
    complete_internal_user_password_reset
remote setting = record {
  current_profile = λ _. setting.profile;
  create_client = λ _. setting.server_client;
  begin_reset = λ w target_id attempt_id.
      call w (λ turn s. begin_internal_user_password_reset turn s target_id attempt_id);
  reset_state =
      λ w attempt_id. call w (λ turn s. (s, get_internal_user_password_reset_state s attempt_id));
  complete_reset = λ w attempt_id status code.
      call w (λ turn s. complete_internal_user_password_reset s attempt_id status code);
  create_admin_client = λ _. setting.admin_client;
  get_user = λ w target_id. (w, setting.user);
  update_user = λ w target_id new. (
    record { turns = w.turns; store = w.store; changed = w.changed || setting.update_applied },
    setting.updated,
  );
}
