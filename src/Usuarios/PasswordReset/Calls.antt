-- ===== src/Usuarios/PasswordReset/Calls.antt =====
-- What each call of the database does to the stage of an attempt, however it is delivered.
use godel_design.Prelude.{List, Bool, Option, some, none, ◌≡◌, refl, subst, sym}
use godel_design.JsText.{Text, text_eq, text_eq_refl}
use godel_design.JsUnicode.{Unicode}
use godel_design.Usuarios.PasswordReset.{
  ErrorLike, Answer, AuditStatus, AuditStateResult, query_error,
}
use godel_design.Usuarios.PasswordReset.Audit.{
  read_state, audit_status_of, get_password_reset_audit_state,
}
use godel_design.Usuarios.PasswordReset.Database.{
  Store, Delivery, delivered, request_lost, response_lost, Turn,
  get_internal_user_password_reset_state, status_text,
}
use godel_design.Usuarios.PasswordReset.Remote.{
  World, Setting, remote, deliver, lost, next_turn, later_turns,
}
use godel_design.Usuarios.PasswordReset.Stages.{
  Stage, untouched, blocked, succeeded, failed, inspected, stopped, store_at, world_at, read_at,
}

-- The three ways in which a call is delivered.
pub deliver_cases :
    {A : Type 0}
    → (R : World × Answer A → Type 0) → (d : Delivery) → (turns : List Turn) → (changed : Bool)
    → (s s' : Store) → (answer : Answer A)
    → R (record { turns = turns; store = s'; changed = changed }, answer)
    → ((e : Option ErrorLike) → R (record { turns = turns; store = s; changed = changed }, lost e))
    → ((e : Option ErrorLike) → R (record { turns = turns; store = s'; changed = changed }, lost e))
    → R (deliver d turns changed s (s', answer))
deliver_cases R delivered turns changed s s' answer h f g = h
deliver_cases R (request_lost e) turns changed s s' answer h f g = f e
deliver_cases R (response_lost e) turns changed s s' answer h f g = g e

status_round_trip : (a : AuditStatus) → audit_status_of (status_text a) ≡ some a
unfolding audit_status_of text_eq
status_round_trip AuditStatus.pending = refl
status_round_trip AuditStatus.succeeded = refl
status_round_trip AuditStatus.failed = refl
status_round_trip AuditStatus.rate_limited = refl
status_round_trip AuditStatus.attention_required = refl

module _ (u : Unicode) (setting : Setting) (target_id id : Text) (was must : Bool) where
  read_state-read_at :
      (g : Stage)
      → read_state id target_id
          (get_internal_user_password_reset_state (store_at target_id was must g) id)
        ≡ read_at target_id was must id g
  unfolding read_state get_internal_user_password_reset_state
  read_state-read_at untouched = refl
  read_state-read_at blocked = rw (text_eq_refl id, text_eq_refl target_id) refl
  read_state-read_at succeeded = rw (text_eq_refl id, text_eq_refl target_id) refl
  read_state-read_at failed = rw (text_eq_refl id, text_eq_refl target_id) refl
  read_state-read_at inspected = rw (text_eq_refl id, text_eq_refl target_id) refl
  read_state-read_at (stopped scope) = rw (text_eq_refl id, text_eq_refl target_id) refl

  read_state-lost : (e : Option ErrorLike) → read_state id target_id (lost e) ≡ query_error
  unfolding read_state
  read_state-lost none = refl
  read_state-lost (some e) = refl

  -- A query of the state keeps the stage, and tells it where it tells anything.
  pub state_cases :
      (R : World × AuditStateResult → Type 0)
      → (turns : List Turn) → (g : Stage) → (changed : Bool)
      → ((ts : List Turn) → R (world_at target_id was must ts g changed, query_error))
      → ((ts : List Turn)
          → R (world_at target_id was must ts g changed, read_at target_id was must id g))
      → R (
          get_password_reset_audit_state u
            (remote setting)
            (world_at target_id was must turns g changed)
            id
            target_id)
  unfolding get_password_reset_audit_state remote
  state_cases R turns g changed h k =
      let ts = later_turns turns in
      let s = store_at target_id was must g in
      let w = world_at target_id was must ts g changed in
      deliver_cases (λ p. R (p.0, read_state id target_id p.1)) (next_turn turns).delivery ts
        changed s s (get_internal_user_password_reset_state s id)
        (subst (λ a. R (w, a)) (sym (read_state-read_at g)) (k ts))
        (λ e. subst (λ a. R (w, a)) (sym (read_state-lost e)) (h ts))
        (λ e. subst (λ a. R (w, a)) (sym (read_state-lost e)) (h ts))
