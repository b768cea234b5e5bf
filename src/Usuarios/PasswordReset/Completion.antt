-- ===== src/Usuarios/PasswordReset/Completion.antt =====
-- What the completion of an attempt does to its stage, with its second try and with the report that
-- an inspection is needed.
use godel_design.Prelude.{List, Bool, true, Option, some, none, ◌≡◌, refl, arith}
use godel_design.JsText.{Text, text_eq_refl}
use godel_design.JsUnicode.{Unicode}
use godel_design.Usuarios.PasswordReset.{
  ErrorLike, Answer, reply, fault, TerminalStatus, ResetErrorCode, CompleteReason, CompleteResult,
  completed,
}
use godel_design.Usuarios.PasswordReset.Audit.{
  read_completion, retry, complete_password_reset_attempt, complete_password_reset_with_retry,
  mark_attention_required, get_password_reset_audit_state,
}
use godel_design.Usuarios.PasswordReset.Database.{
  Store, Turn, status_named, is_code_allowed, complete_attempt,
  complete_internal_user_password_reset,
}
use godel_design.Usuarios.PasswordReset.Remote.{
  World, Setting, remote, deliver, lost, next_turn, later_turns,
}
use godel_design.Usuarios.PasswordReset.Stages.{
  Stage, untouched, blocked, succeeded, failed, inspected, stopped, store_at, world_at,
  stage_status, completed_stage,
}
use godel_design.Usuarios.PasswordReset.Calls.{deliver_cases, state_cases}

module _ (u : Unicode) (setting : Setting) (target_id id : Text) (was must : Bool) where
  abbrev pub at : List Turn → Stage → Bool → World
  at = world_at target_id was must

  complete_attempt_cases :
      (R : Store × Answer (Option Text) → Type 0)
      → (g : Stage) → (status : TerminalStatus)
      → (stage_status (completed_stage status g) ≡ status_named status
          → R (store_at target_id was must (completed_stage status g), reply (some id)))
      → ((e : ErrorLike) → R (store_at target_id was must (completed_stage status g), fault e))
      → R (
          complete_attempt
            (store_at target_id was must g)
            id
            status
            (store_at target_id was must g).attempt)
  complete_attempt_cases R untouched TerminalStatus.succeeded h k = k _
  complete_attempt_cases R untouched TerminalStatus.failed h k = k _
  complete_attempt_cases R untouched TerminalStatus.attention_required h k = k _
  complete_attempt_cases R blocked TerminalStatus.succeeded h k = h refl
  complete_attempt_cases R blocked TerminalStatus.failed h k = h refl
  complete_attempt_cases R blocked TerminalStatus.attention_required h k = h refl
  complete_attempt_cases R succeeded TerminalStatus.succeeded h k = h refl
  complete_attempt_cases R succeeded TerminalStatus.failed h k = k _
  complete_attempt_cases R succeeded TerminalStatus.attention_required h k = k _
  complete_attempt_cases R failed TerminalStatus.succeeded h k = k _
  complete_attempt_cases R failed TerminalStatus.failed h k = h refl
  complete_attempt_cases R failed TerminalStatus.attention_required h k = k _
  complete_attempt_cases R inspected TerminalStatus.succeeded h k = k _
  complete_attempt_cases R inspected TerminalStatus.failed h k = k _
  complete_attempt_cases R inspected TerminalStatus.attention_required h k = h refl
  complete_attempt_cases R (stopped scope) TerminalStatus.succeeded h k = k _
  complete_attempt_cases R (stopped scope) TerminalStatus.failed h k = k _
  complete_attempt_cases R (stopped scope) TerminalStatus.attention_required h k = k _

  complete_function_cases :
      (R : Store × Answer (Option Text) → Type 0)
      → (g : Stage) → (status : TerminalStatus) → (code : Option ResetErrorCode)
      → is_code_allowed status code ≡ true
      → (stage_status (completed_stage status g) ≡ status_named status
          → R (store_at target_id was must (completed_stage status g), reply (some id)))
      → ((e : ErrorLike) → R (store_at target_id was must (completed_stage status g), fault e))
      → R (complete_internal_user_password_reset (store_at target_id was must g) id status code)
  unfolding complete_internal_user_password_reset
  complete_function_cases R g status code allowed h k =
      rw allowed (complete_attempt_cases R g status h k)

  read_completion-lost :
      (R : CompleteResult → Type 0)
      → ((reason : CompleteReason) → R (CompleteResult.refused reason))
      → (e : Option ErrorLike) → R (read_completion u id (lost e))
  unfolding read_completion
  read_completion-lost R h none = h _
  read_completion-lost R h (some e) = h _

  module _ (R : World × CompleteResult → Type 0) (changed : Bool) (status : TerminalStatus)
      (code : Option ResetErrorCode) (allowed : is_code_allowed status code ≡ true) where
    once_cases :
        (turns : List Turn)
        → (g : Stage)
        → ((ts : List Turn) (reason : CompleteReason)
            → R (at ts g changed, CompleteResult.refused reason))
        → ((ts : List Turn) (reason : CompleteReason)
            → R (at ts (completed_stage status g) changed, CompleteResult.refused reason))
        → ((ts : List Turn)
            → stage_status (completed_stage status g) ≡ status_named status
            → R (at ts (completed_stage status g) changed, completed id))
        → R (complete_password_reset_attempt u (remote setting) (at turns g changed) id status code)
    unfolding complete_password_reset_attempt remote read_completion
    once_cases turns g stay moved done =
        let ts = later_turns turns in
        let s = store_at target_id was must g in
        complete_function_cases
          (λ q. R (
            (deliver (next_turn turns).delivery ts changed s q).0,
            read_completion u id (deliver (next_turn turns).delivery ts changed s q).1,
          ))
          g status code allowed
          (λ e.
            deliver_cases (λ p. R (p.0, read_completion u id p.1)) (next_turn turns).delivery ts
              changed s (store_at target_id was must (completed_stage status g)) (reply (some id))
              (rw (text_eq_refl id) (done ts e))
              (read_completion-lost (λ a. R (at ts g changed, a)) (stay ts))
              (read_completion-lost (λ a. R (at ts (completed_stage status g) changed, a))
                (moved ts)))
          (λ e.
            deliver_cases (λ p. R (p.0, read_completion u id p.1)) (next_turn turns).delivery ts
              changed s (store_at target_id was must (completed_stage status g)) (fault e)
              (moved ts _) (read_completion-lost (λ a. R (at ts g changed, a)) (stay ts))
              (read_completion-lost (λ a. R (at ts (completed_stage status g) changed, a))
                (moved ts)))

  completed_stage_twice :
      (status : TerminalStatus)
      → (g : Stage) → completed_stage status (completed_stage status g) ≡ completed_stage status g
  completed_stage_twice TerminalStatus.succeeded g = ground arith
  completed_stage_twice TerminalStatus.failed g = ground arith
  completed_stage_twice TerminalStatus.attention_required g = ground arith

  module _ (R : World × CompleteResult → Type 0) (changed : Bool) (status : TerminalStatus)
      (code : Option ResetErrorCode) (allowed : is_code_allowed status code ≡ true) where
    -- With its second try: the stage is left, or completed, and a confirmation is true.
    pub completion_cases :
        (turns : List Turn)
        → (g : Stage)
        → ((ts : List Turn) (reason : CompleteReason)
            → R (at ts g changed, CompleteResult.refused reason))
        → ((ts : List Turn) (reason : CompleteReason)
            → R (at ts (completed_stage status g) changed, CompleteResult.refused reason))
        → ((ts : List Turn)
            → stage_status (completed_stage status g) ≡ status_named status
            → R (at ts (completed_stage status g) changed, completed id))
        → R (
            complete_password_reset_with_retry u
              (remote setting)
              (at turns g changed)
              id
              status
              code)
    unfolding complete_password_reset_with_retry retry
    completion_cases turns g stay moved done =
        let e = completed_stage_twice status g in
        once_cases (λ p. R (retry u (remote setting) id status code p)) changed status code allowed
          turns g (λ ts reason. once_cases R changed status code allowed ts g stay moved done)
          (λ ts reason.
            once_cases R changed status code allowed ts (completed_stage status g) moved
              (rw e moved) (rw e done))
          done

  module _ (changed : Bool) (code : ResetErrorCode)
      (allowed : is_code_allowed TerminalStatus.attention_required (some code) ≡ true) where
    -- The report that an inspection is needed is made, or not.
    pub attention_cases :
        (R : World → Type 0)
        → (turns : List Turn) → (g : Stage) → ((ts : List Turn) → R (at ts g changed))
        → ((ts : List Turn)
            → R (at ts (completed_stage TerminalStatus.attention_required g) changed))
        → R (mark_attention_required u (remote setting) (at turns g changed) id target_id code).0
    unfolding mark_attention_required
    attention_cases R turns g stay moved =
        completion_cases
          (λ p. R (get_password_reset_audit_state u (remote setting) p.0 id target_id).0) changed
          TerminalStatus.attention_required (some code) allowed turns g
          (λ ts _. state_cases u setting target_id id was must (λ q. R q.0) ts g changed stay stay)
          (λ ts _.
            state_cases u setting target_id id was must (λ q. R q.0) ts
              (completed_stage TerminalStatus.attention_required g) changed moved moved)
          (λ ts _.
            state_cases u setting target_id id was must (λ q. R q.0) ts
              (completed_stage TerminalStatus.attention_required g) changed moved moved)
