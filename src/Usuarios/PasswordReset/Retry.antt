-- ===== src/Usuarios/PasswordReset/Retry.antt =====
-- The second try of a beginning, where the caller is no administrator any more.
use godel_design.Prelude.{
  ℕ, ◌<◌, leb, List, ◌∷◌, Bool, true, false, Option, some, none, ◌≡◌, refl, arith, All, ap, suc,
  ◌∙◌,
}
use godel_design.JsText.{Text, codes, text_eq}
use godel_design.JsUnicode.{Unicode}
use godel_design.Usuarios.PasswordReset.{
  auth_error, BeginAttempt, begin_reason, map_begin_password_reset_error, normalize_error_token,
}
use godel_design.Usuarios.PasswordReset.Audit.{
  begin_password_reset_attempt, begin_loop, settled, begin_password_reset_once, read_begin,
}
use godel_design.Usuarios.PasswordReset.Database.{
  Store, Turn, raised, response_lost, delivered, begin_internal_user_password_reset,
  begin_by_attempt,
}
use godel_design.Usuarios.PasswordReset.Remote.{World, Setting, remote}
use godel_design.Usuarios.PasswordReset.Stages.{untouched, blocked, world_at, store_at}

begin_reason-unauthorized :
    (u : Unicode) → begin_reason u (raised (codes "42501") (codes "No autorizado.")) ≡ auth_error
unfolding begin_reason normalize_error_token text_eq
begin_reason-unauthorized u =
    let code : All (λ c. c < 128) (codes "42501") = omega arith in
    let message : All (λ c. c < 128) (codes "No autorizado.") = omega arith in
    rw
      (
        u.to_lower_case_ascii (codes "42501") code,
        u.to_lower_case_ascii (codes "No autorizado.") message,
      )
      refl

-- The answer to this turn is lost; the target is there and free.
abbrev pub lost_answer : (by_actor by_target by_all : ℕ) → Turn
lost_answer by_actor by_target by_all = record {
  delivery = response_lost none;
  is_authorized = true;
  has_target = true;
  other_pending = false;
  actor_attempts = by_actor;
  target_attempts = by_target;
  global_attempts = by_all;
}

abbrev pub unauthorized : Turn → Turn
unauthorized turn = record {
  delivery = delivered;
  is_authorized = false;
  has_target = turn.has_target;
  other_pending = turn.other_pending;
  actor_attempts = turn.actor_attempts;
  target_attempts = turn.target_attempts;
  global_attempts = turn.global_attempts;
}

module _ (u : Unicode) (setting : Setting) (target_id id : Text) (was must changed : Bool) where
  loop_step : (tries : ℕ) → World × Option BeginAttempt → World × BeginAttempt
  loop_step tries p = elim (settled u (remote setting) p.1) [
    | some attempt ↦ (p.0, attempt)
    | none ↦ begin_loop u (remote setting) tries p.0 target_id id
  ]

  begin_loop-step :
      (tries : ℕ) (w : World) (p : World × Option BeginAttempt)
      → begin_password_reset_once u (remote setting) w target_id id ≡ p
      → begin_loop u (remote setting) (suc tries) w target_id id ≡ loop_step tries p
  unfolding begin_loop loop_step
  begin_loop-step tries w p e = ap (loop_step tries) e

  function_blocks :
      (by_actor by_target by_all : ℕ)
      → by_actor < 3
      → by_target < 3
      → by_all < 20
      → (begin_internal_user_password_reset
          (lost_answer by_actor by_target by_all)
          (store_at target_id was must untouched)
          target_id
          id).0
        ≡ store_at target_id was must blocked
  unfolding begin_internal_user_password_reset begin_by_attempt
  function_blocks by_actor by_target by_all a b c =
      let la : leb 3 by_actor ≡ false = ground arith in
      let lb : leb 3 by_target ≡ false = ground arith in
      let lc : leb 20 by_all ≡ false = ground arith in rw (la, lb, lc) refl

  first_try_is_lost :
      (by_actor by_target by_all : ℕ)
      → (turns : List Turn) → by_actor < 3
      → by_target < 3
      → by_all < 20
      → begin_password_reset_once u
          (remote setting)
          (world_at target_id was must
            (lost_answer by_actor by_target by_all ∷ turns)
            untouched
            changed)
          target_id
          id
        ≡ (world_at target_id was must turns blocked changed, none)
  unfolding begin_password_reset_once remote read_begin
  first_try_is_lost by_actor by_target by_all turns a b c =
      ap (λ (s : Store). (record { turns = turns; store = s; changed = changed }, none))
        (function_blocks by_actor by_target by_all a b c)

  second_try_is_refused :
      (second : Turn)
      → (turns : List Turn)
      → begin_password_reset_once u
          (remote setting)
          (world_at target_id was must (unauthorized second ∷ turns) blocked changed)
          target_id
          id
        ≡ (
          world_at target_id was must turns blocked changed,
          some (BeginAttempt.refused auth_error),
        )
  unfolding begin_password_reset_once remote read_begin begin_internal_user_password_reset
      map_begin_password_reset_error
  second_try_is_refused second turns = rw (begin_reason-unauthorized u) refl

  -- The answer to the first try is lost after it blocked the target, where no limit was reached; the
  -- second try finds that the caller is no administrator in service any more. Then the target stays
  -- blocked, with no attempt to undo it, and the refusal says nothing of it.
  pub unauthorized_retry_leaves_blocked :
      (by_actor by_target by_all : ℕ)
      → (second : Turn) → (turns : List Turn) → by_actor < 3
      → by_target < 3
      → by_all < 20
      → begin_password_reset_attempt u
          (remote setting)
          (world_at target_id was must
            (lost_answer by_actor by_target by_all ∷ unauthorized second ∷ turns)
            untouched
            changed)
          target_id
          id
        ≡ (world_at target_id was must turns blocked changed, BeginAttempt.refused auth_error)
  unfolding begin_password_reset_attempt loop_step
  unauthorized_retry_leaves_blocked by_actor by_target by_all second turns a b c =
      let first = first_try_is_lost by_actor by_target by_all (unauthorized second ∷ turns) a b c in
      begin_loop-step 1 _ _ first ∙ begin_loop-step 0 _ _ (second_try_is_refused second turns)
