-- ===== src/Usuarios/PasswordReset/Recovery.antt =====
-- The whole beginning of an attempt: two tries, and the recovery where neither was settled.
use godel_design.Prelude.{
  ℕ, zero, suc, List, Bool, true, false, Option, some, none, ◌≡◌, refl, inl, inr,
}
use godel_design.JsText.{Text}
use godel_design.JsUnicode.{Unicode}
use godel_design.Usuarios.PasswordReset.{
  TerminalStatus, BeginReason, BeginAttempt, allowed, limited, LimitedScope, rollback_failed,
  unexpected_error, already_in_progress,
}
use godel_design.Usuarios.PasswordReset.Audit.{
  same, recovered, roll_back_pending, recover_found, recover_from, recover_unconfirmed_begin,
  begin_loop, begin_password_reset_attempt, get_password_reset_audit_state, settled,
}
use godel_design.Usuarios.PasswordReset.Database.{Turn}
use godel_design.Usuarios.PasswordReset.Remote.{World, Setting, remote}
use godel_design.Usuarios.PasswordReset.Stages.{
  Stage, untouched, blocked, succeeded, failed, inspected, stopped, is_forced, is_early, world_at,
  read_at,
}
use godel_design.Usuarios.PasswordReset.Calls.{state_cases}
use godel_design.Usuarios.PasswordReset.Completion.{completion_cases, attention_cases}
use godel_design.Usuarios.PasswordReset.Beginning.{Turns, TellsNothing, begin_once_cases}

pub same_refl : (b : Bool) → same b b ≡ true
same_refl true = refl
same_refl false = refl

-- A refusal that does not speak of a failed rollback leaves the profile as it was.
abbrev pub Refusal : Type 0 → Stage → BeginReason → Type 0
Refusal Good g BeginReason.rollback_error = Unit
Refusal Good g _ = Good → is_forced g ≡ false

module _ (u : Unicode) (setting : Setting) (target_id id : Text) (was must : Bool) (Good : Type 0)
    (changed : Bool) where
  abbrev at : List Turn → Stage → World
  at ts g = world_at target_id was must ts g changed

  module _ (R : World × BeginAttempt → Type 0)
      (allow : (ts : List Turn) → R (at ts blocked, allowed id was must))
      (limit : (ts : List Turn) (scope : LimitedScope) (o : Option LimitedScope)
        → R (at ts (stopped scope), limited id o was must))
      (refuse : (ts : List Turn) (g : Stage) (reason : BeginReason)
        → Refusal Good g reason
        → R (at ts g, BeginAttempt.refused reason)) where
    recovered_blocked :
        (turns : List Turn)
        → R (
            recovered u
              (remote setting)
              (at turns blocked)
              id
              target_id
              (read_at target_id was must id blocked))
    unfolding recovered
    recovered_blocked turns =
        attention_cases u setting target_id id was must changed rollback_failed refl
          (λ w. R (w, BeginAttempt.refused BeginReason.rollback_error)) turns blocked
          (λ ts. refuse ts blocked BeginReason.rollback_error tt)
          (λ ts. refuse ts inspected BeginReason.rollback_error tt)

    recovered_failed :
        (turns : List Turn)
        → R (
            recovered u
              (remote setting)
              (at turns failed)
              id
              target_id
              (read_at target_id was must id failed))
    unfolding recovered
    recovered_failed turns =
        rw (same_refl was, same_refl must) (refuse turns failed BeginReason.unexpected (λ _. refl))

    after_rollback :
        (turns : List Turn) (g : Stage)
        → ((ts : List Turn)
            → R (
                recovered u
                  (remote setting)
                  (at ts g)
                  id
                  target_id
                  (read_at target_id was must id g)))
        → R (
            recovered u
              (remote setting)
              (get_password_reset_audit_state u (remote setting) (at turns g) id target_id).0
              id
              target_id
              (get_password_reset_audit_state u (remote setting) (at turns g) id target_id).1)
    unfolding recovered
    after_rollback turns g h =
        state_cases u setting target_id id was must
          (λ q. R (recovered u (remote setting) q.0 id target_id q.1)) turns g changed
          (λ ts. refuse ts g BeginReason.rollback_error tt) h

    roll_back_blocked :
        (turns : List Turn)
        → R (roll_back_pending u (remote setting) (at turns blocked) id target_id)
    unfolding roll_back_pending
    roll_back_blocked turns =
        completion_cases u setting target_id id was must
          (λ p. R (
            recovered u (remote setting)
              (get_password_reset_audit_state u (remote setting) p.0 id target_id).0 id target_id
              (get_password_reset_audit_state u (remote setting) p.0 id target_id).1))
          changed TerminalStatus.failed (some unexpected_error) refl turns blocked
          (λ ts _. after_rollback ts blocked recovered_blocked)
          (λ ts _. after_rollback ts failed recovered_failed)
          (λ ts _. after_rollback ts failed recovered_failed)

    recover_early :
        (turns : List Turn) (g : Stage)
        → is_early g ≡ true
        → R (
            recover_from u
              (remote setting)
              (at turns g)
              id
              target_id
              (read_at target_id was must id g))
    unfolding recover_from recover_found
    recover_early turns untouched h = refuse turns untouched BeginReason.unexpected (λ _. refl)
    recover_early turns blocked h = roll_back_blocked turns
    recover_early turns (stopped scope) h = limit turns scope none
    recover_early turns succeeded h = absurd (cc)
    recover_early turns failed h = absurd (cc)
    recover_early turns inspected h = absurd (cc)

    recovery_cases :
        (turns : List Turn) (g : Stage)
        → is_early g ≡ true
        → R (recover_unconfirmed_begin u (remote setting) (at turns g) target_id id)
    unfolding recover_unconfirmed_begin recover_from
    recovery_cases turns g early =
        state_cases u setting target_id id was must
          (λ q. R (recover_from u (remote setting) q.0 id target_id q.1)) turns g changed
          (λ ts. refuse ts g BeginReason.rollback_error tt) (λ ts. recover_early ts g early)

    -- What a refused try leads to.
    on_refusal :
        (tries : ℕ) (ts : List Turn) (g : Stage) (reason : BeginReason)
        → R (begin_loop u (remote setting) tries (at ts g) target_id id)
        → TellsNothing u setting target_id id was must Good g reason
        → R (elim (settled u (remote setting) (some (BeginAttempt.refused reason))) [
          | some attempt ↦ (at ts g, attempt)
          | none ↦ begin_loop u (remote setting) tries (at ts g) target_id id
        ])
    on_refusal tries ts g BeginReason.unexpected next q = next
    on_refusal tries ts g BeginReason.rollback_error next q =
        refuse ts g BeginReason.rollback_error tt
    on_refusal tries ts g BeginReason.not_found next q =
        refuse ts g BeginReason.not_found (λ h. elim (q h) [ inl e ↦ e | inr e ↦ absurd (cc) ])
    on_refusal tries ts g already_in_progress next q =
        refuse ts g already_in_progress (λ h. elim (q h) [ inl e ↦ e | inr e ↦ absurd (cc) ])
    on_refusal tries ts g BeginReason.auth_error next q =
        refuse ts g BeginReason.auth_error (λ h. elim (q h) [ inl e ↦ e | inr e ↦ absurd (cc) ])

    loop_cases :
        (tries : ℕ) (turns : List Turn) (g : Stage)
        → Turns u setting target_id id was must Good turns
        → is_early g ≡ true
        → R (begin_loop u (remote setting) tries (at turns g) target_id id)
    unfolding begin_loop
    loop_cases zero turns g good early = recovery_cases turns g early
    loop_cases (suc tries) turns g good early =
        begin_once_cases u setting target_id id was must Good
          (λ p. R (elim (settled u (remote setting) p.1) [
            | some attempt ↦ (p.0, attempt)
            | none ↦ begin_loop u (remote setting) tries p.0 target_id id
          ]))
          changed turns g good early allow limit
          (λ ts g' reason good' early' q.
            on_refusal tries ts g' reason (loop_cases tries ts g' good' early') q)
          (λ ts g' good' early'. loop_cases tries ts g' good' early')

    pub attempt_cases :
        (turns : List Turn)
        → Turns u setting target_id id was must Good turns
        → R (begin_password_reset_attempt u (remote setting) (at turns untouched) target_id id)
    unfolding begin_password_reset_attempt
    attempt_cases turns good = loop_cases 2 turns untouched good refl
