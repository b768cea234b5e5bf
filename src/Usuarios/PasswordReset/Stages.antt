-- ===== src/Usuarios/PasswordReset/Stages.antt =====
-- The life of one attempt as a small state machine, whose stages give the store.
use godel_design.Prelude.{List, Bool, true, false, Option, some, none, ◌≡◌, arith}
use godel_design.JsText.{Text}
use godel_design.Usuarios.PasswordReset.{
  TerminalStatus, LimitedScope, AuditStatus, pending, rate_limited, AuditStateResult, found, absent,
}
use godel_design.Usuarios.PasswordReset.Database.{Attempt, Store, Turn}
use godel_design.Usuarios.PasswordReset.Remote.{World}

pub data Stage : Type 0 where
  untouched blocked succeeded failed inspected : Stage
  stopped : LimitedScope → Stage

-- Who logs in afterwards has to set another password, or cannot log in.
abbrev pub is_forced : Stage → Bool
is_forced untouched = false
is_forced blocked = true
is_forced succeeded = true
is_forced failed = false
is_forced inspected = true
is_forced (stopped _) = false

-- The stages that a beginning leads to.
abbrev pub is_early : Stage → Bool
is_early untouched = true
is_early blocked = true
is_early succeeded = false
is_early failed = false
is_early inspected = false
is_early (stopped _) = true

-- What a completion makes of a stage.
abbrev pub completed_stage : TerminalStatus → Stage → Stage
completed_stage TerminalStatus.succeeded blocked = succeeded
completed_stage TerminalStatus.failed blocked = failed
completed_stage TerminalStatus.attention_required blocked = inspected
completed_stage _ g = g

abbrev pub stage_status : Stage → AuditStatus
stage_status succeeded = AuditStatus.succeeded
stage_status failed = AuditStatus.failed
stage_status inspected = AuditStatus.attention_required
stage_status (stopped _) = rate_limited
stage_status _ = pending

-- The profile of `target_id` had the flags `was` and `must` when the attempt began.
module _ (target_id : Text) (was must : Bool) where
  abbrev attempt_at : AuditStatus → Option LimitedScope → Option Attempt
  attempt_at status limit = some (record {
    target_profile_id = target_id;
    status = status;
    limit = limit;
    previous_is_active = was;
    previous_must_change_password = must;
  })

  abbrev store_with : (is now : Bool) → Option Attempt → Store
  store_with is now attempt = record {
    is_active = is;
    must_change_password = now;
    attempt = attempt;
  }

  abbrev pub store_at : Stage → Store
  store_at untouched = store_with was must none
  store_at (stopped scope) = store_with was must (attempt_at rate_limited (some scope))
  store_at blocked = store_with false true (attempt_at pending none)
  store_at succeeded = store_with was true (attempt_at AuditStatus.succeeded none)
  store_at failed = store_with was must (attempt_at AuditStatus.failed none)
  store_at inspected = store_with false true (attempt_at AuditStatus.attention_required none)

  abbrev pub world_at : List Turn → Stage → Bool → World
  world_at turns g changed = record { turns = turns; store = store_at g; changed = changed }

  -- What a query of the state tells about a stage.
  abbrev pub read_at : (attempt_id : Text) → Stage → AuditStateResult
  read_at id untouched = absent
  read_at id g = found (record {
    attempt_id = id;
    status = stage_status g;
    target_profile_id = target_id;
    previous_is_active = was;
    previous_must_change_password = must;
    current_is_active = (store_at g).is_active;
    current_must_change_password = (store_at g).must_change_password;
  })

  pub store_at-is_forced :
      (g : Stage) → is_forced g ≡ true → (store_at g).must_change_password ≡ true
  store_at-is_forced g h = ground arith

  pub store_at-not_forced :
      (g : Stage)
      → is_forced g ≡ false
      → ((store_at g).is_active ≡ was) × ((store_at g).must_change_password ≡ must)
  store_at-not_forced g h = ground arith
