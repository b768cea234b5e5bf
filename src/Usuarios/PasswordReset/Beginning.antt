-- ===== src/Usuarios/PasswordReset/Beginning.antt =====
-- What one try of beginning an attempt does to its stage.
use godel_design.Prelude.{
  List, [], ◌∷◌, Bool, true, false, Option, some, none, ◌≡◌, refl, All, ◌⊎◌, inl, inr, Bool-cases,
  Option-cases,
}
use godel_design.JsText.{Text, text_eq_refl}
use godel_design.JsUnicode.{Unicode}
use godel_design.Usuarios.PasswordReset.{
  ErrorLike, Answer, reply, fault, BeginRow, BeginReason, unexpected, BeginAttempt, allowed,
  limited, LimitedScope, begin_reason, map_begin_password_reset_error,
}
use godel_design.Usuarios.PasswordReset.Audit.{read_begin, begin_columns, begin_password_reset_once}
use godel_design.Usuarios.PasswordReset.Database.{
  Store, Delivery, delivered, request_lost, response_lost, Turn, limit_of, begin_row, scope_text,
  begin_again, begin_by_attempt, begin_internal_user_password_reset,
}
use godel_design.Usuarios.PasswordReset.Remote.{
  World, Setting, remote, deliver, lost, next_turn, later_turns,
}
use godel_design.Usuarios.PasswordReset.Stages.{
  Stage, untouched, blocked, succeeded, failed, inspected, stopped, is_forced, is_early, store_at,
  world_at,
}

-- The loss of a call is not taken for an error of the database.
abbrev pub IsUnexpected : Unicode → Option ErrorLike → Type 0
IsUnexpected u none = Unit
IsUnexpected u (some e) = begin_reason u e ≡ unexpected

abbrev IsQuiet : Unicode → Delivery → Type 0
IsQuiet u delivered = Unit
IsQuiet u (request_lost e) = IsUnexpected u e
IsQuiet u (response_lost e) = IsUnexpected u e

pub record IsGood (u : Unicode) (turn : Turn) : Type 0 where
  pub authorized : turn.is_authorized ≡ true
  pub quiet : IsQuiet u turn.delivery

next_turn-IsGood :
    (u : Unicode) (turns : List Turn) → All (IsGood u) turns → IsGood u (next_turn turns)
next_turn-IsGood u [] h = record { authorized = refl; quiet = tt }
next_turn-IsGood u (turn ∷ turns) (h, _) = h

later_turns-IsGood :
    (u : Unicode) (turns : List Turn) → All (IsGood u) turns → All (IsGood u) (later_turns turns)
later_turns-IsGood u [] h = tt
later_turns-IsGood u (turn ∷ turns) (_, h) = h

-- `Good` is the condition under which a refusal tells that nothing was done.
module _ (u : Unicode) (setting : Setting) (target_id id : Text) (was must : Bool)
    (Good : Type 0) where
  abbrev pub at : List Turn → Stage → Bool → World
  at = world_at target_id was must

  quiet_cases :
      {A : Type 0}
      → (R : World × Answer A → Type 0) → (d : Delivery) → (Good → IsQuiet u d)
      → (turns : List Turn) → (changed : Bool) → (s s' : Store) → (answer : Answer A)
      → R (record { turns = turns; store = s'; changed = changed }, answer)
      → ((e : Option ErrorLike)
          → (Good → IsUnexpected u e)
          → R (record { turns = turns; store = s; changed = changed }, lost e))
      → ((e : Option ErrorLike)
          → (Good → IsUnexpected u e)
          → R (record { turns = turns; store = s'; changed = changed }, lost e))
      → R (deliver d turns changed s (s', answer))
  quiet_cases R delivered q turns changed s s' answer h f g = h
  quiet_cases R (request_lost e) q turns changed s s' answer h f g = f e q
  quiet_cases R (response_lost e) q turns changed s s' answer h f g = g e q

  read_begin-lost :
      (R : Option BeginAttempt → Type 0)
      → R none
      → ((reason : BeginReason)
          → (Good → reason ≡ unexpected)
          → R (some (BeginAttempt.refused reason)))
      → (e : Option ErrorLike) → (Good → IsUnexpected u e)
      → R (read_begin u id (lost e))
  unfolding read_begin map_begin_password_reset_error
  read_begin-lost R h k none q = h
  read_begin-lost R h k (some e) q = k _ q

  module _ (R : Store × Answer (Option BeginRow) → Type 0) (turn : Turn)
      (b : R (store_at target_id was must blocked, reply (some (begin_row id true none was must))))
      (l : (scope : LimitedScope)
        → R (
          store_at target_id was must (stopped scope),
          reply (some (begin_row id false (some (scope_text scope)) was must)),
        )) where
    begin_new_cases :
        ((e : ErrorLike) → R (store_at target_id was must untouched, fault e))
        → R (begin_by_attempt turn (store_at target_id was must untouched) target_id id none)
    unfolding begin_by_attempt
    begin_new_cases f = elim (Bool-cases turn.has_target) [
      | inl e ↦ rw e elim (Bool-cases turn.other_pending) [
        | inl p ↦ rw p (f _)
        | inr p ↦
            rw p elim (Option-cases (limit_of turn)) [
              | inl q ↦ rw q b
              | inr (scope, q) ↦ rw q (l scope)
            ]
      ]
      | inr e ↦ rw e (f _)
    ]

    begin_authorized_cases :
        (g : Stage)
        → is_early g ≡ true
        → ((e : ErrorLike) → is_forced g ≡ false → R (store_at target_id was must g, fault e))
        → R (
            begin_by_attempt turn
              (store_at target_id was must g)
              target_id
              id
              (store_at target_id was must g).attempt)
    unfolding begin_by_attempt begin_again
    begin_authorized_cases untouched early f = begin_new_cases (λ e. f e refl)
    begin_authorized_cases blocked early f = rw (text_eq_refl target_id) b
    begin_authorized_cases (stopped scope) early f = rw (text_eq_refl target_id) (l scope)
    begin_authorized_cases succeeded early f = absurd (cc)
    begin_authorized_cases failed early f = absurd (cc)
    begin_authorized_cases inspected early f = absurd (cc)

    begin_function_cases :
        (g : Stage)
        → is_early g ≡ true
        → ((e : ErrorLike)
            → (turn.is_authorized ≡ true → is_forced g ≡ false)
            → R (store_at target_id was must g, fault e))
        → R (begin_internal_user_password_reset turn (store_at target_id was must g) target_id id)
    unfolding begin_internal_user_password_reset
    begin_function_cases g early f = elim (Bool-cases turn.is_authorized) [
      | inl e ↦ rw e (begin_authorized_cases g early (λ x h. f x (λ _. h)))
      | inr e ↦ rw e (f _ (λ h. absurd (cc)))
    ]

  -- A refusal leaves the profile as it was, or is the general one.
  abbrev pub TellsNothing : Stage → BeginReason → Type 0
  TellsNothing g reason = Good → (is_forced g ≡ false) ⊎ (reason ≡ unexpected)

  abbrev pub Turns : List Turn → Type 0
  Turns ts = Good → All (IsGood u) ts

  module _ (R : World × Option BeginAttempt → Type 0) (changed : Bool) where
    pub begin_once_cases :
        (turns : List Turn)
        → (g : Stage) → Turns turns
        → is_early g ≡ true
        → ((ts : List Turn) → R (at ts blocked changed, some (allowed id was must)))
        → ((ts : List Turn) (scope : LimitedScope) (o : Option LimitedScope)
            → R (at ts (stopped scope) changed, some (limited id o was must)))
        → ((ts : List Turn) (g' : Stage) (reason : BeginReason)
            → Turns ts
            → is_early g' ≡ true
            → TellsNothing g' reason
            → R (at ts g' changed, some (BeginAttempt.refused reason)))
        → ((ts : List Turn) (g' : Stage)
            → Turns ts
            → is_early g' ≡ true
            → R (at ts g' changed, none))
        → R (begin_password_reset_once u (remote setting) (at turns g changed) target_id id)
    unfolding begin_password_reset_once remote read_begin begin_columns
    begin_once_cases turns g good early allow limit refuse throw =
        let turn = next_turn turns in
        let ts = later_turns turns in
        let s = store_at target_id was must in
        let good' : Turns ts = λ h. later_turns-IsGood u turns (good h) in
        let quiet : Good → IsQuiet u turn.delivery =
          λ h. (next_turn-IsGood u turns (good h)).quiet in
        let P = λ (p : World × Answer (Option BeginRow)). R (p.0, read_begin u id p.1) in
        let loses : (g' : Stage)
            → is_early g' ≡ true
            → (e : Option ErrorLike) → (Good → IsUnexpected u e)
            → P (at ts g' changed, lost e) =
          λ g' early' e q.
            read_begin-lost (λ a. R (at ts g' changed, a)) (throw ts g' good' early')
              (λ reason q. refuse ts g' reason good' early' (λ h. inr (q h))) e q in
        begin_function_cases (λ q. P (deliver turn.delivery ts changed (s g) q)) turn
          (quiet_cases P turn.delivery quiet ts changed (s g) (s blocked) _
            (rw (text_eq_refl id) (allow ts)) (loses g early) (loses blocked refl))
          (λ scope.
            quiet_cases P turn.delivery quiet ts changed (s g) (s (stopped scope)) _
              (rw (text_eq_refl id) (limit ts scope _)) (loses g early)
              (loses (stopped scope) refl))
          g early
          (λ e h.
            quiet_cases P turn.delivery quiet ts changed (s g) (s g) (fault e)
              (refuse ts g _ good' early
                (λ k. inl (h (next_turn-IsGood u turns (good k)).authorized)))
              (loses g early) (loses g early))
