-- ===== src/Usuarios/InitialPassword/Database.antt =====
-- The function `complete_initial_password_change` of
-- supabase/migrations/20260811131828_05_auth_admin_user_lifecycle.sql, for a user with a profile, and
-- the client over it. Whether the profile is active when a call arrives, and whether the call is lost
-- before or after it took effect, is given for each call. `changed` says whether the password was
-- changed.
use godel_design.Prelude.{List, [], ◌∷◌, Bool, true, false, not, ◌||◌, if◌then◌else◌, Option, some}
use godel_design.JsText.{Text, codes}
use godel_design.Usuarios.PasswordReset.{Answer, reply, fault, AuthUser}
use godel_design.Usuarios.PasswordReset.Database.{
  Delivery, delivered, request_lost, response_lost, raised,
}
use godel_design.Usuarios.PasswordReset.Remote.{lost}
use godel_design.Usuarios.InitialPassword.{ProfileState, InitialClient}

pub record CallState : Type 0 where
  pub delivery : Delivery
  pub is_active : Bool

pub record World : Type 0 where
  pub calls : List CallState
  pub must_change_password : Bool
  pub changed : Bool

-- The flag afterwards, and the answer.
unfoldable pub complete_initial_password_function :
    (is_active must_change : Bool) → (user_id : Text) → Bool × Answer (Option Text)
complete_initial_password_function is_active must_change id =
    if not is_active
    then (must_change, fault (raised (codes "P0001") (codes "El perfil interno no está activo.")))
    else (false, reply (some id))

pub record Setting : Type 0 where
  pub client : Answer (Unit {0})
  pub user : Answer (Option AuthUser)
  pub profile : Answer (Option ProfileState)
  pub update_applied : Bool
  pub updated : Answer (Option Text)
  pub admin_client : Answer (Unit {0})

abbrev pub next_call : List CallState → CallState
next_call [] = record { delivery = delivered; is_active = true }
next_call (c ∷ cs) = c

abbrev pub later_calls : List CallState → List CallState
later_calls [] = []
later_calls (c ∷ cs) = cs

abbrev pub deliver :
    {A : Type 0}
    → Delivery
    → List CallState
    → (changed before : Bool) → Bool × Answer A
    → World × Answer A
deliver delivered cs changed before (after, a) =
    (record { calls = cs; must_change_password = after; changed = changed }, a)
deliver (request_lost e) cs changed before (after, a) =
    (record { calls = cs; must_change_password = before; changed = changed }, lost e)
deliver (response_lost e) cs changed before (after, a) =
    (record { calls = cs; must_change_password = after; changed = changed }, lost e)

abbrev pub call : {A : Type 0} → World → (Bool → Bool → Bool × Answer A) → World × Answer A
call w f =
    let c = next_call w.calls in
    deliver c.delivery (later_calls w.calls) w.changed w.must_change_password
      (f c.is_active w.must_change_password)

unfoldable pub remote : Setting → InitialClient World
unfolding complete_initial_password_function
remote setting = record {
  create_client = λ _. setting.client;
  get_user = λ _. setting.user;
  find_profile = λ _ _. setting.profile;
  update_user = λ w new. (
    record {
      calls = w.calls;
      must_change_password = w.must_change_password;
      changed = w.changed || setting.update_applied;
    },
    setting.updated,
  );
  create_admin_client = λ _. setting.admin_client;
  complete_change =
      λ w id. call w (λ active must. complete_initial_password_function active must id);
  read_flag = λ w id. call w (λ active must. (must, reply (some (some must))));
}
