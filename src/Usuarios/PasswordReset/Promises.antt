-- ===== src/Usuarios/PasswordReset/Promises.antt =====
-- What a kept promise says of the world and of the result of the reset.
use godel_design.Prelude.{Bool, true, false, Option, some, none, ◌≡◌, ◌≢◌, subst, ap, refl}
use godel_design.JsText.{Text}
use godel_design.Usuarios.PasswordReset.{Reason, FieldErrors, ResetResult, success, failure}
use godel_design.Usuarios.PasswordReset.Remote.{World}
use godel_design.Usuarios.PasswordReset.Stages.{
  Stage, store_at, store_at-is_forced, store_at-not_forced,
}
use godel_design.Usuarios.PasswordReset.Outcome.{Promise, Kept}

module _ (target_id : Text) (was must : Bool) (Good : Type 0) where
  pub changed_of-Kept :
      (p : World × ResetResult)
      → Kept target_id was must Good p
      → p.0.changed ≡ true
      → p.0.store.must_change_password ≡ true
  changed_of-Kept (w, r) (ts, g, changed, e, h, _) c =
      rw e (store_at-is_forced target_id was must g (h (cc)))

  pub success_of-Kept :
      (p : World × ResetResult)
      → Kept target_id was must Good p
      → (user_id : Text) (was_active : Bool) → p.1 ≡ success user_id was_active
      → (p.0.changed ≡ true)
        × (p.0.store.is_active ≡ was)
        × (p.0.store.must_change_password ≡ true)
        × (was_active ≡ was)
  success_of-Kept (w, r) (ts, g, changed, e, _, k) user_id was_active s =
      let k' : Promise Good was g changed (success user_id was_active) =
        subst (Promise Good was g changed) s k in
      rw e (
        k'.1,
        ap (λ h. (store_at target_id was must h).is_active) k'.0,
        ap (λ h. (store_at target_id was must h).must_change_password) k'.0,
        k'.2,
      )

  denied :
      (g : Stage) (changed : Bool) (reason : Reason) (message : Text) (fields : FieldErrors)
      (said : Option Bool)
      → said ≢ some true
      → Promise Good was g changed (failure reason message said fields)
      → changed ≡ false
  denied g changed reason message fields none n k = k.0
  denied g changed reason message fields (some false) n k = k
  denied g changed reason message fields (some true) n k = absurd (n refl)

  pub denial_of-Kept :
      (p : World × ResetResult)
      → Kept target_id was must Good p
      → (reason : Reason) (message : Text) (said : Option Bool) (fields : FieldErrors)
      → p.1 ≡ failure reason message said fields
      → said ≢ some true
      → p.0.changed ≡ false
  denial_of-Kept (w, r) (ts, g, changed, e, _, k) reason message said fields s n =
      rw e (denied g changed reason message fields said n (subst (Promise Good was g changed) s k))

  pub restored_of-Kept :
      (p : World × ResetResult)
      → Kept target_id was must Good p
      → (reason : Reason) (message : Text) (fields : FieldErrors)
      → p.1 ≡ failure reason message none fields
      → Good
      → (p.0.store.is_active ≡ was) × (p.0.store.must_change_password ≡ must)
  restored_of-Kept (w, r) (ts, g, changed, e, _, k) reason message fields s h =
      let k' : Promise Good was g changed (failure reason message none fields) =
        subst (Promise Good was g changed) s k in
      rw e (store_at-not_forced target_id was must g (k'.1 h))
