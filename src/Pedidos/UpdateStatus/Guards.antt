-- ===== src/Pedidos/UpdateStatus/Guards.antt =====
-- update-internal-pedido-status.ts: what has to hold before the order is moved, over any client.
use godel_design.Prelude.{
  true, Option, some, none, ◌≡◌, ◌⊎◌, refl, arith, inl, inr, Option-cases, Bool-cases, ◌≢◌,
}
use godel_design.Database.{PedidoEstado}
use godel_design.JsText.{Text, trim}
use godel_design.Validators.Uuid.{is_valid_uuid}
use godel_design.Permissions.{pedidos_change_status, has_permission}
use godel_design.Backend.{Response, answer, error, threw, Profile}
use godel_design.Pedidos.Status.{is_pedido_status}
use godel_design.Pedidos.UpdateStatus.{
  StatusClient, success, update_internal_pedido_status, move_found, move_as, move_result,
}

module _ {World : Type 0} (client : StatusClient World) where
  open client use {current_profile, find_pedido, move_pedido}

  -- The order was named by a well-formed id, the state by its name, and a profile with the
  -- permission is signed in, to whom the order is visible.
  pub record Passes (w : World) (pedido_id status : Text) (target : PedidoEstado) : Type 0 where
    pub profile : Profile
    pub row : Text
    pub well_formed : is_valid_uuid (trim pedido_id) ≡ true
    pub known : is_pedido_status (trim status) ≡ some target
    pub signed_in : current_profile w ≡ some profile
    pub permitted : has_permission profile.role pedidos_change_status ≡ true
    pub visible : find_pedido w (trim pedido_id) ≡ answer (some row)

  Passes-runs :
      (w : World) (pedido_id status : Text) (target : PedidoEstado)
      → Passes w pedido_id status target
      → update_internal_pedido_status client w pedido_id status ≡ (
        (move_pedido w (trim pedido_id) target).0,
        move_result (move_pedido w (trim pedido_id) target).1,
      )
  unfolding update_internal_pedido_status
  Passes-runs w pedido_id status target h = ground arith

  Response-cases :
      {A : Type 0} (r : Response (Option A))
      → ((a : A) × (r ≡ answer (some a)))
        ⊎ (r ≡ answer none)
        ⊎ ((m : Option Text) × (r ≡ error m))
        ⊎ (r ≡ threw)
  Response-cases (answer (some a)) = inl (a, refl)
  Response-cases (answer none) = inr (inl refl)
  Response-cases (error m) = inr (inr (inl (m, refl)))
  Response-cases threw = inr (inr (inr refl))

  move_found_stops :
      (w : World) (id : Text) (target : PedidoEstado) (r : Response (Option Text))
      → ((row : Text) × (r ≡ answer (some row)))
        ⊎ (((move_found client w id target r).0 ≡ w)
            × ((move_found client w id target r).1 ≢ success tt))
  unfolding move_found
  move_found_stops w id target (answer (some row)) = inl (row, refl)
  move_found_stops w id target (answer none) = inr (refl, λ e. cc)
  move_found_stops w id target (error m) = inr (refl, λ e. cc)
  move_found_stops w id target threw = inr (refl, λ e. cc)

  abbrev Permitted : World → Text → Type 0
  Permitted w id =
      (profile : Profile) × (row : Text) × (current_profile w ≡ some profile)
      × (has_permission profile.role pedidos_change_status ≡ true)
      × (find_pedido w id ≡ answer (some row))

  move_as_stops :
      (w : World) (id : Text) (target : PedidoEstado) (profile : Option Profile)
      → current_profile w ≡ profile
      → Permitted w id
        ⊎ (((move_as client w id target profile).0 ≡ w)
            × ((move_as client w id target profile).1 ≢ success tt))
  unfolding move_as
  move_as_stops w id target none e = inr (refl, λ x. cc)
  move_as_stops w id target (some profile) e =
      elim (Bool-cases (has_permission profile.role pedidos_change_status)) [
        | inr lacks ↦ inr (rw lacks refl, rw lacks (λ x. cc))
        | inl may ↦ elim (move_found_stops w id target (find_pedido w id)) [
          | inl (row, found) ↦ inl (profile, row, e, may, found)
          | inr stopped ↦ inr (rw may stopped)
        ]
      ]

  -- Either the guards pass and the answer of the database decides the result, or the database was
  -- not asked to move anything: the store is as it was and the result is a failure.
  pub update_guarded :
      (w : World) (pedido_id status : Text)
      → let result = update_internal_pedido_status client w pedido_id status in
        ((target : PedidoEstado) × Passes w pedido_id status target
          × (result ≡ (
            (move_pedido w (trim pedido_id) target).0,
            move_result (move_pedido w (trim pedido_id) target).1,
          )))
        ⊎ ((result.0 ≡ w) × (result.1 ≢ success tt))
  unfolding update_internal_pedido_status
  update_guarded w pedido_id status = elim (Bool-cases (is_valid_uuid (trim pedido_id))) [
    | inr bad ↦ inr (rw bad (refl, λ e. cc))
    | inl good ↦ elim (Option-cases (is_pedido_status (trim status))) [
      | inl unknown ↦ inr (rw (good, unknown) (refl, λ e. cc))
      | inr (target, known) ↦
          elim (move_as_stops w (trim pedido_id) target (current_profile w) refl) [
            | inl (profile, row, signed, may, found) ↦
                let passes : Passes w pedido_id status target = record {
                  profile = profile;
                  row = row;
                  well_formed = good;
                  known = known;
                  signed_in = signed;
                  permitted = may;
                  visible = found;
                } in
                inl (target, passes, Passes-runs w pedido_id status target passes)
            | inr stopped ↦ inr (rw (good, known) stopped)
          ]
    ]
  ]
