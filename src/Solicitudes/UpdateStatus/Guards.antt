-- ===== src/Solicitudes/UpdateStatus/Guards.antt =====
-- update-internal-solicitud-status.ts: what has to hold before the request is moved, over any client.
use godel_design.Prelude.{
  true, Option, some, none, ◌≡◌, ◌⊎◌, refl, arith, inl, inr, Option-cases, Bool-cases,
}
use godel_design.Database.{SolicitudEstado}
use godel_design.JsText.{Text, trim}
use godel_design.Validators.Uuid.{is_valid_uuid}
use godel_design.Permissions.{solicitudes_manage, has_permission}
use godel_design.Backend.{Response, answer, error, threw, Profile}
use godel_design.Solicitudes.Status.{is_manual_solicitud_status, is_solicitud_status}
use godel_design.Solicitudes.UpdateStatus.{
  StatusClient, ServiceResult, success, failure, update_internal_solicitud_status, move_found,
  move_as, move_named, move_result,
}

module _ {World : Type 0} (client : StatusClient World) where
  open client use {current_profile, find_solicitud, move_solicitud}

  -- The request was named by a well-formed id, the state by the name of one that is set by hand, and
  -- a profile with the permission is signed in, to whom the request is visible.
  pub record Passes (w : World) (id status : Text) (target : SolicitudEstado) : Type 0 where
    pub profile : Profile
    pub row : Text
    pub well_formed : is_valid_uuid (trim id) ≡ true
    pub manual : is_manual_solicitud_status (trim status) ≡ some target
    pub signed_in : current_profile w ≡ some profile
    pub permitted : has_permission profile.role solicitudes_manage ≡ true
    pub visible : find_solicitud w (trim id) ≡ answer (some row)

  -- The store is as it was, and the result is a failure.
  abbrev pub Stopped : World → World × ServiceResult → Type 0
  Stopped w (w', success s) = ⊥
  Stopped w (w', failure reason message) = w' ≡ w

  -- The database was asked for the move, and its answer is the result.
  abbrev pub Moved : World → Text → SolicitudEstado → World × ServiceResult → Type 0
  Moved w id target result =
      result ≡ ((move_solicitud w id target).0, move_result target (move_solicitud w id target).1)

  found_stops :
      (w : World) (id : Text) (target : SolicitudEstado) (r : Response (Option Text))
      → ((row : Text) × (r ≡ answer (some row))
          × Moved w id target (move_found client w id target r))
        ⊎ Stopped w (move_found client w id target r)
  unfolding move_found
  found_stops w id target (answer (some row)) = inl (row, refl, refl)
  found_stops w id target (answer none) = inr refl
  found_stops w id target (error m) = inr refl
  found_stops w id target threw = inr refl

  abbrev Permitted : World → Text → Type 0
  Permitted w id =
      (profile : Profile) × (row : Text) × (current_profile w ≡ some profile)
      × (has_permission profile.role solicitudes_manage ≡ true)
      × (find_solicitud w id ≡ answer (some row))

  as_stops :
      (w : World) (id : Text) (target : SolicitudEstado) (profile : Option Profile)
      → current_profile w ≡ profile
      → (Permitted w id × Moved w id target (move_as client w id target profile))
        ⊎ Stopped w (move_as client w id target profile)
  unfolding move_as
  as_stops w id target none e = inr refl
  as_stops w id target (some profile) e =
      elim (Bool-cases (has_permission profile.role solicitudes_manage)) [
        | inr lacks ↦ inr (rw lacks refl)
        | inl may ↦ elim (found_stops w id target (find_solicitud w id)) [
          | inl (row, found, moved) ↦ inl ((profile, row, e, may, found), rw may moved)
          | inr stopped ↦ inr (rw may stopped)
        ]
      ]

  manual_known :
      (name : Text) (target : SolicitudEstado)
      → is_manual_solicitud_status name ≡ some target
      → is_solicitud_status name ≡ some target
  unfolding is_manual_solicitud_status is_solicitud_status
  manual_known name target h = ground arith

  named_stops :
      (w : World) (id name : Text)
      → ((target : SolicitudEstado) × (is_manual_solicitud_status name ≡ some target)
          × Permitted w id
          × Moved w id target (move_named client w id name))
        ⊎ Stopped w (move_named client w id name)
  unfolding move_named
  named_stops w id name = elim (Option-cases (is_manual_solicitud_status name)) [
    | inl unset ↦ elim (Option-cases (is_solicitud_status name)) [
      | inl unknown ↦ inr (rw (Stopped, move_named, unknown) (ground arith))
      | inr (s, known) ↦ inr (rw (Stopped, move_named, known, unset) (ground arith))
    ]
    | inr (target, manual) ↦ elim (as_stops w id target (current_profile w) refl) [
      | inl (permitted, moved) ↦ inl (
        target,
        manual,
        permitted,
        rw (move_named, manual_known name target manual, manual) moved,
      )
      | inr stopped ↦ inr (rw (move_named, manual_known name target manual, manual) stopped)
    ]
  ]

  -- Either every guard passes and the answer of the database is the result, or the database was not
  -- asked to move anything: the store is as it was and the result is a failure.
  pub update_solicitud_guarded :
      (w : World) (id status : Text)
      → let result = update_internal_solicitud_status client w id status in
        ((target : SolicitudEstado) × Passes w id status target × Moved w (trim id) target result)
        ⊎ Stopped w result
  unfolding update_internal_solicitud_status
  update_solicitud_guarded w id status = elim (Bool-cases (is_valid_uuid (trim id))) [
    | inr bad ↦ inr (rw bad refl)
    | inl good ↦ elim (named_stops w (trim id) (trim status)) [
      | inl (target, manual, (profile, row, signed, may, found), moved) ↦ inl (
        target,
        record {
          profile = profile;
          row = row;
          well_formed = good;
          manual = manual;
          signed_in = signed;
          permitted = may;
          visible = found;
        },
        rw good moved,
      )
      | inr stopped ↦ inr (rw good stopped)
    ]
  ]
