-- ===== src/Tests/FirstPassword.antt =====
-- The change of a temporary password, over the modelled database.
use godel_design.Prelude.{List, [], ◌∷◌, true, false, none, some, ◌≡◌, ◌↔◌, refl}
use godel_design.JsText.{Text, codes}
use godel_design.Validators.Form.{ValidationResult}
use godel_design.Usuarios.PasswordReset.{reply, AuthUser}
use godel_design.Usuarios.PasswordReset.Database.{response_lost}
use godel_design.Usuarios.PasswordReset.Validation.{IsStrong}
use godel_design.Usuarios.InitialPassword.{
  InitialInput, complete_initial_password_change, validate_initial_input,
}
use godel_design.Usuarios.InitialPassword.Database.{Setting, CallState, remote}
use godel_design.Usuarios.InitialPassword.Verdict.{
  world_at, IsTruthful, Kept, complete_initial_password_change-Kept,
}
use godel_design.Usuarios.InitialPassword.Accepted.{DiffersFrom, validate_initial_input-success_iff}
use godel_design.Tests.Files.{ascii}

abbrev entry : InitialInput
entry = record { password = codes "MiClave#2026"; password_confirmation = codes "MiClave#2026" }

abbrev luis : AuthUser
luis = record { id = codes "luis"; email = some (codes "luis@example.com") }

abbrev setting : Setting
setting = record {
  client = reply tt;
  user = reply (some luis);
  profile = reply (some (record { is_active = some true; must_change_password = some true }));
  update_applied = true;
  updated = reply (some (codes "luis"));
  admin_client = reply tt;
}

setting-IsTruthful : IsTruthful setting
setting-IsTruthful = record { confirmed = λ id h. refl }

abbrev losses : List CallState
losses = record { delivery = response_lost none; is_active = true } ∷ []

complete_initial_password_change-Kept_example :
    Kept true
      (complete_initial_password_change ascii (remote setting) (world_at losses true false) entry)
complete_initial_password_change-Kept_example =
    complete_initial_password_change-Kept ascii setting setting-IsTruthful losses true entry

validate_initial_input-success_iff_example :
    (validate_initial_input ascii entry (some (codes "luis@example.com"))
      ≡ ValidationResult.success (codes "MiClave#2026"))
    ↔ (◌≡◌ {A = Text} (codes "MiClave#2026") (codes "MiClave#2026")
        × IsStrong (codes "MiClave#2026")
        × DiffersFrom ascii (some (codes "luis@example.com")) (codes "MiClave#2026")
        × ◌≡◌ {A = Text} (codes "MiClave#2026") (codes "MiClave#2026"))
validate_initial_input-success_iff_example =
    validate_initial_input-success_iff ascii entry (some (codes "luis@example.com"))
      (codes "MiClave#2026")
