-- ===== src/Tests/Users.antt =====
-- The form of a new user.
use godel_design.Prelude.{none, ◌≡◌, ◌↔◌, refl}
use godel_design.Database.{supervisor}
use godel_design.JsText.{codes}
use godel_design.Validators.Form.{Unknown, ValidationResult}
use godel_design.Usuarios.UserValidation.{
  CreateInput, CreateData, validate_create_internal_user_input,
}
use godel_design.Usuarios.UserValidation.Accepted.{IsAcceptable, validate_create-success_iff}
use godel_design.Tests.Files.{ascii}

abbrev new_user : CreateInput
new_user = record {
  email = Unknown.str (codes " Eva@Example.com");
  password = Unknown.str (codes "MiClave#2026");
  password_confirmation = Unknown.str (codes "MiClave#2026");
  profile = record {
    full_name = Unknown.str (codes "Eva Gil");
    phone = Unknown.other;
    avatar_url = Unknown.other;
    role = Unknown.str (codes "Supervisor");
  };
  confirm_admin = Unknown.other;
}

abbrev eva : CreateData
eva = record {
  email = codes "eva@example.com";
  password = codes "MiClave#2026";
  profile = record {
    full_name = codes "Eva Gil";
    phone = none;
    avatar_url = none;
    role = supervisor;
  };
}

validate_create-success_iff_example :
    (validate_create_internal_user_input ascii new_user ≡ ValidationResult.success eva)
    ↔ IsAcceptable ascii new_user eva
validate_create-success_iff_example = validate_create-success_iff ascii new_user eva

accepts_eva : validate_create_internal_user_input ascii new_user ≡ ValidationResult.success eva
unfolding validate_create_internal_user_input
accepts_eva = refl
