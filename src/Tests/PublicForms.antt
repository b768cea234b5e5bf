-- ===== src/Tests/PublicForms.antt =====
-- The form of a customer, and the creation of a request without files.
use godel_design.Prelude.{ℕ, zero, suc, ◌<◌, true, false, Option, none, some, ◌≡◌, ◌↔◌, refl, arith}
use godel_design.Database.{encargo}
use godel_design.JsText.{Text, codes, text_eq, includes}
use godel_design.Backend.{answer}
use godel_design.Validators.Form.{str, other, success}
use godel_design.Pedidos.OrderValidation.Creation.{PedidoResolvedService}
use godel_design.Solicitudes.PublicRequest.{
  PublicInput, PublicData, validate_public_input, normalize_public_input, build_data,
}
use godel_design.Solicitudes.PublicRequest.Accepted.{
  IsCommon, FitsWorkflow, validate_public_input-success_iff,
}
use godel_design.Solicitudes.PublicCreation.{
  DatabaseError, CreateAnswer, row, rejected, PublicClient, generate_public_reference,
  is_public_reference, create_loop, is_public_reference_conflict, generic_create_error, draw_token,
  CreateResult,
}
use godel_design.Solicitudes.PublicCreation.References.{
  generate_public_reference-is_public_reference,
}
use godel_design.Solicitudes.PublicCreation.Tries.{
  Conflicting, after_tries, IsRegistered, IsOutcome, create_loop-success_iff, create_loop-exhausted,
}
use godel_design.Tests.Files.{ascii}

abbrev form : PublicInput
form = record {
  service_id = str (codes "22222222-2222-4222-8222-222222222222");
  client_name = str (codes " Ana  Pérez ");
  client_phone = str (codes "555 123");
  client_email = str (codes "");
  description = str (codes "Una maqueta");
  desired_date = other;
  notes = other;
  print_copies = other;
  print_color_mode = other;
  print_paper_size = other;
  print_sides = other;
  has_files = false;
}

abbrev models : PedidoResolvedService
models = record {
  id = codes "22222222-2222-4222-8222-222222222222";
  name = codes "Maquetas";
  workflow_type = encargo;
}

abbrev wanted : PublicData
wanted = record {
  service_id = codes "22222222-2222-4222-8222-222222222222";
  workflow_type = encargo;
  client_name = codes "Ana Pérez";
  client_phone = codes "555 123";
  client_email = none;
  description = codes "Una maqueta";
  desired_date = none;
  notes = none;
  print_request = none;
}

validate_public_input-success_iff_example :
    (validate_public_input form models (codes "2026-08-11") ≡ success wanted) ↔ (
      IsCommon (normalize_public_input form)
      × FitsWorkflow encargo (normalize_public_input form) (codes "2026-08-11")
      × (build_data encargo (normalize_public_input form) models ≡ wanted))
validate_public_input-success_iff_example =
    validate_public_input-success_iff form models (codes "2026-08-11") wanted

-- A database that takes every reference for used as often as its number says.
abbrev taken : DatabaseError
taken = record {
  code = some (codes "23505");
  message = some (codes "duplicate key value violates unique constraint");
  details = some (codes "Key (public_reference) already exists.");
}

abbrev the_row : Option (Text × Text)
the_row = some (codes "33333333-3333-4333-8333-333333333333", codes "GD-AAAA-AAAA")

abbrev answer_of : ℕ → ℕ × CreateAnswer
answer_of zero = (zero, row the_row)
answer_of (suc n) = (n, rejected taken)

abbrev busy : PublicClient ℕ
busy = record {
  random_int = λ w. (w, 0);
  find_service = λ w id. answer (some models);
  create_client = λ w. answer tt;
  create_solicitud = λ w arguments. answer_of w;
}

zero_bounded : (w : ℕ) → (busy.random_int w).1 < 36
zero_bounded w = omega arith

generate_public_reference-is_public_reference_example :
    is_public_reference (generate_public_reference ascii busy 2).1 ≡ true
generate_public_reference-is_public_reference_example =
    generate_public_reference-is_public_reference ascii busy zero_bounded 2

taken-is_conflict : is_public_reference_conflict ascii taken ≡ true
unfolding is_public_reference_conflict text_eq includes
taken-is_conflict = refl

two_conflicts : Conflicting ascii busy wanted 2 2
unfolding generate_public_reference draw_token
two_conflicts = ((taken, refl, taken-is_conflict), ((taken, refl, taken-is_conflict), tt))

create_loop-success_iff_example :
    ((create_loop ascii busy 5 2 wanted ≡ (
      zero,
      CreateResult.success (codes "33333333-3333-4333-8333-333333333333") (codes "GD-AAAA-AAAA"),
    ))
      ↔ IsRegistered ascii busy wanted 5 2 zero
          (codes "33333333-3333-4333-8333-333333333333")
          (codes "GD-AAAA-AAAA"))
    × IsOutcome ascii busy wanted (create_loop ascii busy 5 2 wanted).1
create_loop-success_iff_example =
    create_loop-success_iff ascii busy wanted 5 2 zero
      (codes "33333333-3333-4333-8333-333333333333") (codes "GD-AAAA-AAAA")

third_try_succeeds : create_loop ascii busy 5 2 wanted ≡ (
  zero,
  CreateResult.success (codes "33333333-3333-4333-8333-333333333333") (codes "GD-AAAA-AAAA"),
)
unfolding create_loop
third_try_succeeds = refl

create_loop-exhausted_example :
    create_loop ascii busy 2 2 wanted ≡ (after_tries ascii busy wanted 2 2, generic_create_error)
create_loop-exhausted_example = create_loop-exhausted ascii busy wanted 1 2 two_conflicts
