-- ===== src/Solicitudes/PublicRequest/Accepted.antt =====
-- public-request-validation.ts: which forms are accepted, and what is made of them.
use godel_design.Prelude.{
  ℕ, ◌-◌, ◌^◌, ◌≤◌, ◌<◌, List, [], ◌∷◌, ◌++◌, Bool, true, false, if◌then◌else◌, ltb, leb, ltb→lt,
  leb→le, length, Option, some, none, ◌≡◌, ◌↔◌, refl, sym, ◌∙◌, arith, inl, inr, Bool-cases,
}
use godel_design.Database.{WorkflowType, encargo, impresion}
use godel_design.JsNumber.{infinite, finite, digits_value, to_number, round_double}
use godel_design.JsNumber.Rounding.{round_double_exact, round_double_large}
use godel_design.JsText.{Text, codes}
use godel_design.Validators.Form.{success, is_basic_email}
use godel_design.Validators.Form.Verdict.{append_iff, four_iff, verdict_iff}
use godel_design.Validators.Date.{FutureDateResult, validate_optional_future_date}
use godel_design.Pedidos.OrderValidation.Creation.{
  PedidoResolvedService, print_color_mode_options, print_paper_size_options, print_sides_options,
  is_option_value, is_positive_digits, is_out_of_range,
}
use godel_design.Pedidos.OrderValidation.Creation.Sound.{IsTimely}
use godel_design.Solicitudes.PublicRequest.{
  PublicField, PublicInput, NormalizedPublicInput, PublicData, normalize_public_input,
  required_errors, email_errors, notes_errors, common_errors, encargo_errors, copies_errors,
  option_errors, files_errors, impresion_errors, workflow_errors, build_data, validate_public_input,
  future_errors, client_name, client_phone, description, print_color_mode, print_paper_size,
  print_sides,
}

abbrev pub IsMailOrNone : Option Text → Type 0
IsMailOrNone none = Unit
IsMailOrNone (some []) = Unit
IsMailOrNone (some (c ∷ s)) = (length (c ∷ s) ≤ 254) × (is_basic_email (c ∷ s) ≡ true)

abbrev pub AreShortNotes : Option Text → Type 0
AreShortNotes none = Unit
AreShortNotes (some s) = length s ≤ 1000

abbrev pub IsCommon : NormalizedPublicInput → Type 0
IsCommon input =
    ((1 ≤ length input.client_name) × (length input.client_name ≤ 120))
    × ((1 ≤ length input.client_phone) × (length input.client_phone ≤ 40))
    × IsMailOrNone input.client_email
    × AreShortNotes input.notes

-- What each workflow asks for besides.
abbrev pub FitsWorkflow : WorkflowType → NormalizedPublicInput → (today : Text) → Type 0
FitsWorkflow encargo input today =
    ((1 ≤ length input.description) × (length input.description ≤ 2000))
    × IsTimely (validate_optional_future_date input.desired_date today)
FitsWorkflow impresion input today =
    ((is_positive_digits input.copies ≡ true) × (digits_value 0 input.copies ≤ 10000))
    × (is_option_value input.color_mode print_color_mode_options ≡ true)
    × (is_option_value input.paper_size print_paper_size_options ≡ true)
    × (is_option_value input.sides print_sides_options ≡ true)
    × (input.has_files ≡ true)

required_errors_iff :
    (field : PublicField) (limit : ℕ) (missing long s : Text)
    → (required_errors field limit missing long s ≡ []) ↔ ((1 ≤ length s) × (length s ≤ limit))
required_errors_iff field limit missing long [] = ground arith
required_errors_iff field limit missing long (c ∷ s) = ground arith

email_errors_iff : (e : Option Text) → (email_errors e ≡ []) ↔ IsMailOrNone e
unfolding email_errors
email_errors_iff none = ground arith
email_errors_iff (some []) = ground arith
email_errors_iff (some (c ∷ s)) = ground arith

notes_errors_iff : (n : Option Text) → (notes_errors n ≡ []) ↔ AreShortNotes n
unfolding notes_errors
notes_errors_iff none = ground arith
notes_errors_iff (some []) = ground arith
notes_errors_iff (some (c ∷ s)) = ground arith

common_errors_iff : (input : NormalizedPublicInput) → (common_errors input ≡ []) ↔ IsCommon input
unfolding common_errors
common_errors_iff input =
    four_iff _ _ _ _
      (required_errors_iff client_name 120 (codes "Ingresa el nombre del cliente.")
        (codes "El nombre es demasiado largo.") input.client_name)
      (required_errors_iff client_phone 40 (codes "Ingresa un teléfono de contacto.")
        (codes "El teléfono es demasiado largo.") input.client_phone)
      (email_errors_iff input.client_email) (notes_errors_iff input.notes)

-- Copies.
below-leb : (b n : ℕ) → n < b → leb b n ≡ false
below-leb b n h = ground arith

lt_of_le : (n a b : ℕ) → n ≤ a → a < b → n < b
lt_of_le n a b h k = omega (arith, h, k)

to_number_small : (n : ℕ) → n ≤ 10000 → to_number n ≡ finite false n false
unfolding to_number
to_number_small n h =
    let top : 10000 < 2 ^ 1024 - 2 ^ 970 = ltb→lt 10000 (2 ^ 1024 - 2 ^ 970) refl in
    rw
      (
        below-leb (2 ^ 1024 - 2 ^ 970) n (lt_of_le n 10000 (2 ^ 1024 - 2 ^ 970) h top),
        round_double_exact n (omega (arith, h)),
      )
      refl

out_of_range-small : (n : ℕ) → n ≤ 10000 → is_out_of_range (to_number n) ≡ false
out_of_range-small n h = rw (to_number_small n h) (ground arith)

round_double_above : (n : ℕ) → 10000 < n → 10000 < round_double n
round_double_above n h = elim (Bool-cases (ltb n 9007199254740992)) [
  | inl small ↦ rw (round_double_exact n (ltb→lt n 9007199254740992 small)) h
  | inr large ↦ omega (arith, round_double_large n (ground arith))
]

out_of_range-above :
    (b : Bool) (v : ℕ)
    → 10000 < v
    → is_out_of_range (if b then infinite false else finite false v false) ≡ true
out_of_range-above true v h = ground arith
out_of_range-above false v h = ground arith

out_of_range_iff : (n : ℕ) → (is_out_of_range (to_number n) ≡ false) ↔ (n ≤ 10000)
unfolding to_number
out_of_range_iff n = elim (Bool-cases (leb n 10000)) [
  | inl small ↦ (λ _. leb→le n 10000 small, λ _. out_of_range-small n (leb→le n 10000 small))
  | inr large ↦
      let above : 10000 < n = ground arith in
      let out : is_out_of_range (to_number n) ≡ true =
        out_of_range-above (leb (2 ^ 1024 - 2 ^ 970) n) (round_double n)
          (round_double_above n above) in
      (λ h. absurd (cc), λ h. absurd (omega (arith, h, above)))
]

true_not_false : true ≡ false → ⊥
true_not_false h = absurd (cc)

copies_errors_iff :
    (s : Text)
    → (copies_errors s ≡ []) ↔ ((is_positive_digits s ≡ true) × (digits_value 0 s ≤ 10000))
unfolding copies_errors
copies_errors_iff s =
    let range = out_of_range_iff (digits_value 0 s) in
    elim (Bool-cases (is_positive_digits s)) [
      | inl p ↦ elim (Bool-cases (is_out_of_range (to_number (digits_value 0 s)))) [
        | inl q ↦ rw (p, q) (λ h. absurd (cc), λ h. absurd (true_not_false (sym q ∙ range.1 h.1)))
        | inr q ↦ rw (p, q) (λ h. (refl, range.0 q), λ h. refl)
      ]
      | inr p ↦ rw p (λ h. absurd (cc), λ h. absurd (cc))
    ]

future_errors_iff : (r : FutureDateResult) → (future_errors r ≡ []) ↔ IsTimely r
future_errors_iff r = ground arith

option_errors_iff :
    (field : PublicField) (message s : Text) (options : List (Text × Text))
    → (option_errors field message s options ≡ []) ↔ (is_option_value s options ≡ true)
unfolding option_errors
option_errors_iff field message s options = ground arith

files_errors_iff : (b : Bool) → (files_errors b ≡ []) ↔ (b ≡ true)
files_errors_iff b = ground arith

workflow_errors_iff :
    (workflow : WorkflowType) (input : NormalizedPublicInput) (today : Text)
    → (workflow_errors workflow input today ≡ []) ↔ FitsWorkflow workflow input today
unfolding encargo_errors impresion_errors
workflow_errors_iff encargo input today =
    append_iff _ _
      (required_errors_iff description 2000 (codes "Describe el trabajo solicitado.")
        (codes "La descripción es demasiado larga.") input.description)
      (future_errors_iff (validate_optional_future_date input.desired_date today))
workflow_errors_iff impresion input today =
    let parts =
      append_iff _ _
        (four_iff _ _ _ _ (copies_errors_iff input.copies)
          (option_errors_iff print_color_mode (codes "Selecciona el modo de color.")
            input.color_mode print_color_mode_options)
          (option_errors_iff print_paper_size (codes "Selecciona el tamaño de papel.")
            input.paper_size print_paper_size_options)
          (option_errors_iff print_sides (codes "Selecciona la cantidad de caras.") input.sides
            print_sides_options))
        (files_errors_iff input.has_files) in
    (
      λ h. let ((a, b, c, d), e) = parts.0 h in (a, b, c, d, e),
      λ (a, b, c, d, e). parts.1 ((a, b, c, d), e),
    )

-- The form of a customer is accepted exactly when its name has 1 to 120 units, its telephone 1 to 40,
-- its e-mail is absent or an address of at most 254 units, its notes have at most 1000, and it has
-- what its workflow asks for: a description of 1 to 2000 units and no date or a day from today on; or
-- a number of 1 to 10000 copies, a member of each list of options, and a file. What is accepted is
-- then what is built from the normalised values.
pub validate_public_input-success_iff :
    (input : PublicInput) (service : PedidoResolvedService) (today : Text) (d : PublicData)
    → (validate_public_input input service today ≡ success d) ↔ (
        IsCommon (normalize_public_input input)
        × FitsWorkflow service.workflow_type (normalize_public_input input) today
        × (build_data service.workflow_type (normalize_public_input input) service ≡ d))
unfolding validate_public_input
validate_public_input-success_iff input service today d =
    let values = normalize_public_input input in
    let verdict =
      verdict_iff (common_errors values ++ workflow_errors service.workflow_type values today)
        (build_data service.workflow_type values service) d in
    let parts =
      append_iff _ _ (common_errors_iff values)
        (workflow_errors_iff service.workflow_type values today) in
    (
      λ h. let (clear, same) = verdict.0 h in let (a, b) = parts.0 clear in (a, b, same),
      λ (a, b, same). verdict.1 (parts.1 (a, b), same),
    )
