-- ===== src/Pedidos/OrderValidation/Creation/Sound.antt =====
-- order-validation.ts, `validatePedidoInput`: what holds of an order that was accepted.
use godel_design.Prelude.{
  ℕ, ◌+◌, ◌-◌, ◌*◌, ◌^◌, ltb→lt, ◌≤◌, List, [], ◌∷◌, Bool, true, false, if◌then◌else◌, ltb, leb,
  is_empty, length, Option, some, none, ◌≡◌, ◌⊎◌, refl, arith, inl, inr, Bool-cases,
}
use godel_design.Database.{WorkflowType, encargo, impresion}
use godel_design.JsNumber.{infinite, finite, digits_value, to_number, round_double}
use godel_design.JsNumber.Rounding.{round_double_exact, round_double_large}
use godel_design.JsText.{Text, codes}
use godel_design.Validators.Form.{success}
use godel_design.Validators.Date.{FutureDateResult, valid, empty, validate_optional_future_date}
use godel_design.Validators.Uuid.{is_valid_uuid}
use godel_design.Pedidos.OrderValidation.{
  PedidoField, FieldErrors, error_on, print_color_mode, print_paper_size, print_sides,
  TotalAmountResult, accepted, amount_or_zero, is_pedido_prioridad, validate_pedido_total_amount,
  title, description, amount_errors, priority_errors, required_errors, long_title, long_description,
}
use godel_design.Pedidos.OrderValidation.Updates.{
  six-none, append-none, required_errors_iff, no_errors, priority_errors_iff, amount_errors_iff,
}
use godel_design.Pedidos.OrderValidation.Creation.{
  CreatePedidoInput, PedidoResolvedService, PrintData, CreatePedidoData, NormalizedInput,
  normalize_input, cliente_errors, delivery_errors, copies_errors, option_errors, notes_errors,
  encargo_errors, impresion_errors, workflow_errors, create_errors, create_data, print_data_of,
  validate_pedido_input, is_option_value, print_color_mode_options, print_paper_size_options,
  print_sides_options, is_out_of_range, whole_of, or_default_title, is_positive_digits,
}

abbrev pub IsClientOrNone : Option Text → Type 0
IsClientOrNone none = Unit
IsClientOrNone (some id) = (is_empty id ≡ true) ⊎ (is_valid_uuid id ≡ true)

abbrev pub IsTimely : FutureDateResult → Type 0
IsTimely valid = Unit
IsTimely empty = Unit
IsTimely _ = ⊥

abbrev pub AreShortNotes : Option Text → Type 0
AreShortNotes none = Unit
AreShortNotes (some notes) = length notes ≤ 1000

-- What is printed: a number of copies in its bounds, and a member of each list of options.
pub record IsPrintable (p : PrintData) : Type 0 where
  pub copies_from : 1 ≤ p.copies
  pub copies_to : p.copies ≤ 10000
  pub color : is_option_value p.color_mode print_color_mode_options ≡ true
  pub paper : is_option_value p.paper_size print_paper_size_options ≡ true
  pub sided : is_option_value p.sides print_sides_options ≡ true
  pub noted : AreShortNotes p.notes

abbrev pub FitsWorkflow : WorkflowType → CreatePedidoData → Type 0
FitsWorkflow encargo d =
    (d.print_data ≡ none) × (1 ≤ length d.description) × (length d.description ≤ 3000)
FitsWorkflow impresion d = (p : PrintData) × (d.print_data ≡ some p) × IsPrintable p

pub record IsOrder (d : CreatePedidoData) (service : PedidoResolvedService) (today : Text)
    (total : TotalAmountResult) : Type 0 where
  pub service_named : d.service_id ≡ service.id
  pub same_workflow : d.workflow_type ≡ service.workflow_type
  pub client : IsClientOrNone d.cliente_id
  pub titled : 1 ≤ length d.title
  pub short_title : length d.title ≤ 160
  pub prioritised : is_pedido_prioridad d.priority ≡ true
  pub priced : total ≡ accepted d.total_amount
  pub timely : IsTimely (validate_optional_future_date d.estimated_delivery_date today)
  pub fits : FitsWorkflow service.workflow_type d

cliente_errors-none : (id : Option Text) → cliente_errors id ≡ [] → IsClientOrNone id
unfolding cliente_errors
cliente_errors-none none h = tt
cliente_errors-none (some id) h = ground arith

delivery_errors-none :
    (date : Option Text) (today : Text)
    → delivery_errors date today ≡ []
    → IsTimely (validate_optional_future_date date today)
unfolding delivery_errors
delivery_errors-none date today h = ground arith

round_double_pos : (n : ℕ) → 1 ≤ n → 1 ≤ round_double n
round_double_pos n h = elim (Bool-cases (ltb n 9007199254740992)) [
  | inl small ↦ rw (round_double_exact n (ltb→lt n 9007199254740992 small)) h
  | inr large ↦ omega (arith, round_double_large n (ground arith))
]

-- A number of copies in its bounds.
abbrev IsCopies : ℕ → Type 0
IsCopies n = (1 ≤ n) × (n ≤ 10000)

in_range :
    (b : Bool) (v : ℕ)
    → 1 ≤ v
    → is_out_of_range (if b then infinite false else finite false v false) ≡ false
    → IsCopies (whole_of (if b then infinite false else finite false v false))
in_range true v h k = absurd (ground arith)
in_range false v h k = (h, ground arith)

digits_value-le : (acc : ℕ) (s : Text) → acc ≤ digits_value acc s
digits_value-le acc [] = omega arith
digits_value-le acc (c ∷ s) = omega (arith, digits_value-le (acc * 10 + (c - b'0')) s)

positive_value : (s : Text) → is_positive_digits s ≡ true → 1 ≤ digits_value 0 s
positive_value [] h = absurd (ground arith)
positive_value (c ∷ s) h =
    let first : 1 ≤ c - b'0' = ground arith in
    omega (arith, first, digits_value-le (0 * 10 + (c - b'0')) s)

number_in_range :
    (n : ℕ) → 1 ≤ n → is_out_of_range (to_number n) ≡ false → IsCopies (whole_of (to_number n))
unfolding to_number
number_in_range n h k =
    in_range (leb (2 ^ 1024 - 2 ^ 970) n) (round_double n) (round_double_pos n h) k

copies_tests :
    (s : Text)
    → copies_errors s ≡ []
    → (is_positive_digits s ≡ true) × (is_out_of_range (to_number (digits_value 0 s)) ≡ false)
unfolding copies_errors
copies_tests s h = ground arith

copies_errors-none :
    (s : Text) → copies_errors s ≡ [] → IsCopies (whole_of (to_number (digits_value 0 s)))
copies_errors-none s h =
    let (digits, range) = copies_tests s h in
    number_in_range (digits_value 0 s) (positive_value s digits) range

option_errors-none :
    (field : PedidoField) (message s : Text) (options : List (Text × Text))
    → option_errors field message s options ≡ []
    → is_option_value s options ≡ true
unfolding option_errors
option_errors-none field message s options h = ground arith

notes_errors-none : (notes : Option Text) → notes_errors notes ≡ [] → AreShortNotes notes
unfolding notes_errors
notes_errors-none none h = tt
notes_errors-none (some []) h = omega arith
notes_errors-none (some (c ∷ s)) h = ground arith

encargo_errors-none :
    (values : NormalizedInput)
    → encargo_errors values ≡ []
    → ((1 ≤ length values.title) × (length values.title ≤ 160))
      × ((1 ≤ length values.description) × (length values.description ≤ 3000))
unfolding encargo_errors
encargo_errors-none values h =
    let missing_title = codes "El título del trabajo es obligatorio." in
    let missing_description = codes "La descripción es obligatoria." in
    let (a, b) =
      (append-none (required_errors title 160 missing_title long_title values.title) (
          required_errors description 3000 missing_description long_description
            values.description)).0
        h in
    (
      (required_errors_iff title 160 missing_title long_title values.title).0 a,
      (required_errors_iff description 3000 missing_description long_description
            values.description).0
          b,
    )

abbrev title_errors : Text → FieldErrors
title_errors s = if ltb 160 (length s) then error_on title long_title else []

title_errors-none : (s : Text) → title_errors s ≡ [] → length s ≤ 160
title_errors-none s h = ground arith

impresion_errors-none :
    (values : NormalizedInput)
    → impresion_errors values ≡ []
    → (length values.title ≤ 160) × IsPrintable (print_data_of values)
unfolding impresion_errors print_data_of
impresion_errors-none values h =
    let color = codes "Selecciona el modo de color." in
    let paper = codes "Selecciona el tamaño de papel." in
    let sides = codes "Selecciona si será a una cara o doble cara." in
    let (a, b, c, d, e, f) =
      six-none (title_errors values.title) (copies_errors values.copies)
        (option_errors print_color_mode color values.color_mode print_color_mode_options)
        (option_errors print_paper_size paper values.paper_size print_paper_size_options)
        (option_errors print_sides sides values.sides print_sides_options)
        (notes_errors values.notes) h in
    let (from, to) = copies_errors-none values.copies b in
    (
      title_errors-none values.title a,
      record {
        copies_from = from;
        copies_to = to;
        color =
            option_errors-none print_color_mode color values.color_mode print_color_mode_options c;
        paper =
            option_errors-none print_paper_size paper values.paper_size print_paper_size_options d;
        sided = option_errors-none print_sides sides values.sides print_sides_options e;
        noted = notes_errors-none values.notes f;
      },
    )

default_title :
    (s : Text)
    → length s ≤ 160
    → (1 ≤ length (or_default_title s)) × (length (or_default_title s) ≤ 160)
default_title [] h = (omega arith, omega arith)
default_title (c ∷ s) h = (omega arith, h)

-- The parts of an order that every workflow has.
abbrev Common : CreatePedidoInput → Text → Type 0
Common input today =
    let values = normalize_input input in
    let total = validate_pedido_total_amount input.total_amount in
    IsClientOrNone values.cliente_id
    × (is_pedido_prioridad values.priority ≡ true)
    × (total ≡ accepted (amount_or_zero total))
    × IsTimely (validate_optional_future_date values.estimated_delivery_date today)

create_errors-none :
    (input : CreatePedidoInput) (workflow : WorkflowType) (today : Text)
    → create_errors input workflow today ≡ []
    → Common input today × (workflow_errors workflow (normalize_input input) ≡ [])
unfolding create_errors
create_errors-none input workflow today h =
    let values = normalize_input input in
    let total = validate_pedido_total_amount input.total_amount in
    let (_, a, b, c, d, e) =
      six-none [] (cliente_errors values.cliente_id) (priority_errors values.priority)
        (amount_errors total) (delivery_errors values.estimated_delivery_date today)
        (workflow_errors workflow values) h in
    (
      (
        cliente_errors-none values.cliente_id a,
        (priority_errors_iff values.priority).0 b,
        (amount_errors_iff total).0 c,
        delivery_errors-none values.estimated_delivery_date today d,
      ),
      e,
    )

create_data-IsOrder :
    (input : CreatePedidoInput) (id name today : Text) (workflow : WorkflowType)
    → Common input today
    → workflow_errors workflow (normalize_input input) ≡ []
    → let service : PedidoResolvedService = record {
      id = id;
      name = name;
      workflow_type = workflow;
    } in
      IsOrder
        (create_data input service)
        service
        today
        (validate_pedido_total_amount input.total_amount)
unfolding create_data workflow_errors
create_data-IsOrder input id name today encargo (client, prioritised, priced, timely) h =
    let ((from, to), (described, bounded)) = encargo_errors-none (normalize_input input) h in
    record {
      service_named = refl;
      same_workflow = refl;
      client = client;
      titled = from;
      short_title = to;
      prioritised = prioritised;
      priced = priced;
      timely = timely;
      fits = (refl, described, bounded);
    }
create_data-IsOrder input id name today impresion (client, prioritised, priced, timely) h =
    let values = normalize_input input in
    let (short, printable) = impresion_errors-none values h in
    let (from, to) = default_title values.title short in
    record {
      service_named = refl;
      same_workflow = refl;
      client = client;
      titled = from;
      short_title = to;
      prioritised = prioritised;
      priced = priced;
      timely = timely;
      fits = (print_data_of values, refl, printable);
    }

-- An order that is accepted is one of its service: its title has 1 to 160 units, its priority is one
-- of the list, its total is the amount that was read, its customer is absent or has a well-formed id,
-- and its date is absent or a day from today on. Of the workflow with tasks it has a description of
-- 1 to 3000 units; of the one for printing it has 1 to 10000 copies, an option from each list and
-- notes of at most 1000 units.
pub validate_pedido_input-IsOrder :
    (input : CreatePedidoInput) (service : PedidoResolvedService) (today : Text)
    (d : CreatePedidoData)
    → validate_pedido_input input service today ≡ success d
    → IsOrder d service today (validate_pedido_total_amount input.total_amount)
unfolding validate_pedido_input
validate_pedido_input-IsOrder input service today d h =
    let (same, clear) =
      no_errors (create_errors input service.workflow_type today) (create_data input service) d h in
    let (common, rest) = create_errors-none input service.workflow_type today clear in
    rw same
      (create_data-IsOrder input service.id service.name today service.workflow_type common rest)
