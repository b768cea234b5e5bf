-- ===== src/Pedidos/OrderValidation/Updates.antt =====
-- order-validation.ts: what an order can be changed to.
use godel_design.Prelude.{
  ℕ, ◌≤◌, [], ◌∷◌, ◌++◌, true, if◌then◌else◌, is_empty, length, Option, some, none, ◌≡◌, ◌↔◌, ◌⊎◌,
  refl, arith,
}
use godel_design.JsText.{Text, codes}
use godel_design.Validators.Form.{success, failure, has_field_errors}
use godel_design.Validators.Date.{is_valid_iso_date}
use godel_design.Validators.Uuid.{is_valid_uuid}
use godel_design.Pedidos.OrderValidation.{
  PedidoField, FieldErrors, TotalAmountResult, accepted, rejected, UpdatePedidoInput,
  UpdatePedidoData, service_errors, required_errors, priority_errors, amount_errors, date_errors,
  is_pedido_prioridad, validate_pedido_total_amount, update_data, update_errors,
  validate_pedido_update_input, title, description, long_title, long_description, amount_or_zero,
}

abbrev pub IsDateOrNone : Option Text → Type 0
IsDateOrNone none = Unit
IsDateOrNone (some date) = (is_empty date ≡ true) ⊎ (is_valid_iso_date date ≡ true)

-- What the values of a change have to satisfy.
pub record IsAllowed (values : UpdatePedidoData) (total : TotalAmountResult) : Type 0 where
  pub service : is_valid_uuid values.service_id ≡ true
  pub titled : 1 ≤ length values.title
  pub short_title : length values.title ≤ 160
  pub described : 1 ≤ length values.description
  pub short_description : length values.description ≤ 3000
  pub prioritised : is_pedido_prioridad values.priority ≡ true
  pub priced : total ≡ accepted values.total_amount
  pub dated : IsDateOrNone values.estimated_delivery_date

pub append-none : (xs ys : FieldErrors) → (xs ++ ys ≡ []) ↔ ((xs ≡ []) × (ys ≡ []))
append-none [] ys = ground arith
append-none (x ∷ xs) ys = ground arith

service_errors_iff : (s : Text) → (service_errors s ≡ []) ↔ (is_valid_uuid s ≡ true)
unfolding service_errors is_valid_uuid
service_errors_iff [] = ground arith
service_errors_iff (c ∷ s) = ground arith

pub required_errors_iff :
    (field : PedidoField) (limit : ℕ) (missing long s : Text)
    → (required_errors field limit missing long s ≡ []) ↔ ((1 ≤ length s) × (length s ≤ limit))
required_errors_iff field limit missing long [] = ground arith
required_errors_iff field limit missing long (c ∷ s) = ground arith

pub priority_errors_iff : (s : Text) → (priority_errors s ≡ []) ↔ (is_pedido_prioridad s ≡ true)
unfolding priority_errors
priority_errors_iff s = ground arith

date_errors_iff : (d : Option Text) → (date_errors d ≡ []) ↔ IsDateOrNone d
unfolding date_errors
date_errors_iff none = ground arith
date_errors_iff (some date) = ground arith

pub amount_errors_iff :
    (total : TotalAmountResult)
    → (amount_errors total ≡ []) ↔ (total ≡ accepted (amount_or_zero total))
amount_errors_iff (accepted n) = ground arith
amount_errors_iff (rejected e) = ground arith

pub six-none :
    (a b c d e f : FieldErrors)
    → a ++ b ++ c ++ d ++ e ++ f ≡ []
    → (a ≡ []) × (b ≡ []) × (c ≡ []) × (d ≡ []) × (e ≡ []) × (f ≡ [])
six-none a b c d e f h =
    let (h1, hf) = (append-none (a ++ b ++ c ++ d ++ e) f).0 h in
    let (h2, he) = (append-none (a ++ b ++ c ++ d) e).0 h1 in
    let (h3, hd) = (append-none (a ++ b ++ c) d).0 h2 in
    let (h4, hc) = (append-none (a ++ b) c).0 h3 in
    let (ha, hb) = (append-none a b).0 h4 in (ha, hb, hc, hd, he, hf)

-- All six parts of the errors are empty.
abbrev Clear : UpdatePedidoInput → Type 0
Clear input =
    let values = update_data input in
    IsAllowed values (validate_pedido_total_amount input.total_amount)

update_errors_iff : (input : UpdatePedidoInput) → (update_errors input ≡ []) ↔ Clear input
unfolding update_errors update_data
update_errors_iff input = (sound, complete)
  where
    values : UpdatePedidoData
    values = update_data input

    total : TotalAmountResult
    total = validate_pedido_total_amount input.total_amount

    missing_title : Text
    missing_title = codes "El título del pedido es obligatorio."

    missing_description : Text
    missing_description = codes "La descripción del pedido es obligatoria."

    sound : update_errors input ≡ [] → Clear input
    sound h =
        let (a, b, c, d, e, f) =
          six-none (service_errors values.service_id)
            (required_errors title 160 missing_title long_title values.title)
            (required_errors description 3000 missing_description long_description
              values.description)
            (priority_errors values.priority) (amount_errors total)
            (date_errors values.estimated_delivery_date) h in
        let (titled, short_title) =
          (required_errors_iff title 160 missing_title long_title values.title).0 b in
        let (described, short_description) =
          (required_errors_iff description 3000 missing_description long_description
              values.description).0
            c in
        record {
          service = (service_errors_iff values.service_id).0 a;
          titled = titled;
          short_title = short_title;
          described = described;
          short_description = short_description;
          prioritised = (priority_errors_iff values.priority).0 d;
          priced = (amount_errors_iff total).0 e;
          dated = (date_errors_iff values.estimated_delivery_date).0 f;
        }

    complete : Clear input → update_errors input ≡ []
    complete h =
        rw
          (
            (service_errors_iff values.service_id).1 h.service,
            (required_errors_iff title 160 missing_title long_title values.title).1
                (h.titled, h.short_title),
            (required_errors_iff description 3000 missing_description long_description
                  values.description).1
                (h.described, h.short_description),
            (priority_errors_iff values.priority).1 h.prioritised,
            (amount_errors_iff total).1 h.priced,
            (date_errors_iff values.estimated_delivery_date).1 h.dated,
          )
          refl

pub no_errors :
    {A : Type 0} (errors : FieldErrors) (values d : A)
    → (if has_field_errors errors then failure errors else success values) ≡ success d
    → (d ≡ values) × (errors ≡ [])
no_errors [] values d h = (cc, refl)
no_errors (e ∷ errors) values d h = absurd (ground arith)

-- A change of an order is accepted exactly when it names a service by its id, its title has 1 to 160
-- units and its description 1 to 3000, its priority is one of the list, its total is an amount and
-- its date, if there is one, a day; what is accepted are the normalised values.
pub validate_pedido_update_input_iff :
    (input : UpdatePedidoInput) (d : UpdatePedidoData)
    → (validate_pedido_update_input input ≡ success d) ↔ (
        (d ≡ update_data input)
        × IsAllowed (update_data input) (validate_pedido_total_amount input.total_amount))
unfolding validate_pedido_update_input
validate_pedido_update_input_iff input d = (sound, complete)
  where
    sound :
        validate_pedido_update_input input ≡ success d
        → (d ≡ update_data input)
          × IsAllowed (update_data input) (validate_pedido_total_amount input.total_amount)
    sound h =
        let (same, clear) = no_errors (update_errors input) (update_data input) d h in
        (same, (update_errors_iff input).0 clear)

    complete :
        (d ≡ update_data input)
          × IsAllowed (update_data input) (validate_pedido_total_amount input.total_amount)
        → validate_pedido_update_input input ≡ success d
    complete (same, h) = rw ((update_errors_iff input).1 h, same) refl
