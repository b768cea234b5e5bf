-- ===== src/Pedidos/UpdatePayment/EndToEnd.antt =====
-- The service that records a payment, over the database: a client whose store holds the orders and
-- their payments and whose call is `actualizar_pago_pedido`.
use godel_design.Prelude.{
  ℕ, List, [], ◌∷◌, ◌++◌, ◌+◌, ◌≤◌, ◌<◌, Bool, true, false, ◌||◌, ltb, if◌then◌else◌, Option, some,
  none, ◌≡◌, ◌⊎◌, refl, arith, inl, inr,
}
use godel_design.JsText.{Text, codes, trim, text_eq, text_eq_refl}
use godel_design.Validators.Uuid.{is_valid_uuid}
use godel_design.Permissions.{is_admin, is_supervisor}
use godel_design.Backend.{Caller, Response, answer, error, Profile}
use godel_design.Pedidos.Payments.{
  ParsedPaymentAmount, parsed, refused, parse_payment_amount, get_update_pedido_payment_values,
  PaymentRow, map_updated_pedido_payment,
}
use godel_design.Pedidos.Payments.Grammar.{parse_payment_amount_iff}
use godel_design.Pedidos.PaymentRpc.{
  RpcResult, returned, raised, exception_message, numeric, store_amounts, HistorialEntry, entry_for,
  actualizar_pago_pedido,
}
use godel_design.Pedidos.PaymentRpc.Consistent.{MayPay, actualizar_pago_within}
use godel_design.Pedidos.UpdatePayment.{
  PaymentClient, PaymentValues, ServiceResult, success, failure, validation, pay_result, pay_loaded,
  pay_validated, update_pedido_payment,
}

pub record Store : Type 0 where
  pub caller : Caller
  pub profile : Option Profile
  pub has_pedido : Text → Bool
  pub payments : Text → Option PaymentRow
  pub historial : Text → List HistorialEntry
  pub now : Text

abbrev pub put : (Text → Option PaymentRow) → Text → PaymentRow → Text → Option PaymentRow
put payments id row k = if text_eq k id then some row else payments k

-- An entry is added behind those of the order.
abbrev pub note : (Text → List HistorialEntry) → Text → HistorialEntry → Text → List HistorialEntry
note historial id entry k = if text_eq k id then historial k ++ (entry ∷ []) else historial k

abbrev paid : Store → Text → RpcResult → Store × Response (Option PaymentRow)
paid w id (returned row entry) = (
  record w { payments = put w.payments id row; historial = note w.historial id entry },
  answer (some row),
)
paid w id (raised e) = (w, error (some (exception_message e)))

abbrev pub database_client : PaymentClient Store
database_client = record {
  current_profile = λ w. w.profile;
  find_pedido = λ w id. answer (if w.has_pedido id then some id else none);
  find_payment = λ w id. answer (w.payments id);
  pay = λ w id cash transfer. paid w id (
      actualizar_pago_pedido w.caller w.now (w.has_pedido id) (w.payments id) (some (numeric cash))
        (some (numeric transfer)));
}

-- The order and its payment are there under a well-formed id, for an administrator or supervisor.
pub record CanPay (w : Store) (id : Text) (row : PaymentRow) : Type 0 where
  pub profile : Profile
  pub well_formed : is_valid_uuid (trim id) ≡ true
  pub signed_in : w.profile ≡ some profile
  pub permitted : (is_admin profile.role || is_supervisor profile.role) ≡ true
  pub may_pay : MayPay w.caller
  pub order_stored : w.has_pedido (trim id) ≡ true
  pub stored : w.payments (trim id) ≡ some row

-- The two amounts are read, and their sum is within the total.
pub record Payable (row : PaymentRow) (cash transfer : ParsedPaymentAmount) : Type 0 where
  pub cash_cents : ℕ
  pub transfer_cents : ℕ
  pub cash_read : cash ≡ parsed cash_cents
  pub transfer_read : transfer ≡ parsed transfer_cents
  pub within : cash_cents + transfer_cents ≤ row.total_amount

abbrev IsValidationFailure : ServiceResult → Type 0
IsValidationFailure (failure validation message errors values) = Unit
IsValidationFailure _ = ⊥

-- The payment was stored, and is reported as it was stored.
abbrev pub Recorded :
    Store → Text → (actor : Text) → PaymentRow → ℕ → ℕ → Store × ServiceResult → Type 0
Recorded w id actor row cash transfer (w', result) =
    (result ≡ success (map_updated_pedido_payment (store_amounts w.now cash transfer row)))
    × (w'.payments id ≡ some (store_amounts w.now cash transfer row))
    × (w'.historial id
        ≡ w.historial id ++ (entry_for actor row (store_amounts w.now cash transfer row) ∷ []))

-- Nothing was stored, and the amounts are blamed.
abbrev pub Refused : Store → Store × ServiceResult → Type 0
Refused w (w', result) = (w' ≡ w) × IsValidationFailure result

abbrev Limited : ParsedPaymentAmount → Type 0
Limited (parsed n) = n ≤ 999999999999
Limited (refused e) = Unit

abbrev Outcome :
    Store
    → Text
    → (actor : Text) → PaymentRow
    → ParsedPaymentAmount
    → ParsedPaymentAmount
    → Store × ServiceResult
    → Type 0
Outcome w id actor row cash transfer result =
    ((p : Payable row cash transfer) × Recorded w id actor row p.cash_cents p.transfer_cents result)
    ⊎ ((Payable row cash transfer → ⊥) × Refused w result)

limited : (value label : Text) → Limited (parse_payment_amount value label)
limited value label = go (parse_payment_amount value label) refl
  where
    go : (p : ParsedPaymentAmount) → parse_payment_amount value label ≡ p → Limited p
    go (parsed n) e = ((parse_payment_amount_iff value label n).0 e).bounded
    go (refused m) e = tt

-- A client that lets the order be paid, whatever the amounts are.
pay_run :
    (w : Store) (id : Text) (row : PaymentRow) (values : PaymentValues) (cash transfer : ℕ)
    (can : CanPay w id row)
    → pay_validated database_client w (trim id) values (parsed cash) (parsed transfer)
      ≡ pay_loaded database_client w
          (trim id)
          values
          (parsed cash)
          (parsed transfer)
          (answer (some row))
unfolding pay_validated
pay_run w id row values cash transfer can = ground arith

pays :
    (w : Store) (id : Text) (row : PaymentRow) (values : PaymentValues) (cash transfer : ℕ)
    (can : CanPay w id row)
    → cash ≤ 999999999999
    → transfer ≤ 999999999999
    → cash + transfer ≤ row.total_amount
    → Recorded w (trim id) can.may_pay.actor row cash transfer (
        pay_loaded database_client w
          (trim id)
          values
          (parsed cash)
          (parsed transfer)
          (answer (some row)))
unfolding pay_loaded pay_result
pays w id row values cash transfer can lc lt h =
    let over : ltb row.total_amount (cash + transfer) ≡ false = ground arith in
    let stored = actualizar_pago_within w.caller w.now row cash transfer can.may_pay lc lt h in
    rw (over, can.order_stored, can.stored, stored)
      (refl, rw (text_eq_refl (trim id)) refl, rw (text_eq_refl (trim id)) refl)

not-Payable :
    (row : PaymentRow) (cash transfer : ℕ)
    → row.total_amount < cash + transfer
    → Payable row (parsed cash) (parsed transfer)
    → ⊥
not-Payable row cash transfer h p = ground arith

validated :
    (w : Store) (id : Text) (row : PaymentRow) (values : PaymentValues)
    (cash transfer : ParsedPaymentAmount) (can : CanPay w id row)
    → Limited cash
    → Limited transfer
    → Outcome w
        (trim id)
        can.may_pay.actor
        row
        cash
        transfer
        (pay_validated database_client w (trim id) values cash transfer)
unfolding pay_validated
validated w id row values (refused m) transfer can lc lt =
    inr (λ p. absurd (ground arith), (refl, tt))
validated w id row values (parsed c) (refused m) can lc lt =
    inr (λ p. absurd (ground arith), (refl, tt))
validated w id row values (parsed c) (parsed t) can lc lt =
    rw (pay_run w id row values c t can) (split (ltb row.total_amount (c + t)) refl)
  where
    split :
        (b : Bool)
        → ltb row.total_amount (c + t) ≡ b
        → Outcome w (trim id) can.may_pay.actor row (parsed c) (parsed t) (
            pay_loaded database_client w (trim id) values (parsed c) (parsed t) (answer (some row)))
    split true e = rw e (inr (not-Payable row c t (ground arith), (refl, tt)))
    split false e =
        let within : c + t ≤ row.total_amount = ground arith in
        inl (
          record {
            cash_cents = c;
            transfer_cents = t;
            cash_read = refl;
            transfer_read = refl;
            within = within;
          },
          pays w id row values c t can lc lt within,
        )

-- For an administrator or supervisor and an order that has a payment, the service records the two
-- amounts exactly when both are read and their sum is within the total of the order: the stored row
-- has them, the answer describes it, and the history of the order has one entry more, of the caller.
-- Otherwise nothing changes and the failure is one of validation.
pub update_payment_outcome :
    (w : Store) (id cash_input transfer_input : Text) (row : PaymentRow) (can : CanPay w id row)
    → let cash = parse_payment_amount (trim cash_input) (codes "en efectivo") in
      let transfer = parse_payment_amount (trim transfer_input) (codes "por transferencia") in
      let result = update_pedido_payment database_client w id cash_input transfer_input in
      ((p : Payable row cash transfer) × Recorded w
          (trim id)
          can.may_pay.actor
          row
          p.cash_cents
          p.transfer_cents
          result)
      ⊎ ((Payable row cash transfer → ⊥) × Refused w result)
unfolding update_pedido_payment get_update_pedido_payment_values
update_payment_outcome w id cash_input transfer_input row can =
    let cash = trim cash_input in
    let transfer = trim transfer_input in
    rw can.well_formed (
      validated w id row (record { paid_cash_amount = cash; paid_transfer_amount = transfer })
        (parse_payment_amount cash (codes "en efectivo"))
        (parse_payment_amount transfer (codes "por transferencia")) can
        (limited cash (codes "en efectivo")) (limited transfer (codes "por transferencia")))
