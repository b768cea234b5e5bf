-- ===== src/Pedidos/UpdatePayment.antt =====
-- src/lib/pedidos/update-pedido-payment.ts: the service that records the payment of an order, over
-- the client of the database. What is logged is left out.
pub mod EndToEnd
use godel_design.Prelude.{
  ℕ, List, Bool, true, false, not, ◌&&◌, ◌||◌, if◌then◌else◌, Option, some, none,
}
use godel_design.JsText.{Text, codes, trim, text_eq}
use godel_design.Validators.Uuid.{is_valid_uuid}
use godel_design.Permissions.{is_admin, is_supervisor}
use godel_design.Backend.{Response, answer, error, threw, Profile}
use godel_design.Pedidos.Payments.{
  ParsedPaymentAmount, PaymentValues, get_update_pedido_payment_values, parse_payment_amount,
  PaymentFieldErrors, get_payment_amount_field_errors, has_payment_field_errors,
  is_payment_total_exceeded, get_payment_total_exceeded_field_errors, amount_or_zero,
  generic_payment_update_error, get_safe_rpc_payment_error_message, PaymentRow,
  UpdatedPedidoPayment, map_updated_pedido_payment,
}

pub record PaymentClient (World : Type 0) : Type 0 where
  pub current_profile : World → Option Profile
  -- `from("pedidos").select("id").eq("id", …).maybeSingle()`.
  pub find_pedido : World → Text → Response (Option Text)
  -- `from("pedido_pagos").select(…).eq("pedido_id", …).maybeSingle()`.
  pub find_payment : World → Text → Response (Option PaymentRow)
  -- `updatePedidoPaymentRpc(supabase, …)` with the amounts for cash and transfers.
  pub pay : World → Text → ℕ → ℕ → World × Response (Option PaymentRow)

pub data Reason : Type 0 where
  unauthorized forbidden invalid_id not_found missing_payment validation unexpected : Reason

-- A failure carries the values that were sent beside its message and the errors of the fields.
pub data ServiceResult : Type 0 where
  success : UpdatedPedidoPayment → ServiceResult
  failure : Reason → (message : Text) → PaymentFieldErrors → PaymentValues → ServiceResult

abbrev no_errors : PaymentFieldErrors
no_errors = record { pedido_id = none; paid_cash_amount = none; paid_transfer_amount = none }

abbrev missing_pedido : Text
missing_pedido = codes "El pedido solicitado no existe."

abbrev missing_pedido_errors : PaymentFieldErrors
missing_pedido_errors = record {
  pedido_id = some missing_pedido;
  paid_cash_amount = none;
  paid_transfer_amount = none;
}

abbrev both_amounts : Text → PaymentFieldErrors
both_amounts message = record {
  pedido_id = none;
  paid_cash_amount = some message;
  paid_transfer_amount = some message;
}

-- A call of the database that failed, or gave no row.
unfoldable pub rpc_failure : Option Text → PaymentValues → ServiceResult
unfolding get_safe_rpc_payment_error_message text_eq
rpc_failure reported values =
    let message = get_safe_rpc_payment_error_message reported in
    if not (text_eq message generic_payment_update_error)
    then failure validation message (both_amounts message) values
    else failure unexpected generic_payment_update_error no_errors values

unfoldable pub pay_result : PaymentValues → Response (Option PaymentRow) → ServiceResult
unfolding rpc_failure
pay_result values (answer none) = rpc_failure none values
pay_result values (answer (some row)) = success (map_updated_pedido_payment row)
pay_result values (error message) = rpc_failure message values
pay_result values threw = failure unexpected generic_payment_update_error no_errors values

module _ {World : Type 0} (client : PaymentClient World) where
  open client use {current_profile, find_pedido, find_payment, pay}

  abbrev stop : World → Reason → Text → PaymentFieldErrors → PaymentValues → World × ServiceResult
  stop w reason message errors values = (w, failure reason message errors values)

  -- From the query of the payment on; the call of the database is the only step that changes it.
  pay_loaded :
      World
      → Text
      → PaymentValues
      → ParsedPaymentAmount
      → ParsedPaymentAmount
      → Response (Option PaymentRow)
      → World × ServiceResult
  unfolding pay_result
  pay_loaded w id values cash transfer (error _) =
      stop w unexpected generic_payment_update_error no_errors values
  pay_loaded w id values cash transfer threw =
      stop w unexpected generic_payment_update_error no_errors values
  pay_loaded w id values cash transfer (answer none) =
      stop w missing_payment (codes "El pedido no tiene resumen financiero registrado.") no_errors
        values
  pay_loaded w id values cash transfer (answer (some row)) =
      if is_payment_total_exceeded cash transfer row.total_amount
      then stop w validation (codes "El total pagado no puede superar el total del pedido.")
          get_payment_total_exceeded_field_errors values
      else let (w', response) = pay w id (amount_or_zero cash) (amount_or_zero transfer) in
        (w', pay_result values response)

  pay_found :
      World
      → Text
      → PaymentValues
      → ParsedPaymentAmount
      → ParsedPaymentAmount
      → Response (Option Text)
      → World × ServiceResult
  unfolding pay_loaded
  pay_found w id values cash transfer (error _) =
      stop w unexpected generic_payment_update_error no_errors values
  pay_found w id values cash transfer threw =
      stop w unexpected generic_payment_update_error no_errors values
  pay_found w id values cash transfer (answer none) =
      stop w not_found (codes "El pedido solicitado no existe o no tienes acceso.") no_errors values
  pay_found w id values cash transfer (answer (some _)) =
      pay_loaded w id values cash transfer (find_payment w id)

  pay_as :
      World
      → Text
      → PaymentValues
      → ParsedPaymentAmount
      → ParsedPaymentAmount
      → Option Profile
      → World × ServiceResult
  unfolding pay_found
  pay_as w id values cash transfer none =
      stop w unauthorized (codes "Debes iniciar sesión con un usuario interno activo.") no_errors
        values
  pay_as w id values cash transfer (some profile) =
      if not (is_admin profile.role) && not (is_supervisor profile.role)
      then stop w forbidden (codes "No tienes permiso para actualizar pagos de pedidos.") no_errors
          values
      else pay_found w id values cash transfer (find_pedido w id)

  pay_validated :
      World
      → Text
      → PaymentValues
      → ParsedPaymentAmount
      → ParsedPaymentAmount
      → World × ServiceResult
  unfolding pay_as
  pay_validated w id values cash transfer =
      let errors = get_payment_amount_field_errors cash transfer in
      if has_payment_field_errors errors
      then stop w validation (codes "Revisa los montos del pago.") errors values
      else pay_as w id values cash transfer (current_profile w)

  unfoldable pub update_pedido_payment :
      World
      → (pedido_id : Text) → (paid_cash_amount : Text) → (paid_transfer_amount : Text)
      → World × ServiceResult
  unfolding pay_validated trim is_valid_uuid parse_payment_amount get_update_pedido_payment_values
  update_pedido_payment w pedido_id cash_input transfer_input =
      let id = trim pedido_id in
      let values = get_update_pedido_payment_values cash_input transfer_input in
      if not (is_valid_uuid id)
      then stop w invalid_id missing_pedido missing_pedido_errors values
      else pay_validated w id values
          (parse_payment_amount values.paid_cash_amount (codes "en efectivo"))
          (parse_payment_amount values.paid_transfer_amount (codes "por transferencia"))
