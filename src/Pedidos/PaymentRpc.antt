-- ===== src/Pedidos/PaymentRpc.antt =====
-- The payment of an order in the database: `actualizar_pago_pedido` of
-- supabase/migrations/20260811131826_03_business_rpcs.sql, and the trigger that sets the state of
-- the payment, of 20260811131824_01_core_schema.sql. Amounts are in hundredths; an argument of the
-- function may have more decimals, a sign, or be absent. The row locks are left out.
pub mod Consistent
use godel_design.Prelude.{
  ℕ, ◌+◌, List, [], ◌∷◌, ◌++◌, Bool, true, false, not, ◌&&◌, ◌||◌, ltb, ◌==◌, if◌then◌else◌, Option,
  some, none,
}
use godel_design.Database.{AppRole, PedidoPagoEstado, sin_pago, parcial, pagado}
use godel_design.Backend.{Caller, is_admin_or_supervisor}
use godel_design.JsText.{Text, codes}
use godel_design.Pedidos.Payments.{PaymentRow, max_payment_cents}

-- A `numeric`: its sign, its whole hundredths, and whether more decimals follow.
pub record Numeric : Type 0 where
  pub is_negative : Bool
  pub cents : ℕ
  pub has_more : Bool

abbrev pub numeric : ℕ → Numeric
numeric n = record { is_negative = false; cents = n; has_more = false }

pub data RaisedException : Type 0 where
  not_signed_in not_allowed pedido_not_found payment_not_found : RaisedException
  cash_required transfer_required cash_negative transfer_negative : RaisedException
  cash_decimals transfer_decimals cash_over_limit transfer_over_limit : RaisedException
  over_total : RaisedException

unfoldable pub exception_message : RaisedException → Text
exception_message not_signed_in = codes "Debes iniciar sesion con un usuario interno activo"
exception_message not_allowed = codes "No tienes permiso para actualizar pagos de pedidos"
exception_message pedido_not_found = codes "El pedido solicitado no existe"
exception_message payment_not_found = codes "El pedido no tiene resumen financiero registrado"
exception_message cash_required = codes "El monto pagado en efectivo es obligatorio"
exception_message transfer_required = codes "El monto pagado por transferencia es obligatorio"
exception_message cash_negative = codes "El monto pagado en efectivo no puede ser negativo"
exception_message transfer_negative =
    codes "El monto pagado por transferencia no puede ser negativo"
exception_message cash_decimals =
    codes "El monto pagado en efectivo no puede tener mas de 2 decimales"
exception_message transfer_decimals =
    codes "El monto pagado por transferencia no puede tener mas de 2 decimales"
exception_message cash_over_limit = codes "El monto pagado en efectivo supera el maximo permitido"
exception_message transfer_over_limit =
    codes "El monto pagado por transferencia supera el maximo permitido"
exception_message over_total = codes "El total pagado no puede superar el total del pedido"

-- The entry in `pedido_historial`: what was paid before and after, and the row that was stored, whose
-- amounts and state are the metadata of the entry.
pub record HistorialEntry : Type 0 where
  pub actor_id : Text
  pub old_value : ℕ
  pub new_value : ℕ
  pub stored : PaymentRow

abbrev pub entry_for : Text → (old new : PaymentRow) → HistorialEntry
entry_for actor old new = record {
  actor_id = actor;
  old_value = old.paid_cash_amount + old.paid_transfer_amount;
  new_value = new.paid_cash_amount + new.paid_transfer_amount;
  stored = new;
}

pub data RpcResult : Type 0 where
  returned : PaymentRow → HistorialEntry → RpcResult
  raised : RaisedException → RpcResult

unfoldable pub calculate_pedido_payment_status : ℕ → ℕ → ℕ → PedidoPagoEstado
calculate_pedido_payment_status total cash transfer =
    if total == 0
    then pagado
    else if cash + transfer == 0
    then sin_pago
    else if ltb (cash + transfer) total
    then parcial
    else pagado

abbrev kept_date : PedidoPagoEstado → Option Text → Text → Option Text
kept_date pagado none now = some now
kept_date pagado (some date) now = some date
kept_date _ date now = none

-- The trigger on a row that is about to be stored.
unfoldable pub set_pedido_payment_status : Text → PaymentRow → PaymentRow
unfolding calculate_pedido_payment_status
set_pedido_payment_status now row =
    let state =
      calculate_pedido_payment_status row.total_amount row.paid_cash_amount
        row.paid_transfer_amount in
    record row { payment_status = state; paid_at = kept_date state row.paid_at now }

-- The update of the row, with its trigger.
unfoldable pub store_amounts : Text → ℕ → ℕ → PaymentRow → PaymentRow
unfolding set_pedido_payment_status
store_amounts now cash transfer row =
    set_pedido_payment_status now
      (record row { paid_cash_amount = cash; paid_transfer_amount = transfer })

-- The tests of the two amounts, given, in the order of the source.
amounts_given : Text → Text → PaymentRow → Numeric → Numeric → RpcResult
unfolding store_amounts
amounts_given actor now row cash transfer =
    if cash.is_negative
    then raised cash_negative
    else if transfer.is_negative
    then raised transfer_negative
    else if cash.has_more
    then raised cash_decimals
    else if transfer.has_more
    then raised transfer_decimals
    else if ltb max_payment_cents cash.cents
    then raised cash_over_limit
    else if ltb max_payment_cents transfer.cents
    then raised transfer_over_limit
    else if ltb row.total_amount (cash.cents + transfer.cents)
    then raised over_total
    else let stored = store_amounts now cash.cents transfer.cents row in
      returned stored (entry_for actor row stored)

pay_found : Text → Text → PaymentRow → Option Numeric → Option Numeric → RpcResult
unfolding amounts_given
pay_found actor now row none transfer = raised cash_required
pay_found actor now row (some cash) none = raised transfer_required
pay_found actor now row (some cash) (some transfer) = amounts_given actor now row cash transfer

-- The order and its payment are those that were found under the id.
unfoldable pub actualizar_pago_pedido :
    Caller
    → (now : Text) → (found : Bool) → Option PaymentRow
    → Option Numeric
    → Option Numeric
    → RpcResult
unfolding pay_found
actualizar_pago_pedido caller now found payment cash transfer = elim caller.uid [
  | none ↦ raised not_signed_in
  | some actor ↦
      if not caller.is_active
      then raised not_signed_in
      else if not (is_admin_or_supervisor caller.role)
      then raised not_allowed
      else if not found
      then raised pedido_not_found
      else elim payment [
        | none ↦ raised payment_not_found
        | some row ↦ pay_found actor now row cash transfer
      ]
]
