-- ===== src/Tests/Payments.antt =====
-- Amounts and the payment of an order.
use godel_design.Prelude.{[], true, some, none, ◌≡◌, ◌⊎◌, ◌↔◌, refl}
use godel_design.Database.{supervisor, sin_pago, parcial}
use godel_design.JsText.{Text, codes, trim}
use godel_design.Validators.Uuid.{is_valid_uuid}
use godel_design.Pedidos.Payments.{parsed, refused, parse_payment_amount, PaymentRow}
use godel_design.Pedidos.Payments.Grammar.{Spells, parse_payment_amount_iff}
use godel_design.Backend.{Caller}
use godel_design.Pedidos.PaymentRpc.{
  numeric, returned, HistorialEntry, entry_for, store_amounts, actualizar_pago_pedido,
}
use godel_design.Pedidos.PaymentRpc.Consistent.{IsConsistent, actualizar_pago-IsConsistent}
use godel_design.Pedidos.UpdatePayment.{update_pedido_payment}
use godel_design.Pedidos.UpdatePayment.EndToEnd.{
  Store, database_client, CanPay, Payable, Recorded, Refused, update_payment_outcome,
}

reads : parse_payment_amount (codes " 12.5 ") (codes "en efectivo") ≡ parsed 1250
unfolding parse_payment_amount
reads = refl

refuses :
    parse_payment_amount (codes "1.234") (codes "en efectivo")
    ≡ refused (codes "El monto pagado en efectivo no puede tener más de 2 decimales.")
unfolding parse_payment_amount
refuses = refl

parse_payment_amount_iff_example :
    (parse_payment_amount (codes " 12.5 ") (codes "en efectivo") ≡ parsed 1250)
    ↔ Spells (trim (codes " 12.5 ")) 1250
parse_payment_amount_iff_example =
    parse_payment_amount_iff (codes " 12.5 ") (codes "en efectivo") 1250

abbrev a_caller : Caller
a_caller = record { uid = some (codes "u1"); is_active = true; role = supervisor }

abbrev unpaid : PaymentRow
unpaid = record {
  total_amount = 5000;
  paid_cash_amount = 0;
  paid_transfer_amount = 0;
  payment_status = sin_pago;
  paid_at = none;
}

abbrev in_part : PaymentRow
in_part = record {
  total_amount = 5000;
  paid_cash_amount = 1250;
  paid_transfer_amount = 100;
  payment_status = parcial;
  paid_at = none;
}

abbrev noted : HistorialEntry
noted = record { actor_id = codes "u1"; old_value = 0; new_value = 1350; stored = in_part }

paid_in_part :
    actualizar_pago_pedido a_caller
      (codes "2026-08-11")
      true
      (some unpaid)
      (some (numeric 1250))
      (some (numeric 100))
    ≡ returned in_part noted
unfolding actualizar_pago_pedido store_amounts
paid_in_part = refl

actualizar_pago-IsConsistent_example :
    IsConsistent in_part
    × ((old : PaymentRow) × (some unpaid ≡ some old)
        × (5000 ≡ old.total_amount)
        × ((actor : Text) × (some (codes "u1") ≡ some actor)
            × (noted ≡ entry_for actor old in_part)))
actualizar_pago-IsConsistent_example =
    actualizar_pago-IsConsistent a_caller (codes "2026-08-11") true (some unpaid)
      (some (numeric 1250)) (some (numeric 100)) in_part noted paid_in_part

abbrev order_id : Text
order_id = codes "3f2504e0-4f89-41d3-9a0c-0305e82c3301"

abbrev a_store : Store
a_store = record {
  caller = a_caller;
  profile = some (record { id = codes "u1"; role = supervisor });
  has_pedido = λ id. true;
  payments = λ id. some unpaid;
  historial = λ id. [];
  now = codes "2026-08-11";
}

can_pay : CanPay a_store order_id unpaid
unfolding is_valid_uuid trim
can_pay = record {
  profile = record { id = codes "u1"; role = supervisor };
  well_formed = refl;
  signed_in = refl;
  permitted = refl;
  may_pay = record { actor = codes "u1"; known = refl; active = refl; allowed = refl };
  order_stored = refl;
  stored = refl;
}

update_payment_outcome_example :
    let cash = parse_payment_amount (trim (codes "12.50")) (codes "en efectivo") in
    let transfer = parse_payment_amount (trim (codes "1")) (codes "por transferencia") in
    let result =
      update_pedido_payment database_client a_store order_id (codes "12.50") (codes "1") in
    ((p : Payable unpaid cash transfer) × Recorded a_store
        (trim order_id)
        can_pay.may_pay.actor
        unpaid
        p.cash_cents
        p.transfer_cents
        result)
    ⊎ ((Payable unpaid cash transfer → ⊥) × Refused a_store result)
update_payment_outcome_example =
    update_payment_outcome a_store order_id (codes "12.50") (codes "1") unpaid can_pay
