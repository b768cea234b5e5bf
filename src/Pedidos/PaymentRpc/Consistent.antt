-- ===== src/Pedidos/PaymentRpc/Consistent.antt =====
-- The constraints of the table `pedido_pagos`, which the function of the database keeps.
use godel_design.Prelude.{
  ℕ, ◌+◌, ◌≤◌, Bool, true, Option, some, none, Option-cases, inl, inr, ◌≡◌, ◌≢◌, ◌↔◌, refl, arith,
}
use godel_design.Database.{sin_pago, pagado}
use godel_design.JsText.{Text}
use godel_design.Pedidos.Payments.{PaymentRow}
use godel_design.Backend.{Caller, is_admin_or_supervisor}
use godel_design.Pedidos.PaymentRpc.{
  Numeric, returned, calculate_pedido_payment_status, set_pedido_payment_status, store_amounts,
  numeric, amounts_given, pay_found, actualizar_pago_pedido, HistorialEntry, entry_for,
}

-- The state of the payment, in words: paid in full, not at all, or in part.
pub record StateFits (row : PaymentRow) : Type 0 where
  pub full :
      (row.payment_status ≡ pagado)
      ↔ (row.paid_cash_amount + row.paid_transfer_amount ≡ row.total_amount)
  pub nothing :
      (row.payment_status ≡ sin_pago)
      ↔ ((row.paid_cash_amount + row.paid_transfer_amount ≡ 0) × (row.total_amount ≢ 0))

-- The row may be stored: no more is paid than the total, the state fits the amounts, and the day of
-- the payment is there exactly when it is complete.
pub record IsConsistent (row : PaymentRow) : Type 0 where
  pub not_over : row.paid_cash_amount + row.paid_transfer_amount ≤ row.total_amount
  pub state : StateFits row
  pub dated : (row.payment_status ≡ pagado) ↔ (row.paid_at ≢ none)

store_amounts-IsConsistent :
    (now : Text) (cash transfer : ℕ) (row : PaymentRow)
    → cash + transfer ≤ row.total_amount
    → IsConsistent (store_amounts now cash transfer row)
unfolding store_amounts set_pedido_payment_status calculate_pedido_payment_status
store_amounts-IsConsistent now cash transfer row h = record {
  not_over = h;
  state = record { full = ground arith; nothing = ground arith };
  dated = ground arith;
}

given_returned :
    (actor now : Text) (old : PaymentRow) (cash transfer : Numeric) (row : PaymentRow)
    (entry : HistorialEntry)
    → amounts_given actor now old cash transfer ≡ returned row entry
    → (cash.cents + transfer.cents ≤ old.total_amount)
      × (row ≡ store_amounts now cash.cents transfer.cents old)
      × (entry ≡ entry_for actor old row)
unfolding amounts_given
given_returned actor now old cash transfer row entry h = ground arith

pay_found_returned :
    (actor now : Text) (old : PaymentRow) (cash transfer : Option Numeric) (row : PaymentRow)
    (entry : HistorialEntry)
    → pay_found actor now old cash transfer ≡ returned row entry
    → IsConsistent row × (row.total_amount ≡ old.total_amount) × (entry ≡ entry_for actor old row)
unfolding pay_found store_amounts set_pedido_payment_status
pay_found_returned actor now old none transfer row entry h = absurd (ground arith)
pay_found_returned actor now old (some cash) none row entry h = absurd (ground arith)
pay_found_returned actor now old (some cash) (some transfer) row entry h =
    let (fits, same, noted) = given_returned actor now old cash transfer row entry h in
    (
      rw same (store_amounts-IsConsistent now cash.cents transfer.cents old fits),
      rw same refl,
      noted,
    )

-- What the database returns is consistent whatever was stored and whatever is asked for, and keeps
-- the total of the order; the entry in the history says who paid, and what was paid before and after.
pub actualizar_pago-IsConsistent :
    (caller : Caller) (now : Text) (found : Bool) (payment : Option PaymentRow)
    (cash transfer : Option Numeric) (row : PaymentRow) (entry : HistorialEntry)
    → actualizar_pago_pedido caller now found payment cash transfer ≡ returned row entry
    → IsConsistent row
      × ((old : PaymentRow) × (payment ≡ some old)
          × (row.total_amount ≡ old.total_amount)
          × ((actor : Text) × (caller.uid ≡ some actor) × (entry ≡ entry_for actor old row)))
unfolding actualizar_pago_pedido
actualizar_pago-IsConsistent caller now found none cash transfer row entry h = absurd (ground arith)
actualizar_pago-IsConsistent caller now found (some old) cash transfer row entry h =
    elim (Option-cases caller.uid) [
      | inl unknown ↦ absurd (ground arith)
      | inr (actor, known) ↦
          let (fits, total, noted) =
            pay_found_returned actor now old cash transfer row entry (ground arith) in
          (fits, (old, refl, total, (actor, known, noted)))
    ]

-- An active administrator or supervisor is signed in.
pub record MayPay (caller : Caller) : Type 0 where
  pub actor : Text
  pub known : caller.uid ≡ some actor
  pub active : caller.is_active ≡ true
  pub allowed : is_admin_or_supervisor caller.role ≡ true

given_within :
    (actor now : Text) (old : PaymentRow) (cash transfer : ℕ)
    → cash ≤ 999999999999
    → transfer ≤ 999999999999
    → cash + transfer ≤ old.total_amount
    → amounts_given actor now old (numeric cash) (numeric transfer)
      ≡ returned
          (store_amounts now cash transfer old)
          (entry_for actor old (store_amounts now cash transfer old))
unfolding amounts_given
given_within actor now old cash transfer c t h = ground arith

-- Amounts up to the limit and within the total are stored.
pub actualizar_pago_within :
    (caller : Caller) (now : Text) (old : PaymentRow) (cash transfer : ℕ) (may : MayPay caller)
    → cash ≤ 999999999999
    → transfer ≤ 999999999999
    → cash + transfer ≤ old.total_amount
    → actualizar_pago_pedido caller now true
        (some old)
        (some (numeric cash))
        (some (numeric transfer))
      ≡ returned
          (store_amounts now cash transfer old)
          (entry_for may.actor old (store_amounts now cash transfer old))
unfolding actualizar_pago_pedido pay_found
actualizar_pago_within caller now old cash transfer may c t h =
    rw (may.known, may.active, may.allowed) (given_within may.actor now old cash transfer c t h)
