-- ===== src/Pedidos/StatusRpc/Invariant.antt =====
-- `actualizar_estado_pedido`: what a call leaves of the order and of its history.
use godel_design.Prelude.{
  ℕ, List, [], ◌∷◌, ◌++◌, true, false, some, ◌≡◌, sym, ◌∙◌, ◌⊎◌, refl, arith, inl, inr,
}
use godel_design.Database.{PedidoEstado, entregado, same_pedido_estado, same_pedido_estado_iff}
use godel_design.JsText.{Text}
use godel_design.Pedidos.Status.{is_pedido_closed_status}
use godel_design.Pedidos.StatusRpc.{
  Pedido, HistorialEntry, Caller, returned, action_for, apply_change, actualizar_estado_pedido,
  change_state, change_found,
}

-- The entries of a history lead from one state to another.
abbrev pub Leads : PedidoEstado → List HistorialEntry → PedidoEstado → Type 0
Leads from [] to = from ≡ to
Leads from (e ∷ es) to = (e.old_value ≡ from) × Leads e.new_value es to

Leads-append :
    (from to : PedidoEstado) (es : List HistorialEntry) (e : HistorialEntry)
    → Leads from es to
    → e.old_value ≡ to
    → Leads from (es ++ e ∷ []) e.new_value
Leads-append from to [] e h k = (k ∙ sym h, refl)
Leads-append from to (d ∷ es) e (q, h) k = (q, Leads-append d.new_value to es e h k)

-- The history leads from the state in which the order was made to its present one, and a delivered
-- order has the day of its delivery.
pub record IsSound (origin : PedidoEstado) (pedido : Pedido) : Type 0 where
  pub leads : Leads origin pedido.historial pedido.status
  pub dated : pedido.status ≡ entregado → (day : Text) × (pedido.actual_delivery_date ≡ some day)

apply_change-IsSound :
    (origin : PedidoEstado) (actor today : Text) (now : ℕ) (new : PedidoEstado) (pedido : Pedido)
    → IsSound origin pedido
    → IsSound origin (apply_change actor today now new pedido)
unfolding apply_change
apply_change-IsSound origin actor today now new pedido h = record {
  leads =
      Leads-append origin pedido.status pedido.historial
        (record {
          actor_id = actor;
          action = action_for new;
          old_value = pedido.status;
          new_value = new;
        })
        h.leads refl;
  dated = λ e. (today, rw ((same_pedido_estado_iff new entregado).1 e));
}

change_found_outcome :
    (caller : Caller) (actor today : Text) (now : ℕ) (pedido : Pedido) (new : PedidoEstado)
    (after : Pedido)
    → change_found caller actor today now pedido new ≡ returned after
    → ((pedido.status ≡ new) × (after ≡ pedido))
      ⊎ ((is_pedido_closed_status pedido.status ≡ false)
          × (after ≡ apply_change actor today now new pedido))
unfolding change_found change_state same_pedido_estado
change_found_outcome caller actor today now pedido new after h = ground arith

change_outcome :
    (caller : Caller) (today : Text) (now : ℕ) (pedido : Pedido) (new : PedidoEstado)
    (after : Pedido)
    → actualizar_estado_pedido caller today now (some pedido) new ≡ returned after
    → (actor : Text) × (caller.uid ≡ some actor)
      × (change_found caller actor today now pedido new ≡ returned after)
unfolding actualizar_estado_pedido
change_outcome caller today now pedido new after h = ground arith

-- A call that succeeds leaves the order in the state that was asked for, and sound if it was.
pub actualizar_estado-IsSound :
    (origin : PedidoEstado) (caller : Caller) (today : Text) (now : ℕ) (pedido : Pedido)
    (new : PedidoEstado) (after : Pedido)
    → IsSound origin pedido
    → actualizar_estado_pedido caller today now (some pedido) new ≡ returned after
    → IsSound origin after × (after.status ≡ new)
unfolding apply_change
actualizar_estado-IsSound origin caller today now pedido new after h e =
    let (actor, _, k) = change_outcome caller today now pedido new after e in
    elim (change_found_outcome caller actor today now pedido new after k) [
      | inl (same, left) ↦ (rw left h, rw left same)
      | inr (_, moved) ↦
          (rw moved (apply_change-IsSound origin actor today now new pedido h), rw moved)
    ]

-- A closed order never changes: a call on it that succeeds gives it back.
closed-unchanged :
    (caller : Caller) (today : Text) (now : ℕ) (pedido : Pedido) (new : PedidoEstado)
    (after : Pedido)
    → is_pedido_closed_status pedido.status ≡ true
    → actualizar_estado_pedido caller today now (some pedido) new ≡ returned after
    → (after ≡ pedido) × (pedido.status ≡ new)
closed-unchanged caller today now pedido new after closed e =
    let (actor, _, k) = change_outcome caller today now pedido new after e in
    elim (change_found_outcome caller actor today now pedido new after k) [
      | inl (same, left) ↦ (left, same)
      | inr (active, _) ↦ cc
    ]
