-- ===== src/Tests/StatusService.antt =====
-- The services that move an order, over the database.
use godel_design.Prelude.{[], ◌∷◌, true, some, none, ◌≡◌, ◌≢◌, ◌⊎◌, refl}
use godel_design.Database.{
  trabajador, encargo, PedidoEstado, creado, en_produccion, listo_entrega, entregado, pagado,
  same_pedido_estado,
}
use godel_design.JsText.{Text, codes, trim}
use godel_design.Validators.Uuid.{is_valid_uuid}
use godel_design.Permissions.{has_permission}
use godel_design.Pedidos.Status.{get_pedido_status_flow}
use godel_design.Pedidos.Status.Lifecycle.{offers}
use godel_design.Pedidos.TaskProgress.{calculate_pedido_tasks_progress}
use godel_design.Pedidos.StatusRpc.{
  Pedido, Caller, returned, pedido_entregado, actualizar_estado_pedido,
}
use godel_design.Pedidos.StatusRpc.Flow.{
  MayChange, is_returned, page_context, transition_context, actualizar_estado-offers,
}
use godel_design.Pedidos.StatusRpc.Invariant.{IsSound, actualizar_estado-IsSound}
use godel_design.Pedidos.UpdateStatus.{
  success, update_internal_pedido_status, ensure_pedido_review_started, move_result,
}
use godel_design.Pedidos.UpdateStatus.Guards.{Passes, update_guarded}
use godel_design.Pedidos.UpdateStatus.EndToEnd.{
  Store, database_client, CanReview, reviewed, ensure_review_started,
}
use godel_design.Tests.Orders.{whole_numbers, done}

abbrev a_caller : Caller
a_caller = record {
  uid = some (codes "u1");
  is_active = true;
  role = trabajador;
  is_assigned = true;
}

a_caller-MayChange : MayChange a_caller (codes "u1")
a_caller-MayChange = record { signed_in = refl; active = refl; allowed = refl }

abbrev an_order : PedidoEstado → Pedido
an_order s = record {
  status = s;
  workflow_type = encargo;
  actual_delivery_date = none;
  updated_at = 0;
  tareas = true ∷ [];
  pago = some pagado;
  historial = [];
}

actualizar_estado-offers_example :
    is_returned (
      actualizar_estado_pedido a_caller
        (codes "2026-08-11")
        7
        (some (an_order en_produccion))
        listo_entrega)
    ≡ offers
        (get_pedido_status_flow en_produccion (
          page_context (an_order en_produccion) (
            transition_context whole_numbers
              (calculate_pedido_tasks_progress whole_numbers (done ∷ [])))))
        listo_entrega
actualizar_estado-offers_example =
    actualizar_estado-offers whole_numbers a_caller (codes "u1") (codes "2026-08-11") 7
      (an_order en_produccion) (done ∷ []) listo_entrega a_caller-MayChange refl (λ e. cc)

abbrev delivered : Pedido
delivered = record {
  status = entregado;
  workflow_type = encargo;
  actual_delivery_date = some (codes "2026-08-11");
  updated_at = 7;
  tareas = true ∷ [];
  pago = some pagado;
  historial =
      record {
        actor_id = codes "u1";
        action = pedido_entregado;
        old_value = listo_entrega;
        new_value = entregado;
      }
      ∷ [];
}

delivers :
    actualizar_estado_pedido a_caller
      (codes "2026-08-11")
      7
      (some (an_order listo_entrega))
      entregado
    ≡ returned delivered
unfolding actualizar_estado_pedido same_pedido_estado
delivers = refl

actualizar_estado-IsSound_example : IsSound listo_entrega delivered × (entregado ≡ entregado)
actualizar_estado-IsSound_example =
    actualizar_estado-IsSound listo_entrega a_caller (codes "2026-08-11") 7 (an_order listo_entrega)
      entregado delivered (record { leads = refl; dated = λ e. cc }) delivers

stays :
    actualizar_estado_pedido a_caller (codes "2026-08-12") 9 (some delivered) entregado
    ≡ returned delivered
unfolding actualizar_estado_pedido same_pedido_estado
stays = refl

abbrev order_id : Text
order_id = codes " 3f2504e0-4f89-41d3-9a0c-0305e82c3301 "

abbrev a_store : PedidoEstado → Store
a_store s = record {
  caller = a_caller;
  profile = some (record { id = codes "u1"; role = trabajador });
  orders = λ k. some (an_order s);
  today = codes "2026-08-11";
  now = 7;
}

can_review : (s : PedidoEstado) → CanReview (a_store s) order_id (an_order s)
unfolding is_valid_uuid trim has_permission
can_review s = record {
  actor = codes "u1";
  profile = record { id = codes "u1"; role = trabajador };
  well_formed = refl;
  signed_in = refl;
  permitted = refl;
  may_change = a_caller-MayChange;
  stored = refl;
}

ensure_review_started_example :
    let result = ensure_pedido_review_started database_client (a_store creado) order_id in
    (result.1 ≡ success (reviewed creado))
    × ((p : Pedido) × (result.0.orders (trim order_id) ≡ some p) × (p.status ≡ reviewed creado))
ensure_review_started_example =
    ensure_review_started (a_store creado) order_id (an_order creado) (can_review creado)

update_guarded_example :
    let result =
      update_internal_pedido_status database_client (a_store creado) order_id (codes "cancelado") in
    ((target : PedidoEstado) × Passes database_client
        (a_store creado)
        order_id
        (codes "cancelado")
        target
      × (result ≡ (
        (database_client.move_pedido (a_store creado) (trim order_id) target).0,
        move_result (database_client.move_pedido (a_store creado) (trim order_id) target).1,
      )))
    ⊎ ((result.0 ≡ a_store creado) × (result.1 ≢ success tt))
update_guarded_example =
    update_guarded database_client (a_store creado) order_id (codes "cancelado")
