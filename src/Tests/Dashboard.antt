-- ===== src/Tests/Dashboard.antt =====
-- The dashboard: the orders and requests that it shows.
use godel_design.Prelude.{
  ap, take_of_length-le, ℕ, ◌+◌, ◌≤◌, min, List, [], ◌∷◌, ◌++◌, if◌then◌else◌, Option, some, none,
  map, take, length, ◌≡◌, refl, arith,
}
use mathlib.Core.List.{Perm}
use godel_design.Database.{
  creado, en_produccion, listo_entrega, normal, encargo, impresion, SolicitudEstado, nueva,
  aprobada,
}
use godel_design.JsText.{Text, codes, text_eq}
use godel_design.JsSort.{Sign, negative, null, positive}
use godel_design.Backend.{answer}
use godel_design.Pedidos.TaskProgress.{calculate_pedido_tasks_progress}
use godel_design.Validators.Date.{text_lt}
use godel_design.Dashboard.WorkItems.{
  PedidoRow, PedidoWithProgress, SolicitudRow, map_pedido_item, map_solicitud_item,
  get_pedido_description_snippet, sort_pedidos_by_attention, compare_pedidos,
  get_pedido_attention_rank,
}
use godel_design.Dashboard.Reads.{DashboardClient, max_rows, attach_task_progress_to_pedidos}
use godel_design.Dashboard.Reads.Progress.{
  tasks_among, own_progress, attach-own, AnswersFrom, AreWithin, AreDistinct, ids_of,
}
use godel_design.Dashboard.Board.{BoardGroup, load_pedido_board_group, en_produccion_config}
use godel_design.Dashboard.Board.Shown.{AreMostUrgent, load_pedido_board_group_lem}
use godel_design.Dashboard.Pending.{
  PendingGroup, pending_solicitudes_limit, list_management_pending_solicitudes,
}
use godel_design.Dashboard.Pending.Waiting.{
  AreNewFirst, read_rows, list_management_pending_solicitudes_lem,
}
use godel_design.Dashboard.WorkerSummary.{AssignedPedido, build_worker_metrics}
use godel_design.Dashboard.WorkerSummary.Bounds.{build_worker_metrics_lem}
use godel_design.Tests.Orders.{whole_numbers, two_orders}

abbrev by_units : Text → Text → Sign
by_units a b = if text_lt a b then negative else if text_lt b a then positive else null

abbrev an_order : Text → Option Text → PedidoRow
an_order id date = record {
  id = id;
  order_number = 7;
  title = codes "Carteles";
  description = some (codes " dos \n lados ");
  status = en_produccion;
  priority = normal;
  workflow_type = encargo;
  estimated_delivery_date = date;
  created_at = codes "2026-01-01";
  client_name = none;
}

abbrev orders : List PedidoRow
orders = an_order (codes "a") none ∷ an_order (codes "b") (some (codes "2026-01-02")) ∷ []

abbrev a_request : SolicitudEstado → SolicitudRow
a_request status = record {
  id = codes "s";
  client_name = codes "Ada";
  client_phone = codes "123";
  workflow_type = impresion;
  status = status;
  created_at = codes "2026-01-01";
  desired_date = none;
  converted_order_id = none;
  service = none;
}

abbrev requests : SolicitudEstado → List SolicitudRow
requests nueva = a_request nueva ∷ a_request nueva ∷ []
requests aprobada = a_request aprobada ∷ []
requests _ = []

abbrev reads : DashboardClient ℕ
reads = record {
  count_solicitudes = λ s _. answer (some (length (requests s)));
  list_solicitudes = λ s _ limit. answer (some (take limit (requests s)));
  count_pedidos = λ _ _. answer (some 2);
  list_pedidos = λ _ _ _. answer (some orders);
  list_tareas = λ ids. answer (some (take max_rows (tasks_among whole_numbers two_orders ids)));
}

orders-AreDistinct : AreDistinct (ids_of orders)
unfolding text_eq
orders-AreDistinct = (refl, (refl, tt))

reads-AnswersFrom : AnswersFrom whole_numbers reads two_orders
reads-AnswersFrom ids h =
    ap (λ rows. answer (some rows))
      (take_of_length-le max_rows (tasks_among whole_numbers two_orders ids) h)

orders-AreWithin : AreWithin whole_numbers reads two_orders 2 (ids_of orders)
unfolding text_eq
orders-AreWithin = (omega arith, tt)

attach-own_example :
    attach_task_progress_to_pedidos whole_numbers reads orders
    ≡ some (map (own_progress whole_numbers reads two_orders) orders)
attach-own_example =
    attach-own whole_numbers reads two_orders orders reads-AnswersFrom orders-AreDistinct
      orders-AreWithin

abbrev today : Text
today = codes "2026-01-03"

abbrev next_seven_days : Text
next_seven_days = codes "2026-01-10"

abbrev progressed : List PedidoWithProgress
progressed = map (own_progress whole_numbers reads two_orders) orders

progressed_read : attach_task_progress_to_pedidos whole_numbers reads orders ≡ some progressed
progressed_read =
    attach-own whole_numbers reads two_orders orders reads-AnswersFrom orders-AreDistinct
      orders-AreWithin

load_pedido_board_group_lem_example :
    (g : BoardGroup) × (load_pedido_board_group by_units whole_numbers reads today next_seven_days
        none en_produccion_config
      ≡ some g)
    × (length g.items ≡ min 6 2)
    × (length g.items + g.more_count ≡ 2)
    × ((best others : List PedidoWithProgress) × (g.items
          ≡ map (map_pedido_item today next_seven_days) best)
        × AreMostUrgent by_units whole_numbers reads today next_seven_days progressed best others)
load_pedido_board_group_lem_example =
    load_pedido_board_group_lem by_units whole_numbers reads today next_seven_days none
      en_produccion_config 2 orders progressed refl refl progressed_read (omega arith)

list_management_pending_solicitudes_lem_example :
    (g : PendingGroup) × (list_management_pending_solicitudes reads by_units ≡ some g)
    × (length g.items ≡ min pending_solicitudes_limit 3)
    × (length g.items + g.more_count ≡ 3)
    × ((shown left_out : List SolicitudRow) × (g.items ≡ map map_solicitud_item shown)
        × AreNewFirst (shown ++ left_out)
        × Perm (shown ++ left_out) (read_rows requests))
list_management_pending_solicitudes_lem_example =
    list_management_pending_solicitudes_lem reads requests
      (record { counts = λ s. refl; lists = λ s limit. refl }) by_units

abbrev assigned : List AssignedPedido
assigned =
    record {
      id = codes "a";
      status = creado;
      estimated_delivery_date = some (codes "2026-01-02");
      workflow_type = encargo;
    }
    ∷ record {
      id = codes "b";
      status = listo_entrega;
      estimated_delivery_date = some (codes "2026-01-04");
      workflow_type = impresion;
    }
    ∷ []

build_worker_metrics_lem_example :
    let m = build_worker_metrics today next_seven_days assigned [] in
    (m.pedidos_asignados_en_produccion + m.pedidos_asignados_listos_entrega
        + m.pedidos_asignados_sin_tareas
      ≤ m.pedidos_asignados_activos)
    × (m.pedidos_asignados_atrasados + m.pedidos_asignados_proximos_entrega
        ≤ m.pedidos_asignados_activos)
    × (m.pedidos_asignados_activos ≤ m.total_pedidos_asignados)
build_worker_metrics_lem_example = build_worker_metrics_lem today next_seven_days assigned []

metrics_run :
    let m = build_worker_metrics today next_seven_days assigned [] in
    m.pedidos_asignados_activos ∷ m.pedidos_asignados_sin_tareas ∷ m.pedidos_asignados_atrasados
      ∷ m.pedidos_asignados_proximos_entrega ∷ []
    ≡ 2 ∷ 1 ∷ 1 ∷ 1 ∷ []
unfolding build_worker_metrics
metrics_run = refl

snippet_run :
    get_pedido_description_snippet (some (codes " dos \n lados ")) ≡ some (codes "dos lados")
unfolding get_pedido_description_snippet
snippet_run = refl

-- The late order comes before the one without a date.
sorted_run :
    map
      (λ (p : PedidoWithProgress). p.row.id)
      (sort_pedidos_by_attention by_units today next_seven_days progressed)
    ≡ codes "b" ∷ codes "a" ∷ []
unfolding sort_pedidos_by_attention compare_pedidos get_pedido_attention_rank text_lt
    calculate_pedido_tasks_progress text_eq
sorted_run = refl
