-- ===== src/Dashboard/WorkerSummary.antt =====
-- src/lib/dashboard/get-worker-dashboard.ts: the numbers that a worker sees of the orders assigned.
-- The time of the answer is left out, and so is what is logged.
pub mod Bounds
use godel_design.Prelude.{
  ℕ, List, Bool, true, not, ◌&&◌, ◌||◌, Option, some, none, map, keep, any, length,
}
use godel_design.Database.{
  PedidoEstado, en_produccion, listo_entrega, WorkflowType, same_pedido_estado,
}
use godel_design.JsText.{Text, codes, text_eq}
use godel_design.Backend.{Response}
use godel_design.Pedidos.TaskProgress.{Float, TasksProgress}
use godel_design.Dashboard.Helpers.{
  is_pedido_activo, is_pedido_pending_review, does_pedido_workflow_require_tasks,
  is_pedido_atrasado, is_pedido_proximo_entrega,
}
use godel_design.Dashboard.Reads.{
  DashboardClient, resolve_rows, load_task_progress_by_pedido_id, ◌>>=◌,
}

pub record AssignedPedido : Type 0 where
  pub id : Text
  pub status : PedidoEstado
  pub estimated_delivery_date : Option Text
  pub workflow_type : WorkflowType

pub record WorkerMetrics : Type 0 where
  pub pedidos_asignados_activos : ℕ
  pub pedidos_asignados_en_produccion : ℕ
  pub pedidos_asignados_listos_entrega : ℕ
  pub pedidos_asignados_sin_tareas : ℕ
  pub pedidos_asignados_atrasados : ℕ
  pub pedidos_asignados_proximos_entrega : ℕ
  pub total_pedidos_asignados : ℕ

abbrev pub count_where : {A : Type 0} → (A → Bool) → List A → ℕ
count_where p xs = length (keep p xs)

abbrev pub is_assigned_in : PedidoEstado → AssignedPedido → Bool
is_assigned_in status pedido = same_pedido_estado pedido.status status

abbrev pub lacks_tasks : List Text → AssignedPedido → Bool
lacks_tasks ids_with_tasks pedido =
    does_pedido_workflow_require_tasks pedido.workflow_type
    && (is_pedido_pending_review pedido.status || is_assigned_in PedidoEstado.en_revision pedido)
    && not (any (text_eq pedido.id) ids_with_tasks)

unfoldable pub build_worker_metrics : Text → Text → List AssignedPedido → List Text → WorkerMetrics
unfolding is_pedido_activo is_pedido_pending_review does_pedido_workflow_require_tasks
    is_pedido_atrasado is_pedido_proximo_entrega same_pedido_estado text_eq
build_worker_metrics today next_seven_days pedidos ids_with_tasks = record {
  pedidos_asignados_activos = count_where (λ p. is_pedido_activo p.status) pedidos;
  pedidos_asignados_en_produccion = count_where (is_assigned_in en_produccion) pedidos;
  pedidos_asignados_listos_entrega = count_where (is_assigned_in listo_entrega) pedidos;
  pedidos_asignados_sin_tareas = count_where (lacks_tasks ids_with_tasks) pedidos;
  pedidos_asignados_atrasados =
      count_where (λ p. is_pedido_atrasado p.status p.estimated_delivery_date today) pedidos;
  pedidos_asignados_proximos_entrega =
      count_where
        (λ p. is_pedido_proximo_entrega p.status p.estimated_delivery_date today next_seven_days)
        pedidos;
  total_pedidos_asignados = length pedidos;
}

pub data SummaryResult : Type 0 where
  summary : WorkerMetrics → SummaryResult
  failed : (message : Text) → SummaryResult

abbrev pub generic_worker_summary_error : Text
generic_worker_summary_error =
    codes "No se pudo cargar el resumen de tus pedidos. Inténtalo nuevamente."

abbrev or_failed : Option WorkerMetrics → SummaryResult
or_failed none = failed generic_worker_summary_error
or_failed (some metrics) = summary metrics

-- `list_assigned` is the query of the orders of the profile.
module _ (f : Float) (client : DashboardClient f.Number)
    (list_assigned : Text → Response (Option (List AssignedPedido))) where
  unfoldable pub load_worker_dashboard_summary : Text → Text → Text → SummaryResult
  unfolding resolve_rows load_task_progress_by_pedido_id build_worker_metrics
  load_worker_dashboard_summary today next_seven_days profile_id = or_failed (do
    pedidos ← resolve_rows (list_assigned profile_id)
    progress ← load_task_progress_by_pedido_id f client (map (λ p. p.id) pedidos)
    let with_tasks = map (λ e. e.0) (keep (λ e. e.1.has_tasks) progress)
    some (build_worker_metrics today next_seven_days pedidos with_tasks))
