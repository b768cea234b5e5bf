-- ===== src/Dashboard/WorkerSummary/Bounds.antt =====
-- get-worker-dashboard.ts: how the numbers of a worker compare.
use godel_design.Prelude.{ℕ, ◌+◌, ◌≤◌, List, [], ◌∷◌, Bool, true, false, length-keep, arith}
use godel_design.Database.{en_produccion, listo_entrega, same_pedido_estado}
use godel_design.JsText.{Text}
use godel_design.Dashboard.Helpers.{
  is_pedido_activo, is_pedido_pending_review, is_pedido_atrasado, is_pedido_proximo_entrega,
}
use godel_design.Dashboard.WorkerSummary.{
  AssignedPedido, build_worker_metrics, count_where, is_assigned_in, lacks_tasks,
}

abbrev bit : Bool → ℕ
bit true = 1
bit false = 0

-- Tests of which at most one holds, and only where another does.
count_where-sum :
    {A : Type 0} (p q r s : A → Bool)
    → ((x : A) → bit (p x) + bit (q x) + bit (r x) ≤ bit (s x))
    → (xs : List A) → count_where p xs + count_where q xs + count_where r xs ≤ count_where s xs
count_where-sum p q r s h [] = omega arith
count_where-sum p q r s h (x ∷ xs) = ground (arith, h x, count_where-sum p q r s h xs)

states_apart :
    (with_tasks : List Text) (x : AssignedPedido)
    → bit (is_assigned_in en_produccion x)
        + bit (is_assigned_in listo_entrega x)
        + bit (lacks_tasks with_tasks x)
      ≤ bit (is_pedido_activo x.status)
unfolding is_pedido_activo is_pedido_pending_review same_pedido_estado
states_apart with_tasks x = ground arith

dates_apart :
    (today next_seven_days : Text) (x : AssignedPedido)
    → bit (is_pedido_atrasado x.status x.estimated_delivery_date today)
        + bit (is_pedido_proximo_entrega x.status x.estimated_delivery_date today next_seven_days)
        + bit false
      ≤ bit (is_pedido_activo x.status)
unfolding is_pedido_atrasado is_pedido_proximo_entrega
dates_apart today next_seven_days x = ground arith

-- The orders in production, those ready and those without tasks are different active orders; so are
-- the late ones and those due in seven days; and the active orders are among all of them.
pub build_worker_metrics_lem :
    (today next_seven_days : Text) (pedidos : List AssignedPedido) (with_tasks : List Text)
    → let m = build_worker_metrics today next_seven_days pedidos with_tasks in
      (m.pedidos_asignados_en_produccion + m.pedidos_asignados_listos_entrega
          + m.pedidos_asignados_sin_tareas
        ≤ m.pedidos_asignados_activos)
      × (m.pedidos_asignados_atrasados + m.pedidos_asignados_proximos_entrega
          ≤ m.pedidos_asignados_activos)
      × (m.pedidos_asignados_activos ≤ m.total_pedidos_asignados)
unfolding build_worker_metrics
build_worker_metrics_lem today next_seven_days pedidos with_tasks = (
  count_where-sum (is_assigned_in en_produccion) (is_assigned_in listo_entrega)
      (lacks_tasks with_tasks) (λ x. is_pedido_activo x.status) (states_apart with_tasks) pedidos,
  omega (
    arith,
    count_where-sum (λ x. is_pedido_atrasado x.status x.estimated_delivery_date today)
        (λ x. is_pedido_proximo_entrega x.status x.estimated_delivery_date today next_seven_days)
        (λ x. false) (λ x. is_pedido_activo x.status) (dates_apart today next_seven_days) pedidos,
  ),
  length-keep (λ x. is_pedido_activo x.status) pedidos,
)
