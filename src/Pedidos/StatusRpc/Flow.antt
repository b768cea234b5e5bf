-- ===== src/Pedidos/StatusRpc/Flow.antt =====
-- The database against the page of the order: `actualizar_estado_pedido` beside `getPedidoStatusFlow`
-- with the context that components/pedidos/InternalPedidoDetail.tsx builds from the loaded order.
use godel_design.Prelude.{
  ℕ, List, [], ◌∷◌, map, Bool, true, false, all, Option, some, none, ◌≡◌, ◌≢◌, ◌↔◌, arith, All,
}
use godel_design.Database.{
  PedidoEstado, PedidoPagoEstado, same_pedido_estado, same_pedido_estado_iff,
}
use godel_design.JsText.{Text}
use godel_design.Pedidos.Status.{TransitionContext, FlowContext, get_pedido_status_flow}
use godel_design.Pedidos.Status.Lifecycle.{offers}
use godel_design.Pedidos.TaskProgress.{Float, Task, TasksProgress, calculate_pedido_tasks_progress}
use godel_design.Pedidos.TaskProgress.Counts.{IsDone, tasks_progress_counts}
use godel_design.Pedidos.StatusRpc.{
  Pedido, Caller, RpcResult, returned, raised, can_change, has_tasks, all_tasks_completed,
  actualizar_estado_pedido, change_state, change_found,
}

abbrev pub is_returned : RpcResult Pedido → Bool
is_returned (returned p) = true
is_returned (raised e) = false

-- A caller whom the database lets change the order.
pub record MayChange (caller : Caller) (actor : Text) : Type 0 where
  pub signed_in : caller.uid ≡ some actor
  pub active : caller.is_active ≡ true
  pub allowed : can_change caller ≡ true

abbrev is_some : Option PedidoPagoEstado → Bool
is_some none = false
is_some (some p) = true

-- The context of the page, with the progress of the tasks that were read.
abbrev pub page_context : Pedido → TransitionContext → FlowContext
page_context pedido progress = record {
  workflow_type = some pedido.workflow_type;
  task_progress = some progress;
  tasks_available = some true;
  payment_status = pedido.pago;
  payment_available = some (is_some pedido.pago);
}

change_state-offers :
    (actor today : Text) (now : ℕ) (pedido : Pedido) (new : PedidoEstado)
    (progress : TransitionContext)
    → progress.has_tasks ≡ has_tasks pedido
    → progress.is_complete ≡ all_tasks_completed pedido
    → pedido.status ≢ new
    → is_returned (change_state actor today now pedido new)
      ≡ offers (get_pedido_status_flow pedido.status (page_context pedido progress)) new
unfolding change_state get_pedido_status_flow same_pedido_estado
change_state-offers actor today now pedido new progress h k n = ground arith

module _ (f : Float) where
  open f use {Number}

  -- What the page passes on of the progress that it computed.
  abbrev pub transition_context : TasksProgress → TransitionContext
  transition_context p = record {
    has_tasks = p.has_tasks;
    is_complete = p.is_complete;
    progress_percentage = p.progress_percentage;
  }

  abbrev pub completion : List (Task Number) → List Bool
  completion tasks = map (λ task. task.is_completed) tasks

  all-completion :
      (tasks : List (Task Number))
      → (all (λ done. done) (completion tasks) ≡ true) ↔ All (IsDone f) tasks
  all-completion [] = ground arith
  all-completion (task ∷ tasks) = ground (arith, all-completion tasks)

  tasks_agree :
      (pedido : Pedido) (tasks : List (Task Number))
      → pedido.tareas ≡ completion tasks
      → let p = calculate_pedido_tasks_progress f tasks in
        (p.has_tasks ≡ has_tasks pedido) × (p.is_complete ≡ all_tasks_completed pedido)
  tasks_agree pedido [] e = ground (arith, tasks_progress_counts f [])
  tasks_agree pedido (task ∷ tasks) e =
      ground (arith, tasks_progress_counts f (task ∷ tasks), all-completion (task ∷ tasks))

  -- For a caller who may change the order, the database moves it to another state exactly when the
  -- page offers that move, with the progress computed from the tasks of the order and its payment.
  pub actualizar_estado-offers :
      (caller : Caller) (actor today : Text) (now : ℕ) (pedido : Pedido)
      (tasks : List (Task Number)) (new : PedidoEstado)
      → MayChange caller actor
      → pedido.tareas ≡ completion tasks
      → pedido.status ≢ new
      → is_returned (actualizar_estado_pedido caller today now (some pedido) new)
        ≡ offers
            (get_pedido_status_flow pedido.status
              (page_context pedido (transition_context (calculate_pedido_tasks_progress f tasks))))
            new
  unfolding actualizar_estado_pedido change_found
  actualizar_estado-offers caller actor today now pedido tasks new may e n =
      let progress = transition_context (calculate_pedido_tasks_progress f tasks) in
      let (has, complete) = tasks_agree pedido tasks e in
      ground (
        arith,
        change_state-offers actor today now pedido new progress has complete n,
        same_pedido_estado_iff pedido.status new,
      )
