-- ===== src/Pedidos/Status.antt =====
-- src/lib/pedidos/status.ts: the states of an order and the moves between them. An optional property
-- is an `Option`, and an absent flag counts as false, as the components read it. The messages are
-- the source's.
pub mod Agreement
pub mod Lifecycle
use godel_design.Prelude.{
  ℕ, List, [], ◌∷◌, Bool, true, false, not, ◌&&◌, ◌||◌, if◌then◌else◌, Option, some, none, String,
}
use godel_design.Database.{
  WorkflowType, encargo, impresion, PedidoEstado, creado, solicitud_recibida, en_produccion,
  listo_entrega, entregado, cancelado, PedidoPagoEstado, sin_pago, parcial, pagado, pedido_estados,
  pedido_estado_name,
}
use godel_design.JsText.{Text, text_eq}

abbrev pub delivery_payment_pending_reason : String
delivery_payment_pending_reason =
    "El pedido debe estar completamente pagado antes de marcarlo como entregado."

abbrev pub pedido_tasks_unavailable_reason : String
pedido_tasks_unavailable_reason =
    "No se puede validar este avance mientras las tareas no estén disponibles."

abbrev pub pedido_tasks_required_reason : String
pedido_tasks_required_reason = "Agrega al menos una tarea antes de pasar a producción."

abbrev pub pedido_tasks_incomplete_reason : String
pedido_tasks_incomplete_reason =
    "Completa todas las tareas antes de marcar el pedido como listo para entrega."

abbrev pub pedido_payment_unavailable_reason : String
pedido_payment_unavailable_reason = "No se puede validar el pago del pedido en este momento."

abbrev back_to_production_reason : String
back_to_production_reason = "Puedes volver a producción si hay correcciones pendientes."

pub record TransitionContext : Type 0 where
  pub has_tasks : Bool
  pub is_complete : Bool
  pub progress_percentage : ℕ

pub record FlowContext : Type 0 where
  pub workflow_type : Option WorkflowType
  pub task_progress : Option TransitionContext
  pub tasks_available : Option Bool
  pub payment_status : Option PedidoPagoEstado
  pub payment_available : Option Bool

pub record NormalizedFlowContext : Type 0 where
  pub workflow_type : WorkflowType
  pub task_progress : Option TransitionContext
  pub tasks_available : Bool
  pub payment_status : Option PedidoPagoEstado
  pub payment_available : Bool

pub record TransitionOption : Type 0 where
  pub status : PedidoEstado
  pub is_current : Bool
  pub disabled : Bool
  pub reason : Option String

pub record FlowAction : Type 0 where
  pub status : PedidoEstado
  pub enabled : Bool
  pub blocked_reason : Option String

pub record StatusFlow : Type 0 where
  pub current_status : PedidoEstado
  pub is_initial : Bool
  pub is_closed : Bool
  pub automatic_advance : Option FlowAction
  pub advance : Option FlowAction
  pub backward : Option FlowAction
  pub termination : Option FlowAction

-- `PEDIDO_STATUSES.includes(value)`, with the state that the value names.
status_among : List PedidoEstado → Text → Option PedidoEstado
status_among [] value = none
status_among (s ∷ rest) value =
    let later = status_among rest value in
    if text_eq value (pedido_estado_name s) then some s else later

unfoldable pub is_pedido_status : Text → Option PedidoEstado
unfolding status_among pedido_estado_name text_eq
is_pedido_status value = status_among pedido_estados value

abbrev pub is_pedido_initial_status : PedidoEstado → Bool
is_pedido_initial_status creado = true
is_pedido_initial_status solicitud_recibida = true
is_pedido_initial_status _ = false

abbrev pub is_pedido_closed_status : PedidoEstado → Bool
is_pedido_closed_status entregado = true
is_pedido_closed_status cancelado = true
is_pedido_closed_status _ = false

abbrev pub is_pedido_active_status : PedidoEstado → Bool
is_pedido_active_status status = not (is_pedido_closed_status status)

unfoldable pub can_manage_pedido_tasks_in_status : PedidoEstado → Bool
can_manage_pedido_tasks_in_status creado = true
can_manage_pedido_tasks_in_status solicitud_recibida = true
can_manage_pedido_tasks_in_status PedidoEstado.en_revision = true
can_manage_pedido_tasks_in_status en_produccion = true
can_manage_pedido_tasks_in_status _ = false

unfoldable pub get_pedido_task_management_blocked_reason : PedidoEstado → Option String
get_pedido_task_management_blocked_reason listo_entrega =
    some "Para modificar tareas, devuelve el pedido a producción."
get_pedido_task_management_blocked_reason entregado =
    some "No se pueden modificar tareas de un pedido entregado."
get_pedido_task_management_blocked_reason cancelado =
    some "No se pueden modificar tareas de un pedido cancelado."
get_pedido_task_management_blocked_reason _ = none

abbrev or_default {ℓ} : {A : Type ℓ} → Option A → A → A
or_default none d = d
or_default (some a) d = a

-- `buildPedidoFlowAction(status)` and the same with a block.
abbrev pub open_action : PedidoEstado → FlowAction
open_action status = record { status = status; enabled = true; blocked_reason = none }

abbrev pub blocked_action : PedidoEstado → String → FlowAction
blocked_action status reason = record {
  status = status;
  enabled = false;
  blocked_reason = some reason;
}

-- `!context.tasksAvailable || !context.taskProgress` lets the progress through.
progress_seen : NormalizedFlowContext → Option TransitionContext
progress_seen context = if context.tasks_available then context.task_progress else none

abbrev is_impresion : WorkflowType → Bool
is_impresion impresion = true
is_impresion encargo = false

abbrev pub is_pagado : PedidoPagoEstado → Bool
is_pagado pagado = true
is_pagado _ = false

get_pedido_review_advance_action : NormalizedFlowContext → FlowAction
unfolding progress_seen
get_pedido_review_advance_action context =
    if is_impresion context.workflow_type
    then open_action en_produccion
    else elim (progress_seen context) [
      | none ↦ blocked_action en_produccion pedido_tasks_unavailable_reason
      | some progress ↦
          if not progress.has_tasks
          then blocked_action en_produccion pedido_tasks_required_reason
          else open_action en_produccion
    ]

get_pedido_production_advance_action : NormalizedFlowContext → FlowAction
unfolding progress_seen
get_pedido_production_advance_action context =
    if is_impresion context.workflow_type
    then open_action listo_entrega
    else elim (progress_seen context) [
      | none ↦ blocked_action listo_entrega pedido_tasks_unavailable_reason
      | some progress ↦
          if not progress.has_tasks || not progress.is_complete
          then blocked_action listo_entrega pedido_tasks_incomplete_reason
          else open_action listo_entrega
    ]

get_pedido_delivery_advance_action : NormalizedFlowContext → FlowAction
get_pedido_delivery_advance_action context =
    elim (if context.payment_available then context.payment_status else none) [
      | none ↦ blocked_action entregado pedido_payment_unavailable_reason
      | some payment ↦
          if is_pagado payment
          then open_action entregado
          else blocked_action entregado delivery_payment_pending_reason
    ]

-- The defaults of `getPedidoStatusFlow`; an absent context is the one with nothing in it.
normalize_context : FlowContext → NormalizedFlowContext
normalize_context context = record {
  workflow_type = or_default context.workflow_type encargo;
  task_progress = context.task_progress;
  tasks_available = or_default context.tasks_available true;
  payment_status = context.payment_status;
  payment_available = or_default context.payment_available true;
}

abbrev base_flow : PedidoEstado → StatusFlow
base_flow status = record {
  current_status = status;
  is_initial = is_pedido_initial_status status;
  is_closed = is_pedido_closed_status status;
  automatic_advance = none;
  advance = none;
  backward = none;
  termination = none;
}

abbrev initial_flow : PedidoEstado → StatusFlow
initial_flow status = record (base_flow status) {
  automatic_advance = some (open_action PedidoEstado.en_revision);
  termination = some (open_action cancelado);
}

flow_in : NormalizedFlowContext → PedidoEstado → StatusFlow
unfolding get_pedido_review_advance_action get_pedido_production_advance_action
    get_pedido_delivery_advance_action
flow_in context creado = initial_flow creado
flow_in context solicitud_recibida = initial_flow solicitud_recibida
flow_in context PedidoEstado.en_revision = record (base_flow PedidoEstado.en_revision) {
  advance = some (get_pedido_review_advance_action context);
  termination = some (open_action cancelado);
}
flow_in context en_produccion = record (base_flow en_produccion) {
  advance = some (get_pedido_production_advance_action context);
  termination = some (open_action cancelado);
}
flow_in context listo_entrega = record (base_flow listo_entrega) {
  advance = some (get_pedido_delivery_advance_action context);
  backward = some (open_action en_produccion);
  termination = some (open_action cancelado);
}
flow_in context entregado = base_flow entregado
flow_in context cancelado = base_flow cancelado

unfoldable pub get_pedido_status_flow : PedidoEstado → FlowContext → StatusFlow
unfolding normalize_context flow_in
get_pedido_status_flow current context = flow_in (normalize_context context) current

-- `buildStatusOption`.
abbrev plain_option : PedidoEstado → TransitionOption
plain_option status = record {
  status = status;
  is_current = false;
  disabled = false;
  reason = none;
}

abbrev guarded_option : PedidoEstado → Bool → String → TransitionOption
guarded_option status blocked reason = record (plain_option status) {
  disabled = blocked;
  reason = if blocked then some reason else none;
}

-- `requiresTasks && progress ? test : false`.
lacking : WorkflowType → (TransitionContext → Bool) → Option TransitionContext → Bool
lacking impresion test progress = false
lacking encargo test none = false
lacking encargo test (some progress) = test progress

blocks_delivery : Option PedidoPagoEstado → Bool
blocks_delivery none = false
blocks_delivery (some payment) = not (is_pagado payment)

allowed_moves :
    Option TransitionContext
    → WorkflowType
    → Option PedidoPagoEstado
    → PedidoEstado
    → List TransitionOption
unfolding lacking blocks_delivery
allowed_moves progress workflow payment creado =
    plain_option PedidoEstado.en_revision ∷ plain_option cancelado ∷ []
allowed_moves progress workflow payment solicitud_recibida =
    plain_option PedidoEstado.en_revision ∷ plain_option cancelado ∷ []
allowed_moves progress workflow payment PedidoEstado.en_revision =
    guarded_option en_produccion (lacking workflow (λ p. not p.has_tasks) progress)
      pedido_tasks_required_reason
    ∷ plain_option cancelado
    ∷ []
allowed_moves progress workflow payment en_produccion =
    guarded_option listo_entrega
      (lacking workflow (λ p. not p.has_tasks || not p.is_complete) progress)
      pedido_tasks_incomplete_reason
    ∷ plain_option cancelado
    ∷ []
allowed_moves progress workflow payment listo_entrega =
    guarded_option entregado (blocks_delivery payment) delivery_payment_pending_reason
    ∷ record (plain_option en_produccion) { reason = some back_to_production_reason }
    ∷ plain_option cancelado
    ∷ []
allowed_moves progress workflow payment entregado = []
allowed_moves progress workflow payment cancelado = []

unfoldable pub get_allowed_pedido_status_transitions :
    PedidoEstado
    → Option TransitionContext
    → WorkflowType
    → Option PedidoPagoEstado
    → List TransitionOption
unfolding allowed_moves
get_allowed_pedido_status_transitions status progress workflow payment =
    record (plain_option status) { is_current = true }
    ∷ allowed_moves progress workflow payment status
