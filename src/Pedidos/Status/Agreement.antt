-- ===== src/Pedidos/Status/Agreement.antt =====
-- pedidos/status.ts: the two descriptions of the moves from a state, the rule for tasks and its
-- message, and the names of the states.
use godel_design.Prelude.{
  List, [], ◌∷◌, ◌++◌, map, Bool, true, false, not, Option, some, none, ◌≡◌, arith,
}
use godel_design.Database.{WorkflowType, PedidoEstado, PedidoPagoEstado}
use godel_design.Pedidos.Status.{
  TransitionContext, FlowContext, FlowAction, StatusFlow, TransitionOption, get_pedido_status_flow,
  get_allowed_pedido_status_transitions,
}

abbrev to_list : Option FlowAction → List FlowAction
to_list none = []
to_list (some a) = a ∷ []

-- The moves of a flow: on, back, and out.
abbrev pub offered : StatusFlow → List FlowAction
offered flow =
    to_list flow.automatic_advance
    ++ to_list flow.advance
    ++ to_list flow.backward
    ++ to_list flow.termination

-- A context in which everything was loaded.
abbrev pub loaded : WorkflowType → TransitionContext → PedidoPagoEstado → FlowContext
loaded workflow progress payment = record {
  workflow_type = some workflow;
  task_progress = some progress;
  tasks_available = some true;
  payment_status = some payment;
  payment_available = some true;
}

abbrev pub flow_move : FlowAction → PedidoEstado × Bool
flow_move a = (a.status, not a.enabled)

abbrev pub option_move : TransitionOption → PedidoEstado × Bool
option_move o = (o.status, o.disabled)

abbrev pub current_move : PedidoEstado → PedidoEstado × Bool
current_move s = (s, false)

-- Where the tasks and the payment are loaded, the flow and the list of transitions offer the same
-- states in the same order and block the same ones; the list has the current state in front.
pub flow-transitions_agree :
    (s : PedidoEstado) (workflow : WorkflowType) (progress : TransitionContext)
    (payment : PedidoPagoEstado)
    → map option_move
        (get_allowed_pedido_status_transitions s (some progress) workflow (some payment))
      ≡ current_move s
        ∷ map flow_move (offered (get_pedido_status_flow s (loaded workflow progress payment)))
unfolding get_allowed_pedido_status_transitions get_pedido_status_flow
flow-transitions_agree s workflow progress payment = ground arith
