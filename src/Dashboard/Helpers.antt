-- ===== src/Dashboard/Helpers.antt =====
-- src/lib/dashboard/helpers.ts: the states that the page groups orders and requests by, and which
-- orders are late or due. The dates of today and of the seventh day from now, which the page takes
-- from the clock, are texts that the caller gives.
use godel_design.Prelude.{
  List, [], ◌∷◌, Bool, true, false, not, ◌&&◌, any, is_empty, Option, some, none,
}
use godel_design.Database.{
  PedidoEstado, creado, solicitud_recibida, en_produccion, listo_entrega, entregado, cancelado,
  same_pedido_estado, WorkflowType, encargo, impresion,
}
use godel_design.JsText.{Text}
use godel_design.Validators.Date.{text_lt}

abbrev pub final_pedido_statuses : List PedidoEstado
final_pedido_statuses = entregado ∷ cancelado ∷ []

abbrev pub pending_review_pedido_statuses : List PedidoEstado
pending_review_pedido_statuses = creado ∷ solicitud_recibida ∷ []

abbrev pub dashboard_pedido_new_statuses : List PedidoEstado
dashboard_pedido_new_statuses = creado ∷ solicitud_recibida ∷ []

abbrev pub dashboard_pedido_review_statuses : List PedidoEstado
dashboard_pedido_review_statuses = PedidoEstado.en_revision ∷ []

abbrev pub dashboard_pedido_production_statuses : List PedidoEstado
dashboard_pedido_production_statuses = en_produccion ∷ []

abbrev pub dashboard_pedido_ready_statuses : List PedidoEstado
dashboard_pedido_ready_statuses = listo_entrega ∷ []

-- `statuses.includes(status)`.
abbrev pub is_among : List PedidoEstado → PedidoEstado → Bool
is_among statuses status = any (same_pedido_estado status) statuses

unfoldable pub is_pedido_activo : PedidoEstado → Bool
unfolding same_pedido_estado
is_pedido_activo status = not (is_among final_pedido_statuses status)

unfoldable pub is_pedido_pending_review : PedidoEstado → Bool
unfolding same_pedido_estado
is_pedido_pending_review status = is_among pending_review_pedido_statuses status

unfoldable pub does_pedido_workflow_require_tasks : WorkflowType → Bool
does_pedido_workflow_require_tasks encargo = true
does_pedido_workflow_require_tasks impresion = false

-- A date of `null` or of no characters is falsy.
unfoldable pub is_pedido_atrasado : PedidoEstado → Option Text → Text → Bool
unfolding is_pedido_activo text_lt
is_pedido_atrasado status none today = false
is_pedido_atrasado status (some date) today =
    not (is_empty date) && text_lt date today && is_pedido_activo status

unfoldable pub is_pedido_proximo_entrega : PedidoEstado → Option Text → Text → Text → Bool
unfolding is_pedido_activo text_lt
is_pedido_proximo_entrega status none today next_seven_days = false
is_pedido_proximo_entrega status (some date) today next_seven_days =
    not (is_empty date)
    && not (text_lt date today)
    && not (text_lt next_seven_days date)
    && is_pedido_activo status
