-- ===== src/Dashboard/WorkItems.antt =====
-- src/lib/dashboard/get-dashboard-work-items.ts: the rows read, the order in which they are shown
-- and what is shown of each. How texts compare in the language of the page is a parameter. The
-- summary of the payment that an item also carries is left out.
pub mod Ordered
use godel_design.Prelude.{
  ℕ, ◌-◌, ltb, leb, ◌==◌, List, [], ◌∷◌, ◌++◌, Bool, true, false, not, ◌&&◌, if◌then◌else◌, map,
  take, length, is_empty, Option, some, none,
}
use godel_design.Database.{
  PedidoEstado, creado, solicitud_recibida, en_produccion, listo_entrega, same_pedido_estado,
  PedidoPrioridad, WorkflowType, SolicitudEstado, nueva,
}
use godel_design.JsText.{Text, codes, trim, replace_runs, is_space, text_eq}
use godel_design.JsSort.{Sign, negative, positive, sort}
use godel_design.JsMap
use godel_design.Pedidos.TaskProgress.{TasksProgress}
use godel_design.Dashboard.Helpers.{
  is_pedido_pending_review, does_pedido_workflow_require_tasks, is_pedido_atrasado,
  is_pedido_proximo_entrega,
}

pub record PedidoRow : Type 0 where
  pub id : Text
  pub order_number : ℕ
  pub title : Text
  pub description : Option Text
  pub status : PedidoEstado
  pub priority : PedidoPrioridad
  pub workflow_type : WorkflowType
  pub estimated_delivery_date : Option Text
  pub created_at : Text
  pub client_name : Option Text

pub record PedidoWithProgress : Type 0 where
  pub row : PedidoRow
  pub progress : TasksProgress

pub record SolicitudRow : Type 0 where
  pub id : Text
  pub client_name : Text
  pub client_phone : Text
  pub workflow_type : WorkflowType
  pub status : SolicitudEstado
  pub created_at : Text
  pub desired_date : Option Text
  pub converted_order_id : Option Text
  -- The name and the workflow of the service, where it can be read.
  pub service : Option (Text × WorkflowType)

abbrev pub is_in : PedidoEstado → PedidoWithProgress → Bool
is_in status pedido = same_pedido_estado pedido.row.status status

unfoldable pub is_review_without_required_tasks : PedidoWithProgress → Bool
unfolding same_pedido_estado does_pedido_workflow_require_tasks
is_review_without_required_tasks pedido =
    is_in PedidoEstado.en_revision pedido
    && does_pedido_workflow_require_tasks pedido.row.workflow_type
    && not pedido.progress.has_tasks

unfoldable pub is_production_with_pending_required_tasks : PedidoWithProgress → Bool
unfolding same_pedido_estado does_pedido_workflow_require_tasks
is_production_with_pending_required_tasks pedido =
    is_in en_produccion pedido
    && does_pedido_workflow_require_tasks pedido.row.workflow_type
    && not pedido.progress.is_complete

abbrev pub is_late : Text → PedidoWithProgress → Bool
is_late today pedido = is_pedido_atrasado pedido.row.status pedido.row.estimated_delivery_date today

abbrev pub is_due : Text → Text → PedidoWithProgress → Bool
is_due today next_seven_days pedido =
    is_pedido_proximo_entrega pedido.row.status pedido.row.estimated_delivery_date today
      next_seven_days

unfoldable pub get_pedido_attention_rank : Text → Text → PedidoWithProgress → ℕ
unfolding is_pedido_pending_review is_pedido_atrasado is_pedido_proximo_entrega
    is_review_without_required_tasks is_production_with_pending_required_tasks same_pedido_estado
get_pedido_attention_rank today next_seven_days pedido =
    if is_pedido_pending_review pedido.row.status
    then 0
    else if is_late today pedido
    then 1
    else if is_due today next_seven_days pedido
    then 2
    else if is_review_without_required_tasks pedido
    then 3
    else if is_production_with_pending_required_tasks pedido
    then 4
    else if is_in listo_entrega pedido
    then 5
    else 6

unfoldable pub solicitud_rank : SolicitudRow → ℕ
solicitud_rank solicitud = elim solicitud.status [ nueva ↦ 0 | _ ↦ 1 ]

abbrev pub far_date : Option Text → Text
far_date none = codes "9999-12-31"
far_date (some date) = date

-- `left - right`, where the two differ.
abbrev pub by_rank : ℕ → ℕ → Sign → Sign
by_rank left right rest =
    if not (left == right) then (if ltb left right then negative else positive) else rest

module _ (locale_compare : Text → Text → Sign) where
  unfoldable pub compare_solicitudes : SolicitudRow → SolicitudRow → Sign
  compare_solicitudes left right =
      by_rank (solicitud_rank left) (solicitud_rank right)
        (locale_compare right.created_at left.created_at)

  unfoldable pub sort_pending_solicitudes : List SolicitudRow → List SolicitudRow
  unfolding sort
  sort_pending_solicitudes solicitudes = sort compare_solicitudes solicitudes

  unfoldable pub compare_pedidos : Text → Text → PedidoWithProgress → PedidoWithProgress → Sign
  compare_pedidos today next_seven_days left right =
      let left_date = far_date left.row.estimated_delivery_date in
      let right_date = far_date right.row.estimated_delivery_date in
      by_rank (get_pedido_attention_rank today next_seven_days left)
        (get_pedido_attention_rank today next_seven_days right)
        (if not (text_eq left_date right_date)
          then locale_compare left_date right_date
          else locale_compare right.row.created_at left.row.created_at)

  unfoldable pub sort_pedidos_by_attention :
      Text → Text → List PedidoWithProgress → List PedidoWithProgress
  unfolding sort
  sort_pedidos_by_attention today next_seven_days pedidos =
      sort (compare_pedidos today next_seven_days) pedidos

pub record SolicitudItem : Type 0 where
  pub id : Text
  pub href : Text
  pub cliente_nombre : Text
  pub cliente_telefono : Text
  pub tipo_servicio : Text
  pub workflow_type : WorkflowType
  pub status : SolicitudEstado
  pub created_at : Text
  pub fecha_deseada : Option Text
  pub converted_order_id : Option Text

abbrev service_name : Option (Text × WorkflowType) → Text
service_name none = codes "Servicio no disponible"
service_name (some service) = service.0

abbrev service_workflow : WorkflowType → Option (Text × WorkflowType) → WorkflowType
service_workflow own none = own
service_workflow own (some service) = service.1

unfoldable pub map_solicitud_item : SolicitudRow → SolicitudItem
map_solicitud_item solicitud = record {
  id = solicitud.id;
  href = codes "/dashboard/solicitudes/" ++ solicitud.id;
  cliente_nombre = solicitud.client_name;
  cliente_telefono = solicitud.client_phone;
  tipo_servicio = service_name solicitud.service;
  workflow_type = service_workflow solicitud.workflow_type solicitud.service;
  status = solicitud.status;
  created_at = solicitud.created_at;
  fecha_deseada = solicitud.desired_date;
  converted_order_id = solicitud.converted_order_id;
}

-- The description on one line, cut so that it has at most 120 units.
unfoldable pub get_pedido_description_snippet : Option Text → Option Text
unfolding replace_runs trim is_space
get_pedido_description_snippet none = none
get_pedido_description_snippet (some description) =
    let normalized = trim (replace_runs is_space 0x20 false description) in
    if is_empty normalized
    then none
    else if ltb 120 (length normalized)
    then some (take 117 normalized ++ codes "...")
    else some normalized

pub record Attention : Type 0 where
  pub is_pending_review : Bool
  pub is_overdue : Bool
  pub is_due_soon : Bool
  pub is_review_without_tasks : Bool
  pub is_production_with_pending_tasks : Bool
  pub is_ready_for_delivery : Bool

pub record PedidoItem : Type 0 where
  pub id : Text
  pub href : Text
  pub numero_pedido : ℕ
  pub title : Text
  pub workflow_type : WorkflowType
  pub description_snippet : Option Text
  pub status : PedidoEstado
  pub priority : PedidoPrioridad
  pub fecha_entrega_estimada : Option Text
  pub created_at : Text
  pub cliente_nombre : Option Text
  pub progress : TasksProgress
  pub attention : Attention

unfoldable pub map_pedido_item : Text → Text → PedidoWithProgress → PedidoItem
unfolding get_pedido_description_snippet is_pedido_pending_review is_pedido_atrasado
    is_pedido_proximo_entrega is_review_without_required_tasks
    is_production_with_pending_required_tasks same_pedido_estado
map_pedido_item today next_seven_days pedido = record {
  id = pedido.row.id;
  href = codes "/dashboard/pedidos/" ++ pedido.row.id;
  numero_pedido = pedido.row.order_number;
  title = pedido.row.title;
  workflow_type = pedido.row.workflow_type;
  description_snippet = get_pedido_description_snippet pedido.row.description;
  status = pedido.row.status;
  priority = pedido.row.priority;
  fecha_entrega_estimada = pedido.row.estimated_delivery_date;
  created_at = pedido.row.created_at;
  cliente_nombre = pedido.row.client_name;
  progress = pedido.progress;
  attention = record {
    is_pending_review = is_pedido_pending_review pedido.row.status;
    is_overdue = is_late today pedido;
    is_due_soon = is_due today next_seven_days pedido;
    is_review_without_tasks = is_review_without_required_tasks pedido;
    is_production_with_pending_tasks = is_production_with_pending_required_tasks pedido;
    is_ready_for_delivery = is_in listo_entrega pedido;
  };
}
