-- ===== src/Dashboard/Pending.antt =====
-- src/lib/dashboard/get-dashboard-work-items.ts: the requests that wait, and the whole of what the
-- page shows. The time of the answer is left out, and so is what is logged.
pub mod Waiting
use godel_design.Prelude.{
  ℕ, zero, suc, ◌+◌, ◌-◌, ltb, List, [], ◌++◌, Bool, true, false, if◌then◌else◌, Option, some, none,
  map, take, length,
}
use godel_design.Database.{SolicitudEstado, nueva, contactada, aprobada}
use godel_design.JsText.{Text, codes}
use godel_design.JsSort.{Sign}
use godel_design.Pedidos.TaskProgress.{Float}
use godel_design.Dashboard.WorkItems.{
  SolicitudItem, SolicitudRow, map_solicitud_item, sort_pending_solicitudes,
}
use godel_design.Dashboard.Reads.{DashboardClient, resolve_count, resolve_rows, ◌>>=◌}
use godel_design.Dashboard.Board.{Board, load_pedido_board, how_many_more}

pub record PendingGroup : Type 0 where
  pub items : List SolicitudItem
  pub total_count : ℕ
  pub visible_limit : ℕ
  pub more_count : ℕ
  pub more_href : Text

abbrev pub pending_solicitudes_limit : ℕ
pending_solicitudes_limit = 8

abbrev pub pending_group : ℕ → List SolicitudItem → PendingGroup
pending_group total_count items = record {
  items = items;
  total_count = total_count;
  visible_limit = pending_solicitudes_limit;
  more_count = how_many_more total_count (length items);
  more_href = codes "/dashboard/solicitudes";
}

-- `status === "aprobada"`: an approved request waits until it is converted.
abbrev pub needs_unconverted : SolicitudEstado → Bool
needs_unconverted aprobada = true
needs_unconverted _ = false

pub data DashboardContext : Type 0 where
  management : DashboardContext
  worker : (profile_id : Text) → DashboardContext

pub data WorkItems : Type 0 where
  management_items : PendingGroup → Board → WorkItems
  worker_items : Board → WorkItems

pub data WorkItemsResult : Type 0 where
  loaded : WorkItems → WorkItemsResult
  failed : (message : Text) → WorkItemsResult

module _ {Number : Type 0} (client : DashboardClient Number) where
  unfoldable pub count_management_pending_solicitudes : Option ℕ
  unfolding resolve_count
  count_management_pending_solicitudes = do
    nuevas ← resolve_count (client.count_solicitudes nueva false)
    en_revision ← resolve_count (client.count_solicitudes SolicitudEstado.en_revision false)
    contactadas ← resolve_count (client.count_solicitudes contactada false)
    aprobadas_sin_convertir ← resolve_count (client.count_solicitudes aprobada true)
    some (nuevas + en_revision + contactadas + aprobadas_sin_convertir)

  unfoldable pub list_pending_solicitud_rows_by_status :
      SolicitudEstado → ℕ → Option (List SolicitudRow)
  unfolding resolve_rows
  list_pending_solicitud_rows_by_status status zero = some []
  list_pending_solicitud_rows_by_status status (suc limit) =
      resolve_rows (client.list_solicitudes status (needs_unconverted status) (suc limit))

  unfoldable pub other_rows : ℕ → Option (List SolicitudRow)
  unfolding list_pending_solicitud_rows_by_status
  other_rows zero = some []
  other_rows (suc remaining) = do
    en_revision ← list_pending_solicitud_rows_by_status SolicitudEstado.en_revision (suc remaining)
    contactadas ← list_pending_solicitud_rows_by_status contactada (suc remaining)
    aprobadas ← list_pending_solicitud_rows_by_status aprobada (suc remaining)
    some (en_revision ++ contactadas ++ aprobadas)

  unfoldable pub list_management_pending_solicitudes : (Text → Text → Sign) → Option PendingGroup
  unfolding count_management_pending_solicitudes other_rows list_pending_solicitud_rows_by_status
      sort_pending_solicitudes map_solicitud_item
  list_management_pending_solicitudes locale_compare = do
    total_count ← count_management_pending_solicitudes
    nuevas ← list_pending_solicitud_rows_by_status nueva pending_solicitudes_limit
    others ← other_rows (pending_solicitudes_limit - length nuevas)
    some (
        pending_group total_count (
          take pending_solicitudes_limit
            (map map_solicitud_item (sort_pending_solicitudes locale_compare (nuevas ++ others)))))

abbrev pub generic_work_items_error : Text
generic_work_items_error =
    codes "No se pudieron cargar los paneles operativos. Inténtalo nuevamente."

abbrev pub or_failed : Option WorkItems → WorkItemsResult
or_failed none = failed generic_work_items_error
or_failed (some items) = loaded items

module _ (locale_compare : Text → Text → Sign) (f : Float) (client : DashboardClient f.Number)
    (today next_seven_days : Text) where
  abbrev board_for : Option Text → Option Board
  board_for = load_pedido_board locale_compare f client today next_seven_days

  items_for : DashboardContext → Option WorkItems
  unfolding list_management_pending_solicitudes load_pedido_board
  items_for management = do
    pending ← list_management_pending_solicitudes client locale_compare
    board ← board_for none
    some (management_items pending board)
  items_for (worker profile_id) = do board ← board_for (some profile_id); some (worker_items board)

  unfoldable pub load_dashboard_work_items : DashboardContext → WorkItemsResult
  unfolding items_for
  load_dashboard_work_items context = or_failed (items_for context)
