-- ===== src/Dashboard/Board.antt =====
-- src/lib/dashboard/get-dashboard-work-items.ts: the groups of the board of orders, for the
-- management and for a worker. The two loaders of a group differ in their queries alone and are one
-- function over the worker that the queries are limited to.
pub mod Shown
use godel_design.Prelude.{
  ℕ, ◌-◌, ◌*◌, max, List, [], ◌∷◌, String, Option, some, none, map, take, length,
}
use godel_design.Database.{PedidoEstado}
use godel_design.JsText.{Text, codes}
use godel_design.JsSort.{Sign}
use godel_design.Pedidos.TaskProgress.{Float}
use godel_design.Dashboard.Helpers.{
  dashboard_pedido_new_statuses, dashboard_pedido_review_statuses,
  dashboard_pedido_production_statuses, dashboard_pedido_ready_statuses,
}
use godel_design.Dashboard.WorkItems.{
  PedidoItem, PedidoWithProgress, map_pedido_item, sort_pedidos_by_attention,
}
use godel_design.Dashboard.Reads.{
  DashboardClient, resolve_count, resolve_rows, attach_task_progress_to_pedidos, ◌>>=◌,
}

pub data GroupKey : Type 0 where
  nuevos en_revision en_produccion listos_entrega : GroupKey

pub record GroupConfig : Type 0 where
  pub key : GroupKey
  pub title : Text
  pub statuses : List PedidoEstado
  pub visible_limit : ℕ
  pub more_href : Text

pub record BoardGroup : Type 0 where
  pub key : GroupKey
  pub title : Text
  pub statuses : List PedidoEstado
  pub items : List PedidoItem
  pub total_count : ℕ
  pub visible_limit : ℕ
  pub more_count : ℕ
  pub more_href : Text

abbrev config : GroupKey → String → List PedidoEstado → ℕ → String → GroupConfig
config key title statuses limit href = record {
  key = key;
  title = codes title;
  statuses = statuses;
  visible_limit = limit;
  more_href = codes href;
}

abbrev pub nuevos_config : GroupConfig
nuevos_config = config nuevos "Nuevos" dashboard_pedido_new_statuses 4 "/dashboard/pedidos"

abbrev pub en_revision_config : GroupConfig
en_revision_config =
    config en_revision "En revisión" dashboard_pedido_review_statuses 4
      "/dashboard/pedidos?status=en_revision"

abbrev pub en_produccion_config : GroupConfig
en_produccion_config =
    config en_produccion "En producción" dashboard_pedido_production_statuses 6
      "/dashboard/pedidos?status=en_produccion"

abbrev pub listos_entrega_config : GroupConfig
listos_entrega_config =
    config listos_entrega "Listos para entrega" dashboard_pedido_ready_statuses 8
      "/dashboard/pedidos?status=listo_entrega"

abbrev pub query_multiplier : ℕ
query_multiplier = 8

unfoldable pub get_pedido_board_candidate_limit : ℕ → ℕ
get_pedido_board_candidate_limit visible_limit =
    max visible_limit (visible_limit * query_multiplier)

-- `Math.max(0, total - shown)`.
abbrev pub how_many_more : ℕ → ℕ → ℕ
how_many_more total shown = total - shown

unfoldable pub build_pedido_board_group : GroupConfig → List PedidoItem → ℕ → BoardGroup
build_pedido_board_group c items total_count =
    let visible_items = take c.visible_limit items in
    record {
      key = c.key;
      title = c.title;
      statuses = c.statuses;
      items = visible_items;
      total_count = total_count;
      visible_limit = c.visible_limit;
      more_count = how_many_more total_count (length visible_items);
      more_href = c.more_href;
    }

pub record Board : Type 0 where
  pub nuevos : BoardGroup
  pub en_revision : BoardGroup
  pub en_produccion : BoardGroup
  pub listos_entrega : BoardGroup

module _ (locale_compare : Text → Text → Sign) (f : Float) (client : DashboardClient f.Number)
    (today next_seven_days : Text) where
  -- The orders that the group shows, of those read.
  abbrev pub shown_pedidos : GroupConfig → List PedidoWithProgress → List PedidoWithProgress
  shown_pedidos c pedidos =
      take c.visible_limit (sort_pedidos_by_attention locale_compare today next_seven_days pedidos)

  unfoldable pub load_pedido_board_group : Option Text → GroupConfig → Option BoardGroup
  unfolding resolve_count resolve_rows attach_task_progress_to_pedidos sort_pedidos_by_attention
      map_pedido_item build_pedido_board_group get_pedido_board_candidate_limit
  load_pedido_board_group worker c = do
    total_count ← resolve_count (client.count_pedidos worker c.statuses)
    rows ←
        resolve_rows
          (client.list_pedidos worker c.statuses (get_pedido_board_candidate_limit c.visible_limit))
    pedidos ← attach_task_progress_to_pedidos f client rows
    some (
        build_pedido_board_group c
          (map (map_pedido_item today next_seven_days) (shown_pedidos c pedidos)) total_count)

  unfoldable pub load_pedido_board : Option Text → Option Board
  unfolding load_pedido_board_group
  load_pedido_board worker = do
    new ← load_pedido_board_group worker nuevos_config
    review ← load_pedido_board_group worker en_revision_config
    production ← load_pedido_board_group worker en_produccion_config
    ready ← load_pedido_board_group worker listos_entrega_config
    some (record {
      nuevos = new;
      en_revision = review;
      en_produccion = production;
      listos_entrega = ready;
    })
