-- ===== src/Dashboard/Board/Shown.antt =====
-- get-dashboard-work-items.ts: which orders a group of the board shows.
use mathlib.Core.List.{Perm}
use godel_design.Prelude.{
  ℕ, ◌+◌, ◌≤◌, min, List, ◌++◌, Option, some, ◌≡◌, refl, map, drop, length, length-map, length-take,
  take-append-drop, take_of_length-le, All, arith,
}
use godel_design.JsText.{Text}
use godel_design.JsSort.{Sign, sort, sort-perm, sort-IsAscending, take-le-drop, length-sort}
use godel_design.Backend.{answer}
use godel_design.Pedidos.TaskProgress.{Float}
use godel_design.Dashboard.WorkItems.{
  PedidoRow, PedidoWithProgress, map_pedido_item, get_pedido_attention_rank,
  sort_pedidos_by_attention, compare_pedidos,
}
use godel_design.Dashboard.WorkItems.Ordered.{compare_pedidos-RanksFirst}
use godel_design.Dashboard.Reads.{
  DashboardClient, resolve_count, resolve_rows, attach_task_progress_to_pedidos,
}
use godel_design.Dashboard.Board.{
  GroupConfig, BoardGroup, load_pedido_board_group, build_pedido_board_group, shown_pedidos,
  get_pedido_board_candidate_limit,
}

module _ (locale_compare : Text → Text → Sign) (f : Float) (client : DashboardClient f.Number)
    (today next_seven_days : Text) where
  abbrev rank : PedidoWithProgress → ℕ
  rank = get_pedido_attention_rank today next_seven_days

  abbrev shown : GroupConfig → List PedidoWithProgress → List PedidoWithProgress
  shown = shown_pedidos locale_compare f client today next_seven_days

  abbrev hidden : GroupConfig → List PedidoWithProgress → List PedidoWithProgress
  hidden c pedidos =
      drop c.visible_limit (sort_pedidos_by_attention locale_compare today next_seven_days pedidos)

  -- The orders shown and those left out are the orders read, and none of those left out ranks
  -- before one that is shown.
  abbrev pub AreMostUrgent :
      List PedidoWithProgress → List PedidoWithProgress → List PedidoWithProgress → Type 0
  AreMostUrgent pedidos best others =
      Perm (best ++ others) pedidos × All (λ x. All (λ y. rank x ≤ rank y) others) best

  shown-AreMostUrgent :
      (c : GroupConfig) (pedidos : List PedidoWithProgress)
      → AreMostUrgent pedidos (shown c pedidos) (hidden c pedidos)
  unfolding sort_pedidos_by_attention
  shown-AreMostUrgent c pedidos =
      let compare = compare_pedidos locale_compare today next_seven_days in
      (
        rw (take-append-drop c.visible_limit (sort compare pedidos)) (sort-perm compare pedidos),
        take-le-drop rank c.visible_limit (sort compare pedidos) (
            sort-IsAscending rank compare pedidos
              (compare_pedidos-RanksFirst locale_compare today next_seven_days)),
      )

  length-shown :
      (c : GroupConfig) (pedidos : List PedidoWithProgress)
      → length (shown c pedidos) ≡ min c.visible_limit (length pedidos)
  unfolding sort_pedidos_by_attention
  length-shown c pedidos =
      let compare = compare_pedidos locale_compare today next_seven_days in
      omega (arith, length-take c.visible_limit (sort compare pedidos), length-sort compare pedidos)

  items-shown :
      (c : GroupConfig) (pedidos : List PedidoWithProgress) (total : ℕ)
      → (build_pedido_board_group c
          (map (map_pedido_item today next_seven_days) (shown c pedidos))
          total).items
        ≡ map (map_pedido_item today next_seven_days) (shown c pedidos)
  unfolding build_pedido_board_group
  items-shown c pedidos total =
      let item = map_pedido_item today next_seven_days in
      take_of_length-le c.visible_limit (map item (shown c pedidos))
        (omega (arith, length-map (shown c pedidos) item, length-shown c pedidos))

  -- Where the three reads of a group answer, the group shows the most urgent of the orders read, as
  -- many as there are up to its limit, and what it shows and what it counts besides make up the
  -- total of the orders, if that is not below the number of those read.
  pub load_pedido_board_group_lem :
      (worker : Option Text) (c : GroupConfig) (total : ℕ) (rows : List PedidoRow)
      (pedidos : List PedidoWithProgress)
      → client.count_pedidos worker c.statuses ≡ answer (some total)
      → client.list_pedidos worker c.statuses (get_pedido_board_candidate_limit c.visible_limit)
        ≡ answer (some rows)
      → attach_task_progress_to_pedidos f client rows ≡ some pedidos
      → length pedidos ≤ total
      → (g : BoardGroup) × (load_pedido_board_group locale_compare f client today next_seven_days
            worker c
          ≡ some g)
        × (length g.items ≡ min c.visible_limit (length pedidos))
        × (length g.items + g.more_count ≡ total)
        × ((best others : List PedidoWithProgress) × (g.items
              ≡ map (map_pedido_item today next_seven_days) best)
            × AreMostUrgent pedidos best others)
  unfolding load_pedido_board_group resolve_count resolve_rows build_pedido_board_group
  load_pedido_board_group_lem worker c total rows pedidos counted listed attached le =
      let item = map_pedido_item today next_seven_days in
      let kept = items-shown c pedidos total in
      let many = length-map (shown c pedidos) item in
      let limit = length-shown c pedidos in
      (
        build_pedido_board_group c (map item (shown c pedidos)) total,
        rw (counted, listed, attached) refl,
        rw kept (omega (arith, many, limit)),
        rw kept (omega (arith, many, limit, le)),
        (shown c pedidos, hidden c pedidos, kept, shown-AreMostUrgent c pedidos),
      )
