-- ===== src/Dashboard/WorkItems/Ordered.antt =====
-- The order of get-dashboard-work-items.ts: both comparisons look at the rank first.
use godel_design.Prelude.{ℕ, ◌≤◌, ◌≡◌, true, false, arith}
use godel_design.JsText.{Text}
use godel_design.JsSort.{Sign, is_positive, RanksFirst}
use godel_design.Dashboard.WorkItems.{
  compare_solicitudes, solicitud_rank, compare_pedidos, get_pedido_attention_rank, by_rank,
}

by_rank_lem :
    (m n : ℕ) (rest : Sign)
    → ((is_positive (by_rank m n rest) ≡ true → n ≤ m)
        × (is_positive (by_rank m n rest) ≡ false → m ≤ n))
by_rank_lem m n rest = (λ h. ground arith, λ h. ground arith)

module _ (locale_compare : Text → Text → Sign) where
  pub compare_solicitudes-RanksFirst :
      RanksFirst solicitud_rank (compare_solicitudes locale_compare)
  unfolding compare_solicitudes
  compare_solicitudes-RanksFirst left right = by_rank_lem _ _ _

  pub compare_pedidos-RanksFirst :
      (today next_seven_days : Text)
      → RanksFirst
          (get_pedido_attention_rank today next_seven_days)
          (compare_pedidos locale_compare today next_seven_days)
  unfolding compare_pedidos
  compare_pedidos-RanksFirst today next_seven_days left right = by_rank_lem _ _ _
