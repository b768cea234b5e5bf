-- ===== src/Dashboard/Reads.antt =====
-- What the pages of src/lib/dashboard/ read: the queries of the client, which all only read, and the
-- progress of the orders by src/lib/pedidos/list-internal-pedidos-progress.ts. A query that fails
-- throws; the caller sees no more of it, so that here it is `none`.
pub mod Progress
use godel_design.Prelude.{
  ℕ, zero, suc, List, [], ◌∷◌, ◌++◌, Bool, Option, some, none, map, take, drop, length,
}
use godel_design.Database.{PedidoEstado, SolicitudEstado}
use godel_design.JsText.{Text}
use godel_design.JsMap
use godel_design.Backend.{Response, answer, error, threw}
use godel_design.Pedidos.TaskProgress.{
  Float, Task, TasksProgress, calculate_pedido_tasks_progress_by_pedido_id,
}
use godel_design.Dashboard.WorkItems.{PedidoRow, PedidoWithProgress, SolicitudRow}

-- `data` and `count` may be `null`. The queries of orders take the id of a worker whose orders they
-- are limited to.
pub record DashboardClient (Number : Type 0) : Type 0 where
  -- `.from("solicitudes")…eq("status", …)`, and `.is("converted_order_id", null)` on the flag.
  pub count_solicitudes : SolicitudEstado → (unconverted : Bool) → Response (Option ℕ)
  pub list_solicitudes :
      SolicitudEstado → (unconverted : Bool) → (limit : ℕ) → Response (Option (List SolicitudRow))
  -- `.from("pedidos")…in("status", …)`.
  pub count_pedidos : (worker : Option Text) → List PedidoEstado → Response (Option ℕ)
  pub list_pedidos :
      (worker : Option Text) → List PedidoEstado → (limit : ℕ) → Response (Option (List PedidoRow))
  -- `.from("pedido_tareas")…in("pedido_id", …)`, each task with the id of its order.
  pub list_tareas : List Text → Response (Option (List (Text × Task Number)))

-- A query that failed ends the whole reading.
infixl 10 ◌>>=◌
abbrev pub ◌>>=◌ : {A B : Type 0} → Option A → (A → Option B) → Option B
none >>= next = none
some a >>= next = next a

unfoldable pub resolve_count : Response (Option ℕ) → Option ℕ
resolve_count (answer none) = some 0
resolve_count (answer (some count)) = some count
resolve_count _ = none

unfoldable pub resolve_rows : {A : Type 0} → Response (Option (List A)) → Option (List A)
resolve_rows (answer none) = some []
resolve_rows (answer (some rows)) = some rows
resolve_rows _ = none

abbrev pub batch_size : ℕ
batch_size = 50

-- `max_rows` of src/supabase/config.toml: the service of the database cuts a longer answer there,
-- without an error.
abbrev pub max_rows : ℕ
max_rows = 1000

abbrev pub empty_task_progress : TasksProgress
empty_task_progress = record {
  total_tasks = 0;
  completed_tasks = 0;
  pending_tasks = 0;
  progress_percentage = 0;
  has_tasks = Bool.false;
  is_complete = Bool.false;
}

abbrev or_empty : Option TasksProgress → TasksProgress
or_empty none = empty_task_progress
or_empty (some progress) = progress

module _ (f : Float) (client : DashboardClient f.Number) where
  -- The loop over the batches, with a bound on their number.
  unfoldable pub load_tasks : ℕ → List Text → Option (List (Text × Task f.Number))
  unfolding resolve_rows
  load_tasks zero ids = some []
  load_tasks (suc n) [] = some []
  load_tasks (suc n) (id ∷ ids) = do
    tasks ← resolve_rows (client.list_tareas (take batch_size (id ∷ ids)))
    rest ← load_tasks n (drop batch_size (id ∷ ids))
    some (tasks ++ rest)

  unfoldable pub load_task_progress_by_pedido_id : List Text → Option (List (Text × TasksProgress))
  unfolding load_tasks calculate_pedido_tasks_progress_by_pedido_id
  load_task_progress_by_pedido_id [] = some []
  load_task_progress_by_pedido_id (id ∷ ids) = do
    tasks ← load_tasks (length (id ∷ ids)) (id ∷ ids)
    some (calculate_pedido_tasks_progress_by_pedido_id f (id ∷ ids) tasks)

  abbrev pub with_progress : List (Text × TasksProgress) → PedidoRow → PedidoWithProgress
  with_progress progress row = record { row = row; progress = or_empty (JsMap.get row.id progress) }

  unfoldable pub attach_task_progress_to_pedidos : List PedidoRow → Option (List PedidoWithProgress)
  unfolding load_task_progress_by_pedido_id JsMap.get
  attach_task_progress_to_pedidos [] = some []
  attach_task_progress_to_pedidos (row ∷ rows) = do
    progress ← load_task_progress_by_pedido_id (map (λ r. r.id) (row ∷ rows))
    some (map (with_progress progress) (row ∷ rows))
