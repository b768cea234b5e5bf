-- ===== src/Pedidos/TaskProgress.antt =====
-- src/lib/pedidos/task-progress.ts: the progress of an order from its tasks. The percentages are
-- floating-point numbers; their type, operations and order are a parameter, with the rules of
-- IEEE 754 that the bounds rest on as its laws: rounding keeps the order and leaves whole numbers
-- below 2 ^ 53 as they are.
pub mod Bounds
pub mod Counts
use godel_design.Prelude.{
  ℕ, ◌+◌, ◌-◌, ◌*◌, ◌^◌, ◌≤◌, ◌<◌, List, [], ◌∷◌, ◌++◌, Bool, true, false, not, ◌&&◌, ◌||◌, ◌==◌,
  if◌then◌else◌, length, keep, Option, some, none, ◌≡◌, is_empty, map,
}
use mathlib.Core.List.{foldl}
use godel_design.Database.{PedidoTareaTipo, simple, cuantificada}
use godel_design.JsText.{Text}
use godel_design.JsMap

pub record Float : Type 1 where
  pub Number : Type 0
  pub num : ℕ → Number
  pub lt : Number → Number → Bool
  pub add : Number → Number → Number
  pub mul : Number → Number → Number
  pub div : Number → Number → Number
  -- `Math.round`, used of numbers from 0 to 100.
  pub round : Number → ℕ
  pub lt_irreflexive : (a : Number) → lt a a ≡ false
  pub lt-num : (m n : ℕ) → n ≤ m → m < 2 ^ 53 → lt (num m) (num n) ≡ false
  pub add-lower :
      (a b : Number) → lt a (num 0) ≡ false → lt b (num 0) ≡ false → lt (add a b) (num 0) ≡ false
  pub add-upper :
      (a b : Number) (m n : ℕ)
      → lt (num m) a ≡ false
      → lt (num n) b ≡ false
      → m + n < 2 ^ 53
      → lt (num (m + n)) (add a b) ≡ false
  pub div-lower :
      (a : Number) (n : ℕ) → lt a (num 0) ≡ false → 0 < n → lt (div a (num n)) (num 0) ≡ false
  pub div-upper :
      (a : Number) (m n : ℕ)
      → lt (num (m * n)) a ≡ false
      → 0 < n
      → m * n < 2 ^ 53
      → lt (num m) (div a (num n)) ≡ false
  pub round-upper :
      (a : Number) (m : ℕ) → lt a (num 0) ≡ false → lt (num m) a ≡ false → m < 2 ^ 53 → round a ≤ m

pub record TasksProgress : Type 0 where
  pub total_tasks : ℕ
  pub completed_tasks : ℕ
  pub pending_tasks : ℕ
  pub progress_percentage : ℕ
  pub has_tasks : Bool
  pub is_complete : Bool

pub record Task (Number : Type 0) : Type 0 where
  pub task_type : PedidoTareaTipo
  pub target_quantity : Option Number
  pub completed_quantity : Option Number
  pub is_completed : Bool

module _ (f : Float) where
  open f use {Number, num, lt, add, mul, div, round}

  -- `Math.min(Math.max(raw, 0), 100)`.
  unfoldable pub clamp_percent : Number → Number
  clamp_percent raw =
      let low = if lt raw (num 0) then num 0 else raw in if lt (num 100) low then num 100 else low

  abbrev or_zero : Option Number → Number
  or_zero none = num 0
  or_zero (some q) = q

  quantity_progress : Option Number → Option Number → Number
  quantity_progress completed none = num 0
  quantity_progress completed (some target) =
      if lt (num 0) target
      then clamp_percent (mul (div (or_zero completed) target) (num 100))
      else num 0

  unfoldable pub calculate_single_task_progress : Task Number → Number
  unfolding quantity_progress
  calculate_single_task_progress task = elim task.task_type [
    | simple ↦ if task.is_completed then num 100 else num 0
    | cuantificada ↦ quantity_progress task.completed_quantity task.target_quantity
  ]

  unfoldable pub progress_sum : Number → List (Task Number) → Number
  progress_sum sum [] = sum
  progress_sum sum (task ∷ tasks) =
      progress_sum (add sum (calculate_single_task_progress task)) tasks

  abbrev pub completed_count : List (Task Number) → ℕ
  completed_count tasks = length (keep (λ task. task.is_completed) tasks)

  unfoldable pub calculate_pedido_tasks_progress : List (Task Number) → TasksProgress
  calculate_pedido_tasks_progress tasks =
      if length tasks == 0
      then record {
        total_tasks = 0;
        completed_tasks = 0;
        pending_tasks = 0;
        progress_percentage = 0;
        has_tasks = false;
        is_complete = false;
      }
      else record {
        total_tasks = length tasks;
        completed_tasks = completed_count tasks;
        pending_tasks = length tasks - completed_count tasks;
        progress_percentage = round (div (progress_sum (num 0) tasks) (num (length tasks)));
        has_tasks = true;
        is_complete = completed_count tasks == length tasks;
      }

  abbrev tasks_of : Option (List (Task Number)) → List (Task Number)
  tasks_of none = []
  tasks_of (some tasks) = tasks

  -- The loop that fills `tasksByPedidoId`; a task comes with the id of its order.
  unfoldable pub group_tasks :
      List (Text × List (Task Number))
      → List (Text × Task Number)
      → List (Text × List (Task Number))
  group_tasks groups [] = groups
  group_tasks groups ((id, task) ∷ rest) =
      group_tasks (JsMap.set id (tasks_of (JsMap.get id groups) ++ task ∷ []) groups) rest

  unfoldable pub calculate_pedido_tasks_progress_by_pedido_id :
      List Text → List (Text × Task Number) → List (Text × TasksProgress)
  calculate_pedido_tasks_progress_by_pedido_id ids tasks =
      let groups = group_tasks [] tasks in
      JsMap.from_entries []
        (map (λ id. (id, calculate_pedido_tasks_progress (tasks_of (JsMap.get id groups)))) ids)
