-- ===== src/Pedidos/TaskProgress/Bounds.antt =====
-- task-progress.ts: the percentages lie between 0 and 100.
use godel_design.Prelude.{
  ℕ, ◌+◌, ◌*◌, ◌^◌, ◌≤◌, ◌<◌, List, [], ◌∷◌, false, length, Option, some, none, ◌≡◌, arith,
}
use godel_design.Pedidos.TaskProgress.{
  Float, Task, or_zero, quantity_progress, clamp_percent, calculate_single_task_progress,
  progress_sum, calculate_pedido_tasks_progress,
}

module _ (f : Float) where
  open f use {
    Number, num, lt, add, div, round, lt_irreflexive, lt-num, add-lower, add-upper, div-lower,
    div-upper, round-upper,
  }

  abbrev pub IsBetween : ℕ → Number → Type 0
  IsBetween m a = (lt a (num 0) ≡ false) × (lt (num m) a ≡ false)

  num-IsBetween : (m n : ℕ) → n ≤ m → m < 2 ^ 53 → IsBetween m (num n)
  num-IsBetween m n h small = (lt-num n 0 (omega arith) (omega arith), lt-num m n h small)

  clamp_percent-IsBetween : (raw : Number) → IsBetween 100 (clamp_percent f raw)
  unfolding clamp_percent
  clamp_percent-IsBetween raw = ground (arith, num-IsBetween 100 0, num-IsBetween 100 100)

  quantity_progress-IsBetween :
      (completed target : Option Number) → IsBetween 100 (quantity_progress f completed target)
  unfolding quantity_progress
  quantity_progress-IsBetween completed none = num-IsBetween 100 0 (omega arith) (omega arith)
  quantity_progress-IsBetween completed (some target) = ground (
    arith,
    num-IsBetween 100 0,
    clamp_percent-IsBetween (f.mul (div (or_zero f completed) target) (num 100)),
  )

  -- The progress of a task is a percentage, whatever its quantities are.
  pub single_task_progress-IsBetween :
      (task : Task Number) → IsBetween 100 (calculate_single_task_progress f task)
  unfolding calculate_single_task_progress
  single_task_progress-IsBetween task = ground (
    arith,
    num-IsBetween 100 0,
    num-IsBetween 100 100,
    quantity_progress-IsBetween task.completed_quantity task.target_quantity,
  )

  progress_sum-IsBetween :
      (tasks : List (Task Number)) (m n : ℕ) (sum : Number)
      → IsBetween m sum
      → m + length tasks * 100 ≡ n
      → n < 2 ^ 53
      → IsBetween n (progress_sum f sum tasks)
  unfolding progress_sum
  progress_sum-IsBetween [] m n sum h e small = let k : m ≡ n = omega arith in rw (← k) h
  progress_sum-IsBetween (task ∷ tasks) m n sum h e small =
      let a = calculate_single_task_progress f task in
      let k = single_task_progress-IsBetween task in
      progress_sum-IsBetween tasks (m + 100) n (add sum a)
        (add-lower sum a h.0 k.0, add-upper sum a m 100 h.1 k.1 (omega arith)) (omega arith) small

  mean-le-100 :
      (tasks : List (Task Number))
      → 0 < length tasks
      → length tasks < 2 ^ 46
      → round (div (progress_sum f (num 0) tasks) (num (length tasks))) ≤ 100
  mean-le-100 tasks pos h =
      let n = length tasks in
      let sum = progress_sum f (num 0) tasks in
      let start = num-IsBetween 0 0 (omega arith) (omega arith) in
      let (low, high) =
        progress_sum-IsBetween tasks 0 (100 * n) (num 0) start (omega arith) (omega arith) in
      round-upper (div sum (num n)) 100 (div-lower sum n low pos)
        (div-upper sum 100 n high pos (omega arith)) (omega arith)

  -- Of fewer than 2 ^ 46 tasks the progress of the order is at most 100.
  tasks_progress-le-100 :
      (tasks : List (Task Number))
      → length tasks < 2 ^ 46
      → (calculate_pedido_tasks_progress f tasks).progress_percentage ≤ 100
  unfolding calculate_pedido_tasks_progress
  tasks_progress-le-100 tasks h = ground (arith, mean-le-100 tasks)
