-- ===== src/Pedidos/TaskProgress/Counts.antt =====
-- task-progress.ts: the counts, and the grouping by order.
use godel_design.Prelude.{
  ◌+◌, List, [], ◌∷◌, ◌++◌, append-nil, append_assoc, true, if◌then◌else◌, length, length-keep, any,
  All, some, none, ◌≡◌, ◌≢◌, refl, sym, arith, ◌↔◌,
}
use godel_design.JsText.{Text, text_eq, text_eq_iff}
use godel_design.JsMap
use godel_design.Pedidos.TaskProgress.{
  Float, Task, completed_count, calculate_pedido_tasks_progress, tasks_of, group_tasks,
  calculate_pedido_tasks_progress_by_pedido_id,
}

module _ (f : Float) where
  open f use {Number}

  abbrev pub IsDone : Task Number → Type 0
  IsDone task = task.is_completed ≡ true

  all-IsDone_iff :
      (tasks : List (Task Number)) → (completed_count f tasks ≡ length tasks) ↔ All IsDone tasks
  all-IsDone_iff [] = (λ e. tt, λ h. refl)
  all-IsDone_iff (task ∷ tasks) =
      ground (arith, all-IsDone_iff tasks, length-keep (λ (t : Task Number). t.is_completed) tasks)

  -- The counts add up, there are tasks exactly when the list is not empty, and the order is complete
  -- exactly when there are tasks and each is completed.
  pub tasks_progress_counts :
      (tasks : List (Task Number))
      → let p = calculate_pedido_tasks_progress f tasks in
        (p.total_tasks ≡ length tasks)
        × (p.completed_tasks + p.pending_tasks ≡ p.total_tasks)
        × ((p.has_tasks ≡ true) ↔ (tasks ≢ []))
        × ((p.is_complete ≡ true) ↔ ((tasks ≢ []) × All IsDone tasks))
  unfolding calculate_pedido_tasks_progress
  tasks_progress_counts [] = ground arith
  tasks_progress_counts (task ∷ tasks) = ground (
    arith,
    all-IsDone_iff (task ∷ tasks),
    length-keep (λ (t : Task Number). t.is_completed) (task ∷ tasks),
  )

  -- The tasks of one order, in the order in which they were read.
  abbrev pub own_tasks : Text → List (Text × Task Number) → List (Task Number)
  own_tasks id [] = []
  own_tasks id ((j, task) ∷ rest) =
      let later = own_tasks id rest in if text_eq j id then task ∷ later else later

  group_tasks-own :
      (id : Text) (tasks : List (Text × Task Number)) (groups : List (Text × List (Task Number)))
      → tasks_of f (JsMap.get id (group_tasks f groups tasks))
        ≡ tasks_of f (JsMap.get id groups) ++ own_tasks id tasks
  unfolding group_tasks
  group_tasks-own id [] groups = sym (append-nil _)
  group_tasks-own id ((j, task) ∷ rest) groups =
      let added = tasks_of f (JsMap.get j groups) ++ task ∷ [] in
      ground (
        arith,
        group_tasks-own id rest (JsMap.set j added groups),
        JsMap.get-set j id added groups,
        append_assoc (tasks_of f (JsMap.get id groups)) (task ∷ []) (own_tasks id rest),
        text_eq_iff j id,
      )

  -- The map holds the orders that were asked for and no others, each with the progress of the tasks
  -- that carry its id.
  pub progress_by_pedido_id_lem :
      (ids : List Text) (tasks : List (Text × Task Number)) (id : Text)
      → JsMap.get id (calculate_pedido_tasks_progress_by_pedido_id f ids tasks) ≡ (
          if any (text_eq id) ids
          then some (calculate_pedido_tasks_progress f (own_tasks id tasks))
          else none)
  unfolding calculate_pedido_tasks_progress_by_pedido_id JsMap.get
  progress_by_pedido_id_lem ids tasks id =
      let progress_of = λ (k : Text).
        calculate_pedido_tasks_progress f (tasks_of f (JsMap.get k (group_tasks f [] tasks))) in
      rw
        (JsMap.get-from_entries_const progress_of id ids [], group_tasks-own id tasks [], JsMap.get)
