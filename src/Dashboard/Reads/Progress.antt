-- ===== src/Dashboard/Reads/Progress.antt =====
-- The progress of list-internal-pedidos-progress.ts, read in batches of 50 orders.
use godel_design.Prelude.{
  ℕ, zero, suc, ◌≤◌, List, [], ◌∷◌, ◌++◌, append-nil, Bool, true, false, ◌||◌, if◌then◌else◌, map,
  any, keep, take, drop, length, some, ◌≡◌, refl, ap, arith, Bool-cases, inl, inr, sym, subst,
  length-map, All, All-imp,
}
use godel_design.JsText.{Text, text_eq, text_eq_iff}
use godel_design.JsMap
use godel_design.Backend.{answer}
use godel_design.Pedidos.TaskProgress.{
  Float, Task, TasksProgress, calculate_pedido_tasks_progress,
  calculate_pedido_tasks_progress_by_pedido_id,
}
use godel_design.Pedidos.TaskProgress.Counts.{own_tasks, progress_by_pedido_id_lem}
use godel_design.Dashboard.WorkItems.{PedidoRow, PedidoWithProgress}
use godel_design.Dashboard.Reads.{
  DashboardClient, resolve_rows, load_tasks, load_task_progress_by_pedido_id, batch_size, max_rows,
  attach_task_progress_to_pedidos, with_progress,
}

abbrev pub contains : Text → List Text → Bool
contains id ids = any (text_eq id) ids

abbrev pub AreDistinct : List Text → Type 0
AreDistinct [] = Unit
AreDistinct (id ∷ ids) = (contains id ids ≡ false) × AreDistinct ids

AreDistinct-drop : (n : ℕ) (ids : List Text) → AreDistinct ids → AreDistinct (drop n ids)
AreDistinct-drop zero ids h = h
AreDistinct-drop (suc n) [] h = tt
AreDistinct-drop (suc n) (id ∷ ids) (_, h) = AreDistinct-drop n ids h

length-drop : (n : ℕ) (ids : List Text) → length (drop n ids) ≤ length ids
length-drop zero ids = omega arith
length-drop (suc n) [] = omega arith
length-drop (suc n) (id ∷ ids) = omega (arith, length-drop n ids)

-- A batch is not empty.
length-drop_batch :
    (n : ℕ) (id : Text) (ids : List Text)
    → length (id ∷ ids) ≤ suc n
    → length (drop batch_size (id ∷ ids)) ≤ n
length-drop_batch n id ids le = omega (arith, le, length-drop 49 ids)

-- Each id of a list is in the batch or in what is left.
contains-take :
    (id : Text) (n : ℕ) (ids : List Text)
    → contains id ids ≡ (contains id (take n ids) || contains id (drop n ids))
contains-take id zero ids = refl
contains-take id (suc n) [] = refl
contains-take id (suc n) (j ∷ ids) = ground (arith, contains-take id n ids)

contains-drop :
    (id : Text) (n : ℕ) (ids : List Text)
    → AreDistinct ids
    → contains id (take n ids) ≡ true
    → contains id (drop n ids) ≡ false
contains-drop id zero ids h m = ground arith
contains-drop id (suc n) [] h m = refl
contains-drop id (suc n) (j ∷ ids) (fresh, h) m =
    ground (arith, contains-drop id n ids h, contains-take id n ids, text_eq_iff id j)

abbrev pub ids_of : List PedidoRow → List Text
ids_of rows = map (λ row. row.id) rows

contained : (rows : List PedidoRow) → All (λ row. contains row.id (ids_of rows) ≡ true) rows
contained [] = tt
contained (row ∷ rows) =
    (ground (arith, text_eq_iff row.id row.id), All-imp (λ r m. ground arith) rows (contained rows))

module _ (f : Float) where
  open f use {Number}

  own_tasks-append :
      (id : Text) (xs ys : List (Text × Task Number))
      → own_tasks f id (xs ++ ys) ≡ own_tasks f id xs ++ own_tasks f id ys
  own_tasks-append id [] ys = refl
  own_tasks-append id ((j, task) ∷ xs) ys = ground (arith, own_tasks-append id xs ys)

  -- The tasks of a table that belong to one of the orders asked for.
  abbrev pub tasks_among : List (Text × Task Number) → List Text → List (Text × Task Number)
  tasks_among table ids = keep (λ entry. contains entry.0 ids) table

  own_tasks-among :
      (id : Text) (ids : List Text) (table : List (Text × Task Number))
      → own_tasks f id (tasks_among table ids)
        ≡ (if contains id ids then own_tasks f id table else [])
  own_tasks-among id ids [] = ground arith
  own_tasks-among id ids ((j, task) ∷ table) =
      ground (arith, own_tasks-among id ids table, text_eq_iff j id)

  -- A batch and what the others hold make up the tasks of each order.
  batch-own :
      (table rest : List (Text × Task Number)) (k : ℕ) (ids : List Text) (id : Text)
      → AreDistinct ids
      → own_tasks f id rest ≡ (if contains id (drop k ids) then own_tasks f id table else [])
      → own_tasks f id (tasks_among table (take k ids) ++ rest)
        ≡ (if contains id ids then own_tasks f id table else [])
  batch-own table rest k ids id d h =
      rw
        (
          own_tasks-append id (tasks_among table (take k ids)) rest,
          own_tasks-among id (take k ids) table,
          h,
          contains-take id k ids,
        )
        (elim (Bool-cases (contains id (take k ids))) [
          | inl e ↦ rw (e, contains-drop id k ids d e) (append-nil _)
          | inr e ↦ rw e refl
        ])

  module _ (client : DashboardClient Number) where
    -- The client answers from the table of the tasks, where the answer is within the limit on rows; of
    -- a longer answer nothing is said.
    abbrev pub AnswersFrom : List (Text × Task Number) → Type 0
    AnswersFrom table =
        (ids : List Text)
        → length (tasks_among table ids) ≤ max_rows
        → client.list_tareas ids ≡ answer (some (tasks_among table ids))

    -- None of the batches of orders has more tasks than an answer can hold.
    abbrev pub AreWithin : List (Text × Task Number) → ℕ → List Text → Type 0
    AreWithin table zero ids = Unit
    AreWithin table (suc n) [] = Unit
    AreWithin table (suc n) (id ∷ ids) =
        (length (tasks_among table (take batch_size (id ∷ ids))) ≤ max_rows)
        × AreWithin table n (drop batch_size (id ∷ ids))

    -- Enough batches are counted, and together they hold the tasks of each order once.
    load_tasks-own :
        (table : List (Text × Task Number)) (n : ℕ) (ids : List Text)
        → AnswersFrom table
        → AreDistinct ids
        → AreWithin table n ids
        → length ids ≤ n
        → (tasks : List (Text × Task Number)) × (load_tasks f client n ids ≡ some tasks)
          × ((id : Text)
              → own_tasks f id tasks ≡ (if contains id ids then own_tasks f id table else []))
    unfolding load_tasks resolve_rows
    load_tasks-own table zero [] h d fit le = ([], refl, λ id. refl)
    load_tasks-own table zero (i ∷ ids) h d fit le = ground arith
    load_tasks-own table (suc n) [] h d fit le = ([], refl, λ id. refl)
    load_tasks-own table (suc n) (i ∷ ids) h d (fit, later) le =
        let whole = i ∷ ids in
        let shorter = length-drop_batch n i ids le in
        let (rest, found, own) =
          load_tasks-own table n (drop batch_size whole) h (AreDistinct-drop batch_size whole d)
            later shorter in
        (
          tasks_among table (take batch_size whole) ++ rest,
          rw (h (take batch_size whole) fit, found) refl,
          λ id. batch-own table rest batch_size whole id d (own id),
        )

    -- Every order asked for is found with the progress of all its tasks.
    loaded-own :
        (table : List (Text × Task Number)) (ids : List Text)
        → AnswersFrom table
        → AreDistinct ids
        → AreWithin table (length ids) ids
        → (progress : List (Text × TasksProgress)) × (load_task_progress_by_pedido_id f client ids
            ≡ some progress)
          × ((id : Text)
              → contains id ids ≡ true
              → JsMap.get id progress
                ≡ some (calculate_pedido_tasks_progress f (own_tasks f id table)))
    unfolding load_task_progress_by_pedido_id
    loaded-own table [] h d fit = ([], refl, λ id m. ground arith)
    loaded-own table (i ∷ ids) h d fit =
        let (tasks, found, own) =
          load_tasks-own table (length (i ∷ ids)) (i ∷ ids) h d fit (omega arith) in
        (
          calculate_pedido_tasks_progress_by_pedido_id f (i ∷ ids) tasks,
          rw found refl,
          λ id m. rw (progress_by_pedido_id_lem f (i ∷ ids) tasks id, own id, m) refl,
        )

    abbrev pub own_progress : List (Text × Task Number) → PedidoRow → PedidoWithProgress
    own_progress table row = record {
      row = row;
      progress = calculate_pedido_tasks_progress f (own_tasks f row.id table);
    }

    with_own :
        (table : List (Text × Task Number)) (progress : List (Text × TasksProgress))
        (rows : List PedidoRow)
        → All
            (λ row.
              JsMap.get row.id progress
              ≡ some (calculate_pedido_tasks_progress f (own_tasks f row.id table)))
            rows
        → map (with_progress f client progress) rows ≡ map (own_progress table) rows
    with_own table progress [] h = refl
    with_own table progress (row ∷ rows) (e, h) = rw (e, with_own table progress rows h) refl

    -- Where the client answers from a table of tasks as long as an answer has at most 1000 rows, no
    -- batch of 50 orders has more tasks than that, and the ids of the orders are distinct, each order
    -- gets the progress of its own tasks, all of them, as if they had been read at once.
    pub attach-own :
        (table : List (Text × Task Number)) (rows : List PedidoRow)
        → AnswersFrom table
        → AreDistinct (ids_of rows)
        → AreWithin table (length rows) (ids_of rows)
        → attach_task_progress_to_pedidos f client rows ≡ some (map (own_progress table) rows)
    unfolding attach_task_progress_to_pedidos
    attach-own table [] h d fit = refl
    attach-own table (row ∷ rows) h d fit =
        let (progress, loaded, own) = loaded-own table (ids_of (row ∷ rows)) h d (
          subst (λ n. AreWithin table n (ids_of (row ∷ rows)))
            (sym (length-map (row ∷ rows) (λ r. r.id))) fit) in
        rw loaded (
          ap some (
            with_own table progress (row ∷ rows)
              (All-imp (λ r m. own r.id m) (row ∷ rows) (contained (row ∷ rows)))))
