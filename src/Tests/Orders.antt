-- ===== src/Tests/Orders.antt =====
-- Orders: their states, tasks and services.
use Prim.Native.Nat.{◌/◌}
use godel_design.Prelude.{
  ℕ, ◌+◌, ◌*◌, ◌^◌, ◌≤◌, ◌<◌, List, [], ◌∷◌, map, Bool, true, false, ltb, some, none, ◌≡◌, inl,
  refl, arith,
}
use native.Mathlib.Nat.{div-le_of_le-mul}
use godel_design.Database.{
  encargo, creado, en_produccion, listo_entrega, entregado, pagado, parcial, simple, cuantificada,
  same_pedido_estado,
}
use godel_design.JsText.{Text, codes}
use godel_design.Pedidos.Status.{
  TransitionContext, FlowContext, get_pedido_status_flow, get_allowed_pedido_status_transitions,
}
use godel_design.Pedidos.Status.Agreement.{
  offered, loaded, option_move, flow_move, current_move, flow-transitions_agree,
}
use godel_design.Pedidos.Status.Lifecycle.{
  Reach, here, next, Some, HasDoneTasks, IsPaid, Delivery, delivered-IsPaid, delivered_needs_tasks,
  active_can_deliver,
}
use godel_design.Pedidos.TaskProgress.{Float, Task}

abbrev good : TransitionContext
good = record { has_tasks = true; is_complete = true; progress_percentage = 100 }

flow-transitions_agree_example :
    map option_move
      (get_allowed_pedido_status_transitions listo_entrega (some good) encargo (some parcial))
    ≡ current_move listo_entrega
      ∷ map flow_move (offered (get_pedido_status_flow listo_entrega (loaded encargo good parcial)))
flow-transitions_agree_example = flow-transitions_agree listo_entrega encargo good parcial

abbrev ready : FlowContext
ready = loaded encargo good pagado

delivery : Reach en_produccion (ready ∷ ready ∷ []) entregado
unfolding get_pedido_status_flow same_pedido_estado
delivery = next ready entregado (next ready listo_entrega here refl) refl

delivered-IsPaid_example :
    (c : FlowContext) × (rest : List FlowContext) × (ready ∷ ready ∷ [] ≡ c ∷ rest)
    × IsPaid c
    × Reach en_produccion rest listo_entrega
delivered-IsPaid_example = delivered-IsPaid (λ e. cc) delivery

delivered_needs_tasks_example : Some HasDoneTasks (ready ∷ ready ∷ [])
delivered_needs_tasks_example =
    delivered_needs_tasks (λ e. cc) (λ e. cc) (inl refl, (inl refl, tt)) delivery

active_can_deliver_example : Delivery ready creado
active_can_deliver_example = active_can_deliver creado encargo good refl refl refl

-- Whole numbers with rounding down have the laws that are asked of the floating-point numbers.
abbrev pub lt : ℕ → ℕ → Bool
lt a b = ltb a b

pub not_lt : (a b : ℕ) → b ≤ a → lt a b ≡ false
not_lt a b h = ground arith

pub le_of_not_lt : (a b : ℕ) → lt a b ≡ false → b ≤ a
le_of_not_lt a b h = ground arith

pub div_upper : (a m n : ℕ) → lt (m * n) a ≡ false → 0 < n → m * n < 2 ^ 53 → lt m (a / n) ≡ false
div_upper a m n h pos small =
    not_lt m (a / n) (div-le_of_le-mul n (omega (arith, le_of_not_lt (m * n) a h)))

abbrev pub whole_numbers : Float
whole_numbers = record {
  Number = ℕ;
  num = λ n. n;
  lt = lt;
  add = λ a b. a + b;
  mul = λ a b. a * b;
  div = λ a b. a / b;
  round = λ a. a;
  lt_irreflexive = λ a. not_lt a a (omega arith);
  lt-num = λ m n h _. not_lt m n h;
  add-lower = λ a b h k. not_lt (a + b) 0 (omega arith);
  add-upper = λ a b m n h k _.
      not_lt (m + n) (a + b) (omega (arith, le_of_not_lt m a h, le_of_not_lt n b k));
  div-lower = λ a n h _. not_lt (a / n) 0 (omega arith);
  div-upper = div_upper;
  round-upper = λ a m h k _. le_of_not_lt m a k;
}

abbrev counted : Task ℕ
counted = record {
  task_type = cuantificada;
  target_quantity = some 8;
  completed_quantity = some 2;
  is_completed = false;
}

abbrev pub done : Task ℕ
done = record {
  task_type = simple;
  target_quantity = none;
  completed_quantity = none;
  is_completed = true;
}

abbrev pub two_orders : List (Text × Task ℕ)
two_orders = (codes "a", done) ∷ (codes "b", counted) ∷ (codes "a", counted) ∷ []
