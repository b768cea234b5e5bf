-- ===== src/Pedidos/Status/Lifecycle.antt =====
-- pedidos/status.ts: the life of an order along the moves that its flow offers. The context may
-- change from one move to the next, as tasks are added and payments come in.
use godel_design.Prelude.{
  List, [], ◌∷◌, ◌++◌, Bool, true, ◌&&◌, any, some, none, ◌≡◌, ◌≢◌, subst, refl, arith, ◌⊎◌, inl,
  inr, All, All-append,
}
use godel_design.Database.{
  WorkflowType, encargo, PedidoEstado, creado, solicitud_recibida, en_produccion, listo_entrega,
  entregado, cancelado, pagado, same_pedido_estado,
}
use godel_design.Pedidos.Status.{
  TransitionContext, FlowContext, StatusFlow, get_pedido_status_flow, is_pedido_active_status,
}
use godel_design.Pedidos.Status.Agreement.{offered, loaded}

-- The flow has an enabled move to a state.
abbrev pub offers : StatusFlow → PedidoEstado → Bool
offers flow target = any (λ a. a.enabled && same_pedido_estado a.status target) (offered flow)

-- The context shows a paid order, or one whose tasks are all complete.
abbrev pub IsPaid : FlowContext → Type 0
IsPaid c = c.payment_status ≡ some pagado

abbrev pub IsEncargo : FlowContext → Type 0
IsEncargo c = (c.workflow_type ≡ some encargo) ⊎ (c.workflow_type ≡ none)

abbrev pub HasDoneTasks : FlowContext → Type 0
HasDoneTasks c =
    (p : TransitionContext) × (c.task_progress ≡ some p)
    × (p.has_tasks ≡ true)
    × (p.is_complete ≡ true)

pub data Reach (s : PedidoEstado) : List FlowContext → PedidoEstado → Type 0 where
  here : Reach s [] s
  next :
      {cs : List FlowContext} {t : PedidoEstado} (c : FlowContext) (u : PedidoEstado)
      → Reach s cs t
      → offers (get_pedido_status_flow t c) u ≡ true
      → Reach s (c ∷ cs) u

abbrev pub Some : (FlowContext → Type 0) → List FlowContext → Type 0
Some P [] = ⊥
Some P (c ∷ cs) = P c ⊎ Some P cs

delivery_step :
    (t : PedidoEstado) (c : FlowContext)
    → offers (get_pedido_status_flow t c) entregado ≡ true
    → (t ≡ listo_entrega) × IsPaid c
unfolding get_pedido_status_flow same_pedido_estado
delivery_step t c h = ground arith

ready_step :
    (t : PedidoEstado) (c : FlowContext)
    → offers (get_pedido_status_flow t c) listo_entrega ≡ true
    → IsEncargo c
    → (t ≡ en_produccion) × HasDoneTasks c
unfolding get_pedido_status_flow same_pedido_estado
ready_step t c h e = ground arith

offered_cancel :
    (s : PedidoEstado) (c : FlowContext)
    → is_pedido_active_status s ≡ true
    → offers (get_pedido_status_flow s c) cancelado ≡ true
unfolding get_pedido_status_flow same_pedido_estado
offered_cancel s c h = ground arith

-- The next state on the way to the delivery.
abbrev onward : PedidoEstado → PedidoEstado
onward PedidoEstado.en_revision = en_produccion
onward en_produccion = listo_entrega
onward listo_entrega = entregado
onward _ = PedidoEstado.en_revision

onward_step :
    (s : PedidoEstado) (workflow : WorkflowType) (p : TransitionContext)
    → is_pedido_active_status s ≡ true
    → p.has_tasks ≡ true
    → p.is_complete ≡ true
    → offers (get_pedido_status_flow s (loaded workflow p pagado)) (onward s) ≡ true
unfolding get_pedido_status_flow same_pedido_estado
onward_step s workflow p h tasks complete = ground arith

-- An order that is delivered was ready before its last move, and at that move its payment was
-- loaded and complete.
pub delivered-IsPaid :
    {s : PedidoEstado} {cs : List FlowContext}
    → s ≢ entregado
    → Reach s cs entregado
    → (c : FlowContext) × (rest : List FlowContext) × (cs ≡ c ∷ rest)
      × IsPaid c
      × Reach s rest listo_entrega
delivered-IsPaid {s} n r = last r refl
  where
    last :
        {cs : List FlowContext} {t : PedidoEstado}
        → Reach s cs t
        → t ≡ entregado
        → (c : FlowContext) × (rest : List FlowContext) × (cs ≡ c ∷ rest)
          × IsPaid c
          × Reach s rest listo_entrega
    last here e = absurd (n e)
    last (next {cs} {t} c u r h) e =
        let (ready, paid) = delivery_step t c (rw (← e) h) in
        (c, cs, refl, paid, subst (Reach s cs) ready r)

abbrev IsLate : PedidoEstado → Type 0
IsLate t = (t ≡ listo_entrega) ⊎ (t ≡ entregado)

IsLate-step :
    (t u : PedidoEstado) (c : FlowContext)
    → offers (get_pedido_status_flow t c) u ≡ true
    → IsEncargo c
    → IsLate u
    → IsLate t ⊎ HasDoneTasks c
IsLate-step t u c h e late = elim late [
  | inl ready ↦ inr (ready_step t c (rw (← ready) h) e).1
  | inr delivered ↦ inl (inl (delivery_step t c (rw (← delivered) h)).0)
]

late_needs_tasks :
    {s t : PedidoEstado} {cs : List FlowContext}
    → ¬ IsLate s
    → Reach s cs t
    → All IsEncargo cs
    → IsLate t
    → Some HasDoneTasks cs
late_needs_tasks n here all late = absurd (n late)
late_needs_tasks n (next {t} c u r h) (e, all) late = elim (IsLate-step t u c h e late) [
  | inl before ↦ inr (late_needs_tasks n r all before)
  | inr done ↦ inl done
]

-- An order of the workflow with tasks is delivered only after a context in which it had tasks and
-- all were complete.
pub delivered_needs_tasks :
    {s : PedidoEstado} {cs : List FlowContext}
    → s ≢ listo_entrega
    → s ≢ entregado
    → All IsEncargo cs
    → Reach s cs entregado
    → Some HasDoneTasks cs
delivered_needs_tasks n m all r =
    late_needs_tasks (λ late. elim late [ inl e ↦ n e | inr e ↦ m e ]) r all (inr refl)

-- Of an active order, whatever the context, the cancellation is offered.
active_can_cancel :
    (s : PedidoEstado) (c : FlowContext)
    → is_pedido_active_status s ≡ true
    → Reach s (c ∷ []) cancelado
active_can_cancel s c h = next c cancelado here (offered_cancel s c h)

-- A move in front of a life.
prepend :
    {s u t : PedidoEstado} {cs : List FlowContext} (c : FlowContext)
    → offers (get_pedido_status_flow s c) u ≡ true
    → Reach u cs t
    → Reach s (cs ++ c ∷ []) t
prepend {u} c h here = next c u here h
prepend c h (next d v r e) = next d v (prepend c h r) e

-- A way to the delivery with one context at every move.
abbrev pub Delivery : FlowContext → PedidoEstado → Type 0
Delivery c s = (cs : List FlowContext) × Reach s cs entregado × All (λ d. d ≡ c) cs

module _ (workflow : WorkflowType) (p : TransitionContext) (tasks : p.has_tasks ≡ true)
    (complete : p.is_complete ≡ true) where
  before :
      (s : PedidoEstado)
      → is_pedido_active_status s ≡ true
      → Delivery (loaded workflow p pagado) (onward s)
      → Delivery (loaded workflow p pagado) s
  before s a (cs, r, all) =
      let c = loaded workflow p pagado in
      (
        cs ++ c ∷ [],
        prepend c (onward_step s workflow p a tasks complete) r,
        All-append (λ d. d ≡ c) cs (c ∷ []) all (refl, tt),
      )

-- With its tasks complete and its payment made, an active order can be delivered.
pub active_can_deliver :
    (s : PedidoEstado) (workflow : WorkflowType) (p : TransitionContext)
    → is_pedido_active_status s ≡ true
    → p.has_tasks ≡ true
    → p.is_complete ≡ true
    → Delivery (loaded workflow p pagado) s
active_can_deliver s workflow p h tasks complete = route s h
  where
    done : Delivery (loaded workflow p pagado) entregado
    done = ([], here, tt)

    ready : Delivery (loaded workflow p pagado) listo_entrega
    ready = before workflow p tasks complete listo_entrega refl done

    made : Delivery (loaded workflow p pagado) en_produccion
    made = before workflow p tasks complete en_produccion refl ready

    reviewed : Delivery (loaded workflow p pagado) PedidoEstado.en_revision
    reviewed = before workflow p tasks complete PedidoEstado.en_revision refl made

    route :
        (s : PedidoEstado)
        → is_pedido_active_status s ≡ true
        → Delivery (loaded workflow p pagado) s
    route creado a = before workflow p tasks complete creado refl reviewed
    route solicitud_recibida a = before workflow p tasks complete solicitud_recibida refl reviewed
    route PedidoEstado.en_revision a = reviewed
    route en_produccion a = made
    route listo_entrega a = ready
    route entregado a = done
    route cancelado a = cc
