-- ===== src/Pedidos/StatusRpc.antt =====
-- supabase/migrations/20260811131826_03_business_rpcs.sql, `actualizar_estado_pedido`: the function
-- of the database that moves an order to another state. The row locks are left out, since a call is
-- one step; the clock, the business day and the caller are arguments, and what the row level of the
-- database knows of the caller is read from its record.
pub mod Flow
pub mod Invariant
use godel_design.Prelude.{
  ℕ, List, [], ◌∷◌, ◌++◌, Bool, true, false, not, ◌&&◌, ◌||◌, if◌then◌else◌, is_empty, all, Option,
  some, none, String,
}
use godel_design.Database.{
  AppRole, admin, supervisor, trabajador, WorkflowType, encargo, impresion, PedidoEstado, creado,
  solicitud_recibida, en_produccion, listo_entrega, entregado, cancelado, PedidoPagoEstado, pagado,
  pedido_estado_name, same_pedido_estado,
}
use godel_design.JsText.{Text, codes}

pub data HistorialAction : Type 0 where
  estado_cambiado pedido_entregado pedido_cancelado : HistorialAction

pub record HistorialEntry : Type 0 where
  pub actor_id : Text
  pub action : HistorialAction
  pub old_value : PedidoEstado
  pub new_value : PedidoEstado

-- The columns of `pedidos` that the function reads or writes, with the rows of the order in
-- `pedido_tareas` (as their `is_completed`), `pedido_pagos` and `pedido_historial`, oldest first.
pub record Pedido : Type 0 where
  pub status : PedidoEstado
  pub workflow_type : WorkflowType
  pub actual_delivery_date : Option Text
  pub updated_at : ℕ
  pub tareas : List Bool
  pub pago : Option PedidoPagoEstado
  pub historial : List HistorialEntry

pub record Caller : Type 0 where
  pub uid : Option Text
  pub is_active : Bool
  pub role : AppRole
  pub is_assigned : Bool

pub data RaisedException : Type 0 where
  not_authenticated inactive_user pedido_not_found not_allowed_to_change : RaisedException
  closed_pedido only_ready_is_delivered no_tasks tasks_incomplete : RaisedException
  transition_not_allowed payment_not_validated payment_pending : RaisedException

unfoldable pub exception_message : RaisedException → Text
exception_message not_authenticated = codes "Usuario no autenticado"
exception_message inactive_user = codes "Usuario inactivo o sin perfil valido"
exception_message pedido_not_found = codes "Pedido no encontrado"
exception_message not_allowed_to_change =
    codes "No tienes permiso para cambiar el estado de este pedido"
exception_message closed_pedido = codes "No se puede cambiar el estado de un pedido cerrado."
exception_message only_ready_is_delivered =
    codes "Solo se puede marcar como entregado un pedido listo para entrega."
exception_message no_tasks = codes "No se puede pasar a produccion sin tareas registradas."
exception_message tasks_incomplete =
    codes "No se puede marcar como listo para entrega hasta completar todas las tareas."
exception_message transition_not_allowed = codes "Transicion de estado no permitida."
exception_message payment_not_validated = codes "No se puede validar el pago del pedido."
exception_message payment_pending =
    codes "No se puede marcar como entregado un pedido con pago pendiente."

pub data RpcResult (A : Type 0) : Type 0 where
  returned : A → RpcResult A
  raised : RaisedException → RpcResult A

infixl 5 ◌>>=◌ ◌>>◌
abbrev pub ◌>>=◌ : {A B : Type 0} → RpcResult A → (A → RpcResult B) → RpcResult B
returned a >>= k = k a
raised e >>= k = raised e

abbrev pub ◌>>◌ : {B : Type 0} → RpcResult (Unit {0}) → RpcResult B → RpcResult B
m >> k = m >>= λ _. k

-- `if test then raise exception …; end if;`
abbrev raise_if : Bool → RaisedException → RpcResult (Unit {0})
raise_if true e = raised e
raise_if false e = returned tt

abbrev pub can_change : Caller → Bool
can_change caller = elim caller.role [
  | admin ↦ true
  | supervisor ↦ true
  | trabajador ↦ caller.is_assigned
]

-- `count(*) > 0`, and `coalesce(bool_and(is_completed), false)`.
abbrev pub has_tasks : Pedido → Bool
has_tasks pedido = not (is_empty pedido.tareas)

abbrev pub all_tasks_completed : Pedido → Bool
all_tasks_completed pedido = has_tasks pedido && all (λ done. done) pedido.tareas

abbrev is_encargo : WorkflowType → Bool
is_encargo encargo = true
is_encargo impresion = false

abbrev is : PedidoEstado → PedidoEstado → Bool
is = same_pedido_estado

-- The chain on the old state; its last `else` is not reached, since the closed states were refused.
check_transition : Pedido → PedidoEstado → PedidoEstado → RpcResult (Unit {0})
check_transition pedido new creado =
    raise_if (not (is new PedidoEstado.en_revision || is new cancelado)) transition_not_allowed
check_transition pedido new solicitud_recibida =
    raise_if (not (is new PedidoEstado.en_revision || is new cancelado)) transition_not_allowed
check_transition pedido new PedidoEstado.en_revision = do
  raise_if (not (is new en_produccion || is new cancelado))
      (if is new entregado then only_ready_is_delivered else transition_not_allowed)
  raise_if (is_encargo pedido.workflow_type && is new en_produccion && not (has_tasks pedido))
      no_tasks
check_transition pedido new en_produccion = do
  raise_if (not (is new listo_entrega || is new cancelado))
      (if is new entregado then only_ready_is_delivered else transition_not_allowed)
  raise_if
      (is_encargo pedido.workflow_type
        && is new listo_entrega
        && (not (has_tasks pedido) || not (all_tasks_completed pedido)))
      tasks_incomplete
check_transition pedido new listo_entrega =
    raise_if (not (is new entregado || is new en_produccion || is new cancelado))
      transition_not_allowed
check_transition pedido new _ = raised transition_not_allowed

check_payment : Pedido → RpcResult (Unit {0})
check_payment pedido = elim pedido.pago [
  | none ↦ raised payment_not_validated
  | some pagado ↦ returned tt
  | some _ ↦ raised payment_pending
]

abbrev action_for : PedidoEstado → HistorialAction
action_for entregado = pedido_entregado
action_for cancelado = pedido_cancelado
action_for _ = estado_cambiado

-- The update of the row and the entry in the history.
apply_change : Text → Text → ℕ → PedidoEstado → Pedido → Pedido
apply_change actor today now new pedido = record pedido {
  status = new;
  actual_delivery_date = if is new entregado then some today else pedido.actual_delivery_date;
  updated_at = now;
  historial =
      pedido.historial
      ++ record {
        actor_id = actor;
        action = action_for new;
        old_value = pedido.status;
        new_value = new;
      }
        ∷ [];
}

-- What happens to an order that was found in another state, for a caller that may change it.
change_state : Text → Text → ℕ → Pedido → PedidoEstado → RpcResult Pedido
unfolding check_transition check_payment apply_change
change_state actor today now pedido new = do
  raise_if (is pedido.status entregado || is pedido.status cancelado) closed_pedido
  raise_if (is new entregado && not (is pedido.status listo_entrega)) only_ready_is_delivered
  check_transition pedido new pedido.status
  if is new entregado then check_payment pedido else returned tt
  returned (apply_change actor today now new pedido)

change_found : Caller → Text → Text → ℕ → Pedido → PedidoEstado → RpcResult Pedido
unfolding change_state
change_found caller actor today now pedido new = do
  raise_if (not (can_change caller)) not_allowed_to_change
  if is pedido.status new then returned pedido else change_state actor today now pedido new

unfoldable pub actualizar_estado_pedido :
    Caller → (today : Text) → (now : ℕ) → Option Pedido → PedidoEstado → RpcResult Pedido
unfolding change_found
actualizar_estado_pedido caller today now found new = elim caller.uid [
  | none ↦ raised not_authenticated
  | some actor ↦ do
    raise_if (not caller.is_active) inactive_user
    elim found [
      | none ↦ raised pedido_not_found
      | some pedido ↦ change_found caller actor today now pedido new
    ]
]
