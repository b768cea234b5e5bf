-- ===== src/Database.antt =====
-- src/types/database.types.ts: the enumerations of the database that the code uses, with the texts
-- that stand for their members.
use godel_design.Prelude.{ℕ, ◌==◌, ◌↔◌, arith, List, [], ◌∷◌, Bool, true, ◌≡◌}
use godel_design.JsText.{Text, codes}

pub data AppRole : Type 0 where
  admin supervisor trabajador : AppRole

pub data WorkflowType : Type 0 where
  encargo impresion : WorkflowType

pub data PedidoEstado : Type 0 where
  creado solicitud_recibida en_revision en_produccion listo_entrega entregado cancelado :
      PedidoEstado

pub data PedidoPagoEstado : Type 0 where
  sin_pago parcial pagado : PedidoPagoEstado

pub data PedidoPrioridad : Type 0 where
  baja normal alta urgente : PedidoPrioridad

pub data PedidoTareaTipo : Type 0 where
  simple cuantificada : PedidoTareaTipo

pub data SolicitudEstado : Type 0 where
  nueva en_revision contactada aprobada rechazada convertida : SolicitudEstado

pub data ArchivoVisibility : Type 0 where
  cliente_solicitud interno_pedido avance final_entrega : ArchivoVisibility

-- The members in the order of `Constants.public.Enums`.
abbrev pub pedido_estados : List PedidoEstado
pedido_estados =
    creado ∷ solicitud_recibida ∷ PedidoEstado.en_revision ∷ en_produccion ∷ listo_entrega
    ∷ entregado ∷ cancelado ∷ []

unfoldable pub pedido_estado_name : PedidoEstado → Text
pedido_estado_name creado = codes "creado"
pedido_estado_name solicitud_recibida = codes "solicitud_recibida"
pedido_estado_name PedidoEstado.en_revision = codes "en_revision"
pedido_estado_name en_produccion = codes "en_produccion"
pedido_estado_name listo_entrega = codes "listo_entrega"
pedido_estado_name entregado = codes "entregado"
pedido_estado_name cancelado = codes "cancelado"

abbrev pub pedido_prioridades : List PedidoPrioridad
pedido_prioridades = baja ∷ normal ∷ alta ∷ urgente ∷ []

unfoldable pub pedido_prioridad_name : PedidoPrioridad → Text
pedido_prioridad_name baja = codes "baja"
pedido_prioridad_name normal = codes "normal"
pedido_prioridad_name alta = codes "alta"
pedido_prioridad_name urgente = codes "urgente"

abbrev pub solicitud_estados : List SolicitudEstado
solicitud_estados =
    nueva ∷ SolicitudEstado.en_revision ∷ contactada ∷ aprobada ∷ rechazada ∷ convertida ∷ []

unfoldable pub solicitud_estado_name : SolicitudEstado → Text
solicitud_estado_name nueva = codes "nueva"
solicitud_estado_name SolicitudEstado.en_revision = codes "en_revision"
solicitud_estado_name contactada = codes "contactada"
solicitud_estado_name aprobada = codes "aprobada"
solicitud_estado_name rechazada = codes "rechazada"
solicitud_estado_name convertida = codes "convertida"

-- Comparing two members of an enumeration, as `===` and SQL's `=` do, by their places in it.
abbrev pedido_estado_place : PedidoEstado → ℕ
pedido_estado_place creado = 0
pedido_estado_place solicitud_recibida = 1
pedido_estado_place PedidoEstado.en_revision = 2
pedido_estado_place en_produccion = 3
pedido_estado_place listo_entrega = 4
pedido_estado_place entregado = 5
pedido_estado_place cancelado = 6

unfoldable pub same_pedido_estado : PedidoEstado → PedidoEstado → Bool
same_pedido_estado s t = pedido_estado_place s == pedido_estado_place t

pub same_pedido_estado_iff : (s t : PedidoEstado) → (same_pedido_estado s t ≡ true) ↔ (s ≡ t)
unfolding same_pedido_estado
same_pedido_estado_iff s t = ground arith

abbrev solicitud_estado_place : SolicitudEstado → ℕ
solicitud_estado_place nueva = 0
solicitud_estado_place SolicitudEstado.en_revision = 1
solicitud_estado_place contactada = 2
solicitud_estado_place aprobada = 3
solicitud_estado_place rechazada = 4
solicitud_estado_place convertida = 5

unfoldable pub same_solicitud_estado : SolicitudEstado → SolicitudEstado → Bool
same_solicitud_estado s t = solicitud_estado_place s == solicitud_estado_place t

pub same_solicitud_estado_iff :
    (s t : SolicitudEstado) → (same_solicitud_estado s t ≡ true) ↔ (s ≡ t)
unfolding same_solicitud_estado
same_solicitud_estado_iff s t = ground arith
