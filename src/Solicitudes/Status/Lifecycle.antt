-- ===== src/Solicitudes/Status/Lifecycle.antt =====
-- solicitudes/status.ts: the flow and the list of transitions offer the same moves, and the life of
-- a request along them.
use godel_design.Prelude.{
  ℕ, zero, ◌≤◌, ◌<◌, ◌+◌, List, [], ◌∷◌, ◌++◌, map, Bool, true, ◌&&◌, any, Option, some, none, ◌≡◌,
  ◌≢◌, ◌↔◌, refl, arith,
}
use godel_design.Database.{
  SolicitudEstado, nueva, contactada, aprobada, rechazada, convertida, same_solicitud_estado,
}
use godel_design.Solicitudes.Status.{
  FlowAction, StatusFlow, get_solicitud_status_flow, get_allowed_solicitud_status_transitions,
  is_solicitud_closed_status,
}

abbrev listed : Option FlowAction → List FlowAction
listed none = []
listed (some a) = a ∷ []

-- The actions of a flow, forward first.
abbrev pub offered : StatusFlow → List FlowAction
offered flow =
    listed flow.automatic_advance
    ++ listed flow.advance
    ++ listed flow.backward
    ++ listed flow.termination

abbrev pub offers : StatusFlow → SolicitudEstado → Bool
offers flow target = any (λ a. a.enabled && same_solicitud_estado a.status target) (offered flow)

-- The flow of a state and its list of transitions are two descriptions of the same moves, in the
-- same order, and a state has none exactly when it is closed.
flow-transitions :
    (s : SolicitudEstado)
    → (map (λ a. a.status) (offered (get_solicitud_status_flow s))
        ≡ map (λ t. t.status) (get_allowed_solicitud_status_transitions s))
      × ((is_solicitud_closed_status s ≡ true) ↔ (get_allowed_solicitud_status_transitions s ≡ []))
unfolding get_solicitud_status_flow get_allowed_solicitud_status_transitions
    is_solicitud_closed_status same_solicitud_estado
flow-transitions nueva = (refl, ground arith)
flow-transitions SolicitudEstado.en_revision = (refl, ground arith)
flow-transitions contactada = (refl, ground arith)
flow-transitions aprobada = (refl, ground arith)
flow-transitions rechazada = (refl, ground arith)
flow-transitions convertida = (refl, ground arith)

-- A life of a request: the states it comes to by the moves that are offered.
pub data Reach (s : SolicitudEstado) : ℕ → SolicitudEstado → Type 0 where
  here : Reach s 0 s
  next :
      {n : ℕ} {t : SolicitudEstado} (u : SolicitudEstado)
      → Reach s n t
      → offers (get_solicitud_status_flow t) u ≡ true
      → Reach s (n + 1) u

-- How far a state is along the way.
abbrev pub stage : SolicitudEstado → ℕ
stage nueva = 0
stage SolicitudEstado.en_revision = 1
stage contactada = 2
stage aprobada = 3
stage rechazada = 4
stage convertida = 4

stage_step :
    (t u : SolicitudEstado)
    → offers (get_solicitud_status_flow t) u ≡ true
    → (stage t < stage u) × (u ≢ convertida)
unfolding get_solicitud_status_flow same_solicitud_estado
stage_step t u h = ground arith

stage_bound : (s : SolicitudEstado) → stage s ≤ 4
stage_bound s = ground arith

Reach-stage : (n : ℕ) (t : SolicitudEstado) → Reach nueva n t → (n ≤ stage t) × (t ≢ convertida)
Reach-stage zero t here = (omega arith, λ e. cc)
Reach-stage _ _ (next {n} {t} u r h) =
    let (low, _) = Reach-stage n t r in
    let (later, open_still) = stage_step t u h in (omega arith, open_still)

-- A request only moves forward along the moves that are offered: at most four moves are made, and
-- none of them makes it an order.
pub Reach-bounded : (n : ℕ) (t : SolicitudEstado) → Reach nueva n t → (n ≤ 4) × (t ≢ convertida)
Reach-bounded n t r =
    let (low, open_still) = Reach-stage n t r in (omega (arith, stage_bound t), open_still)
