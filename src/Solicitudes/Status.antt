-- ===== src/Solicitudes/Status.antt =====
-- src/lib/solicitudes/status.ts: the states of a request and the moves between them.
pub mod Lifecycle
use godel_design.Prelude.{
  List, [], ◌∷◌, Bool, true, false, ◌||◌, if◌then◌else◌, any, find, Option, some, none,
}
use godel_design.Database.{
  SolicitudEstado, nueva, contactada, aprobada, rechazada, convertida, solicitud_estados,
  solicitud_estado_name, same_solicitud_estado,
}
use godel_design.JsText.{Text, codes, text_eq}

abbrev pub solicitud_initial_statuses : List SolicitudEstado
solicitud_initial_statuses = nueva ∷ []

abbrev pub manual_solicitud_statuses : List SolicitudEstado
manual_solicitud_statuses =
    nueva ∷ SolicitudEstado.en_revision ∷ contactada ∷ aprobada ∷ rechazada ∷ []

pub record TransitionOption : Type 0 where
  pub status : SolicitudEstado
  pub reason : Option Text

pub record FlowAction : Type 0 where
  pub status : SolicitudEstado
  pub enabled : Bool
  pub blocked_reason : Option Text

pub record ExternalStatusStep : Type 0 where
  pub id : Text
  pub label : Text

pub record StatusFlow : Type 0 where
  pub current_status : SolicitudEstado
  pub is_initial : Bool
  pub is_closed : Bool
  pub automatic_advance : Option FlowAction
  pub advance : Option FlowAction
  pub backward : Option FlowAction
  pub termination : Option FlowAction
  pub external_next_step : Option ExternalStatusStep

-- `STATUSES.includes(value)`: the state that the text names, if it is one of the list.
abbrev named_in : List SolicitudEstado → Text → Option SolicitudEstado
unfolding text_eq solicitud_estado_name
named_in statuses value = find (λ s. text_eq value (solicitud_estado_name s)) statuses

unfoldable pub is_solicitud_status : Text → Option SolicitudEstado
unfolding named_in
is_solicitud_status value = named_in solicitud_estados value

unfoldable pub is_manual_solicitud_status : Text → Option SolicitudEstado
unfolding named_in
is_manual_solicitud_status value = named_in manual_solicitud_statuses value

unfoldable pub is_solicitud_initial_status : SolicitudEstado → Bool
unfolding same_solicitud_estado
is_solicitud_initial_status s = any (same_solicitud_estado s) solicitud_initial_statuses

unfoldable pub is_solicitud_closed_status : SolicitudEstado → Bool
unfolding same_solicitud_estado
is_solicitud_closed_status s =
    same_solicitud_estado s rechazada || same_solicitud_estado s convertida

unfoldable pub build_solicitud_flow_action : SolicitudEstado → FlowAction
build_solicitud_flow_action s = record { status = s; enabled = true; blocked_reason = none }

abbrev act : SolicitudEstado → Option FlowAction
unfolding build_solicitud_flow_action
act s = some (build_solicitud_flow_action s)

base_flow : SolicitudEstado → StatusFlow
unfolding is_solicitud_initial_status is_solicitud_closed_status
base_flow s = record {
  current_status = s;
  is_initial = is_solicitud_initial_status s;
  is_closed = is_solicitud_closed_status s;
  automatic_advance = none;
  advance = none;
  backward = none;
  termination = none;
  external_next_step = none;
}

-- The flow of a request that is not closed.
open_flow : SolicitudEstado → StatusFlow
unfolding base_flow act
open_flow nueva = record (base_flow nueva) {
  automatic_advance = act SolicitudEstado.en_revision;
  termination = act rechazada;
}
open_flow SolicitudEstado.en_revision = record (base_flow SolicitudEstado.en_revision) {
  advance = act contactada;
  termination = act rechazada;
}
open_flow contactada = record (base_flow contactada) {
  advance = act aprobada;
  termination = act rechazada;
}
open_flow aprobada = record (base_flow aprobada) {
  termination = act rechazada;
  external_next_step =
      some (record { id = codes "conversion"; label = codes "Convertir en pedido" });
}
open_flow s = base_flow s

unfoldable pub get_solicitud_status_flow : SolicitudEstado → StatusFlow
unfolding base_flow open_flow
get_solicitud_status_flow s = if (base_flow s).is_closed then base_flow s else open_flow s

abbrev to : SolicitudEstado → TransitionOption
to s = record { status = s; reason = none }

unfoldable pub get_allowed_solicitud_status_transitions : SolicitudEstado → List TransitionOption
get_allowed_solicitud_status_transitions nueva = to SolicitudEstado.en_revision ∷ to rechazada ∷ []
get_allowed_solicitud_status_transitions SolicitudEstado.en_revision =
    to contactada ∷ to rechazada ∷ []
get_allowed_solicitud_status_transitions contactada = to aprobada ∷ to rechazada ∷ []
get_allowed_solicitud_status_transitions aprobada =
    record {
      status = rechazada;
      reason = some (codes "La conversión a pedido se realiza desde la sección correspondiente.");
    }
    ∷ []
get_allowed_solicitud_status_transitions _ = []
