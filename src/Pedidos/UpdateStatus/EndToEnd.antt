-- ===== src/Pedidos/UpdateStatus/EndToEnd.antt =====
-- The services over the database: a client whose store holds the orders and whose call moves them by
-- `actualizar_estado_pedido`.
use godel_design.Prelude.{
  ℕ, Bool, true, false, if◌then◌else◌, Option, some, none, ◌≡◌, ◌⊎◌, refl, arith,
}
use godel_design.Database.{PedidoEstado, same_pedido_estado}
use godel_design.JsText.{Text, codes, trim, includes, starts_with, text_eq, text_eq_refl}
use godel_design.Validators.Uuid.{is_valid_uuid}
use godel_design.Permissions.{pedidos_change_status, has_permission}
use godel_design.Backend.{Response, answer, error, Profile}
use godel_design.Pedidos.Status.{is_pedido_status, is_pedido_initial_status}
use godel_design.Pedidos.StatusRpc.{
  Pedido, Caller, RpcResult, returned, raised, RaisedException, exception_message,
  actualizar_estado_pedido, not_authenticated, inactive_user, pedido_not_found,
  not_allowed_to_change,
}
use godel_design.Pedidos.StatusRpc.Flow.{MayChange}
use godel_design.Pedidos.UpdateStatus.{
  StatusClient, ServiceResult, success, failure, transition, unexpected, status, no_field,
  update_internal_pedido_status, move_result, rpc_failure, get_safe_rpc_status_error_message,
  ensure_pedido_review_started, ensure_from, recheck, generic_status_error,
}

-- The exceptions that tell the user why the order cannot be moved.
abbrev pub is_about_transition : RaisedException → Bool
is_about_transition not_authenticated = false
is_about_transition inactive_user = false
is_about_transition pedido_not_found = false
is_about_transition not_allowed_to_change = false
is_about_transition _ = true

-- Each of those comes out with the reason `transition` and a message for its field; each of the
-- others with the reason `error` and the general message.
rpc_failure_table :
    (e : RaisedException)
    → let message = get_safe_rpc_status_error_message (some (exception_message e)) in
      rpc_failure {A = Unit {0}} (some (exception_message e)) ≡ (
        if is_about_transition e
        then failure transition message (status message)
        else failure unexpected generic_status_error no_field)
unfolding get_safe_rpc_status_error_message exception_message includes starts_with trim text_eq
rpc_failure_table not_authenticated = refl
rpc_failure_table _ = refl

pub record Store : Type 0 where
  pub caller : Caller
  pub profile : Option Profile
  pub orders : Text → Option Pedido
  pub today : Text
  pub now : ℕ

abbrev put : (Text → Option Pedido) → Text → Pedido → Text → Option Pedido
put orders id pedido k = if text_eq k id then some pedido else orders k

abbrev moved : Store → Text → RpcResult Pedido → Store × Response (Unit {0})
moved w id (returned pedido) = (record w { orders = put w.orders id pedido }, answer tt)
moved w id (raised e) = (w, error (some (exception_message e)))

abbrev pub database_client : StatusClient Store
database_client = record {
  current_profile = λ w. w.profile;
  find_pedido = λ w id. answer (elim (w.orders id) [ none ↦ none | some pedido ↦ some id ]);
  find_status =
      λ w id. answer (elim (w.orders id) [ none ↦ none | some pedido ↦ some pedido.status ]);
  move_pedido = λ w id target.
      moved w id (actualizar_estado_pedido w.caller w.today w.now (w.orders id) target);
}

en_revision_named : is_pedido_status (trim (codes "en_revision")) ≡ some PedidoEstado.en_revision
unfolding is_pedido_status trim
en_revision_named = refl

-- What the function of the database makes of a start of the review.
abbrev ReviewOutcome : Pedido → RpcResult Pedido → Type 0
ReviewOutcome pedido (returned p) =
    (p.status ≡ PedidoEstado.en_revision)
    × ((is_pedido_initial_status pedido.status ≡ true) ⊎ (pedido.status ≡ PedidoEstado.en_revision))
ReviewOutcome pedido (raised e) =
    (is_about_transition e ≡ true) × (is_pedido_initial_status pedido.status ≡ false)

review_call :
    (caller : Caller) (actor today : Text) (now : ℕ) (pedido : Pedido)
    → MayChange caller actor
    → ReviewOutcome pedido
        (actualizar_estado_pedido caller today now (some pedido) PedidoEstado.en_revision)
unfolding actualizar_estado_pedido same_pedido_estado
review_call caller actor today now pedido may = ground arith

-- The state in which an order is once its review was asked for.
abbrev pub reviewed : PedidoEstado → PedidoEstado
reviewed s = if is_pedido_initial_status s then PedidoEstado.en_revision else s

-- The order is there, named by a well-formed id, for a profile that may move it.
pub record CanReview (w : Store) (id : Text) (pedido : Pedido) : Type 0 where
  pub actor : Text
  pub profile : Profile
  pub well_formed : is_valid_uuid (trim id) ≡ true
  pub signed_in : w.profile ≡ some profile
  pub permitted : has_permission profile.role pedidos_change_status ≡ true
  pub may_change : MayChange w.caller actor
  pub stored : w.orders (trim id) ≡ some pedido

review_run :
    (w : Store) (id : Text) (pedido : Pedido)
    → CanReview w id pedido
    → update_internal_pedido_status database_client w id (codes "en_revision") ≡ (
        let response = moved w (trim id) (
          actualizar_estado_pedido w.caller w.today w.now (some pedido) PedidoEstado.en_revision) in
        (response.0, move_result response.1))
unfolding update_internal_pedido_status
review_run w id pedido h = ground (arith, en_revision_named)

abbrev IsReviewed : Store × ServiceResult PedidoEstado → Text → Pedido → Type 0
IsReviewed result id pedido =
    (result.1 ≡ success (reviewed pedido.status))
    × ((p : Pedido) × (result.0.orders (trim id) ≡ some p) × (p.status ≡ reviewed pedido.status))

refused :
    (e : RaisedException)
    → is_about_transition e ≡ true
    → (m : Text) × (rpc_failure {A = Unit {0}} (some (exception_message e))
        ≡ failure transition m (status m))
refused e h =
    (get_safe_rpc_status_error_message (some (exception_message e)), rw (rpc_failure_table e, h))

settled :
    (w : Store) (id : Text) (pedido : Pedido) (m : Text)
    → w.orders (trim id) ≡ some pedido
    → is_pedido_initial_status pedido.status ≡ false
    → IsReviewed (recheck database_client w m (status m) (answer (some pedido.status))) id pedido
unfolding recheck
settled w id pedido m stored past = (ground arith, (pedido, ground arith, ground arith))

after_call :
    (w : Store) (id : Text) (pedido : Pedido) (r : RpcResult Pedido)
    → w.orders (trim id) ≡ some pedido
    → ReviewOutcome pedido r
    → let response = moved w (trim id) r in
      IsReviewed (ensure_from database_client id (response.0, move_result response.1)) id pedido
unfolding ensure_from
after_call w id pedido (returned p) stored h =
    (ground arith, (p, rw (text_eq_refl (trim id)), ground arith))
after_call w id pedido (raised e) stored h =
    let (m, failed) = refused e h.0 in rw (failed, stored) (settled w id pedido m stored h.1)

-- Starting the review of an order succeeds whatever its state: an order in one of its first states
-- is under review afterwards, and any other is left in its state, which is the answer.
pub ensure_review_started :
    (w : Store) (id : Text) (pedido : Pedido)
    → CanReview w id pedido
    → let result = ensure_pedido_review_started database_client w id in
      (result.1 ≡ success (reviewed pedido.status))
      × ((p : Pedido) × (result.0.orders (trim id) ≡ some p) × (p.status ≡ reviewed pedido.status))
unfolding ensure_pedido_review_started
ensure_review_started w id pedido h = rw (review_run w id pedido h) (
    after_call w id pedido _ h.stored
      (review_call w.caller h.actor w.today w.now pedido h.may_change))
