-- ===== src/Permissions/Routes.antt =====
-- src/lib/permissions/routes.ts: which roles reach which pages of the dashboard.
use godel_design.Prelude.{
  List, [], ◌∷◌, ◌++◌, Bool, true, false, any, ◌||◌, ◌&&◌, ◌==◌, if◌then◌else◌, Option, some, none,
  find, is_empty, ◌≡◌, refl, arith, ◌⊎◌, inl, inr,
}
use godel_design.Database.{AppRole, admin, supervisor, trabajador}
use godel_design.JsText.{Text, codes, text_eq, starts_with}

pub record RouteRule : Type 0 where
  pub prefix : Text
  pub roles : List AppRole

abbrev pub all_roles : List AppRole
all_roles = admin ∷ supervisor ∷ trabajador ∷ []

abbrev dashboard_route_rules : List RouteRule
dashboard_route_rules =
    record { prefix = codes "/dashboard/__not-found__"; roles = all_roles }
    ∷ record { prefix = codes "/dashboard/solicitudes"; roles = admin ∷ supervisor ∷ [] }
    ∷ record { prefix = codes "/dashboard/pedidos"; roles = all_roles }
    ∷ record { prefix = codes "/dashboard/clientes"; roles = admin ∷ supervisor ∷ [] }
    ∷ record { prefix = codes "/dashboard/configuracion"; roles = admin ∷ [] }
    ∷ []

abbrev same_role : AppRole → AppRole → Bool
same_role admin admin = true
same_role supervisor supervisor = true
same_role trabajador trabajador = true
same_role _ _ = false

unfoldable pub matches_route_prefix : Text → Text → Bool
matches_route_prefix pathname prefix =
    text_eq pathname prefix || starts_with (prefix ++ b'/' ∷ []) pathname

-- `pathname.replace(/\/+$/, "")`.
unfoldable pub strip_slashes : Text → Text
strip_slashes [] = []
strip_slashes (c ∷ s) =
    let rest = strip_slashes s in if is_empty rest && c == b'/' then [] else c ∷ rest

unfoldable pub normalize_pathname : Text → Text
normalize_pathname pathname =
    if text_eq pathname (codes "/") then pathname else strip_slashes pathname

abbrev includes_role : Option RouteRule → AppRole → Bool
includes_role none role = false
includes_role (some rule) role = any (same_role role) rule.roles

access_normalized : AppRole → Text → Bool
access_normalized role path =
    if text_eq path (codes "/dashboard")
    then any (same_role role) all_roles
    else includes_role (find (λ rule. matches_route_prefix path rule.prefix) dashboard_route_rules)
        role

unfoldable pub can_access_dashboard_route : AppRole → Text → Bool
unfolding access_normalized
can_access_dashboard_route role pathname = access_normalized role (normalize_pathname pathname)

unfoldable pub is_known_dashboard_route : Text → Bool
is_known_dashboard_route pathname =
    let path = normalize_pathname pathname in
    if text_eq path (codes "/dashboard")
    then true
    else any (λ rule. matches_route_prefix path rule.prefix) dashboard_route_rules

-- What a worker may open a supervisor may open, and what a supervisor may open an administrator may.
pub access_mono :
    (pathname : Text)
    → (can_access_dashboard_route trabajador pathname ≡ true
        → can_access_dashboard_route supervisor pathname ≡ true)
      × (can_access_dashboard_route supervisor pathname ≡ true
          → can_access_dashboard_route admin pathname ≡ true)
unfolding can_access_dashboard_route
access_mono pathname = ground arith

strip-append_slash : (s : Text) → strip_slashes (s ++ b'/' ∷ []) ≡ strip_slashes s
unfolding strip_slashes
strip-append_slash [] = refl
strip-append_slash (c ∷ s) = ground (arith, strip-append_slash s)

-- Neither the empty path nor the root is a page of the dashboard.
no_access_outside :
    (role : AppRole)
    → (access_normalized role [] ≡ false) × (access_normalized role (b'/' ∷ []) ≡ false)
unfolding access_normalized text_eq matches_route_prefix starts_with
no_access_outside admin = (refl, refl)
no_access_outside supervisor = (refl, refl)
no_access_outside trabajador = (refl, refl)

normalize_slash :
    (p : Text)
    → (normalize_pathname (p ++ b'/' ∷ []) ≡ normalize_pathname p)
      ⊎ ((normalize_pathname p ≡ []) × (normalize_pathname (p ++ b'/' ∷ []) ≡ b'/' ∷ []))
      ⊎ ((normalize_pathname p ≡ b'/' ∷ []) × (normalize_pathname (p ++ b'/' ∷ []) ≡ []))
unfolding normalize_pathname text_eq strip_slashes
normalize_slash [] = inr (inl (refl, refl))
normalize_slash (c ∷ []) = ground arith
normalize_slash (c ∷ d ∷ s) = ground (arith, strip-append_slash (c ∷ d ∷ s))

-- A slash at the end of the path changes nothing.
access_ignores_slash :
    (role : AppRole) (pathname : Text)
    → can_access_dashboard_route role (pathname ++ b'/' ∷ [])
      ≡ can_access_dashboard_route role pathname
unfolding can_access_dashboard_route
access_ignores_slash role pathname =
    let (nil, root) = no_access_outside role in
    elim (normalize_slash pathname) [
      | inl e ↦ rw e
      | inr (inl (a, b)) ↦ rw (a, b, nil, root)
      | inr (inr (a, b)) ↦ rw (a, b, nil, root)
    ]
