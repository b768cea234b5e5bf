-- ===== src/Tests/Access.antt =====
-- Roles and pages.
use godel_design.Prelude.{List, [], ◌∷◌, true, false, ◌≡◌, refl}
use godel_design.Database.{admin, supervisor, trabajador}
use godel_design.JsText.{codes, text_eq, starts_with}
use godel_design.Permissions.{Permission, pedidos_view, usuarios_manage}
use godel_design.Permissions.Routes.{
  can_access_dashboard_route, normalize_pathname, matches_route_prefix, strip_slashes, access_mono,
}

abbrev wanted : List Permission
wanted = usuarios_manage ∷ pedidos_view ∷ []

access_mono_example :
    (can_access_dashboard_route trabajador (codes "/dashboard/pedidos/7") ≡ true
      → can_access_dashboard_route supervisor (codes "/dashboard/pedidos/7") ≡ true)
    × (can_access_dashboard_route supervisor (codes "/dashboard/pedidos/7") ≡ true
        → can_access_dashboard_route admin (codes "/dashboard/pedidos/7") ≡ true)
access_mono_example = access_mono (codes "/dashboard/pedidos/7")

pages :
    (can_access_dashboard_route trabajador (codes "/dashboard/clientes") ≡ false)
    × (can_access_dashboard_route supervisor (codes "/dashboard/clientes/4//") ≡ true)
    × (can_access_dashboard_route trabajador (codes "/dashboard/pedidosx") ≡ false)
unfolding can_access_dashboard_route normalize_pathname matches_route_prefix strip_slashes text_eq
    starts_with
pages = (refl, refl, refl)
