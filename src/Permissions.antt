-- ===== src/Permissions.antt =====
-- src/lib/permissions/permissions.ts: what each role may do.
pub mod Routes
use godel_design.Prelude.{
  List, [], ◌∷◌, Bool, true, false, any, all, ℕ, ◌==◌, ◌↔◌, ◌≡◌, arith, ◌||◌, ◌&&◌,
}
use godel_design.Database.{AppRole, admin, supervisor, trabajador}

pub data Permission : Type 0 where
  dashboard_view solicitudes_view solicitudes_manage pedidos_view pedidos_manage : Permission
  pedidos_change_status clientes_view clientes_manage usuarios_view usuarios_manage : Permission
  configuracion_view configuracion_manage : Permission

abbrev permission_place : Permission → ℕ
permission_place dashboard_view = 0
permission_place solicitudes_view = 1
permission_place solicitudes_manage = 2
permission_place pedidos_view = 3
permission_place pedidos_manage = 4
permission_place pedidos_change_status = 5
permission_place clientes_view = 6
permission_place clientes_manage = 7
permission_place usuarios_view = 8
permission_place usuarios_manage = 9
permission_place configuracion_view = 10
permission_place configuracion_manage = 11

abbrev pub same_permission : Permission → Permission → Bool
same_permission p q = permission_place p == permission_place q

abbrev permissions : List Permission
permissions =
    dashboard_view ∷ solicitudes_view ∷ solicitudes_manage ∷ pedidos_view ∷ pedidos_manage
    ∷ pedidos_change_status ∷ clientes_view ∷ clientes_manage ∷ usuarios_view ∷ usuarios_manage
    ∷ configuracion_view ∷ configuracion_manage ∷ []

unfoldable pub permissions_by_role : AppRole → List Permission
permissions_by_role admin = permissions
permissions_by_role supervisor =
    dashboard_view ∷ solicitudes_view ∷ solicitudes_manage ∷ pedidos_view ∷ pedidos_manage
    ∷ pedidos_change_status ∷ clientes_view ∷ clientes_manage ∷ []
permissions_by_role trabajador = dashboard_view ∷ pedidos_view ∷ pedidos_change_status ∷ []

unfoldable pub has_permission : AppRole → Permission → Bool
unfolding permissions_by_role
has_permission role permission = any (same_permission permission) (permissions_by_role role)

unfoldable pub has_any_permission : AppRole → List Permission → Bool
unfolding has_permission
has_any_permission role wanted = any (has_permission role) wanted

unfoldable pub has_all_permissions : AppRole → List Permission → Bool
unfolding has_permission
has_all_permissions role wanted = all (has_permission role) wanted

abbrev pub is_admin : AppRole → Bool
is_admin admin = true
is_admin _ = false

abbrev pub is_supervisor : AppRole → Bool
is_supervisor supervisor = true
is_supervisor _ = false

abbrev pub is_trabajador : AppRole → Bool
is_trabajador trabajador = true
is_trabajador _ = false
