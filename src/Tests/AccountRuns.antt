-- ===== src/Tests/AccountRuns.antt =====
-- Two roles that are each below the other.
use solve.Prelude.{
  ℕ, true, some, List, [], ◌∷◌, Result, ok, err, Error, ◌≡◌, refl, ◌↔◌, if◌then◌else◌, ◌==◌, String,
}
use solve.Perms.Set.{has_permission, add_permission, contains}
use solve.Perms.Roles.{login_role, is_built_in_role, built_in_roles}
use solve.Accounts.{
  Role, RoleEdge, has_id, find_by_role, roles_loop, edges_loop, after_roles, rounds,
  get_recursive_permissions,
}
use solve.Accounts.Termination.{get_recursive_permissions_ends}
use solve.Accounts.Closure.{Reaches, Names}
use solve.Accounts.Exact.{get_recursive_permissions_lem}

abbrev two_roles : ℕ → Result Role
two_roles id =
    if id == 1
    then ok (record { id = 1; name = "user_group" })
    else if id == 2
    then ok (record { id = 2; name = "login" })
    else err Error.no_rows

abbrev cycle : List RoleEdge
cycle =
    record { id = 1; role_id = 1; child_id = 2 } ∷ record { id = 2; role_id = 2; child_id = 1 } ∷ []

cycle_ok : get_recursive_permissions two_roles cycle (1 ∷ []) ≡ some (ok (login_role ∷ []))
unfolding get_recursive_permissions rounds after_roles roles_loop edges_loop find_by_role has_id
    is_built_in_role built_in_roles contains add_permission
cycle_ok = refl

get_recursive_permissions_ends_example :
    (r : Result (List String)) × (get_recursive_permissions two_roles cycle (1 ∷ []) ≡ some r)
get_recursive_permissions_ends_example = get_recursive_permissions_ends two_roles cycle (1 ∷ [])

get_recursive_permissions_example :
    (has_permission (login_role ∷ []) login_role ≡ true)
    ↔ Names two_roles (Reaches cycle (1 ∷ [])) login_role
get_recursive_permissions_example =
    get_recursive_permissions_lem two_roles cycle (1 ∷ []) (login_role ∷ []) login_role cycle_ok
