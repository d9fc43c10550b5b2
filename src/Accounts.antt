-- ===== src/Accounts.antt =====
-- internal/managers/account.go: the permissions of an account's roles and of the roles below them.
--
-- `get_role` is what the role store returns for an ID, `edges` the rows of the store of role edges.
pub mod Termination
pub mod Closure
pub mod Exact
pub mod Context
use solve.Prelude.{
  ℕ, suc, zero, Bool, true, false, ◌||◌, Option, none, some, List, [], ◌∷◌, String, Result, ok, err,
  ◌>>=◌, if◌then◌else◌, ◌==◌, length, select,
}
use solve.Perms.Set.{PermissionSet, add_permission}
use solve.Perms.Roles.{is_built_in_role}

pub record Role : Type 0 where
  pub id : ℕ
  pub name : String

pub record RoleEdge : Type 0 where
  pub id : ℕ
  pub role_id : ℕ
  pub child_id : ℕ

-- Whether the map `roles` has an ID.
unfoldable pub has_id : List ℕ → ℕ → Bool
has_id [] id = false
has_id (x ∷ xs) id = x == id || has_id xs id

-- the loop over edges: the children that are new, and all that were seen
unfoldable pub edges_loop : List RoleEdge → List ℕ → List ℕ × List ℕ
edges_loop [] roles = ([], roles)
edges_loop (edge ∷ rest) roles =
    let old = edges_loop rest roles in
    let (ids, seen) = edges_loop rest (edge.child_id ∷ roles) in
    if has_id roles edge.child_id then old else (edge.child_id ∷ ids, seen)

-- `FindByRole`; an ID that is given twice may yield a row twice there, which the loop then skips
unfoldable pub find_by_role : List RoleEdge → List ℕ → List RoleEdge
find_by_role edges ids = select (λ e. has_id ids e.role_id) edges

-- the `return nil, err` of a round, or the rounds that are left
unfoldable pub after_roles :
    (PermissionSet → Option (Result PermissionSet))
    → Result PermissionSet
    → Option (Result PermissionSet)
after_roles rest (err e) = some (err e)
after_roles rest (ok permissions) = rest permissions

module _ (get_role : ℕ → Result Role) where
  -- the loop that adds the names of built-in roles
  unfoldable pub roles_loop : List ℕ → PermissionSet → Result PermissionSet
  roles_loop [] permissions = ok permissions
  roles_loop (id ∷ ids) permissions = do
    role ← get_role id
    roles_loop ids (
        if is_built_in_role role.name
        then add_permission permissions (role.name ∷ [])
        else permissions)

  module _ (edges : List RoleEdge) where
    -- the loop `for len(roleIDs) > 0`; `none` where the fuel runs out
    unfoldable pub rounds : ℕ → List ℕ → List ℕ → PermissionSet → Option (Result PermissionSet)
    rounds fuel roles [] permissions = some (ok permissions)
    rounds zero roles (id ∷ ids) permissions = none
    rounds (suc fuel) roles (id ∷ ids) permissions =
        let (children, seen) = edges_loop (find_by_role edges (id ∷ ids)) roles in
        after_roles (rounds fuel seen children) (roles_loop (id ∷ ids) permissions)

    -- A round beyond the first has an edge to a role that no round before had.
    unfoldable pub get_recursive_permissions : List ℕ → Option (Result PermissionSet)
    unfolding rounds
    get_recursive_permissions ids = rounds (suc (length edges)) ids ids []
