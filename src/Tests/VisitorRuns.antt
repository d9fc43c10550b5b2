-- ===== src/Tests/VisitorRuns.antt =====
-- The context of a user who is active, and of one who is blocked, with the same role given.
use solve.Prelude.{
  true, some, none, [], ◌∷◌, ok, err, Error, ◌≡◌, refl, ◌↔◌, if◌then◌else◌, ◌==◌, str_eq,
}
use solve.Perms.Set.{has_permission, add_permission}
use solve.Perms.Roles.{login_role, is_built_in_role}
use solve.Accounts.{after_roles, roles_loop, edges_loop, find_by_role, get_recursive_permissions}
use solve.Accounts.Closure.{Names}
use solve.Accounts.Context.{
  Account, user_account_kind, group_account_kind, active_user, blocked_user, AccountStores,
  AccountContext, make_context, is_blocked, regular_member,
}
use solve.Accounts.Context.Granted.{Holds, make_context-Holds, make_context-blocked}

abbrev stores : AccountStores
stores = record {
  get_account = λ id. ok (record { id = id; kind = group_account_kind });
  get_user = λ id. ok (
      if id == 5
      then record { id = 5; status = active_user }
      else record { id = id; status = blocked_user });
  get_scope_user = λ id. err Error.no_rows;
  get_scope = λ id. err Error.no_rows;
  get_group = λ id. ok (record { id = id });
  get_role = λ id.
      if id == 1
      then ok (record { id = 1; name = "active_user_group" })
      else if id == 2
      then ok (record { id = 2; name = "login" })
      else ok (record { id = id; name = "blocked_user_group" });
  get_role_by_name = λ name.
      if str_eq name "active_user_group"
      then ok (record { id = 1; name = name })
      else ok (record { id = 3; name = name });
  get_setting_by_key = λ key. err Error.no_rows;
  account_roles =
      record { id = 1; account_id = 5; role_id = 2 }
      ∷ record { id = 2; account_id = 6; role_id = 2 }
      ∷ [];
  group_members = record { id = 1; group_id = 9; account_id = 5; kind = regular_member } ∷ [];
  role_edges = [];
}

abbrev active : Account
active = record { id = 5; kind = user_account_kind }

abbrev blocked : Account
blocked = record { id = 6; kind = user_account_kind }

abbrev active_context : AccountContext
active_context = record {
  account = some active;
  user = some (record { id = 5; status = active_user });
  scope_user = none;
  permissions = login_role ∷ [];
  group_accounts = record { id = 9; kind = group_account_kind } ∷ [];
  group_members = record { id = 1; group_id = 9; account_id = 5; kind = regular_member } ∷ [];
}

active_ok : make_context stores (some active) ≡ some (ok active_context)
unfolding make_context get_recursive_permissions after_roles roles_loop edges_loop find_by_role
    is_built_in_role add_permission
active_ok = refl

make_context-Holds_example :
    (has_permission active_context.permissions login_role ≡ true)
    ↔ Names stores.get_role (Holds stores (some active)) login_role
make_context-Holds_example =
    make_context-Holds stores (some active) active_context login_role active_ok

is_blocked_6 : is_blocked blocked_user ≡ true
unfolding is_blocked
is_blocked_6 = refl

make_context-blocked_example :
    make_context stores (some blocked)
    ≡ make_context (record stores { account_roles = [] }) (some blocked)
make_context-blocked_example =
    make_context-blocked stores [] blocked (record { id = 6; status = blocked_user }) refl refl
      is_blocked_6
