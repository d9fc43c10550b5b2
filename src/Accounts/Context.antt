-- ===== src/Accounts/Context.antt =====
-- internal/managers/account.go: `MakeContext`, which finds the roles of whoever sends a request.
--
-- `AccountStores` has what the stores of the manager return: rows by ID, by key or by name, and
-- tables in the order of their IDs, whose searches report no error (account_role.go,
-- group_member.go). Of the rows only those fields are here that a context reads. A column of a kind
-- or a status holds one of the values that internal/models names.
pub mod Starts
pub mod Granted
use solve.Prelude.{
  ℕ, Bool, true, false, Option, none, some, List, [], ◌∷◌, String, Result, ok, err, Error, ◌>>=◌,
  if◌then◌else◌, ◌==◌, select, map,
}
use Prim.Native.String.{◌++◌}
use solve.Perms.Set.{PermissionSet}
use solve.Accounts.{Role, RoleEdge, get_recursive_permissions}

pub data AccountKind : Type 0 where
  user_account_kind scope_user_account_kind scope_account_kind group_account_kind : AccountKind

pub record Account : Type 0 where
  pub id : ℕ
  pub kind : AccountKind

pub data UserStatus : Type 0 where
  pending_user active_user blocked_user : UserStatus

pub record User : Type 0 where
  pub id : ℕ
  pub status : UserStatus

pub record ScopeUser : Type 0 where
  pub id : ℕ
  pub scope_id : ℕ

pub record Scope : Type 0 where
  pub id : ℕ

pub record Group : Type 0 where
  pub id : ℕ

pub data MemberKind : Type 0 where
  regular_member manager_member : MemberKind

pub record GroupMember : Type 0 where
  pub id : ℕ
  pub group_id : ℕ
  pub account_id : ℕ
  pub kind : MemberKind

pub record AccountRole : Type 0 where
  pub id : ℕ
  pub account_id : ℕ
  pub role_id : ℕ

pub record Setting : Type 0 where
  pub key : String
  pub value : String

pub record AccountStores : Type 0 where
  pub get_account : ℕ → Result Account
  pub get_user : ℕ → Result User
  pub get_scope_user : ℕ → Result ScopeUser
  pub get_scope : ℕ → Result Scope
  pub get_group : ℕ → Result Group
  pub get_role : ℕ → Result Role
  pub get_role_by_name : String → Result Role
  pub get_setting_by_key : String → Result Setting
  pub account_roles : List AccountRole
  pub group_members : List GroupMember
  pub role_edges : List RoleEdge

pub record AccountContext : Type 0 where
  pub account : Option Account
  pub user : Option User
  pub scope_user : Option ScopeUser
  pub permissions : PermissionSet
  pub group_accounts : List Account
  pub group_members : List GroupMember

unfoldable pub user_status_string : UserStatus → String
user_status_string pending_user = "pending"
user_status_string active_user = "active"
user_status_string blocked_user = "blocked"

unfoldable pub is_blocked : UserStatus → Bool
is_blocked blocked_user = true
is_blocked _ = false

-- the value of a setting, or a name where there is no such setting
unfoldable pub role_name_setting : String → Result Setting → Result String
role_name_setting role_name (ok setting) = ok setting.value
role_name_setting role_name (err Error.no_rows) = ok role_name
role_name_setting role_name (err e) = err e

-- the two `FindByAccount`
unfoldable pub roles_find_by_account : List AccountRole → ℕ → List AccountRole
roles_find_by_account rows account_id = select (λ r. r.account_id == account_id) rows

unfoldable pub members_find_by_account : List GroupMember → ℕ → List GroupMember
members_find_by_account rows account_id = select (λ r. r.account_id == account_id) rows

module _ (m : AccountStores) where
  unfoldable pub get_guest_role : Result Role
  unfolding role_name_setting
  get_guest_role = do
    role_name ← role_name_setting "guest_group" (m.get_setting_by_key "accounts.guest_role")
    m.get_role_by_name role_name

  unfoldable pub get_user_role : UserStatus → Result Role
  unfolding role_name_setting user_status_string
  get_user_role status = do
    role_name ←
        role_name_setting (user_status_string status ++ "_user_group")
          (m.get_setting_by_key ("accounts." ++ (user_status_string status ++ "_user_role")))
    m.get_role_by_name role_name

  unfoldable pub get_scope_user_role : Result Role
  unfolding role_name_setting
  get_scope_user_role = do
    role_name ←
        role_name_setting "scope_user_group" (m.get_setting_by_key "accounts.scope_user_role")
    m.get_role_by_name role_name

  -- the loop over the memberships of an account
  unfoldable pub members_loop : List GroupMember → Result (List GroupMember × List Account)
  members_loop [] = ok ([], [])
  members_loop (member ∷ members) = do
    group ← m.get_group member.group_id
    group_account ← m.get_account group.id
    (rest, accounts) ← members_loop members
    ok (member ∷ rest, group_account ∷ accounts)

  -- the roles of a user beside that of the status
  unfoldable pub additional_roles : ℕ → UserStatus → List ℕ
  unfolding is_blocked roles_find_by_account
  additional_roles account_id status =
      if is_blocked status
      then []
      else map (λ (r : AccountRole). r.role_id) (roles_find_by_account m.account_roles account_id)

  -- the three branches of `MakeContext`: a context without permissions, and the roles
  unfoldable pub user_context : Account → Result (AccountContext × List ℕ)
  unfolding get_user_role additional_roles members_loop members_find_by_account
  user_context account = do
    user ← m.get_user account.id
    role ← get_user_role user.status
    (members, accounts) ← members_loop (members_find_by_account m.group_members account.id)
    ok (
      record {
        account = some account;
        user = some user;
        scope_user = none;
        permissions = [];
        group_accounts = accounts;
        group_members = members;
      },
      role.id ∷ additional_roles account.id user.status,
    )

  unfoldable pub scope_user_context : Account → Result (AccountContext × List ℕ)
  unfolding get_scope_user_role
  scope_user_context account = do
    user ← m.get_scope_user account.id
    scope ← m.get_scope user.scope_id
    scope_account ← m.get_account scope.id
    role ← get_scope_user_role
    ok (
      record {
        account = some account;
        user = none;
        scope_user = some user;
        permissions = [];
        group_accounts = scope_account ∷ [];
        group_members = [];
      },
      role.id ∷ [],
    )

  unfoldable pub guest_context : Result (AccountContext × List ℕ)
  unfolding get_guest_role
  guest_context = do
    role ← get_guest_role
    ok (
      record {
        account = none;
        user = none;
        scope_user = none;
        permissions = [];
        group_accounts = [];
        group_members = [];
      },
      role.id ∷ [],
    )

  unfoldable pub kind_context : AccountKind → Account → Result (AccountContext × List ℕ)
  unfolding user_context scope_user_context
  kind_context user_account_kind account = user_context account
  kind_context scope_user_account_kind account = scope_user_context account
  kind_context _ account = err Error.unsupported_kind

  unfoldable pub roles_context : Option Account → Result (AccountContext × List ℕ)
  unfolding kind_context guest_context
  roles_context (some account) = kind_context account.kind account
  roles_context none = guest_context

  -- the end of `MakeContext`; `none` where the fuel of the closure runs out
  unfoldable pub with_permissions :
      AccountContext → Option (Result PermissionSet) → Option (Result AccountContext)
  with_permissions c none = none
  with_permissions c (some (err e)) = some (err e)
  with_permissions c (some (ok permissions)) = some (ok (record c { permissions = permissions }))

  unfoldable pub after_roles_context :
      Result (AccountContext × List ℕ) → Option (Result AccountContext)
  unfolding with_permissions
  after_roles_context (err e) = some (err e)
  after_roles_context (ok (c, role_ids)) =
      with_permissions c (get_recursive_permissions m.get_role m.role_edges role_ids)

  unfoldable pub make_context : Option Account → Option (Result AccountContext)
  unfolding roles_context after_roles_context
  make_context account = after_roles_context (roles_context account)
