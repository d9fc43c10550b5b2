-- ===== src/Accounts/Context/Granted.antt =====
-- internal/managers/account.go: the permissions of the contexts that `MakeContext` returns.
use solve.Prelude.{
  ℕ, true, Option, none, some, List, String, Result, ok, err, ◌≡◌, refl, sym, ap, ◌∙◌, arith, ◌↔◌,
  inl, inr, Result-cases, In,
}
use solve.Perms.Set.{PermissionSet, has_permission}
use solve.Accounts.{RoleEdge, has_id}
use solve.Accounts.Closure.{Reaches, root, below, Names}
use solve.Accounts.Exact.{get_recursive_permissions_lem}
use solve.Accounts.Context.{
  user_account_kind, Account, User, AccountRole, AccountStores, AccountContext, is_blocked,
  get_user_role, members_loop, additional_roles, user_context, kind_context, roles_context,
  with_permissions, after_roles_context, make_context,
}
use solve.Accounts.Context.Starts.{Starts, roles_context-Starts, Starts-roles_context}

-- The roles that are at or below those that a visitor starts from.
pub data Holds (m : AccountStores) (visitor : Option Account) : ℕ → Type 0 where
  start : {id : ℕ} → Starts m visitor id → Holds m visitor id
  further :
      {id : ℕ} (edge : RoleEdge)
      → Holds m visitor id
      → In edge m.role_edges
      → edge.role_id ≡ id
      → Holds m visitor edge.child_id

module _ (m : AccountStores) where
  with_permissions-ok :
      (c c' : AccountContext) (r : Option (Result PermissionSet))
      → with_permissions m c r ≡ some (ok c')
      → (r ≡ some (ok c'.permissions))
  unfolding with_permissions
  with_permissions-ok c c' none h = absurd (ground (arith, h))
  with_permissions-ok c c' (some (err e)) h = absurd (ground (arith, h))
  with_permissions-ok c c' (some (ok permissions)) h =
      let e : c' ≡ record c { permissions = permissions } = ground (arith, h) in rw e refl

  Reaches-Holds :
      (visitor : Option Account) (ids : List ℕ) (id : ℕ)
      → ((i : ℕ) → has_id ids i ≡ true → Starts m visitor i)
      → Reaches m.role_edges ids id
      → Holds m visitor id
  Reaches-Holds visitor ids id f (root {id = i} h) = start (f i h)
  Reaches-Holds visitor ids id f (below {id = i} edge reach e same) =
      further edge (Reaches-Holds visitor ids i f reach) e same

  Holds-Reaches :
      (visitor : Option Account) (ids : List ℕ) (id : ℕ)
      → ((i : ℕ) → Starts m visitor i → has_id ids i ≡ true)
      → Holds m visitor id
      → Reaches m.role_edges ids id
  Holds-Reaches visitor ids id f (start {id = i} s) = root (f i s)
  Holds-Reaches visitor ids id f (further {id = i} edge held e same) =
      below edge (Holds-Reaches visitor ids i f held) e same

  -- The permissions of a context that `MakeContext` returns are exactly the names of the built-in
  -- roles at or below those that the visitor starts from: of a guest the guest role, of a scope
  -- user the role of scope users, of a user the role of the status and, unless it is blocked, the
  -- roles that the account was given.
  pub make_context-Holds :
      (visitor : Option Account) (c : AccountContext) (name : String)
      → make_context m visitor ≡ some (ok c)
      → (has_permission c.permissions name ≡ true) ↔ Names m.get_role (Holds m visitor) name
  unfolding make_context after_roles_context
  make_context-Holds visitor c name h = elim (Result-cases (roles_context m visitor)) [
    | inr (e, failed) ↦ absurd (ground (arith, rw failed at h))
    | inl ((base, ids), started) ↦
        let closed = with_permissions-ok base c _ (rw started at h) in
        let (to, from) =
          get_recursive_permissions_lem m.get_role m.role_edges ids c.permissions name closed in
        (
          λ p.
              let (id, role, reach, got, same, built) = to p in
              (
                id,
                role,
                Reaches-Holds visitor ids id
                    (λ i. roles_context-Starts m visitor base ids i started) reach,
                got,
                same,
                built,
              ),
          λ (id, role, held, got, same, built). from (
            id,
            role,
            Holds-Reaches visitor ids id
                (λ i s. Starts-roles_context m visitor base ids i s started) held,
            got,
            same,
            built,
          ),
        )
  ]

  user_context-blocked :
      (rows : List AccountRole) (account : Account) (user : User)
      → m.get_user account.id ≡ ok user
      → is_blocked user.status ≡ true
      → user_context m account ≡ user_context (record m { account_roles = rows }) account
  unfolding user_context additional_roles members_loop get_user_role
  user_context-blocked rows account user got blocked = rw (got, blocked) refl

  -- For a user who is blocked `MakeContext` returns the same, error or context, whatever roles the
  -- accounts were given.
  pub make_context-blocked :
      (rows : List AccountRole) (account : Account) (user : User)
      → account.kind ≡ user_account_kind
      → m.get_user account.id ≡ ok user
      → is_blocked user.status ≡ true
      → make_context m (some account)
        ≡ make_context (record m { account_roles = rows }) (some account)
  unfolding make_context roles_context kind_context after_roles_context
  make_context-blocked rows account user k got blocked =
      let m' : AccountStores = record m { account_roles = rows } in
      ap (λ kind. after_roles_context m (kind_context m kind account)) k
      ∙ ap (after_roles_context m) (user_context-blocked rows account user got blocked)
      ∙ agree (user_context m' account)
      ∙ ap (λ kind. after_roles_context m' (kind_context m' kind account)) (sym k)
    where
      agree :
          (r : Result (AccountContext × List ℕ))
          → after_roles_context m r ≡ after_roles_context (record m { account_roles = rows }) r
      agree (ok (c, ids)) = refl
      agree (err e) = refl
