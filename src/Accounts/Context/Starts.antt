-- ===== src/Accounts/Context/Starts.antt =====
-- internal/managers/account.go: the roles that `MakeContext` finds for a visitor.
use solve.Prelude.{
  ℕ, true, false, Option, none, some, List, [], ◌∷◌, ok, >>=-elim, ◌≡◌, refl, subst, sym, ap, ◌∙◌,
  arith, inl, inr, Bool-cases, ◌==◌, map, In, here, there,
}
use solve.Accounts.{Role, has_id}
use solve.Accounts.Context.{
  AccountKind, user_account_kind, scope_user_account_kind, scope_account_kind, group_account_kind,
  Account, User, AccountRole, AccountStores, AccountContext, is_blocked, roles_find_by_account,
  get_guest_role, get_user_role, get_scope_user_role, members_loop, members_find_by_account,
  additional_roles, user_context, scope_user_context, guest_context, kind_context, roles_context,
}

-- The roles that a visitor starts from.
pub data Starts (m : AccountStores) : Option Account → ℕ → Type 0 where
  guest : (role : Role) → get_guest_role m ≡ ok role → Starts m none role.id
  scope_user :
      (account : Account) (role : Role)
      → account.kind ≡ scope_user_account_kind
      → get_scope_user_role m ≡ ok role
      → Starts m (some account) role.id
  status :
      (account : Account) (user : User) (role : Role)
      → account.kind ≡ user_account_kind
      → m.get_user account.id ≡ ok user
      → get_user_role m user.status ≡ ok role
      → Starts m (some account) role.id
  given :
      (account : Account) (user : User) (row : AccountRole)
      → account.kind ≡ user_account_kind
      → m.get_user account.id ≡ ok user
      → is_blocked user.status ≡ false
      → In row m.account_roles
      → row.account_id ≡ account.id
      → Starts m (some account) row.role_id

has_id-roles :
    (rows : List AccountRole) (account_id id : ℕ)
    → has_id (map (λ (r : AccountRole). r.role_id) (roles_find_by_account rows account_id)) id
      ≡ true
    → (row : AccountRole) × In row rows × (row.account_id ≡ account_id) × (row.role_id ≡ id)
unfolding has_id roles_find_by_account
has_id-roles [] account_id id h = absurd (ground arith)
has_id-roles (row ∷ rows) account_id id h = elim (Bool-cases (row.account_id == account_id)) [
  | inr other ↦
      let (found, m, a, b) = has_id-roles rows account_id id (rw other at h) in
      (found, there m, a, b)
  | inl mine ↦ elim (Bool-cases (row.role_id == id)) [
    | inl same ↦ (row, here, ground (arith, mine), ground (arith, same))
    | inr differs ↦
        let h' = rw mine at h in
        let (found, m, a, b) = has_id-roles rows account_id id (ground (arith, h', differs)) in
        (found, there m, a, b)
  ]
]

In-roles :
    (rows : List AccountRole) (account_id : ℕ) (row : AccountRole)
    → In row rows
    → row.account_id ≡ account_id
    → has_id
        (map (λ (r : AccountRole). r.role_id) (roles_find_by_account rows account_id))
        row.role_id
      ≡ true
unfolding has_id roles_find_by_account
In-roles [] account_id row m h = elim m [ ]
In-roles (x ∷ rows) account_id row here h =
    let mine : (x.account_id == account_id) ≡ true = ground (arith, h) in rw mine (ground arith)
In-roles (x ∷ rows) account_id row (there m) h = elim (Bool-cases (x.account_id == account_id)) [
  | inl mine ↦ rw mine (ground (arith, In-roles rows account_id row m h))
  | inr other ↦ rw other (In-roles rows account_id row m h)
]

module _ (m : AccountStores) where
  user_context-parts :
      (account : Account) (c : AccountContext) (ids : List ℕ)
      → user_context m account ≡ ok (c, ids)
      → (user : User) × (role : Role) × (m.get_user account.id ≡ ok user)
        × (get_user_role m user.status ≡ ok role)
        × (ids ≡ role.id ∷ additional_roles m account.id user.status)
  unfolding user_context
  user_context-parts account c ids h = >>=-elim (m.get_user account.id) _ h λ user got h₁.
      >>=-elim (get_user_role m user.status) _ h₁ λ role named h₂.
        >>=-elim (members_loop m (members_find_by_account m.group_members account.id)) _ h₂
          λ pair joined h₃. (user, role, got, named, ground (arith, h₃))

  scope_user_context-parts :
      (account : Account) (c : AccountContext) (ids : List ℕ)
      → scope_user_context m account ≡ ok (c, ids)
      → (role : Role) × (get_scope_user_role m ≡ ok role) × (ids ≡ role.id ∷ [])
  unfolding scope_user_context
  scope_user_context-parts account c ids h =
      >>=-elim (m.get_scope_user account.id) _ h λ user got h₁.
        >>=-elim (m.get_scope user.scope_id) _ h₁ λ scope found h₂.
          >>=-elim (m.get_account scope.id) _ h₂ λ owner held h₃.
            >>=-elim (get_scope_user_role m) _ h₃ λ role named h₄. (role, named, ground (arith, h₄))

  guest_context-parts :
      (c : AccountContext) (ids : List ℕ)
      → guest_context m ≡ ok (c, ids)
      → (role : Role) × (get_guest_role m ≡ ok role) × (ids ≡ role.id ∷ [])
  unfolding guest_context
  guest_context-parts c ids h =
      >>=-elim (get_guest_role m) _ h λ role named h₁. (role, named, ground (arith, h₁))

  one_id : (x id : ℕ) → has_id (x ∷ []) id ≡ true → x ≡ id
  unfolding has_id
  one_id x id h = ground (arith, h)

  user-Starts :
      (account : Account) (user : User) (role : Role) (id : ℕ)
      → account.kind ≡ user_account_kind
      → m.get_user account.id ≡ ok user
      → get_user_role m user.status ≡ ok role
      → has_id (role.id ∷ additional_roles m account.id user.status) id ≡ true
      → Starts m (some account) id
  unfolding additional_roles has_id
  user-Starts account user role id k got named h = elim (Bool-cases (role.id == id)) [
    | inl same ↦
        let e : role.id ≡ id = ground (arith, same) in
        subst (Starts m (some account)) e (status account user role k got named)
    | inr other ↦ elim (Bool-cases (is_blocked user.status)) [
      | inl blocked ↦ let h₁ = rw (other, blocked) at h in absurd (ground (arith, h₁))
      | inr free ↦
          let (row, r, mine, e) =
            has_id-roles m.account_roles account.id id (rw (other, free) at h) in
          subst (Starts m (some account)) e (given account user row k got free r mine)
    ]
  ]

  kind_context-Starts :
      (k : AccountKind) (account : Account) (c : AccountContext) (ids : List ℕ) (id : ℕ)
      → account.kind ≡ k
      → kind_context m k account ≡ ok (c, ids)
      → has_id ids id ≡ true
      → Starts m (some account) id
  unfolding kind_context
  kind_context-Starts user_account_kind account c ids id k h i =
      let (user, role, got, named, e) = user_context-parts account c ids h in
      user-Starts account user role id k got named (rw e at i)
  kind_context-Starts scope_user_account_kind account c ids id k h i =
      let (role, named, e) = scope_user_context-parts account c ids h in
      subst (Starts m (some account)) (one_id role.id id (rw e at i))
        (scope_user account role k named)
  kind_context-Starts scope_account_kind account c ids id k h i = absurd (ground (arith, h))
  kind_context-Starts group_account_kind account c ids id k h i = absurd (ground (arith, h))

  pub roles_context-Starts :
      (visitor : Option Account) (c : AccountContext) (ids : List ℕ) (id : ℕ)
      → roles_context m visitor ≡ ok (c, ids)
      → has_id ids id ≡ true
      → Starts m visitor id
  unfolding roles_context
  roles_context-Starts none c ids id h i =
      let (role, named, e) = guest_context-parts c ids h in
      subst (Starts m none) (one_id role.id id (rw e at i)) (guest role named)
  roles_context-Starts (some account) c ids id h i =
      kind_context-Starts account.kind account c ids id refl h i

  pub Starts-roles_context :
      (visitor : Option Account) (c : AccountContext) (ids : List ℕ) (id : ℕ)
      → Starts m visitor id
      → roles_context m visitor ≡ ok (c, ids)
      → has_id ids id ≡ true
  unfolding roles_context kind_context additional_roles has_id
  Starts-roles_context visitor c ids id (guest role named) h =
      let (role', named', e) = guest_context-parts c ids h in rw e (ground (arith, named, named'))
  Starts-roles_context visitor c ids id (scope_user account role k named) h =
      let (role', named', e) =
        scope_user_context-parts account c ids
          (sym (ap (λ kind. kind_context m kind account) k) ∙ h) in
      rw e (ground (arith, named, named'))
  Starts-roles_context visitor c ids id (status account user role k got named) h =
      let (user', role', got', named', e) =
        user_context-parts account c ids (sym (ap (λ kind. kind_context m kind account) k) ∙ h) in
      let u : user' ≡ user = ground (arith, got, got') in
      let r : role' ≡ role =
        ground (arith, named, named', ap (λ (v : User). get_user_role m v.status) u) in
      rw (e, r) (ground arith)
  Starts-roles_context visitor c ids id (given account user row k got free r mine) h =
      let (user', role', got', named', e) =
        user_context-parts account c ids (sym (ap (λ kind. kind_context m kind account) k) ∙ h) in
      let u : user' ≡ user = ground (arith, got, got') in
      rw (e, u, free) (ground (arith, In-roles m.account_roles account.id row r mine))
