-- ===== src/Accounts/Closure.antt =====
-- internal/managers/account.go: the roles below others, and what the loops of one round do.
use solve.Prelude.{
  ℕ, true, ◌||◌, List, [], ◌∷◌, String, Result, ok, ◌≡◌, ◌∙◌, sym, ap, arith, ◌⊎◌, inl, inr,
  Bool-cases, In, here, there, >>=-elim, ◌==◌, if◌then◌else◌, str_eq, eq_iff,
}
use solve.Perms.Set.{
  PermissionSet, contains, add_permission, has_permission, has_permission-add_permission,
  add_permission_keeps,
}
use solve.Perms.Roles.{is_built_in_role}
use solve.Accounts.{Role, RoleEdge, has_id, roles_loop, edges_loop}
use solve.Accounts.Termination.{edges_loop-keeps}

-- The roles that are at or below the given ones.
pub data Reaches (edges : List RoleEdge) (roots : List ℕ) : ℕ → Type 0 where
  root : {id : ℕ} → has_id roots id ≡ true → Reaches edges roots id
  below :
      {id : ℕ} (edge : RoleEdge)
      → Reaches edges roots id
      → In edge edges
      → edge.role_id ≡ id
      → Reaches edges roots edge.child_id

pub edges_loop-In :
    (es : List RoleEdge) (roles : List ℕ) (edge : RoleEdge)
    → In edge es
    → has_id (edges_loop es roles).1 edge.child_id ≡ true
unfolding edges_loop has_id
edges_loop-In [] roles edge m = elim m [ ]
edges_loop-In (e ∷ es) roles edge here = elim (Bool-cases (has_id roles e.child_id)) [
  | inl old ↦ rw old (edges_loop-keeps es roles e.child_id old)
  | inr new ↦ rw new (edges_loop-keeps es (e.child_id ∷ roles) e.child_id (ground arith))
]
edges_loop-In (e ∷ es) roles edge (there m) = elim (Bool-cases (has_id roles e.child_id)) [
  | inl old ↦ rw old (edges_loop-In es roles edge m)
  | inr new ↦ rw new (edges_loop-In es (e.child_id ∷ roles) edge m)
]

-- What is seen was seen before, or is new; and what is new is the child of an edge.
pub edges_loop-seen :
    (es : List RoleEdge) (roles : List ℕ) (id : ℕ)
    → has_id (edges_loop es roles).1 id ≡ true
    → (has_id roles id ≡ true) ⊎ (has_id (edges_loop es roles).0 id ≡ true)
unfolding edges_loop has_id
edges_loop-seen [] roles id h = inl h
edges_loop-seen (e ∷ es) roles id h = elim (Bool-cases (has_id roles e.child_id)) [
  | inl old ↦ rw old (edges_loop-seen es roles id (rw old at h))
  | inr new ↦ rw new (ground (arith, edges_loop-seen es (e.child_id ∷ roles) id (rw new at h)))
]

pub edges_loop-child :
    (es : List RoleEdge) (roles : List ℕ) (id : ℕ)
    → has_id (edges_loop es roles).0 id ≡ true
    → (edge : RoleEdge) × In edge es × (edge.child_id ≡ id)
unfolding edges_loop has_id
edges_loop-child [] roles id h = absurd (ground arith)
edges_loop-child (e ∷ es) roles id h = elim (Bool-cases (has_id roles e.child_id)) [
  | inl old ↦
      let (edge, m, same) = edges_loop-child es roles id (rw old at h) in (edge, there m, same)
  | inr new ↦
      let h' : (e.child_id == id || has_id (edges_loop es (e.child_id ∷ roles)).0 id) ≡ true =
        rw new at h in
      elim (Bool-cases (e.child_id == id)) [
        | inl same ↦ (e, here, ground (arith, same))
        | inr other ↦
            let (edge, m, same) =
              edges_loop-child es (e.child_id ∷ roles) id (ground (arith, h', other)) in
            (edge, there m, same)
      ]
]

pub edges_loop-new :
    (es : List RoleEdge) (roles : List ℕ) (id : ℕ)
    → has_id (edges_loop es roles).0 id ≡ true
    → has_id (edges_loop es roles).1 id ≡ true
unfolding edges_loop has_id
edges_loop-new [] roles id h = absurd (ground arith)
edges_loop-new (e ∷ es) roles id h = elim (Bool-cases (has_id roles e.child_id)) [
  | inl old ↦ rw old (edges_loop-new es roles id (rw old at h))
  | inr new ↦ rw new (elim (Bool-cases (e.child_id == id)) [
    | inl same ↦ edges_loop-keeps es (e.child_id ∷ roles) id (ground (arith, same))
    | inr other ↦ edges_loop-new es (e.child_id ∷ roles) id (ground (arith, (rw new at h), other))
  ])
]

grant-only :
    (role : Role) (permissions : PermissionSet) (name : String)
    → has_permission
        (if is_built_in_role role.name
          then add_permission permissions (role.name ∷ [])
          else permissions)
        name
      ≡ true
    → (has_permission permissions name ≡ true)
      ⊎ ((role.name ≡ name) × (is_built_in_role name ≡ true))
unfolding contains
grant-only role permissions name h = elim (Bool-cases (is_built_in_role role.name)) [
  | inl built ↦
      let h' : has_permission (add_permission permissions (role.name ∷ [])) name ≡ true =
        rw built at h in
      let k = has_permission-add_permission permissions (role.name ∷ []) name in
      elim (Bool-cases (str_eq role.name name)) [
        | inl same ↦
            let same' : role.name ≡ name = ground (arith, same, eq_iff role.name name) in
            inr (same', rw same' at built)
        | inr other ↦ inl (ground (arith, h', k, other))
      ]
  | inr not_built ↦ inl (rw not_built at h)
]

module _ (get_role : ℕ → Result Role) where
  -- A built-in role among some IDs.
  abbrev pub Names : (ℕ → Type 0) → String → Type 0
  Names P name =
      (id : ℕ) × (role : Role) × P id
      × (get_role id ≡ ok role)
      × (role.name ≡ name)
      × (is_built_in_role name ≡ true)

  pub roles_loop-keeps :
      (ids : List ℕ) (permissions : PermissionSet) {r : PermissionSet} (name : String)
      → roles_loop get_role ids permissions ≡ ok r
      → has_permission permissions name ≡ true
      → has_permission r name ≡ true
  unfolding roles_loop
  roles_loop-keeps [] permissions name e h = ground (arith, e, h)
  roles_loop-keeps (id ∷ ids) permissions {r} name e h = >>=-elim (get_role id) _ e λ role got rest.
      roles_loop-keeps ids _ {r = r} name rest
        (ground (arith, h, add_permission_keeps permissions (role.name ∷ []) name))

  pub roles_loop-grants :
      (ids : List ℕ) (permissions : PermissionSet) {r : PermissionSet} (id : ℕ) (role : Role)
      → roles_loop get_role ids permissions ≡ ok r
      → has_id ids id ≡ true
      → get_role id ≡ ok role
      → is_built_in_role role.name ≡ true
      → has_permission r role.name ≡ true
  unfolding roles_loop has_id contains
  roles_loop-grants [] permissions id role e m got built = absurd (ground arith)
  roles_loop-grants (x ∷ ids) permissions {r} id role e m got built =
      >>=-elim (get_role x) _ e λ role' got' rest. elim (Bool-cases (x == id)) [
        | inl same ↦
            let s : x ≡ id = ground (arith, same) in
            let k : ok role' ≡ ok role = sym got' ∙ (ap get_role s ∙ got) in
            let k' : role' ≡ role = cc in
            roles_loop-keeps ids _ {r = r} role.name rest (
              rw k' (
                rw built (
                  ground (
                    arith,
                    has_permission-add_permission permissions (role.name ∷ []) role.name,
                    eq_iff role.name role.name,
                  ))))
        | inr other ↦
            roles_loop-grants ids _ {r = r} id role rest (ground (arith, m, other)) got built
      ]

  pub roles_loop-only :
      (ids : List ℕ) (permissions : PermissionSet) {r : PermissionSet} (name : String)
      → roles_loop get_role ids permissions ≡ ok r
      → has_permission r name ≡ true
      → (has_permission permissions name ≡ true) ⊎ Names (λ id. has_id ids id ≡ true) name
  unfolding roles_loop has_id
  roles_loop-only [] permissions name e h = inl (ground (arith, e, h))
  roles_loop-only (x ∷ ids) permissions {r} name e h = >>=-elim (get_role x) _ e λ role got rest.
      elim (roles_loop-only ids _ {r = r} name rest h) [
        | inl old ↦ elim (grant-only role permissions name old) [
          | inl before ↦ inl before
          | inr (same, built) ↦ inr (x, role, ground arith, got, same, built)
        ]
        | inr (id, role', m, got', same, built) ↦
            inr (id, role', ground (arith, m), got', same, built)
      ]
