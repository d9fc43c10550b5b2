-- ===== src/Accounts/Exact.antt =====
-- internal/managers/account.go: what the closure of roles grants.
use solve.Prelude.{
  ℕ, suc, zero, true, some, List, [], ◌∷◌, String, Result, ok, ◌≡◌, refl, sym, arith, ◌⊎◌, ◌↔◌, inl,
  inr, Bool-cases, Result-cases, length, In, here, there, In-cons-cases,
}
use solve.Perms.Set.{PermissionSet, contains, has_permission}
use solve.Perms.Roles.{is_built_in_role}
use solve.Accounts.{
  Role, RoleEdge, has_id, find_by_role, roles_loop, edges_loop, after_roles, rounds,
  get_recursive_permissions,
}
use solve.Accounts.Termination.{edges_loop-keeps}
use solve.Accounts.Closure.{
  Reaches, root, below, Names, edges_loop-In, edges_loop-seen, edges_loop-child, edges_loop-new,
  roles_loop-keeps, roles_loop-grants, roles_loop-only,
}

no_permission : (name : String) → has_permission [] name ≡ true → ⊥
unfolding has_permission contains
no_permission name h = ground arith

module _ (get_role : ℕ → Result Role) where
  module _ (edges : List RoleEdge) (roots : List ℕ) where
    -- What holds between two rounds: what was seen is reached and what was granted is a built-in
    -- role that is reached; and a role that was seen is of the next round, or done with.
    abbrev Done : List ℕ → PermissionSet → ℕ → Type 0
    Done roles permissions id =
        ((edge : RoleEdge) → In edge edges → edge.role_id ≡ id → has_id roles edge.child_id ≡ true)
        × ((role : Role)
            → get_role id ≡ ok role
            → is_built_in_role role.name ≡ true
            → has_permission permissions role.name ≡ true)

    record IsRound (roles ids : List ℕ) (permissions : PermissionSet) : Type 0 where
      rooted : (id : ℕ) → has_id roots id ≡ true → has_id roles id ≡ true
      reached : (id : ℕ) → has_id roles id ≡ true → Reaches edges roots id
      pending : (id : ℕ) → has_id ids id ≡ true → has_id roles id ≡ true
      granted :
          (name : String)
          → has_permission permissions name ≡ true
          → Names get_role (Reaches edges roots) name
      closed :
          (id : ℕ) → has_id roles id ≡ true → (has_id ids id ≡ true) ⊎ Done roles permissions id

    In-find_by_role :
        (es : List RoleEdge) (ids : List ℕ) (edge : RoleEdge)
        → In edge es
        → has_id ids edge.role_id ≡ true
        → In edge (find_by_role es ids)
    unfolding find_by_role
    In-find_by_role [] ids edge m h = elim m [ ]
    In-find_by_role (e ∷ es) ids edge here h = rw h here
    In-find_by_role (e ∷ es) ids edge (there m) h = elim (Bool-cases (has_id ids e.role_id)) [
      | inl yes' ↦ rw yes' (there (In-find_by_role es ids edge m h))
      | inr no' ↦ rw no' (In-find_by_role es ids edge m h)
    ]

    find_by_role-role :
        (es : List RoleEdge) (ids : List ℕ) (edge : RoleEdge)
        → In edge (find_by_role es ids)
        → In edge es × (has_id ids edge.role_id ≡ true)
    unfolding find_by_role
    find_by_role-role [] ids edge m = elim m [ ]
    find_by_role-role (e ∷ es) ids edge m = elim (Bool-cases (has_id ids e.role_id)) [
      | inl yes' ↦ elim (In-cons-cases (rw yes' at m)) [
        | inl same ↦ (rw same here, rw same yes')
        | inr m' ↦ let (a, b) = find_by_role-role es ids edge m' in (there a, b)
      ]
      | inr no' ↦ let (a, b) = find_by_role-role es ids edge (rw no' at m) in (there a, b)
    ]

    next-IsRound :
        (roles ids : List ℕ) (permissions permissions' : PermissionSet)
        → IsRound roles ids permissions
        → roles_loop get_role ids permissions ≡ ok permissions'
        → IsRound
            (edges_loop (find_by_role edges ids) roles).1
            (edges_loop (find_by_role edges ids) roles).0
            permissions'
    next-IsRound roles ids permissions permissions' x e =
        let es = find_by_role edges ids in
        record {
          rooted = λ id h. edges_loop-keeps es roles id (x.rooted id h);
          reached = λ id h. elim (edges_loop-seen es roles id h) [
            | inl old ↦ x.reached id old
            | inr new ↦
                let (edge, m, same) = edges_loop-child es roles id new in
                let (m', from) = find_by_role-role edges ids edge m in
                rw (sym same)
                  (below edge (x.reached edge.role_id (x.pending edge.role_id from)) m' refl)
          ];
          pending = λ id h. edges_loop-new es roles id h;
          granted = λ name h.
              elim (roles_loop-only get_role ids permissions {r = permissions'} name e h) [
                | inl old ↦ x.granted name old
                | inr (id, role, m, got, same, built) ↦
                    (id, role, x.reached id (x.pending id m), got, same, built)
              ];
          closed = λ id h. elim (edges_loop-seen es roles id h) [
            | inr new ↦ inl new
            | inl old ↦ inr (elim (x.closed id old) [
              | inl now ↦ (
                (λ edge m same.
                    edges_loop-In es roles edge (In-find_by_role edges ids edge m (rw same now))),
                λ role got built.
                    roles_loop-grants get_role ids permissions {r = permissions'} id role e now got
                      built,
              )
              | inr (followed, given) ↦ (
                (λ edge m same. edges_loop-keeps es roles edge.child_id (followed edge m same)),
                λ role got built.
                    roles_loop-keeps get_role ids permissions {r = permissions'} role.name e
                      (given role got built),
              )
            ])
          ];
        }

    rounds-IsRound :
        (fuel : ℕ) (roles ids : List ℕ) (permissions r : PermissionSet)
        → IsRound roles ids permissions
        → rounds get_role edges fuel roles ids permissions ≡ some (ok r)
        → (roles' : List ℕ) × IsRound roles' [] r
    unfolding rounds after_roles
    rounds-IsRound fuel roles [] permissions r x h =
        let e : permissions ≡ r = cc in (roles, rw (sym e) x)
    rounds-IsRound zero roles (id ∷ ids) permissions r x h = absurd (ground arith)
    rounds-IsRound (suc fuel) roles (id ∷ ids) permissions r x h =
        elim (Result-cases (roles_loop get_role (id ∷ ids) permissions)) [
          | inl (permissions', e) ↦
              rounds-IsRound fuel _ _ permissions' r
                (next-IsRound roles (id ∷ ids) permissions permissions' x e) (rw e at h)
          | inr (err', e) ↦ absurd (ground (arith, e, h))
        ]

    Reaches-seen :
        (roles : List ℕ) (r : PermissionSet) {id : ℕ}
        → IsRound roles [] r
        → Reaches edges roots id
        → has_id roles id ≡ true
    unfolding has_id
    Reaches-seen roles r x (root {id} h) = x.rooted id h
    Reaches-seen roles r x (below {id} edge reach m same) =
        elim (x.closed id (Reaches-seen roles r x reach)) [
          | inl now ↦ absurd (ground arith)
          | inr (followed, _) ↦ followed edge m same
        ]

    -- Permissions that `getRecursivePermissions` returns are exactly the names of the built-in roles
    -- that are given or below a given one.
    pub get_recursive_permissions_lem :
        (permissions : PermissionSet) (name : String)
        → get_recursive_permissions get_role edges roots ≡ some (ok permissions)
        → (has_permission permissions name ≡ true) ↔ Names get_role (Reaches edges roots) name
    unfolding get_recursive_permissions has_id
    get_recursive_permissions_lem permissions name h =
        let (roles, x) =
          rounds-IsRound (suc (length edges)) roots roots [] permissions
            (record {
              rooted = λ id m. m;
              reached = λ id m. root m;
              pending = λ id m. m;
              granted = λ n m. absurd (no_permission n m);
              closed = λ id m. inl m;
            })
            h in
        (
          x.granted name,
          λ (id, role, reach, got, same, built).
              elim (x.closed id (Reaches-seen roles permissions x reach)) [
                | inl now ↦ absurd (ground arith)
                | inr (_, given) ↦ rw (sym same) (given role got (rw same built))
              ],
        )
