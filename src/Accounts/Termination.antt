-- ===== src/Accounts/Termination.antt =====
-- internal/managers/account.go: how many rounds the closure of roles takes.
use solve.Prelude.{
  ℕ, suc, zero, ◌<◌, ◌≤◌, true, false, not, Option, some, List, [], ◌∷◌, Result, ok, err, ◌≡◌, refl,
  arith, ◌⊎◌, inl, inr, Bool-cases, length, count_if, count_if-lt, In, here, there, In-select,
}
use solve.Perms.Set.{PermissionSet}
use solve.Accounts.{
  Role, RoleEdge, has_id, find_by_role, roles_loop, edges_loop, after_roles, rounds,
  get_recursive_permissions,
}

-- What the loop over edges gives: nothing is forgotten, and the first new ID was an edge's child.
pub edges_loop-keeps :
    (es : List RoleEdge) (roles : List ℕ) (id : ℕ)
    → has_id roles id ≡ true
    → has_id (edges_loop es roles).1 id ≡ true
unfolding edges_loop has_id
edges_loop-keeps [] roles id h = h
edges_loop-keeps (e ∷ es) roles id h = elim (Bool-cases (has_id roles e.child_id)) [
  | inl old ↦ rw old (edges_loop-keeps es roles id h)
  | inr new ↦ rw new (edges_loop-keeps es (e.child_id ∷ roles) id (ground (arith, h)))
]

edges_loop-children :
    (es : List RoleEdge) (roles : List ℕ)
    → ((edges_loop es roles).0 ≡ [])
      ⊎ ((e : RoleEdge) × In e es
          × (has_id roles e.child_id ≡ false)
          × (has_id (edges_loop es roles).1 e.child_id ≡ true))
unfolding edges_loop has_id
edges_loop-children [] roles = inl refl
edges_loop-children (e ∷ es) roles = elim (Bool-cases (has_id roles e.child_id)) [
  | inl old ↦ elim (edges_loop-children es roles) [
    | inl none' ↦ inl (rw old none')
    | inr (e', m, new, seen) ↦ inr (e', there m, new, rw old seen)
  ]
  | inr new ↦
      inr
        (e, here, new, rw new (edges_loop-keeps es (e.child_id ∷ roles) e.child_id (ground arith)))
]

-- The edges to roles that were not seen yet.
abbrev pub unseen : List RoleEdge → List ℕ → ℕ
unseen edges roles = count_if (λ e. not (has_id roles e.child_id)) edges

unseen_le : (edges : List RoleEdge) (roles : List ℕ) → unseen edges roles ≤ length edges
unseen_le [] roles = omega arith
unseen_le (e ∷ es) roles = ground (arith, unseen_le es roles)

edges_loop-unseen :
    (edges : List RoleEdge) (ids roles : List ℕ)
    → ((edges_loop (find_by_role edges ids) roles).0 ≡ [])
      ⊎ (unseen edges (edges_loop (find_by_role edges ids) roles).1 < unseen edges roles)
unfolding find_by_role
edges_loop-unseen edges ids roles = elim (edges_loop-children (find_by_role edges ids) roles) [
  | inl none' ↦ inl none'
  | inr (e, m, new, seen) ↦ inr (
      count_if-lt _ _
        (λ x h. ground (arith, h, edges_loop-keeps (find_by_role edges ids) roles x.child_id))
        (In-select _ edges m) (ground (arith, seen)) (ground (arith, new)))
]

after_roles-some :
    (rest : PermissionSet → Option (Result PermissionSet))
    → ((permissions : PermissionSet) → (r : Result PermissionSet) × (rest permissions ≡ some r))
    → (x : Result PermissionSet) → (r : Result PermissionSet) × (after_roles rest x ≡ some r)
unfolding after_roles
after_roles-some rest h (err e) = (err e, refl)
after_roles-some rest h (ok permissions) = h permissions

module _ (get_role : ℕ → Result Role) (edges : List RoleEdge) where
  -- One round more than there are edges to new roles is enough.
  rounds_end :
      (fuel : ℕ) (roles ids : List ℕ) (permissions : PermissionSet)
      → (ids ≡ []) ⊎ (unseen edges roles < fuel)
      → (r : Result PermissionSet) × (rounds get_role edges fuel roles ids permissions ≡ some r)
  unfolding rounds
  rounds_end fuel roles [] permissions h = (ok permissions, refl)
  rounds_end zero roles (id ∷ ids) permissions h = absurd (ground (arith, h))
  rounds_end (suc fuel) roles (id ∷ ids) permissions h =
      let next = edges_loop (find_by_role edges (id ∷ ids)) roles in
      after_roles-some (rounds get_role edges fuel next.1 next.0)
        (λ permissions'.
          rounds_end fuel next.1 next.0 permissions'
            (elim (edges_loop-unseen edges (id ∷ ids) roles) [
              | inl none' ↦ inl none'
              | inr less ↦ inr (ground (arith, less, h))
            ]))
        (roles_loop get_role (id ∷ ids) permissions)

  -- The loop over the levels of roles ends, whatever the edges are, cycles included: the fuel of
  -- one round for each edge and one more is enough.
  pub get_recursive_permissions_ends :
      (ids : List ℕ)
      → (r : Result PermissionSet) × (get_recursive_permissions get_role edges ids ≡ some r)
  unfolding get_recursive_permissions
  get_recursive_permissions_ends ids =
      rounds_end (suc (length edges)) ids ids [] (inr (omega (arith, unseen_le edges ids)))
