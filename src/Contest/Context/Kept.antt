-- ===== src/Contest/Context/Kept.antt =====
-- internal/managers/contest.go, BuildContext: what becomes of the permissions of the roles.
use solve.Prelude.{
  ℕ, String, str_eq, eq_iff, Bool, true, not, ◌&&◌, ◌||◌, Option, none, some, List, [], ◌∷◌, ok,
  ◌≡◌, ◌≢◌, refl, arith, >>=-elim,
}
use solve.Prelude.Int.{ℤ}
use solve.Perms.Set.{
  PermissionSet, contains, add_permission, has_permission, clone, has_permission-clone,
  add_permission_keeps,
}
use solve.Perms.Roles.{
  deregister_contest_role, delete_contest_role, observe_contest_role,
  observe_contest_standings_role, register_contest_role, register_contest_virtual_role,
}
use solve.Contest.Types.{
  Json, Contest, ContestConfig, ParticipantKind, ContestParticipant, manager_participant,
}
use solve.Contest.Time.{
  ContestStage, contest_not_planned, contest_not_started, contest_finished, stage,
  get_participant_contest_time,
}
use solve.Contest.Permissions.{
  get_participant_permissions, add_contest_upsolving_permissions, add_contest_observer_permissions,
  add_contest_manager_permissions, add_standings_permission,
}
use solve.Contest.Context.Effective.{build_context_parts}
use solve.Contest.Context.{
  Visitor, ContestContext, Roster, note_kind, join_group, add_group_permissions, own_loop,
  group_loop, groups_loop, add_owner, add_registration, add_register, add_virtual, add_upsolving,
  append_participant, account_roster, start_roster, visitor_roster, build_context, assemble,
  find_by_contest_account,
}

pub has_permission-add_group_permissions :
    (ps p : PermissionSet) (name : String)
    → has_permission (add_group_permissions p ps) name
      ≡ ((contains ps name && not (str_eq name deregister_contest_role)) || has_permission p name)
unfolding add_group_permissions add_permission has_permission
has_permission-add_group_permissions [] p name = refl
has_permission-add_group_permissions (x ∷ ps) p name = ground (
  arith,
  has_permission-add_group_permissions ps p name,
  has_permission-add_group_permissions ps (x ∷ p) name,
  eq_iff x deregister_contest_role,
  eq_iff name deregister_contest_role,
  eq_iff x name,
)

pub note_kind_lem :
    (k : ParticipantKind) (r : Roster)
    → ((note_kind k r).permissions ≡ r.permissions)
      × (k ≢ manager_participant → (note_kind k r).has_manager ≡ r.has_manager)
unfolding note_kind
note_kind_lem manager_participant r = (refl, λ h. absurd (h refl))
note_kind_lem _ r = (refl, λ h. refl)

pub join_group_lem :
    (contest_id account_id : ℕ) (k : ParticipantKind) (config : Json) (s : ContestStage)
    (r : Roster)
    → ((join_group contest_id account_id k config s r).permissions ≡ r.permissions)
      × (k ≢ manager_participant
          → (join_group contest_id account_id k config s r).has_manager ≡ r.has_manager)
unfolding join_group append_participant
join_group_lem contest_id account_id manager_participant config s r =
    (ground arith, λ h. absurd (h refl))
join_group_lem contest_id account_id _ config s r = (ground arith, λ h. ground arith)

add_contest_manager_permissions_keeps :
    (p : PermissionSet) (name : String)
    → has_permission p name ≡ true
    → has_permission (add_contest_manager_permissions p) name ≡ true
unfolding add_contest_manager_permissions
add_contest_manager_permissions_keeps p name k = add_permission_keeps p _ name k

add_standings_permission_keeps :
    (p : PermissionSet) (config : ContestConfig) (name : String)
    → has_permission p name ≡ true
    → has_permission (add_standings_permission p config) name ≡ true
unfolding add_standings_permission
add_standings_permission_keeps p config name k =
    ground (arith, add_permission_keeps p (observe_contest_standings_role ∷ []) name k)

add_contest_upsolving_permissions_keeps :
    (p : PermissionSet) (s : ContestStage) (config : ContestConfig) (name : String)
    → has_permission p name ≡ true
    → has_permission (add_contest_upsolving_permissions p s config) name ≡ true
unfolding add_contest_upsolving_permissions
add_contest_upsolving_permissions_keeps p contest_finished config name k =
    add_standings_permission_keeps _ config name
      (add_permission_keeps _ _ name (add_permission_keeps p (observe_contest_role ∷ []) name k))
add_contest_upsolving_permissions_keeps p _ config name k =
    add_permission_keeps p (observe_contest_role ∷ []) name k

add_contest_observer_permissions_keeps :
    (p : PermissionSet) (s : ContestStage) (config : ContestConfig) (name : String)
    → has_permission p name ≡ true
    → has_permission (add_contest_observer_permissions p s config) name ≡ true
unfolding add_contest_observer_permissions
add_contest_observer_permissions_keeps p contest_not_planned config name k =
    add_permission_keeps p (observe_contest_role ∷ []) name k
add_contest_observer_permissions_keeps p contest_not_started config name k =
    add_permission_keeps p (observe_contest_role ∷ []) name k
add_contest_observer_permissions_keeps p _ config name k =
    add_standings_permission_keeps _ config name (
      add_standings_permission_keeps _ config name
        (add_permission_keeps p (observe_contest_role ∷ []) name k))

module _ (name : String) where
  -- A roster has at least the permissions of another.
  abbrev Keeps : Roster → Roster → Type 0
  Keeps r r' = has_permission r.permissions name ≡ true → has_permission r'.permissions name ≡ true

  module _ (unmarshal : Json → Option ℤ) (config : ContestConfig) (now : ℤ) where
    own_loop-Keeps :
        (ps : List ContestParticipant) (r : Roster) {r' : Roster}
        → own_loop unmarshal config now ps r ≡ ok r'
        → Keeps r r'
    unfolding own_loop
    own_loop-Keeps [] r h = λ k. ground arith
    own_loop-Keeps (p ∷ ps) r {r'} h = λ k.
        >>=-elim (get_participant_permissions unmarshal config p now) _ h λ qs e rest.
          own_loop-Keeps ps _ {r' = r'} rest (
            rw (note_kind_lem p.kind (record r { permissions = add_permission r.permissions qs })).0
              (add_permission_keeps r.permissions qs name k))

    module _ (contest_id account_id : ℕ) where
      group_loop-Keeps :
          (ps : List ContestParticipant) (r : Roster) {r' : Roster}
          → group_loop unmarshal config now contest_id account_id ps r ≡ ok r'
          → Keeps r r'
      unfolding group_loop
      group_loop-Keeps [] r h = λ k. ground arith
      group_loop-Keeps (p ∷ ps) r {r'} h = λ k.
          >>=-elim (get_participant_permissions unmarshal config p now) _ h λ qs e rest.
            >>=-elim (stage (get_participant_contest_time unmarshal config (some p) now)) _ rest
              λ s e' rest'. group_loop-Keeps ps _ {r' = r'} rest' (
                rw
                  (join_group_lem contest_id account_id p.kind p.config s
                    (record r { permissions = add_group_permissions r.permissions qs })).0
                  (ground (arith, has_permission-add_group_permissions qs r.permissions name)))

      groups_loop-Keeps :
          (store : List ContestParticipant) (groups : List ℕ) (r : Roster) {r' : Roster}
          → groups_loop unmarshal config now contest_id account_id store groups r ≡ ok r'
          → Keeps r r'
      unfolding groups_loop
      groups_loop-Keeps store [] r h = λ k. ground arith
      groups_loop-Keeps store (g ∷ gs) r {r'} h = λ k.
          >>=-elim
            (group_loop unmarshal config now contest_id account_id
              (find_by_contest_account store contest_id g) r)
            _ h
            λ r₁ e rest.
              groups_loop-Keeps store gs r₁ {r' = r'} rest
                (group_loop-Keeps (find_by_contest_account store contest_id g) r e k)

  add_owner-Keeps :
      (contest : Contest) (account : ℕ) (r : Roster) → Keeps r (add_owner contest account r)
  unfolding add_owner append_participant
  add_owner-Keeps contest account r k =
      ground (arith, add_contest_manager_permissions_keeps r.permissions name k)

  add_two_keeps :
      (p : PermissionSet) (x y : String)
      → has_permission p name ≡ true
      → has_permission (add_permission (add_permission p (x ∷ [])) (y ∷ [])) name ≡ true
  add_two_keeps p x y k =
      add_permission_keeps _ (y ∷ []) name (add_permission_keeps p (x ∷ []) name k)

  add_register-Keeps : (can : Bool) (s : ContestStage) (r : Roster) → Keeps r (add_register can s r)
  unfolding add_register
  add_register-Keeps can s r k =
      ground (arith, add_two_keeps r.permissions observe_contest_role register_contest_role k)

  add_virtual-Keeps :
      (can : Bool) (config : ContestConfig) (s : ContestStage) (r : Roster)
      → Keeps r (add_virtual can config s r)
  unfolding add_virtual
  add_virtual-Keeps can config s r k =
      ground
        (arith, add_two_keeps r.permissions observe_contest_role register_contest_virtual_role k)

  add_upsolving-Keeps :
      (can : Bool) (config : ContestConfig) (s : ContestStage) (contest : Contest) (account : ℕ)
      (r : Roster)
      → Keeps r (add_upsolving can config s contest account r)
  unfolding add_upsolving
  add_upsolving-Keeps can config s contest account r k =
      ground (arith, add_contest_upsolving_permissions_keeps r.permissions s config name k)

  add_registration-Keeps :
      (config : ContestConfig) (s : ContestStage) (contest : Contest) (account : ℕ) (r : Roster)
      → Keeps r (add_registration config s contest account r)
  unfolding add_registration
  add_registration-Keeps config s contest account r k =
      add_upsolving-Keeps _ config s contest account _
        (add_virtual-Keeps _ config s _ (add_register-Keeps _ s r k))

module _ (unmarshal_config : Json → Option ContestConfig) (unmarshal : Json → Option ℤ)
    (get_setting : String → Option String) (store : List ContestParticipant) (visitor : Visitor)
    (contest : Contest) (now : ℤ) (c : ContestContext) where
  account_roster_keeps :
      (config : ContestConfig) (s : ContestStage) (account : ℕ) (r : Roster) (name : String)
      → account_roster unmarshal store contest config now s account visitor ≡ ok r
      → has_permission visitor.permissions name ≡ true
      → has_permission r.permissions name ≡ true
  unfolding account_roster start_roster
  account_roster_keeps config s account r name h k =
      >>=-elim
        (own_loop unmarshal config now (find_by_contest_account store contest.id account)
          (start_roster store contest account visitor))
        _ h
        λ r₁ e₁ rest.
          >>=-elim
            (groups_loop unmarshal config now contest.id account store visitor.group_accounts r₁) _
            rest
            λ r₂ e₂ last.
              let k₀ : has_permission (start_roster store contest account visitor).permissions name
                  ≡ true =
                ground (
                  arith,
                  has_permission-clone visitor.permissions name,
                  add_permission_keeps (clone visitor.permissions) (delete_contest_role ∷ []) name,
                ) in
              let k₁ = own_loop-Keeps name unmarshal config now _ _ e₁ k₀ in
              let k₂ =
                groups_loop-Keeps name unmarshal config now contest.id account store
                  visitor.group_accounts r₁ e₂ k₁ in
              let k₃ =
                add_registration-Keeps name config s contest account _
                  (add_owner-Keeps name contest account r₂ k₂) in
              let e : r ≡ add_registration config s contest account (add_owner contest account r₂) =
                cc in
              rw e k₃

  visitor_roster_keeps :
      (config : ContestConfig) (s : ContestStage) (account : Option ℕ) (r : Roster) (name : String)
      → visitor_roster unmarshal store contest config now s account visitor ≡ ok r
      → has_permission visitor.permissions name ≡ true
      → has_permission r.permissions name ≡ true
  unfolding visitor_roster
  visitor_roster_keeps config s none r name h k =
      ground (arith, has_permission-clone visitor.permissions name)
  visitor_roster_keeps config s (some account) r name h k =
      account_roster_keeps config s account r name h k

  -- Whatever the visitor's roles permit, the context of a contest permits.
  pub build_context_keeps :
      (name : String)
      → build_context unmarshal_config unmarshal get_setting store visitor contest now ≡ ok c
      → has_permission visitor.permissions name ≡ true
      → has_permission c.permissions name ≡ true
  unfolding assemble
  build_context_keeps name built k =
      let (config, s, r, i, _, _, joined, _, e) =
        build_context_parts unmarshal_config unmarshal get_setting store visitor contest now c
          built in
      let k' = visitor_roster_keeps config s visitor.account r name joined k in
      rw e (ground (arith, add_contest_observer_permissions_keeps r.permissions s config name k'))
