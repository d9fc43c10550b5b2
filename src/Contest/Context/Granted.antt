-- ===== src/Contest/Context/Granted.antt =====
-- internal/managers/contest.go, BuildContext: permissions beyond those of the account's roles.
use solve.Prelude.{
  ℕ, String, Bool, true, false, Option, none, some, List, [], ◌∷◌, ok, ◌≡◌, ◌≢◌, refl, ◌∙◌, arith,
  All, >>=-elim,
}
use solve.Prelude.Int.{ℤ}
use solve.Perms.Set.{
  PermissionSet, contains, add_permission, has_permission, disjoint, contains-disjoint,
  has_permission-add_permission-disjoint, has_permission-clone,
}
use solve.Perms.Roles.{
  update_contest_role, create_contest_problem_role, update_contest_problem_role,
  delete_contest_problem_role, observe_contest_participants_role, observe_contest_participant_role,
  create_contest_participant_role, delete_contest_participant_role, observe_contest_solution_role,
  create_contest_solution_role, update_contest_solution_role, delete_contest_solution_role,
  observe_contest_full_standings_role, observe_solution_report_checker_logs,
  observe_contest_message_role, create_contest_message_role, update_contest_message_role,
  delete_contest_message_role, observe_contest_role, observe_contest_standings_role,
  register_contest_role, register_contest_virtual_role,
}
use solve.Contest.Types.{
  Json, Contest, ContestConfig, ParticipantKind, ContestParticipant, manager_participant,
}
use solve.Contest.Time.{
  ContestStage, contest_not_planned, contest_not_started, contest_finished, stage,
  get_participant_contest_time,
}
use solve.Contest.Permissions.{
  kind_permissions, get_participant_permissions, add_contest_upsolving_permissions,
  add_contest_observer_permissions, add_standings_permission,
}
use solve.Contest.Context.Effective.{build_context_parts}
use solve.Contest.Context.Kept.{note_kind_lem, join_group_lem, has_permission-add_group_permissions}
use solve.Contest.Context.{
  Visitor, ContestContext, Roster, note_kind, join_group, add_group_permissions, own_loop,
  group_loop, groups_loop, is_owner, add_owner, add_registration, add_register, add_virtual,
  add_upsolving, account_roster, start_roster, visitor_roster, build_context, assemble,
  find_by_contest_account,
}

-- The permissions that only managers of a contest are given.
abbrev pub manager_only : List String
manager_only =
    update_contest_role ∷ create_contest_problem_role ∷ update_contest_problem_role
    ∷ delete_contest_problem_role ∷ observe_contest_participants_role
    ∷ observe_contest_participant_role ∷ create_contest_participant_role
    ∷ delete_contest_participant_role ∷ observe_contest_solution_role ∷ create_contest_solution_role
    ∷ update_contest_solution_role ∷ delete_contest_solution_role
    ∷ observe_contest_full_standings_role ∷ observe_solution_report_checker_logs
    ∷ observe_contest_message_role ∷ create_contest_message_role ∷ update_contest_message_role
    ∷ delete_contest_message_role ∷ []

abbrev pub NotManager : ContestParticipant → Type 0
NotManager p = p.kind ≢ manager_participant

kind_disjoint :
    (k : ParticipantKind) (s : ContestStage) (config : ContestConfig)
    → k ≢ manager_participant
    → disjoint (kind_permissions k s config) manager_only ≡ true
unfolding kind_permissions contains
kind_disjoint manager_participant s config h = absurd (h refl)
kind_disjoint _ s config h = ground arith

module _ (name : String) (reserved : contains manager_only name ≡ true) where
  -- Two rosters permit the name alike and know the same of managers.
  abbrev Alike : Roster → Roster → Type 0
  Alike r r' =
      (has_permission r'.permissions name ≡ has_permission r.permissions name)
      × (r'.has_manager ≡ r.has_manager)

  Alike-trans : (r r' r'' : Roster) → Alike r r' → Alike r' r'' → Alike r r''
  Alike-trans r r' r'' (a, b) (a', b') = (a' ∙ a, b' ∙ b)

  add_unreserved :
      (p : PermissionSet) (names : List String)
      → disjoint names manager_only ≡ true
      → has_permission (add_permission p names) name ≡ has_permission p name
  add_unreserved p names d =
      has_permission-add_permission-disjoint p names manager_only name d reserved

  module _ (unmarshal : Json → Option ℤ) (config : ContestConfig) (now : ℤ) where
    participant_unreserved :
        (p : ContestParticipant) (ps : PermissionSet)
        → NotManager p
        → get_participant_permissions unmarshal config p now ≡ ok ps
        → disjoint ps manager_only ≡ true
    unfolding get_participant_permissions
    participant_unreserved p ps h e =
        >>=-elim (stage (get_participant_contest_time unmarshal config (some p) now)) _ e
          λ s _ rest.
            let e' : ps ≡ kind_permissions p.kind s config = cc in
            rw e' (kind_disjoint p.kind s config h)

    own_loop-Alike :
        (ps : List ContestParticipant) (r : Roster) {r' : Roster}
        → All NotManager ps
        → own_loop unmarshal config now ps r ≡ ok r'
        → Alike r r'
    unfolding own_loop
    own_loop-Alike [] r n h = ground arith
    own_loop-Alike (p ∷ ps) r {r'} n h =
        >>=-elim (get_participant_permissions unmarshal config p now) _ h λ qs e rest.
          let r₁ = record r { permissions = add_permission r.permissions qs } in
          let (kept, same) = note_kind_lem p.kind r₁ in
          let (a, b) = own_loop-Alike ps (note_kind p.kind r₁) {r' = r'} n.1 rest in
          let u = add_unreserved r.permissions qs (participant_unreserved p qs n.0 e) in
          (a ∙ (rw kept u), b ∙ same n.0)

    module _ (contest_id account_id : ℕ) where
      group_loop-Alike :
          (ps : List ContestParticipant) (r : Roster) {r' : Roster}
          → All NotManager ps
          → group_loop unmarshal config now contest_id account_id ps r ≡ ok r'
          → Alike r r'
      unfolding group_loop
      group_loop-Alike [] r n h = ground arith
      group_loop-Alike (p ∷ ps) r {r'} n h =
          >>=-elim (get_participant_permissions unmarshal config p now) _ h λ qs e rest.
            >>=-elim (stage (get_participant_contest_time unmarshal config (some p) now)) _ rest
              λ s _ rest'.
                let r₁ = record r { permissions = add_group_permissions r.permissions qs } in
                let (kept, same) = join_group_lem contest_id account_id p.kind p.config s r₁ in
                let (a, b) =
                  group_loop-Alike ps (join_group contest_id account_id p.kind p.config s r₁)
                    {r' = r'} n.1 rest' in
                let d =
                  contains-disjoint qs manager_only name (participant_unreserved p qs n.0 e)
                    reserved in
                let u : has_permission r₁.permissions name ≡ has_permission r.permissions name =
                  ground (arith, d, has_permission-add_group_permissions qs r.permissions name) in
                (a ∙ (rw kept u), b ∙ same n.0)

      groups_loop-Alike :
          (store : List ContestParticipant) (groups : List ℕ) (r : Roster) {r' : Roster}
          → All (λ g. All NotManager (find_by_contest_account store contest_id g)) groups
          → groups_loop unmarshal config now contest_id account_id store groups r ≡ ok r'
          → Alike r r'
      unfolding groups_loop
      groups_loop-Alike store [] r n h = ground arith
      groups_loop-Alike store (g ∷ gs) r {r'} n h =
          >>=-elim
            (group_loop unmarshal config now contest_id account_id
              (find_by_contest_account store contest_id g) r)
            _ h
            λ r₁ e rest.
              Alike-trans r r₁ r'
                (group_loop-Alike (find_by_contest_account store contest_id g) r {r' = r₁} n.0 e)
                (groups_loop-Alike store gs r₁ {r' = r'} n.1 rest)

  add_standings_Alike :
      (p : PermissionSet) (config : ContestConfig)
      → has_permission (add_standings_permission p config) name ≡ has_permission p name
  unfolding add_standings_permission contains
  add_standings_Alike p config =
      ground (arith, add_unreserved p (observe_contest_standings_role ∷ []) refl)

  add_two_Alike :
      (p : PermissionSet) (x y : String)
      → disjoint (x ∷ []) manager_only ≡ true
      → disjoint (y ∷ []) manager_only ≡ true
      → has_permission (add_permission (add_permission p (x ∷ [])) (y ∷ [])) name
        ≡ has_permission p name
  add_two_Alike p x y dx dy = add_unreserved _ (y ∷ []) dy ∙ add_unreserved p (x ∷ []) dx

  add_upsolving_permissions_Alike :
      (p : PermissionSet) (s : ContestStage) (config : ContestConfig)
      → has_permission (add_contest_upsolving_permissions p s config) name ≡ has_permission p name
  unfolding add_contest_upsolving_permissions contains
  add_upsolving_permissions_Alike p contest_finished config =
      add_standings_Alike _ config
      ∙ (add_unreserved _ _ refl ∙ add_unreserved p (observe_contest_role ∷ []) refl)
  add_upsolving_permissions_Alike p _ config = add_unreserved p (observe_contest_role ∷ []) refl

  add_observer_permissions_Alike :
      (p : PermissionSet) (s : ContestStage) (config : ContestConfig)
      → has_permission (add_contest_observer_permissions p s config) name ≡ has_permission p name
  unfolding add_contest_observer_permissions contains
  add_observer_permissions_Alike p contest_not_planned config =
      add_unreserved p (observe_contest_role ∷ []) refl
  add_observer_permissions_Alike p contest_not_started config =
      add_unreserved p (observe_contest_role ∷ []) refl
  add_observer_permissions_Alike p _ config =
      add_standings_Alike _ config
      ∙ (add_standings_Alike _ config ∙ add_unreserved p (observe_contest_role ∷ []) refl)

  module _ (config : ContestConfig) (s : ContestStage) (contest : Contest) (account : ℕ) where
    add_register_Alike :
        (can : Bool) (r : Roster)
        → has_permission (add_register can s r).permissions name ≡ has_permission r.permissions name
    unfolding add_register contains
    add_register_Alike can r =
        ground
          (arith, add_two_Alike r.permissions observe_contest_role register_contest_role refl refl)

    add_virtual_Alike :
        (can : Bool) (r : Roster)
        → has_permission (add_virtual can config s r).permissions name
          ≡ has_permission r.permissions name
    unfolding add_virtual contains
    add_virtual_Alike can r = ground (
      arith,
      add_two_Alike r.permissions observe_contest_role register_contest_virtual_role refl refl,
    )

    add_upsolving_Alike :
        (can : Bool) (r : Roster)
        → has_permission (add_upsolving can config s contest account r).permissions name
          ≡ has_permission r.permissions name
    unfolding add_upsolving
    add_upsolving_Alike can r =
        ground (arith, add_upsolving_permissions_Alike r.permissions s config)

    add_registration_Alike :
        (r : Roster)
        → has_permission (add_registration config s contest account r).permissions name
          ≡ has_permission r.permissions name
    unfolding add_registration
    add_registration_Alike r =
        add_upsolving_Alike _ _ ∙ (add_virtual_Alike _ _ ∙ add_register_Alike _ r)

-- An account takes no part in a contest as a manager: neither as its owner, nor by a participant
-- of its own, nor by one of its groups. A visitor with no account takes no part at all.
abbrev pub IsOutsider : List ContestParticipant → Contest → List ℕ → Option ℕ → Type 0
IsOutsider store contest groups none = Unit
IsOutsider store contest groups (some account) =
    (is_owner contest account ≡ false)
    × All NotManager (find_by_contest_account store contest.id account)
    × All (λ g. All NotManager (find_by_contest_account store contest.id g)) groups

module _ (unmarshal_config : Json → Option ContestConfig) (unmarshal : Json → Option ℤ)
    (get_setting : String → Option String) (store : List ContestParticipant) (visitor : Visitor)
    (contest : Contest) (now : ℤ) where
  visitor_roster_Alike :
      (config : ContestConfig) (s : ContestStage) (account : Option ℕ) (r : Roster) (name : String)
      → contains manager_only name ≡ true
      → IsOutsider store contest visitor.group_accounts account
      → visitor_roster unmarshal store contest config now s account visitor ≡ ok r
      → has_permission r.permissions name ≡ has_permission visitor.permissions name
  unfolding visitor_roster account_roster start_roster add_owner
  visitor_roster_Alike config s none r name m o h =
      ground (arith, has_permission-clone visitor.permissions name)
  visitor_roster_Alike config s (some account) r name m (stranger, own, groups) h =
      >>=-elim
        (own_loop unmarshal config now (find_by_contest_account store contest.id account)
          (start_roster store contest account visitor))
        _ h
        λ r₁ e₁ rest.
          >>=-elim
            (groups_loop unmarshal config now contest.id account store visitor.group_accounts r₁) _
            rest
            λ r₂ e₂ last.
              let k₀ : has_permission (start_roster store contest account visitor).permissions name
                  ≡ has_permission visitor.permissions name =
                ground (arith, has_permission-clone visitor.permissions name) in
              let (k₁, _) =
                own_loop-Alike name m unmarshal config now
                  (find_by_contest_account store contest.id account)
                  (start_roster store contest account visitor) {r' = r₁} own e₁ in
              let (k₂, _) =
                groups_loop-Alike name m unmarshal config now contest.id account store
                  visitor.group_accounts r₁ {r' = r₂} groups e₂ in
              let k₃ =
                add_registration_Alike name m config s contest account
                  (add_owner contest account r₂) in
              let e₃ : add_owner contest account r₂ ≡ r₂ = ground (arith, stranger) in
              let e : r ≡ add_registration config s contest account (add_owner contest account r₂) =
                cc in
              rw e (k₃ ∙ (rw e₃ (k₂ ∙ (k₁ ∙ k₀))))

  -- Whoever takes no part in a contest as a manager (does not own it, and no manager's row names
  -- the account or one of its groups) has in a context that `BuildContext` returns exactly those of
  -- the managers' permissions that the roles of the account give, whatever the contest's config,
  -- stage, settings and other participants.
  pub build_context_outsider :
      (c : ContestContext) (name : String)
      → contains manager_only name ≡ true
      → IsOutsider store contest visitor.group_accounts visitor.account
      → build_context unmarshal_config unmarshal get_setting store visitor contest now ≡ ok c
      → has_permission c.permissions name ≡ has_permission visitor.permissions name
  unfolding assemble
  build_context_outsider c name m o built =
      let (config, s, r, i, _, _, joined, _, e) =
        build_context_parts unmarshal_config unmarshal get_setting store visitor contest now c
          built in
      let k = visitor_roster_Alike config s visitor.account r name m o joined in
      rw e (ground (arith, k, add_observer_permissions_Alike name m r.permissions s config))
