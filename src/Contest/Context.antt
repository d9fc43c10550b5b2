-- ===== src/Contest/Context.antt =====
-- internal/managers/contest.go: `BuildContext` and the methods of a contest context.
--
-- The contest's participants are those of the store, in the order of their IDs, in which
-- `FindByContestAccount` returns them; that search reports no error (contest_participant.go).
-- `unmarshal_config` and `unmarshal` stand for encoding/json, `get_setting` for the value that the
-- setting store holds under a key.
pub mod Effective
pub mod Kept
pub mod Granted
use solve.Prelude.{
  ℕ, suc, ◌+◌, String, str_eq, Bool, true, false, not, ◌&&◌, ◌||◌, Option, none, some, List, [],
  ◌∷◌, ◌++◌, Result, ok, err, Error, ◌>>=◌, if◌then◌else◌, ltb, leb, ◌==◌, length, get_elem?,
  select,
}
use solve.Prelude.Int.{ℤ, pos, negsuc}
use solve.Perms.Set.{PermissionSet, add_permission, has_permission, clone}
use solve.Perms.Roles.{
  delete_contest_role, deregister_contest_role, observe_contest_role, register_contests_role,
  register_contest_role, register_contest_virtual_role,
}
use solve.Contest.Types.{
  Json, Contest, ContestConfig, disabled_standings, ParticipantKind, ContestParticipant,
  regular_participant, upsolving_participant, manager_participant, virtual_participant,
}
use solve.Contest.Time.{
  ContestStage, contest_not_started, contest_started, contest_finished, ContestTime, stage,
  stage_planned, get_participant_begin_time, get_participant_contest_time,
}
use solve.Contest.Permissions.{
  get_participant_permissions, check_effective_participant, add_contest_manager_permissions,
  add_contest_upsolving_permissions, add_contest_observer_permissions,
}

-- The part of `AccountContext` that a contest context reads: the account's ID, the IDs of the
-- accounts of its groups, and its permissions.
pub record Visitor : Type 0 where
  pub account : Option ℕ
  pub group_accounts : List ℕ
  pub permissions : PermissionSet

pub record ContestContext : Type 0 where
  pub visitor : Visitor
  pub contest : Contest
  pub contest_config : ContestConfig
  pub participants : List ContestParticipant
  pub permissions : PermissionSet
  pub now : ℤ
  pub effective_pos : ℕ

-- The local variables of `BuildContext` that its loops change.
pub record Roster : Type 0 where
  pub participants : List ContestParticipant
  pub permissions : PermissionSet
  pub has_regular : Bool
  pub has_upsolving : Bool
  pub has_manager : Bool
  pub has_virtual : Bool

-- `GetConfig`: an empty column leaves the zero value
abbrev zero_config : ContestConfig
zero_config = record {
  begin_time = pos 0;
  duration = pos 0;
  enable_registration = false;
  enable_virtual = false;
  enable_upsolving = false;
  enable_observing = false;
  freeze_begin_duration = pos 0;
  freeze_end_time = pos 0;
  standings_kind = disabled_standings;
}

unfoldable pub get_config : (Json → Option ContestConfig) → Json → Result ContestConfig
get_config unmarshal_config [] = ok zero_config
get_config unmarshal_config (b ∷ bs) = elim (unmarshal_config (b ∷ bs)) [
  | none ↦ err Error.invalid_json
  | some config ↦ ok config
]

-- `FindByContestAccount`
unfoldable pub find_by_contest_account : List ContestParticipant → ℕ → ℕ → List ContestParticipant
find_by_contest_account store contest_id account_id =
    select (λ p. p.contest_id == contest_id && p.account_id == account_id) store

-- the first `switch participant.Kind`
unfoldable pub note_kind : ParticipantKind → Roster → Roster
note_kind regular_participant r = record r { has_regular = true }
note_kind upsolving_participant r = record r { has_upsolving = true }
note_kind manager_participant r = record r { has_manager = true }
note_kind virtual_participant r = record r { has_virtual = true }
note_kind _ r = r

-- the inner loop for a group's participant: a permission to deregister is skipped
unfoldable pub add_group_permissions : PermissionSet → PermissionSet → PermissionSet
add_group_permissions p [] = p
add_group_permissions p (permission ∷ rest) =
    add_group_permissions
      (if str_eq permission deregister_contest_role then p else add_permission p (permission ∷ []))
      rest

-- A participant of an account that stands for no row of the store.
abbrev pub temporary : ℕ → ℕ → ParticipantKind → Json → ContestParticipant
temporary contest_id account_id kind config = record {
  id = 0;
  contest_id = contest_id;
  account_id = account_id;
  kind = kind;
  config = config;
}

unfoldable pub append_participant : ContestParticipant → Roster → Roster
append_participant p r = record r { participants = r.participants ++ p ∷ [] }

abbrev pub is_not_started : ContestStage → Bool
is_not_started contest_not_started = true
is_not_started _ = false

abbrev pub is_started : ContestStage → Bool
is_started contest_started = true
is_started _ = false

abbrev pub is_finished : ContestStage → Bool
is_finished contest_finished = true
is_finished _ = false

module _ (contest_id account_id : ℕ) where
  -- the second `switch`, for a participant of one of the account's groups
  unfoldable pub join_group : ParticipantKind → Json → ContestStage → Roster → Roster
  join_group regular_participant config s r =
      let joined =
        append_participant (temporary contest_id account_id regular_participant config) r in
      record (if not r.has_regular && (is_not_started s || is_started s) then joined else r) {
        has_regular = true;
      }
  join_group upsolving_participant config s r =
      let joined =
        append_participant (temporary contest_id account_id upsolving_participant config) r in
      record (if not r.has_upsolving && is_finished s then joined else r) { has_upsolving = true }
  join_group manager_participant config s r =
      let joined =
        append_participant (temporary contest_id account_id manager_participant config) r in
      record (if r.has_manager then r else joined) { has_manager = true }
  join_group _ config s r = r

module _ (unmarshal : Json → Option ℤ) (config : ContestConfig) (now : ℤ) where
  -- the loop over the account's own participants
  unfoldable pub own_loop : List ContestParticipant → Roster → Result Roster
  own_loop [] r = ok r
  own_loop (participant ∷ rest) r = do
    ps ← get_participant_permissions unmarshal config participant now
    own_loop rest
        (note_kind participant.kind (record r { permissions = add_permission r.permissions ps }))

  module _ (contest_id account_id : ℕ) where
    -- the loop over the participants of one group
    unfoldable pub group_loop : List ContestParticipant → Roster → Result Roster
    group_loop [] r = ok r
    group_loop (participant ∷ rest) r = do
      ps ← get_participant_permissions unmarshal config participant now
      s ← stage (get_participant_contest_time unmarshal config (some participant) now)
      group_loop rest (
          join_group contest_id account_id participant.kind participant.config s
            (record r { permissions = add_group_permissions r.permissions ps }))

    -- the loop over the account's groups
    unfoldable pub groups_loop : List ContestParticipant → List ℕ → Roster → Result Roster
    groups_loop store [] r = ok r
    groups_loop store (group ∷ groups) r = do
      r' ← group_loop (find_by_contest_account store contest_id group) r
      groups_loop store groups r'

-- `contest.OwnerID != 0 && account.ID == int64(contest.OwnerID)`
unfoldable pub is_owner : Contest → ℕ → Bool
is_owner contest account = not (contest.owner_id == 0) && account == contest.owner_id

-- the owner is a manager
unfoldable pub add_owner : Contest → ℕ → Roster → Roster
add_owner contest account r =
    let joined = append_participant (temporary contest.id account manager_participant []) r in
    if not r.has_manager && is_owner contest account
    then record joined { permissions = add_contest_manager_permissions r.permissions }
    else r

-- `User can possibly register on contest.`
unfoldable pub add_register : Bool → ContestStage → Roster → Roster
add_register can_register s r =
    if not r.has_regular && is_not_started s && can_register
    then record r {
      permissions =
          add_permission (add_permission r.permissions (observe_contest_role ∷ []))
            (register_contest_role ∷ []);
    }
    else r

-- `User can possibly virtual register on contest.`
unfoldable pub add_virtual : Bool → ContestConfig → ContestStage → Roster → Roster
add_virtual can_register config s r =
    if not r.has_virtual && stage_planned s && (can_register && config.enable_virtual)
    then record r {
      permissions =
          add_permission (add_permission r.permissions (observe_contest_role ∷ []))
            (register_contest_virtual_role ∷ []);
    }
    else r

-- `User can possibly upsolve contest.`
unfoldable pub add_upsolving : Bool → ContestConfig → ContestStage → Contest → ℕ → Roster → Roster
add_upsolving can_register config s contest account r =
    if not r.has_upsolving
      && is_finished s
      && (config.enable_upsolving && (r.has_regular || can_register))
    then record r {
      participants = r.participants ++ temporary contest.id account upsolving_participant [] ∷ [];
      permissions = add_contest_upsolving_permissions r.permissions s config;
    }
    else r

unfoldable pub add_registration : ContestConfig → ContestStage → Contest → ℕ → Roster → Roster
add_registration config s contest account r =
    let can_register =
      config.enable_registration && has_permission r.permissions register_contests_role in
    add_upsolving can_register config s contest account
      (add_virtual can_register config s (add_register can_register s r))

abbrev pub is_upsolving : ParticipantKind → Bool
is_upsolving upsolving_participant = true
is_upsolving _ = false

module _ (unmarshal : Json → Option ℤ) where
  -- the loop that looks for the effective participant, from the position `i` on; it ends at the
  -- length of the list
  unfoldable pub find_effective : ContestConfig → ℤ → Bool → ℕ → List ContestParticipant → Result ℕ
  find_effective config now disabled i [] = ok i
  find_effective config now disabled i (p ∷ ps) =
      let rest = find_effective config now disabled (suc i) ps in
      if disabled && is_upsolving p.kind
      then rest
      else (check_effective_participant unmarshal config p now >>= λ found.
          if found then ok i else rest)

-- `setting.Value == "t" || setting.Value == "1" || setting.Value == "true"`
unfoldable pub disable_upsolving : (String → Option String) → Bool
disable_upsolving get_setting = elim (get_setting "contests.disable_upsolving") [
  | none ↦ false
  | some value ↦ str_eq value "t" || str_eq value "1" || str_eq value "true"
]

-- the local variables before the loops; an owner may delete the contest
unfoldable pub start_roster : List ContestParticipant → Contest → ℕ → Visitor → Roster
start_roster store contest account visitor =
    let p = clone visitor.permissions in
    record {
      participants = find_by_contest_account store contest.id account;
      permissions =
          if is_owner contest account then add_permission p (delete_contest_role ∷ []) else p;
      has_regular = false;
      has_upsolving = false;
      has_manager = false;
      has_virtual = false;
    }

module _ (unmarshal : Json → Option ℤ) (store : List ContestParticipant) where
  -- the body of `if account := ctx.Account; account != nil`
  unfoldable pub account_roster :
      Contest → ContestConfig → ℤ → ContestStage → ℕ → Visitor → Result Roster
  account_roster contest config now s account visitor = do
    r₁ ←
        own_loop unmarshal config now (find_by_contest_account store contest.id account)
          (start_roster store contest account visitor)
    r₂ ← groups_loop unmarshal config now contest.id account store visitor.group_accounts r₁
    ok (add_registration config s contest account (add_owner contest account r₂))

  unfoldable pub visitor_roster :
      Contest → ContestConfig → ℤ → ContestStage → Option ℕ → Visitor → Result Roster
  visitor_roster contest config now s none visitor = ok (record {
    participants = [];
    permissions = clone visitor.permissions;
    has_regular = false;
    has_upsolving = false;
    has_manager = false;
    has_virtual = false;
  })
  visitor_roster contest config now s (some account) visitor =
      account_roster contest config now s account visitor

-- the context, with what observers may do if the visitor takes no other part
unfoldable pub assemble :
    Visitor → Contest → ContestConfig → ℤ → ContestStage → Roster → ℕ → ContestContext
assemble visitor contest config now s r i = record {
  visitor = visitor;
  contest = contest;
  contest_config = config;
  participants = r.participants;
  permissions =
      if config.enable_observing && length r.participants == 0
      then add_contest_observer_permissions r.permissions s config
      else r.permissions;
  now = now;
  effective_pos = i;
}

module _ (unmarshal_config : Json → Option ContestConfig) (unmarshal : Json → Option ℤ)
    (get_setting : String → Option String) (store : List ContestParticipant) where
  unfoldable pub build_context : Visitor → Contest → ℤ → Result ContestContext
  build_context visitor contest now = do
    config ← get_config unmarshal_config contest.config
    s ← stage (get_participant_contest_time unmarshal config none now)
    r ← visitor_roster unmarshal store contest config now s visitor.account visitor
    i ← find_effective unmarshal config now (disable_upsolving get_setting) 0 r.participants
    ok (assemble visitor contest config now s r i)

-- `effectivePos >= len(Participants)` is exactly a position with no element
unfoldable pub get_effective_participant : ContestContext → Option ContestParticipant
get_effective_participant c = get_elem? c.participants c.effective_pos

module _ (unmarshal : Json → Option ℤ) where
  -- the loop of `SetEffectiveParticipant`: the new position, if there is one
  unfoldable pub find_by_id :
      ContestConfig → ℤ → ℕ → ℕ → List ContestParticipant → Result (Option ℕ)
  find_by_id config now id i [] = ok none
  find_by_id config now id i (p ∷ ps) =
      let rest = find_by_id config now id (suc i) ps in
      if p.id == id
      then (check_effective_participant unmarshal config p now >>= λ found.
          ok (if found then some i else none))
      else rest

  unfoldable pub set_effective_participant : ContestContext → ℕ → Result ContestContext
  set_effective_participant c id = do
    found ← find_by_id c.contest_config c.now id 0 c.participants
    ok (elim found [ none ↦ c | some i ↦ record c { effective_pos = i } ])

  unfoldable pub get_effective_permissions : ContestContext → Result PermissionSet
  get_effective_permissions c = elim (get_effective_participant c) [
    | none ↦ ok []
    | some participant ↦ get_participant_permissions unmarshal c.contest_config participant c.now
  ]

  unfoldable pub has_effective_permission : ContestContext → String → Result Bool
  has_effective_permission c name = do ps ← get_effective_permissions c; ok (has_permission ps name)

  unfoldable pub get_effective_begin_time : ContestContext → ℤ
  get_effective_begin_time c =
      get_participant_begin_time unmarshal c.contest_config (get_effective_participant c)

  unfoldable pub get_effective_contest_time : ContestContext → ContestTime
  get_effective_contest_time c =
      get_participant_contest_time unmarshal c.contest_config (get_effective_participant c) c.now
