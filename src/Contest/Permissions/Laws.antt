-- ===== src/Contest/Permissions/Laws.antt =====
-- internal/managers/contest.go, getParticipantPermissions: who may do what, and when.
use solve.Prelude.{String, Bool, true, false, Option, some, ◌≡◌, arith, ok}
use solve.Prelude.Int.{ℤ}
use solve.Perms.Set.{PermissionSet, has_permission, contains, subset, contains-subset}
use solve.Perms.Roles.{
  is_built_in_role, built_in_roles, observe_contest_problems_role, submit_contest_solution_role,
  observe_contest_full_standings_role,
}
use solve.Contest.Types.{
  Json, ContestConfig, ParticipantKind, ContestParticipant, regular_participant,
  upsolving_participant, manager_participant, virtual_participant,
}
use solve.Contest.Time.{
  ContestStage, contest_started, contest_finished, stage, get_participant_contest_time,
}
use solve.Contest.Permissions.{kind_permissions, get_participant_permissions}

-- The kinds and stages at which the statements of a contest's problems are open.
abbrev pub problems_open : ParticipantKind → ContestStage → Bool
problems_open manager_participant _ = true
problems_open regular_participant contest_started = true
problems_open regular_participant contest_finished = true
problems_open virtual_participant contest_started = true
problems_open virtual_participant contest_finished = true
problems_open upsolving_participant contest_finished = true
problems_open _ _ = false

-- The kinds and stages at which a solution may be submitted.
abbrev pub submit_open : ParticipantKind → ContestStage → Bool
submit_open manager_participant _ = true
submit_open regular_participant contest_started = true
submit_open virtual_participant contest_started = true
submit_open upsolving_participant contest_finished = true
submit_open _ _ = false

abbrev pub is_manager : ParticipantKind → Bool
is_manager manager_participant = true
is_manager _ = false

kind_problems :
    (k : ParticipantKind) (s : ContestStage) (config : ContestConfig)
    → has_permission (kind_permissions k s config) observe_contest_problems_role ≡ problems_open k s
unfolding has_permission kind_permissions
kind_problems regular_participant s config = ground arith
kind_problems _ s config = ground arith

kind_submit :
    (k : ParticipantKind) (s : ContestStage) (config : ContestConfig)
    → has_permission (kind_permissions k s config) submit_contest_solution_role ≡ submit_open k s
unfolding has_permission kind_permissions
kind_submit regular_participant s config = ground arith
kind_submit _ s config = ground arith

kind_full_standings :
    (k : ParticipantKind) (s : ContestStage) (config : ContestConfig)
    → has_permission (kind_permissions k s config) observe_contest_full_standings_role
      ≡ is_manager k
unfolding has_permission kind_permissions
kind_full_standings regular_participant s config = ground arith
kind_full_standings _ s config = ground arith

kind_built_in :
    (k : ParticipantKind) (s : ContestStage) (config : ContestConfig)
    → subset (kind_permissions k s config) built_in_roles ≡ true
unfolding kind_permissions built_in_roles contains
kind_built_in regular_participant s config = ground arith
kind_built_in _ s config = ground arith

module _ (unmarshal : Json → Option ℤ) (config : ContestConfig) (participant : ContestParticipant)
    (now : ℤ) (s : ContestStage)
    (staged : stage (get_participant_contest_time unmarshal config (some participant) now)
      ≡ ok s) where
  -- The permissions of a participant at a stage that its contest time gives: the problems are
  -- open to managers at every stage, to regular and virtual participants from their start on, to
  -- upsolving participants after the finish, and to no other kind; solutions may be submitted by
  -- managers at every stage, by regular and virtual participants while their contest runs, by
  -- upsolving participants after the finish, and by no other kind; and managers, but no other
  -- kind, may see the full standings.
  pub get_participant_permissions_lem :
      (ps : PermissionSet) × (get_participant_permissions unmarshal config participant now ≡ ok ps)
      × (has_permission ps observe_contest_problems_role ≡ problems_open participant.kind s)
      × (has_permission ps submit_contest_solution_role ≡ submit_open participant.kind s)
      × (has_permission ps observe_contest_full_standings_role ≡ is_manager participant.kind)
  unfolding get_participant_permissions
  get_participant_permissions_lem = (
    kind_permissions participant.kind s config,
    rw staged,
    kind_problems participant.kind s config,
    kind_submit participant.kind s config,
    kind_full_standings participant.kind s config,
  )

  -- A participant is given names of built-in roles only.
  pub get_participant_permissions_built_in :
      (ps : PermissionSet) (name : String)
      → get_participant_permissions unmarshal config participant now ≡ ok ps
      → has_permission ps name ≡ true
      → is_built_in_role name ≡ true
  unfolding get_participant_permissions has_permission is_built_in_role
  get_participant_permissions_built_in ps name e h =
      let e' : ps ≡ kind_permissions participant.kind s config = ground (arith, staged) in
      contains-subset (kind_permissions participant.kind s config) built_in_roles name
        (kind_built_in participant.kind s config) (rw e' at h)
