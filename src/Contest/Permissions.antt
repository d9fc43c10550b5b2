-- ===== src/Contest/Permissions.antt =====
-- internal/managers/contest.go: what a participant may do at each stage of the contest.
pub mod Laws
use solve.Prelude.{
  Bool, true, false, Option, none, some, List, [], ◌∷◌, Result, ok, err, ◌>>=◌, if◌then◌else◌, ◌||◌,
}
use solve.Prelude.Int.{ℤ}
use solve.Perms.Set.{PermissionSet, add_permission}
use solve.Perms.Roles.{
  create_contest_message_role, create_contest_participant_role, create_contest_problem_role,
  create_contest_solution_role, delete_contest_message_role, delete_contest_participant_role,
  delete_contest_problem_role, delete_contest_solution_role, deregister_contest_role,
  observe_contest_full_standings_role, observe_contest_message_role, observe_contest_messages_role,
  observe_contest_participant_role, observe_contest_participants_role, observe_contest_problem_role,
  observe_contest_problems_role, observe_contest_role, observe_contest_solution_role,
  observe_contest_solutions_role, observe_contest_standings_role,
  observe_solution_report_checker_logs, observe_solution_report_compile_log,
  observe_solution_report_test_number, submit_contest_question_role, submit_contest_solution_role,
  update_contest_message_role, update_contest_problem_role, update_contest_role,
  update_contest_solution_role,
}
use solve.Contest.Types.{
  Json, StandingsKind, disabled_standings, ContestConfig, ParticipantKind, ContestParticipant,
  regular_participant, upsolving_participant, manager_participant, observer_participant,
  virtual_participant,
}
use solve.Contest.Time.{
  ContestStage, contest_not_planned, contest_not_started, contest_started, contest_finished, stage,
  get_participant_contest_time,
}

unfoldable pub add_contest_manager_permissions : PermissionSet → PermissionSet
add_contest_manager_permissions p = add_permission p (
    observe_contest_role ∷ update_contest_role ∷ observe_contest_problems_role
    ∷ observe_contest_problem_role ∷ create_contest_problem_role ∷ update_contest_problem_role
    ∷ delete_contest_problem_role ∷ observe_contest_participants_role
    ∷ observe_contest_participant_role ∷ create_contest_participant_role
    ∷ delete_contest_participant_role ∷ observe_contest_solutions_role
    ∷ observe_contest_solution_role ∷ create_contest_solution_role ∷ update_contest_solution_role
    ∷ delete_contest_solution_role ∷ submit_contest_solution_role ∷ observe_contest_standings_role
    ∷ observe_contest_full_standings_role ∷ observe_solution_report_test_number
    ∷ observe_solution_report_checker_logs ∷ observe_solution_report_compile_log
    ∷ observe_contest_messages_role ∷ observe_contest_message_role ∷ create_contest_message_role
    ∷ update_contest_message_role ∷ delete_contest_message_role ∷ submit_contest_question_role ∷ [])

-- `config.StandingsKind != models.DisabledStandings`
unfoldable pub standings_enabled : StandingsKind → Bool
standings_enabled disabled_standings = false
standings_enabled _ = true

-- `if config.StandingsKind != models.DisabledStandings { permissions.AddPermission(…) }`
unfoldable pub add_standings_permission : PermissionSet → ContestConfig → PermissionSet
unfolding standings_enabled
add_standings_permission p config =
    if standings_enabled config.standings_kind
    then add_permission p (observe_contest_standings_role ∷ [])
    else p

unfoldable pub add_contest_regular_permissions :
    PermissionSet → ContestStage → ContestConfig → PermissionSet
unfolding add_standings_permission
add_contest_regular_permissions p stage config =
    let p = add_permission p (observe_contest_role ∷ []) in
    elim stage [
      | contest_not_planned ↦ p
      | contest_not_started ↦ add_permission p (deregister_contest_role ∷ [])
      | contest_started ↦
          add_standings_permission
            (add_permission p (
              observe_contest_problems_role ∷ observe_contest_problem_role
              ∷ observe_contest_solutions_role ∷ submit_contest_solution_role
              ∷ observe_solution_report_test_number ∷ observe_solution_report_compile_log
              ∷ observe_contest_messages_role ∷ submit_contest_question_role ∷ []))
            config
      | contest_finished ↦
          add_standings_permission
            (add_permission p (
              observe_contest_problems_role ∷ observe_contest_problem_role
              ∷ observe_contest_solutions_role ∷ observe_solution_report_test_number
              ∷ observe_solution_report_compile_log ∷ observe_contest_messages_role ∷ []))
            config
    ]

unfoldable pub add_contest_virtual_permissions :
    PermissionSet → ContestStage → ContestConfig → PermissionSet
unfolding add_standings_permission
add_contest_virtual_permissions p stage config =
    let p = add_permission p (observe_contest_role ∷ []) in
    elim stage [
      | contest_not_planned ↦ p
      | contest_not_started ↦ add_permission p (deregister_contest_role ∷ [])
      | contest_started ↦
          add_standings_permission
            (add_permission p (
              observe_contest_problems_role ∷ observe_contest_problem_role
              ∷ observe_contest_solutions_role ∷ submit_contest_solution_role
              ∷ observe_solution_report_test_number ∷ observe_solution_report_compile_log
              ∷ observe_contest_messages_role ∷ submit_contest_question_role ∷ []))
            config
      | contest_finished ↦
          add_standings_permission
            (add_permission p (
              observe_contest_problems_role ∷ observe_contest_problem_role
              ∷ observe_contest_solutions_role ∷ observe_solution_report_test_number
              ∷ observe_solution_report_compile_log ∷ observe_contest_messages_role ∷ []))
            config
    ]

unfoldable pub add_contest_upsolving_permissions :
    PermissionSet → ContestStage → ContestConfig → PermissionSet
unfolding add_standings_permission
add_contest_upsolving_permissions p stage config =
    let p = add_permission p (observe_contest_role ∷ []) in
    elim stage [
      | contest_finished ↦
          add_standings_permission
            (add_permission p (
              observe_contest_problems_role ∷ observe_contest_problem_role
              ∷ observe_contest_solutions_role ∷ submit_contest_solution_role
              ∷ observe_solution_report_test_number ∷ observe_solution_report_compile_log
              ∷ observe_contest_messages_role ∷ []))
            config
      | _ ↦ p
    ]

unfoldable pub add_contest_observer_permissions :
    PermissionSet → ContestStage → ContestConfig → PermissionSet
unfolding add_standings_permission
add_contest_observer_permissions p stage config =
    let p = add_permission p (observe_contest_role ∷ []) in
    let twice = add_standings_permission (add_standings_permission p config) config in
    elim stage [ contest_started ↦ twice | contest_finished ↦ twice | _ ↦ p ]

-- the `switch` of `getParticipantPermissions`
unfoldable pub kind_permissions : ParticipantKind → ContestStage → ContestConfig → PermissionSet
unfolding add_permission add_contest_manager_permissions add_contest_regular_permissions
    add_contest_virtual_permissions add_contest_upsolving_permissions
    add_contest_observer_permissions
kind_permissions regular_participant stage config = add_contest_regular_permissions [] stage config
kind_permissions upsolving_participant stage config =
    add_contest_upsolving_permissions [] stage config
kind_permissions manager_participant stage config = add_contest_manager_permissions []
kind_permissions observer_participant stage config =
    add_contest_observer_permissions [] stage config
kind_permissions virtual_participant stage config = add_contest_virtual_permissions [] stage config
kind_permissions _ stage config = []

-- the `switch` of `checkEffectiveParticipant`
unfoldable pub effective_at : ParticipantKind → ContestStage → Bool
effective_at regular_participant contest_started = true
effective_at upsolving_participant contest_finished = true
effective_at manager_participant _ = true
effective_at virtual_participant contest_not_started = true
effective_at virtual_participant contest_started = true
effective_at _ _ = false

module _ (unmarshal : Json → Option ℤ) (config : ContestConfig) where
  unfoldable pub get_participant_permissions : ContestParticipant → ℤ → Result PermissionSet
  unfolding kind_permissions
  get_participant_permissions participant now = do
    s ← stage (get_participant_contest_time unmarshal config (some participant) now)
    ok (kind_permissions participant.kind s config)

  unfoldable pub check_effective_participant : ContestParticipant → ℤ → Result Bool
  unfolding effective_at
  check_effective_participant participant now = do
    s ← stage (get_participant_contest_time unmarshal config (some participant) now)
    ok (effective_at participant.kind s)
