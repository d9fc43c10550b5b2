-- ===== src/Tests/ContestRuns.antt =====
-- A contest that runs from 100 to 150, with one participant.
use solve.Prelude.{String, true, false, Option, none, some, [], ◌∷◌, ok, ◌≡◌, refl, arith, ◌⊎◌}
use solve.Prelude.Int.{ℤ, pos, ◌+ℤ◌, ◌-ℤ◌, IsInt64, add64, sub64}
use solve.Perms.Set.{
  PermissionSet, contains, has_permission-add_permission, has_permission, add_permission, clone,
}
use solve.Perms.Roles.{
  register_contests_role, observe_contest_full_standings_role, observe_contest_problems_role,
  submit_contest_solution_role, is_built_in_role,
}
use solve.Contest.Types.{
  Json, Contest, ContestConfig, icpc_standings, ContestParticipant, regular_participant,
}
use solve.Contest.Time.{
  stage, before, stage_planned, scan_config, get_participant_begin_time,
  get_participant_contest_time, contest_started,
}
use solve.Contest.Permissions.{
  kind_permissions, get_participant_permissions, check_effective_participant,
  add_contest_manager_permissions,
}
use solve.Contest.Context.{
  Visitor, ContestContext, get_config, find_by_contest_account, note_kind, own_loop, group_loop,
  groups_loop, is_owner, add_owner, add_register, add_virtual, add_upsolving, add_registration,
  find_effective, disable_upsolving, start_roster, account_roster, visitor_roster, assemble,
  build_context, get_effective_participant, find_by_id, set_effective_participant,
}
use solve.Contest.Context.Kept.{build_context_keeps}
use solve.Contest.Context.Granted.{manager_only, NotManager, IsOutsider, build_context_outsider}
use solve.Contest.Permissions.Laws.{
  get_participant_permissions_lem, get_participant_permissions_built_in,
}
use solve.Contest.Time.Laws.{
  stage-get_participant_contest_time, before-get_participant_contest_time,
}
use solve.Contest.Context.Effective.{
  build_context-FirstEligible, FirstEligible, set_effective_participant_lem,
}

abbrev pub run_config : ContestConfig
run_config = record {
  begin_time = pos 100;
  duration = pos 50;
  enable_registration = true;
  enable_virtual = false;
  enable_upsolving = true;
  enable_observing = true;
  freeze_begin_duration = pos 30;
  freeze_end_time = pos 200;
  standings_kind = icpc_standings;
}

abbrev pub run_contest : Contest
run_contest = record { id = 1; owner_id = 2; config = 1 ∷ []; title = "run" }

abbrev pub regular : ContestParticipant
regular = record { id = 5; contest_id = 1; account_id = 7; kind = regular_participant; config = [] }

abbrev pub visitor_7 : Visitor
visitor_7 = record {
  account = some 7;
  group_accounts = 9 ∷ [];
  permissions = register_contests_role ∷ [];
}

-- what stands for encoding/json and the settings
abbrev pub decode_config : Json → Option ContestConfig
decode_config _ = some run_config

abbrev pub decode_begin : Json → Option ℤ
decode_begin _ = some (pos 0)

abbrev pub no_setting : String → Option String
no_setting _ = none

abbrev pub run_context : ContestContext
run_context = record {
  visitor = visitor_7;
  contest = run_contest;
  contest_config = run_config;
  participants = regular ∷ [];
  permissions =
      "observe_contest" ∷ "observe_contest_problems" ∷ "observe_contest_problem"
      ∷ "observe_contest_solutions" ∷ "submit_contest_solution"
      ∷ "observe_solution_report_test_number" ∷ "observe_solution_report_compile_log"
      ∷ "observe_contest_messages" ∷ "submit_contest_question" ∷ "observe_contest_standings"
      ∷ "register_contests" ∷ [];
  now = pos 120;
  effective_pos = 0;
}

run_built :
    build_context decode_config decode_begin no_setting
      (regular ∷ [])
      visitor_7
      run_contest
      (pos 120)
    ≡ ok run_context
unfolding build_context get_config stage get_participant_contest_time get_participant_begin_time
    scan_config visitor_roster account_roster start_roster own_loop groups_loop group_loop
    find_by_contest_account add_owner is_owner add_registration add_register add_virtual
    add_upsolving find_effective disable_upsolving check_effective_participant
    get_participant_permissions kind_permissions note_kind assemble has_permission contains
    add_permission clone add_contest_manager_permissions stage_planned add64 sub64 ◌+ℤ◌ ◌-ℤ◌
run_built = refl

not_manager : NotManager regular
not_manager e = ground arith

run-IsOutsider : IsOutsider (regular ∷ []) run_contest (9 ∷ []) (some 7)
unfolding find_by_contest_account is_owner
run-IsOutsider = (refl, (not_manager, tt), (tt, tt))

full_reserved : contains manager_only observe_contest_full_standings_role ≡ true
unfolding contains
full_reserved = refl

build_context_outsider_example :
    has_permission run_context.permissions observe_contest_full_standings_role
    ≡ has_permission visitor_7.permissions observe_contest_full_standings_role
build_context_outsider_example =
    build_context_outsider decode_config decode_begin no_setting (regular ∷ []) visitor_7
      run_contest (pos 120) run_context observe_contest_full_standings_role full_reserved
      run-IsOutsider run_built

build_context-FirstEligible_example :
    FirstEligible decode_begin run_config (pos 120) (disable_upsolving no_setting) 0 (regular ∷ [])
build_context-FirstEligible_example =
    build_context-FirstEligible decode_config decode_begin no_setting (regular ∷ []) visitor_7
      run_contest (pos 120) run_context run_built

may_register : has_permission visitor_7.permissions register_contests_role ≡ true
unfolding has_permission contains
may_register = refl

build_context_keeps_example : has_permission run_context.permissions register_contests_role ≡ true
build_context_keeps_example =
    build_context_keeps decode_config decode_begin no_setting (regular ∷ []) visitor_7 run_contest
      (pos 120) run_context register_contests_role run_built may_register

run_chosen : set_effective_participant decode_begin run_context 5 ≡ ok run_context
unfolding set_effective_participant find_by_id check_effective_participant stage
    get_participant_contest_time get_participant_begin_time scan_config add64 sub64 ◌+ℤ◌ ◌-ℤ◌
run_chosen = refl

set_effective_participant_example :
    (run_context ≡ run_context)
    ⊎ ((p : ContestParticipant) × (run_context ≡ record run_context { effective_pos = 0 })
        × (get_effective_participant run_context ≡ some p)
        × (p.id ≡ 5)
        × (check_effective_participant decode_begin run_config p (pos 120) ≡ ok true))
set_effective_participant_example =
    set_effective_participant_lem decode_begin run_context run_context 5 run_chosen

run_stage :
    stage (get_participant_contest_time decode_begin run_config (some regular) (pos 120))
    ≡ ok contest_started
unfolding stage get_participant_contest_time get_participant_begin_time scan_config add64 sub64 ◌+ℤ◌
    ◌-ℤ◌
run_stage = refl

get_participant_permissions_example :
    (ps : PermissionSet) × (get_participant_permissions decode_begin run_config regular (pos 120)
      ≡ ok ps)
    × (has_permission ps observe_contest_problems_role ≡ true)
    × (has_permission ps submit_contest_solution_role ≡ true)
    × (has_permission ps observe_contest_full_standings_role ≡ false)
get_participant_permissions_example =
    get_participant_permissions_lem decode_begin run_config regular (pos 120) contest_started
      run_stage

run_permissions :
    get_participant_permissions decode_begin run_config regular (pos 120)
    ≡ ok (kind_permissions regular_participant contest_started run_config)
unfolding get_participant_permissions stage get_participant_contest_time get_participant_begin_time
    scan_config add64 sub64 ◌+ℤ◌ ◌-ℤ◌
run_permissions = refl

may_submit :
    has_permission
      (kind_permissions regular_participant contest_started run_config)
      submit_contest_solution_role
    ≡ true
unfolding kind_permissions has_permission contains
may_submit = refl

get_participant_permissions_built_in_example : is_built_in_role submit_contest_solution_role ≡ true
get_participant_permissions_built_in_example =
    get_participant_permissions_built_in decode_begin run_config regular (pos 120) contest_started
      run_stage (kind_permissions regular_participant contest_started run_config)
      submit_contest_solution_role run_permissions may_submit

run_end :
    IsInt64
      (get_participant_begin_time decode_begin run_config (some regular) +ℤ run_config.duration)
unfolding get_participant_begin_time scan_config ◌+ℤ◌
run_end = (omega arith, omega arith)

run_since : IsInt64 (pos 120 -ℤ get_participant_begin_time decode_begin run_config (some regular))
unfolding get_participant_begin_time scan_config ◌-ℤ◌
run_since = (omega arith, omega arith)

stage-get_participant_contest_time_example :
    stage (get_participant_contest_time decode_begin run_config (some regular) (pos 120))
    ≡ ok contest_started
unfolding get_participant_begin_time scan_config ◌+ℤ◌
stage-get_participant_contest_time_example =
    stage-get_participant_contest_time decode_begin run_config (some regular) (pos 120) run_end
      run_since

before-get_participant_contest_time_example :
    before (get_participant_contest_time decode_begin run_config (some regular) (pos 120)) (pos 30)
    ≡ ok true
unfolding get_participant_begin_time scan_config ◌+ℤ◌ ◌-ℤ◌
before-get_participant_contest_time_example =
    before-get_participant_contest_time decode_begin run_config (some regular) (pos 120) (pos 30)
      run_end run_since

has_permission-add_permission_example :
    has_permission
      (add_permission (register_contests_role ∷ []) (observe_contest_problems_role ∷ []))
      observe_contest_problems_role
    ≡ true
unfolding contains has_permission
has_permission-add_permission_example =
    has_permission-add_permission (register_contests_role ∷ []) (observe_contest_problems_role ∷ [])
      observe_contest_problems_role
