-- ===== src/Tests/StandingsRuns.antt =====
-- Standings of a contest with one problem and two participants, within its freeze.
use solve.Prelude.{
  ℕ, ◌+◌, Bool, true, false, Option, none, some, List, [], ◌∷◌, map, Result, ok, err, Error, ◌≡◌,
  refl, arith, ◌⊎◌, ltb, ◌==◌, if◌then◌else◌, All, sum_by,
}
use solve.Prelude.Int.{pos, pos_part, add64, sub64, ◌+ℤ◌, ◌-ℤ◌}
use solve.Prelude.Sort.{sort_func, insert_sorted, IsWeakOrder, IsSorted}
use solve.Perms.Set.{contains, has_permission}
use solve.Contest.Types.{Json, ContestParticipant}
use solve.Contest.Time.{
  stage, scan_config, get_participant_begin_time, get_participant_contest_time, contest_started,
}
use solve.Contest.Context.{ContestContext, get_effective_participant, get_effective_contest_time}
use solve.Standings.Types.{
  Float, Decoders, SolutionReport, Solution, ContestProblem, ContestStandingsColumn,
  ContestStandingsCell, ContestStandingsRow, ContestStandings, BuildStandingsOptions, accepted,
  wrong_answer, unset, get_report, get_problem_points,
}
use solve.Standings.Cells.{
  cell_loop, after_round, is_verdict_frozen, is_contest_frozen, icpc_judge, report_round,
  solution_time, solution_round,
}
use solve.Standings.Order.{
  is_placed_participant, get_participant_order, penalty_less, penalty_or_id_less,
  stable_participant_less, participant_less, places_loop, calculate_places, next_place,
}
use solve.Standings.Build.{
  column_by_problem, in_column, new_columns, solution_less, solutions_by_column, minutes, new_cell,
  cells_loop, icpc_total, icpc_row, count_cell, update_column, count_cells, Tables, icpc_finish,
  row_step, rows_loop, participant_row, participant_rows, fake_rows, all_rows, standings_frozen,
  build_icpc_standings, get_problem_score,
}
use solve.Standings.Process.{
  is_shown, process_rows, process_standings, build_kind, do_build_standings, build_standings,
}
use solve.Standings.Cells.Icpc.{cell_loop-icpc}
use solve.Standings.Cells.Freeze.{HidesFrozen}
use solve.Standings.Order.Weak.{
  IsOrdered, HasPenalty, participant_less-IsWeakOrder, stable_participant_less-IsWeakOrder,
}
use solve.Standings.Order.Places.{rank, calculate_places-rank}
use solve.Standings.Process.Totals.{total_at, accepted_at, attempts_in, accepts_in}
use solve.Standings.Process.Shown.{
  visible, build_standings-rank, build_standings_totals, build_standings_hides,
}
use solve.Tests.ContestRuns.{run_context, run_config, regular, decode_begin}

-- whole scores
abbrev whole : Float ℕ
whole = record { zero = 0; add = λ a b. a + b; lt = ltb; eq = ◌==◌; of_int = pos_part }

abbrev report_of : Json → Option (Option (SolutionReport ℕ))
report_of [] = none
report_of (b ∷ _) =
    some (some (record { verdict = if b == 2 then accepted else wrong_answer; points = none }))

abbrev decoders : Decoders ℕ
decoders = record {
  begin_time = decode_begin;
  report = report_of;
  fake_report = report_of;
  problem_points = λ _. some none;
}

-- one attempt fails before the freeze, which begins at 130; two more are accepted, one within it
abbrev fetch : ℕ → Result Solution
fetch id =
    if id == 11
    then ok (record { id = 11; report = 1 ∷ []; create_time = pos 110 })
    else if id == 12
    then ok (record { id = 12; report = 2 ∷ []; create_time = pos 135 })
    else if id == 13
    then ok (record { id = 13; report = 2 ∷ []; create_time = pos 112 })
    else err Error.no_rows

abbrev other : ContestParticipant
other = record regular { id = 6; account_id = 8 }

abbrev problem : ContestProblem
problem = record { id = 1; code = "A"; config = [] }

abbrev tables : Tables
tables = record {
  participants = regular ∷ other ∷ [];
  problems = problem ∷ [];
  solutions =
      record { id = 11; participant_id = 5; problem_id = 1 }
      ∷ record { id = 12; participant_id = 5; problem_id = 1 }
      ∷ record { id = 13; participant_id = 6; problem_id = 1 }
      ∷ [];
  fake_participants = [];
  fake_solutions = [];
}

abbrev frozen_context : ContestContext
frozen_context = record run_context { now = pos 140 }

abbrev options : BuildStandingsOptions
options = record { only_official = false; ignore_freeze = false }

abbrev column : ContestStandingsColumn
column = record { problem = problem; total_solutions = 3; accepted_solutions = 1 }

abbrev first_row : ContestStandingsRow ℕ
first_row = record {
  participant = other;
  fake_participant = none;
  cells = record { column = 0; verdict = accepted; points = 0; attempt = 1; time = pos 12 } ∷ [];
  score = 1;
  penalty = some (pos 0);
  place = 1;
}

-- the attempt within the freeze shows no verdict
abbrev second_row : ContestStandingsRow ℕ
second_row = record {
  participant = regular;
  fake_participant = none;
  cells = record { column = 0; verdict = unset; points = 0; attempt = 2; time = pos 35 } ∷ [];
  score = 0;
  penalty = some (pos 0);
  place = 2;
}

abbrev standings : ContestStandings ℕ
standings = record {
  columns = column ∷ [];
  rows = first_row ∷ second_row ∷ [];
  stage = contest_started;
  frozen = true;
}

standings_built : build_standings whole decoders fetch frozen_context options tables ≡ ok standings
unfolding build_standings do_build_standings build_kind build_icpc_standings process_standings
    process_rows is_shown calculate_places places_loop next_place participant_less penalty_less
    all_rows standings_frozen is_contest_frozen get_effective_contest_time get_effective_participant
    participant_rows fake_rows rows_loop row_step participant_row solutions_by_column
    column_by_problem cells_loop cell_loop after_round solution_round report_round icpc_judge
    solution_time is_verdict_frozen get_report in_column new_columns new_cell sort_func
    insert_sorted solution_less icpc_finish icpc_row icpc_total get_problem_score get_problem_points
    minutes count_cells count_cell update_column is_placed_participant get_participant_order
    stable_participant_less penalty_or_id_less has_permission contains stage
    get_participant_contest_time get_participant_begin_time scan_config add64 sub64 ◌+ℤ◌ ◌-ℤ◌
standings_built = refl

whole-IsOrdered : IsOrdered whole
whole-IsOrdered = record {
  lt_asym = λ a b h. ground arith;
  lt_negtrans = λ a b c h k. ground arith;
  eq_of_not_lt = λ a b h k. ground arith;
  not_lt_of_eq = λ a b h. ground arith;
  eq_symm = λ a b h. ground arith;
}

build_standings-rank_example :
    (s : ContestStandings ℕ) × (do_build_standings whole decoders fetch frozen_context options
        tables
      ≡ ok s)
    × IsSorted (stable_participant_less whole) (visible whole frozen_context options s)
    × (first_row ∷ second_row ∷ []
        ≡ map
            (rank whole (visible whole frozen_context options s))
            (visible whole frozen_context options s))
build_standings-rank_example =
    build_standings-rank whole decoders fetch frozen_context options tables standings
      whole-IsOrdered standings_built

build_standings_totals_example :
    (total_at 0 (column ∷ [])
      ≡ sum_by (λ row. sum_by (attempts_in 0) row.cells) (first_row ∷ second_row ∷ []))
    × (accepted_at 0 (column ∷ [])
        ≡ sum_by (λ row. sum_by (accepts_in 0) row.cells) (first_row ∷ second_row ∷ []))
build_standings_totals_example =
    build_standings_totals whole decoders fetch frozen_context options tables standings 0
      standings_built

build_standings_hides_example :
    All
      (λ (row : ContestStandingsRow ℕ). All (HidesFrozen run_config) row.cells)
      (first_row ∷ second_row ∷ [])
build_standings_hides_example =
    build_standings_hides whole decoders fetch frozen_context options tables standings
      standings_built refl

-- three solutions, of which the second is accepted
abbrev sent : List Solution
sent =
    record { id = 1; report = 1 ∷ []; create_time = pos 105 }
    ∷ record { id = 2; report = 2 ∷ []; create_time = pos 110 }
    ∷ record { id = 3; report = 1 ∷ []; create_time = pos 115 }
    ∷ []

abbrev empty_cell : ContestStandingsCell ℕ
empty_cell = record { column = 0; verdict = unset; points = 0; attempt = 0; time = pos 0 }

cell_loop-icpc_example :
    (cell : ContestStandingsCell ℕ) × (cell_loop
        (solution_round decoders (icpc_judge run_config false) (pos 120) (pos 100))
        sent
        empty_cell
      ≡ ok cell)
    × (cell.attempt ≡ 2)
    × ((false ≡ true) ⊎ (cell.verdict ≡ accepted))
    × (cell.column ≡ 0)
unfolding get_report
cell_loop-icpc_example =
    cell_loop-icpc decoders run_config false (pos 120) (pos 100) sent empty_cell

-- a flag by which all rows have a penalty
abbrev all_penalised : ℕ → Bool
all_penalised _ = true

participant_less-IsWeakOrder_example :
    IsWeakOrder (participant_less whole) (HasPenalty whole all_penalised)
participant_less-IsWeakOrder_example =
    participant_less-IsWeakOrder whole whole-IsOrdered all_penalised

stable_participant_less-IsWeakOrder_example :
    IsWeakOrder (stable_participant_less whole) (HasPenalty whole all_penalised)
stable_participant_less-IsWeakOrder_example =
    stable_participant_less-IsWeakOrder whole whole-IsOrdered all_penalised

rows-IsSorted : IsSorted (participant_less whole) (first_row ∷ second_row ∷ [])
unfolding participant_less get_participant_order
rows-IsSorted = ((refl, tt), (tt, tt))

calculate_places-rank_example :
    calculate_places whole (first_row ∷ second_row ∷ [])
    ≡ map (rank whole (first_row ∷ second_row ∷ [])) (first_row ∷ second_row ∷ [])
calculate_places-rank_example =
    calculate_places-rank whole (HasPenalty whole all_penalised)
      (participant_less-IsWeakOrder whole whole-IsOrdered all_penalised) (λ row n h. h)
      (first_row ∷ second_row ∷ []) (refl, (refl, tt)) rows-IsSorted
