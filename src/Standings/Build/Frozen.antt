-- ===== src/Standings/Build/Frozen.antt =====
-- internal/managers/contest_standings.go: the rows that are built within the freeze.
use solve.Prelude.{
  ℕ, zero, suc, ◌==◌, Bool, true, Option, none, some, List, [], ◌∷◌, Result, ok, ◌≡◌, refl, arith,
  All, >>=-elim, if◌then◌else◌, length,
}
use solve.Prelude.Sort.{sort_func, sort_func-All}
use solve.Contest.Types.{ContestParticipant}
use solve.Contest.Time.{ContestTime, stage, get_participant_begin_time}
use solve.Contest.Context.{ContestContext, get_effective_contest_time}
use solve.Standings.Types.{
  unset, Float, SolutionReport, Decoders, Solution, ContestSolution, ContestFakeSolution,
  ContestFakeParticipant, ContestProblem, ContestStandingsColumn, ContestStandingsCell,
  ContestStandingsRow, ContestStandings, BuildStandingsOptions,
}
use solve.Standings.Cells.{Round, cell_loop, icpc_judge, ioi_judge, solution_round, fake_round}
use solve.Standings.Cells.Freeze.{
  HidesFrozen, OfRound, icpc_judge_hides, ioi_judge_hides, solution_loop_hides, fake_loop_hides,
}
use solve.Standings.Build.Rows.{all_rows-All, icpc_finish-cells, ioi_finish-cells}
use solve.Standings.Order.{stable_participant_less}
use solve.Standings.Build.{
  in_column, solution_less, fake_solution_less, solutions_by_column, fake_solutions_by_column,
  new_cell, cells_loop, fake_row_participant, Tables, participant_row, fake_row, icpc_finish,
  ioi_finish, all_rows, standings_frozen, build_icpc_standings, build_ioi_standings,
}

module _ {Num : Type 0} (f : Float Num) (P : ContestStandingsCell Num → Type 0) where
  -- A property of the cells that a loop leaves holds of all cells of a row.
  cells_loop-All :
      {S : Type 0} (step : ContestStandingsCell Num → S → Result (Round Num)) (less : S → S → Bool)
      (by_column : List (ℕ × S))
      → ((ss : List S) (cell cell' : ContestStandingsCell Num)
          → cell.verdict ≡ unset
          → cell_loop step ss cell ≡ ok cell'
          → P cell')
      → (i n : ℕ) (cells : List (ContestStandingsCell Num))
      → cells_loop f step less by_column i n ≡ ok cells
      → All P cells
  unfolding cells_loop new_cell
  cells_loop-All step less by_column holds i zero cells h =
      let e : cells ≡ [] = ground arith in rw e tt
  cells_loop-All step less by_column holds i (suc n) cells h =
      >>=-elim (cell_loop step (sort_func less (in_column i by_column)) (new_cell f i)) _ h
        λ cell e rest.
          >>=-elim (cells_loop f step less by_column (suc i) n) _ rest λ others e' last.
            let p = holds _ (new_cell f i) cell refl e in
            let ps = cells_loop-All step less by_column holds (suc i) n others e' in
            let k : cells ≡ (if cell.attempt == 0 then others else cell ∷ others) = cc in
            rw k (ground (arith, p, ps))

module _ {Num : Type 0} (f : Float Num) (d : Decoders Num) (get_solution : ℕ → Result Solution)
    (ctx : ContestContext) (judge : SolutionReport Num → ContestStandingsCell Num → Round Num)
    (hides : (report : SolutionReport Num) (cell : ContestStandingsCell Num)
      → OfRound (HidesFrozen ctx.contest_config) (judge report cell))
    (finish : ContestParticipant
      → Option ContestFakeParticipant
      → List (ContestStandingsCell Num)
      → List ContestStandingsColumn
      → Result (ContestStandingsRow Num × List ContestStandingsColumn))
    (finished : (p : ContestParticipant) (q : Option ContestFakeParticipant)
        (cells : List (ContestStandingsCell Num)) (columns : List ContestStandingsColumn)
        (r : ContestStandingsRow Num × List ContestStandingsColumn)
      → finish p q cells columns ≡ ok r
      → r.0.cells ≡ cells)
    (problems : List ContestProblem) (tables : Tables) (time : ContestTime) where
  abbrev RowHides : ContestStandingsRow Num → Type 0
  RowHides row = All (HidesFrozen ctx.contest_config) row.cells

  participant_row_hides :
      (p : ContestParticipant) (ss : List ContestSolution) (columns : List ContestStandingsColumn)
      (r : ContestStandingsRow Num × List ContestStandingsColumn)
      → participant_row f d get_solution ctx judge finish problems tables time p ss columns ≡ ok r
      → RowHides r.0
  unfolding participant_row
  participant_row_hides p ss columns r h =
      >>=-elim (solutions_by_column get_solution problems ss) _ h λ by_column e rest.
        >>=-elim
          (cells_loop f
            (solution_round d judge ctx.now
              (get_participant_begin_time d.begin_time ctx.contest_config (some p)))
            solution_less by_column 0 (length problems))
          _ rest
          λ cells e' last. rw (finished p none cells columns r last) (
            cells_loop-All f (HidesFrozen ctx.contest_config) _ solution_less by_column
              (solution_loop_hides d ctx.contest_config judge hides ctx.now _) 0 (length problems)
              cells e')

  fake_row_hides :
      (p : ContestFakeParticipant) (ss : List ContestFakeSolution)
      (columns : List ContestStandingsColumn)
      (r : ContestStandingsRow Num × List ContestStandingsColumn)
      → fake_row f d get_solution ctx judge finish problems tables time p ss columns ≡ ok r
      → RowHides r.0
  unfolding fake_row
  fake_row_hides p ss columns r h =
      >>=-elim
        (cells_loop f (fake_round d judge time) fake_solution_less
          (fake_solutions_by_column problems ss) 0 (length problems))
        _ h
        λ cells e' last. rw (finished fake_row_participant (some p) cells columns r last) (
          cells_loop-All f (HidesFrozen ctx.contest_config) _ fake_solution_less
            (fake_solutions_by_column problems ss)
            (fake_loop_hides d ctx.contest_config judge hides time) 0 (length problems) cells e')

  all_rows_hide :
      (r : List (ContestStandingsRow Num) × List ContestStandingsColumn)
      → all_rows f d get_solution ctx judge finish problems tables time ≡ ok r
      → All RowHides r.0
  all_rows_hide r h =
      let (rows, e, hidden) =
        all_rows-All f d get_solution ctx judge finish problems tables time RowHides
          participant_row_hides fake_row_hides r h in
      rw e (sort_func-All (stable_participant_less f) RowHides rows hidden)

module _ {Num : Type 0} (f : Float Num) (d : Decoders Num) (get_solution : ℕ → Result Solution)
    (ctx : ContestContext) (options : BuildStandingsOptions) (problems : List ContestProblem)
    (tables : Tables) (standings : ContestStandings Num) where
  -- All verdicts that standings show stand in cells whose time lies before the freeze.
  abbrev pub Hides : ContestStandings Num → Type 0
  Hides s =
      All (λ (row : ContestStandingsRow Num). All (HidesFrozen ctx.contest_config) row.cells) s.rows

  module _ (time : ContestTime) (frozen : Bool) (z : frozen ≡ true) where
    icpc_rows_hide :
        (r : List (ContestStandingsRow Num) × List ContestStandingsColumn)
        → all_rows f d get_solution ctx
            (icpc_judge ctx.contest_config frozen)
            (icpc_finish f d)
            problems
            tables
            time
          ≡ ok r
        → All
            (λ (row : ContestStandingsRow Num). All (HidesFrozen ctx.contest_config) row.cells)
            r.0
    icpc_rows_hide =
        all_rows_hide f d get_solution ctx (icpc_judge ctx.contest_config frozen)
          (rw z (icpc_judge_hides ctx.contest_config)) (icpc_finish f d) (icpc_finish-cells f d)
          problems tables time

    ioi_rows_hide :
        (r : List (ContestStandingsRow Num) × List ContestStandingsColumn)
        → all_rows f d get_solution ctx
            (ioi_judge f ctx.contest_config frozen)
            (ioi_finish f)
            problems
            tables
            time
          ≡ ok r
        → All
            (λ (row : ContestStandingsRow Num). All (HidesFrozen ctx.contest_config) row.cells)
            r.0
    ioi_rows_hide =
        all_rows_hide f d get_solution ctx (ioi_judge f ctx.contest_config frozen)
          (rw z (ioi_judge_hides ctx.contest_config f)) (ioi_finish f) (ioi_finish-cells f) problems
          tables time

  pub build_icpc_standings-Hides :
      build_icpc_standings f d get_solution ctx options problems tables ≡ ok standings
      → standings.frozen ≡ true
      → Hides standings
  unfolding build_icpc_standings
  build_icpc_standings-Hides h z =
      >>=-elim (stage (get_effective_contest_time d.begin_time ctx)) _ h λ s _ k.
        >>=-elim (standings_frozen f d get_solution ctx options) _ k λ frozen _ k'.
          >>=-elim
            (all_rows f d get_solution ctx (icpc_judge ctx.contest_config frozen) (icpc_finish f d)
              problems tables (get_effective_contest_time d.begin_time ctx))
            _ k'
            λ built e last.
              let z' : frozen ≡ true = ground (arith, last, z) in
              let e' : standings.rows ≡ built.0 = ground (arith, last) in
              rw e' (icpc_rows_hide _ frozen z' built e)

  pub build_ioi_standings-Hides :
      build_ioi_standings f d get_solution ctx options problems tables ≡ ok standings
      → standings.frozen ≡ true
      → Hides standings
  unfolding build_ioi_standings
  build_ioi_standings-Hides h z =
      >>=-elim (stage (get_effective_contest_time d.begin_time ctx)) _ h λ s _ k.
        >>=-elim (standings_frozen f d get_solution ctx options) _ k λ frozen _ k'.
          >>=-elim
            (all_rows f d get_solution ctx (ioi_judge f ctx.contest_config frozen) (ioi_finish f)
              problems tables (get_effective_contest_time d.begin_time ctx))
            _ k'
            λ built e last.
              let z' : frozen ≡ true = ground (arith, last, z) in
              let e' : standings.rows ≡ built.0 = ground (arith, last) in
              rw e' (ioi_rows_hide _ frozen z' built e)
