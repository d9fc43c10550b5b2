-- ===== src/Standings/Build.antt =====
-- internal/managers/contest_standings.go: building the rows from the participants' solutions.
--
-- `get_solution` is `SolutionStore.Get`: the solution with an ID, `no_rows`, or another error.
-- A map from participants or columns to lists of solutions is the list of its pairs; a key is in
-- the map where it has an element. Places are set when the standings are processed.
pub mod Frozen
pub mod Rows
pub mod Layout
use solve.Prelude.{
  ℕ, zero, suc, ◌+◌, ◌-◌, ◌*◌, ◌/◌, ltb, ◌==◌, Bool, true, false, not, ◌&&◌, Option, none, some,
  List, [], ◌∷◌, ◌++◌, map, Result, ok, err, Error, ◌>>=◌, if◌then◌else◌, length, get_elem?, select,
}
use solve.Prelude.Int.{ℤ, pos, negsuc, ltb_ℤ, eqb_ℤ, add64}
use solve.Prelude.Sort.{sort_func}
use solve.Perms.Set.{has_permission}
use solve.Perms.Roles.{observe_contest_full_standings_role}
use solve.Contest.Types.{
  ContestConfig, ContestParticipant, regular_participant, StandingsKind, ioi_standings,
}
use solve.Contest.Time.{ContestTime, stage, get_participant_begin_time}
use solve.Contest.Context.{ContestContext, get_effective_contest_time}
use solve.Standings.Types.{
  unset, is_accepted, Float, SolutionReport, Decoders, Solution, ContestSolution,
  ContestFakeSolution, ContestFakeParticipant, ContestProblem, ContestStandingsColumn,
  ContestStandingsCell, ContestStandingsRow, ContestStandings, BuildStandingsOptions,
  get_problem_points,
}
use solve.Standings.Cells.{
  Round, cell_loop, icpc_judge, ioi_judge, solution_round, fake_round, is_contest_frozen,
}
use solve.Standings.Order.{is_placed_participant, stable_participant_less}

later_or : Option ℕ → Option ℕ → Option ℕ
later_or (some j) o = some j
later_or none o = o

-- `columnByProblem[id]`: the loop stores the index of each problem, a later one over an earlier
unfoldable pub column_by_problem : ℕ → List ContestProblem → ℕ → Option ℕ
unfolding later_or
column_by_problem i [] id = none
column_by_problem i (problem ∷ problems) id =
    later_or (column_by_problem (suc i) problems id) (if problem.id == id then some i else none)

-- the solutions of one column, in the order in which they were appended
unfoldable pub in_column : {S : Type 0} → ℕ → List (ℕ × S) → List S
in_column column [] = []
in_column column ((i, s) ∷ rest) =
    let others = in_column column rest in if i == column then s ∷ others else others

unfoldable pub new_columns : List ContestProblem → List ContestStandingsColumn
new_columns problems =
    map (λ p. record { problem = p; total_solutions = 0; accepted_solutions = 0 }) problems

-- a column's solutions in the order of time, and of IDs at one time
unfoldable pub solution_less : Solution → Solution → Bool
solution_less lhs rhs =
    if not (eqb_ℤ lhs.create_time rhs.create_time)
    then ltb_ℤ lhs.create_time rhs.create_time
    else ltb lhs.id rhs.id

unfoldable pub fake_solution_less : ContestFakeSolution → ContestFakeSolution → Bool
fake_solution_less lhs rhs =
    if not (eqb_ℤ lhs.contest_time rhs.contest_time)
    then ltb_ℤ lhs.contest_time rhs.contest_time
    else ltb lhs.id rhs.id

-- the loop that fetches a participant's solutions
module _ (get_solution : ℕ → Result Solution) (problems : List ContestProblem) where
  add_to_column : Option ℕ → Solution → List (ℕ × Solution) → List (ℕ × Solution)
  add_to_column none solution rest = rest
  add_to_column (some column) solution rest = (column, solution) ∷ rest

  unfoldable pub solutions_by_column : List ContestSolution → Result (List (ℕ × Solution))
  unfolding add_to_column
  solutions_by_column [] = ok []
  solutions_by_column (s ∷ ss) =
      let rest = solutions_by_column ss in
      elim (get_solution s.id) [
        | ok solution ↦
            (rest >>= λ r.
            ok (add_to_column (column_by_problem 0 problems s.problem_id) solution r))
        | err e ↦ elim e [ Error.no_rows ↦ rest | other ↦ err other ]
      ]

-- the same for a fake participant, whose solutions need not be fetched
unfoldable pub fake_solutions_by_column :
    List ContestProblem → List ContestFakeSolution → List (ℕ × ContestFakeSolution)
fake_solutions_by_column problems [] = []
fake_solutions_by_column problems (s ∷ ss) =
    let rest = fake_solutions_by_column problems ss in
    elim (column_by_problem 0 problems s.problem_id) [
      | none ↦ rest
      | some column ↦ (column, s) ∷ rest
    ]

negate : ℕ → ℤ
negate zero = pos 0
negate (suc m) = negsuc m

-- Go's `t / 60`, which rounds towards zero
unfoldable pub minutes : ℤ → ℤ
unfolding negate
minutes (pos n) = pos (n / 60)
minutes (negsuc n) = negate (suc n / 60)

module _ {Num : Type 0} (f : Float Num) where
  unfoldable pub new_cell : ℕ → ContestStandingsCell Num
  new_cell i = record { column = i; verdict = unset; points = f.zero; attempt = 0; time = pos 0 }

  -- the loop over the columns from `i` on, `n` of them: a cell for each that has an attempt
  unfoldable pub cells_loop :
      {S : Type 0}
      → (ContestStandingsCell Num → S → Result (Round Num))
      → (S → S → Bool)
      → List (ℕ × S)
      → ℕ
      → ℕ
      → Result (List (ContestStandingsCell Num))
  cells_loop step less by_column i zero = ok []
  cells_loop step less by_column i (suc n) = do
    cell ← cell_loop step (sort_func less (in_column i by_column)) (new_cell i)
    cells ← cells_loop step less by_column (suc i) n
    ok (if cell.attempt == 0 then cells else cell ∷ cells)

  module _ (d : Decoders Num) where
    unfoldable pub get_problem_score : ContestProblem → Num
    get_problem_score problem = elim (get_problem_points d problem) [
      | none ↦ f.of_int (pos 1)
      | some points ↦ elim points [ none ↦ f.of_int (pos 1) | some p ↦ f.of_int p ]
    ]

    -- the loop over an ICPC row's cells: its score and its penalty
    unfoldable pub icpc_total :
        List ContestStandingsColumn → List (ContestStandingsCell Num) → Num → ℤ → Result (Num × ℤ)
    icpc_total columns [] score penalty = ok (score, penalty)
    icpc_total columns (cell ∷ cells) score penalty = elim (get_elem? columns cell.column) [
      | none ↦ err Error.panicked
      | some column ↦ elim (is_accepted cell.verdict) [
        | true ↦
            icpc_total columns cells (f.add score (get_problem_score column.problem))
              (add64 penalty (add64 (pos ((cell.attempt - 1) * 20)) (minutes cell.time)))
        | false ↦ icpc_total columns cells score penalty
      ]
    ]

    -- an ICPC row of a participant from its cells
    unfoldable pub icpc_row :
        List ContestStandingsColumn
        → ContestParticipant
        → Option ContestFakeParticipant
        → List (ContestStandingsCell Num)
        → Result (ContestStandingsRow Num)
    icpc_row columns participant fake cells = do
      (score, penalty) ← icpc_total columns cells f.zero (pos 0)
      ok (record {
        participant = participant;
        fake_participant = fake;
        cells = cells;
        score = score;
        penalty = if is_placed_participant participant.kind then some penalty else none;
        place = 0;
      })

  -- the loop over an IOI row's cells: the totals of its columns, and its score
  unfoldable pub count_cell :
      ContestStandingsCell Num → ContestStandingsColumn → ContestStandingsColumn
  count_cell cell column = record column {
    total_solutions = column.total_solutions + cell.attempt;
    accepted_solutions =
        if is_accepted cell.verdict
        then suc column.accepted_solutions
        else column.accepted_solutions;
  }

  -- `column := &columns[i]` and an update through it; an index out of range panics
  unfoldable pub update_column :
      (ContestStandingsColumn → ContestStandingsColumn)
      → ℕ
      → List ContestStandingsColumn
      → Result (List ContestStandingsColumn)
  update_column g i [] = err Error.panicked
  update_column g zero (column ∷ columns) = ok (g column ∷ columns)
  update_column g (suc i) (column ∷ columns) = do
    columns' ← update_column g i columns
    ok (column ∷ columns')

  unfoldable pub count_cells :
      List (ContestStandingsCell Num)
      → List ContestStandingsColumn
      → Result (List ContestStandingsColumn)
  unfolding count_cell update_column
  count_cells [] columns = ok columns
  count_cells (cell ∷ cells) columns = do
    columns' ← update_column (count_cell cell) cell.column columns
    count_cells cells columns'

  unfoldable pub sum_points : List (ContestStandingsCell Num) → Num → Num
  sum_points [] score = score
  sum_points (cell ∷ cells) score = sum_points cells (f.add score cell.points)

  unfoldable pub ioi_row :
      ContestParticipant
      → Option ContestFakeParticipant
      → List (ContestStandingsCell Num)
      → ContestStandingsRow Num
  unfolding sum_points
  ioi_row participant fake cells = record {
    participant = participant;
    fake_participant = fake;
    cells = cells;
    score = sum_points cells f.zero;
    penalty = none;
    place = 0;
  }

-- The end of a round over a participant: an ICPC row leaves the columns alone, an IOI row adds its
-- cells to their totals.
module _ {Num : Type 0} (f : Float Num) where
  unfoldable pub icpc_finish :
      Decoders Num
      → ContestParticipant
      → Option ContestFakeParticipant
      → List (ContestStandingsCell Num)
      → List ContestStandingsColumn
      → Result (ContestStandingsRow Num × List ContestStandingsColumn)
  unfolding icpc_row
  icpc_finish d participant fake cells columns =
      icpc_row f d columns participant fake cells >>= λ row. ok (row, columns)

  unfoldable pub ioi_finish :
      ContestParticipant
      → Option ContestFakeParticipant
      → List (ContestStandingsCell Num)
      → List ContestStandingsColumn
      → Result (ContestStandingsRow Num × List ContestStandingsColumn)
  unfolding ioi_row count_cells
  ioi_finish participant fake cells columns =
      count_cells f cells columns >>= λ columns'. ok (ioi_row f participant fake cells, columns')

-- One round of a loop over participants: one with no solutions has no row.
unfoldable pub row_step :
    {Num S : Type 0}
    → (List S
        → List ContestStandingsColumn
        → Result (ContestStandingsRow Num × List ContestStandingsColumn))
    → List S
    → (List ContestStandingsColumn
        → Result (List (ContestStandingsRow Num) × List ContestStandingsColumn))
    → List ContestStandingsColumn
    → Result (List (ContestStandingsRow Num) × List ContestStandingsColumn)
row_step make [] rest columns = rest columns
row_step make (s ∷ ss) rest columns =
    make (s ∷ ss) columns >>= λ r. rest r.1 >>= λ rs. ok (r.0 ∷ rs.0, rs.1)

-- A loop over participants, whose solutions `mine` gives, with the body `make`.
unfoldable pub rows_loop :
    {Num A S : Type 0}
    → (A → List S)
    → (A
        → List S
        → List ContestStandingsColumn
        → Result (ContestStandingsRow Num × List ContestStandingsColumn))
    → List A
    → List ContestStandingsColumn
    → Result (List (ContestStandingsRow Num) × List ContestStandingsColumn)
unfolding row_step
rows_loop mine make [] columns = ok ([], columns)
rows_loop mine make (p ∷ ps) columns = row_step (make p) (mine p) (rows_loop mine make ps) columns

-- `models.ContestParticipant{Kind: models.RegularParticipant}`
abbrev pub fake_row_participant : ContestParticipant
fake_row_participant = record {
  id = 0;
  contest_id = 0;
  account_id = 0;
  kind = regular_participant;
  config = [];
}

-- What the stores hold of one contest, in the order of IDs.
pub record Tables : Type 0 where
  pub participants : List ContestParticipant
  pub problems : List ContestProblem
  pub solutions : List ContestSolution
  pub fake_participants : List ContestFakeParticipant
  pub fake_solutions : List ContestFakeSolution

module _ {Num : Type 0} (f : Float Num) (d : Decoders Num) (get_solution : ℕ → Result Solution)
    (ctx : ContestContext) where
  -- the loop over the participants; `judge` tells the two standings apart, `finish` makes a row
  -- and updates the columns
  module _ (judge : SolutionReport Num → ContestStandingsCell Num → Round Num)
      (finish : ContestParticipant
        → Option ContestFakeParticipant
        → List (ContestStandingsCell Num)
        → List ContestStandingsColumn
        → Result (ContestStandingsRow Num × List ContestStandingsColumn))
      (problems : List ContestProblem) (tables : Tables) (time : ContestTime) where
    -- one participant, who has sent something
    unfoldable pub participant_row :
        ContestParticipant
        → List ContestSolution
        → List ContestStandingsColumn
        → Result (ContestStandingsRow Num × List ContestStandingsColumn)
    unfolding cells_loop solutions_by_column
    participant_row participant solutions columns = do
      by_column ← solutions_by_column get_solution problems solutions
      let begin = get_participant_begin_time d.begin_time ctx.contest_config (some participant)
      cells ←
          cells_loop f (solution_round d judge ctx.now begin) solution_less by_column 0
            (length problems)
      finish participant none cells columns

    unfoldable pub fake_row :
        ContestFakeParticipant
        → List ContestFakeSolution
        → List ContestStandingsColumn
        → Result (ContestStandingsRow Num × List ContestStandingsColumn)
    unfolding cells_loop fake_solutions_by_column
    fake_row participant solutions columns = do
      cells ←
          cells_loop f (fake_round d judge time) fake_solution_less
            (fake_solutions_by_column problems solutions) 0 (length problems)
      finish fake_row_participant (some participant) cells columns

    unfoldable pub participant_rows :
        List ContestParticipant
        → List ContestStandingsColumn
        → Result (List (ContestStandingsRow Num) × List ContestStandingsColumn)
    unfolding rows_loop participant_row
    participant_rows =
        rows_loop (λ p. select (λ s. s.participant_id == p.id) tables.solutions) participant_row

    unfoldable pub fake_rows :
        List ContestFakeParticipant
        → List ContestStandingsColumn
        → Result (List (ContestStandingsRow Num) × List ContestStandingsColumn)
    unfolding rows_loop fake_row
    fake_rows =
        rows_loop (λ p. select (λ s. s.participant_id == p.id) tables.fake_solutions) fake_row

    -- all rows, real participants first, and the sort
    unfoldable pub all_rows : Result (List (ContestStandingsRow Num) × List ContestStandingsColumn)
    unfolding participant_rows fake_rows
    all_rows = do
      real ← participant_rows tables.participants (new_columns problems)
      fake ← fake_rows tables.fake_participants real.1
      ok (sort_func (stable_participant_less f) (real.0 ++ fake.0), fake.1)

  -- whether the standings are frozen for the visitor
  unfoldable pub standings_frozen : BuildStandingsOptions → Result Bool
  standings_frozen options =
      let full = has_permission ctx.permissions observe_contest_full_standings_role in
      (is_contest_frozen ctx.contest_config ctx.now (get_effective_contest_time d.begin_time ctx)
        >>= λ frozen. ok (not (options.ignore_freeze && full) && frozen))

  unfoldable pub build_icpc_standings :
      BuildStandingsOptions → List ContestProblem → Tables → Result (ContestStandings Num)
  unfolding all_rows standings_frozen icpc_finish
  build_icpc_standings options problems tables = do
    let time = get_effective_contest_time d.begin_time ctx
    s ← stage time
    frozen ← standings_frozen options
    built ← all_rows (icpc_judge ctx.contest_config frozen) (icpc_finish f d) problems tables time
    ok (record { columns = built.1; rows = built.0; stage = s; frozen = frozen })

  unfoldable pub build_ioi_standings :
      BuildStandingsOptions → List ContestProblem → Tables → Result (ContestStandings Num)
  unfolding all_rows standings_frozen ioi_finish
  build_ioi_standings options problems tables = do
    let time = get_effective_contest_time d.begin_time ctx
    s ← stage time
    frozen ← standings_frozen options
    built ← all_rows (ioi_judge f ctx.contest_config frozen) (ioi_finish f) problems tables time
    ok (record { columns = built.1; rows = built.0; stage = s; frozen = frozen })
