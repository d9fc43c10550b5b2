-- ===== src/Standings/Cells.antt =====
-- internal/managers/contest_standings.go: one cell of the standings, the bodies of the loops over
-- the solutions that a participant sent to one problem.
pub mod Icpc
pub mod Freeze
use solve.Prelude.{
  ℕ, suc, ◌+◌, ◌/◌, ltb, ◌==◌, Bool, true, false, ◌&&◌, not, Option, none, some, List, [], ◌∷◌,
  Result, ok, err, Error, ◌>>=◌, if◌then◌else◌,
}
use solve.Prelude.Int.{ℤ, pos, ltb_ℤ, leb_ℤ, eqb_ℤ, sub64}
use solve.Contest.Types.{ContestConfig}
use solve.Contest.Time.{
  ContestStage, contest_not_planned, contest_not_started, contest_started, contest_finished,
  ContestTime, stage, before,
}
use solve.Standings.Types.{
  Verdict, unset, is_accepted, is_compilation_error, is_unset, Float, SolutionReport, Decoders,
  Solution, ContestFakeSolution, ContestStandingsCell, get_report, get_fake_report,
}

-- A round of a loop: `continue` with the cell as it was, `break` with a cell, or go on with one.
pub data Round (Num : Type 0) : Type 0 where
  skip : Round Num
  stop : ContestStandingsCell Num → Round Num
  go : ContestStandingsCell Num → Round Num

-- What a loop does after a round: `rest` is the loop over the solutions that are left.
unfoldable pub after_round :
    {Num : Type 0}
    → (ContestStandingsCell Num → Result (ContestStandingsCell Num))
    → ContestStandingsCell Num
    → Round Num
    → Result (ContestStandingsCell Num)
after_round rest cell skip = rest cell
after_round rest cell (stop cell') = ok cell'
after_round rest cell (go cell') = rest cell'

-- A loop over solutions whose body is `step`.
unfoldable pub cell_loop :
    {Num S : Type 0}
    → (ContestStandingsCell Num → S → Result (Round Num))
    → List S
    → ContestStandingsCell Num
    → Result (ContestStandingsCell Num)
unfolding after_round
cell_loop step [] cell = ok cell
cell_loop step (s ∷ ss) cell = step cell s >>= after_round (cell_loop step ss) cell

unfoldable pub is_verdict_frozen : ContestConfig → ℤ → Bool
is_verdict_frozen config time =
    if eqb_ℤ config.freeze_begin_duration (pos 0)
    then false
    else leb_ℤ config.freeze_begin_duration time

unfoldable pub is_contest_frozen : ContestConfig → ℤ → ContestTime → Result Bool
is_contest_frozen config now time =
    if eqb_ℤ config.freeze_begin_duration (pos 0)
    then ok false
    else (stage time >>= λ s. ok (elim s [
      | contest_not_planned ↦ false
      | contest_not_started ↦ false
      | contest_started ↦ leb_ℤ config.freeze_begin_duration time
      | contest_finished ↦
          if eqb_ℤ config.freeze_end_time (pos 0) then true else ltb_ℤ now config.freeze_end_time
    ]))

module _ {Num : Type 0} where
  -- a solution that is not judged yet counts as an attempt and hides the verdict
  unfoldable pub pending : ContestStandingsCell Num → ContestStandingsCell Num
  pending cell = record cell { attempt = suc cell.attempt; verdict = unset }

  -- an ICPC cell after a judged solution whose time is in the cell
  unfoldable pub icpc_judge :
      ContestConfig → Bool → SolutionReport Num → ContestStandingsCell Num → Round Num
  icpc_judge config frozen report cell =
      let shown = record cell {
        verdict = if frozen && is_verdict_frozen config cell.time then unset else report.verdict;
      } in
      if is_accepted report.verdict then stop shown else go shown

  module _ (f : Float Num) where
    -- an IOI cell takes the better points
    unfoldable pub take_points :
        SolutionReport Num → Option Num → ContestStandingsCell Num → ContestStandingsCell Num
    take_points report none cell = cell
    take_points report (some points) cell =
        if f.lt cell.points points
        then record cell { verdict = report.verdict; points = points }
        else cell

    unfoldable pub ioi_judge :
        ContestConfig → Bool → SolutionReport Num → ContestStandingsCell Num → Round Num
    unfolding take_points
    ioi_judge config frozen report cell = go (
        if frozen && is_verdict_frozen config cell.time
        then record cell { verdict = unset }
        else take_points report report.points (record cell {
          verdict = if is_unset cell.verdict then report.verdict else cell.verdict;
        }))

  -- the time of a solution since the begin of its participant
  unfoldable pub solution_time : ℤ → Solution → ContestStandingsCell Num → ContestStandingsCell Num
  solution_time begin solution cell =
      if eqb_ℤ begin (pos 0)
      then cell
      else let time = sub64 solution.create_time begin in
        record cell { time = if ltb_ℤ time (pos 0) then pos 0 else time }

  module _ (d : Decoders Num)
      (judge : SolutionReport Num → ContestStandingsCell Num → Round Num) where
    -- the part of a round that the two standings share: reports that cannot be read and
    -- compilation errors are skipped, and `arrive` sets the time
    unfoldable pub report_round :
        Option (Option (SolutionReport Num))
        → (ContestStandingsCell Num → ContestStandingsCell Num)
        → ContestStandingsCell Num
        → Round Num
    unfolding pending
    report_round none arrive cell = skip
    report_round (some none) arrive cell = stop (pending cell)
    report_round (some (some report)) arrive cell =
        if is_compilation_error report.verdict
        then skip
        else judge report (arrive (record cell { attempt = suc cell.attempt }))

    -- the body of the loop over a participant's solutions
    unfoldable pub solution_round : ℤ → ℤ → ContestStandingsCell Num → Solution → Result (Round Num)
    unfolding report_round
    solution_round now begin cell solution =
        if leb_ℤ now solution.create_time
        then ok skip
        else ok (report_round (get_report d solution) (solution_time begin solution) cell)

    -- the body of the loop over a fake participant's solutions
    unfoldable pub fake_round :
        ContestTime → ContestStandingsCell Num → ContestFakeSolution → Result (Round Num)
    unfolding report_round
    fake_round contest_time cell solution = do
      later ← before contest_time solution.contest_time
      if later
          then ok skip
          else ok (
              report_round (get_fake_report d solution)
                (λ cell. record cell { time = solution.contest_time }) cell)
