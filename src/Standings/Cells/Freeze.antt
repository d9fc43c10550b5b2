-- ===== src/Standings/Cells/Freeze.antt =====
-- internal/managers/contest_standings.go: verdicts of cells within the freeze.
use solve.Prelude.{
  suc, true, false, Option, none, some, List, [], ◌∷◌, Result, ok, ◌≡◌, refl, arith, >>=-elim,
  if◌then◌else◌, Bool-cases, ◌⊎◌, inl, inr,
}
use solve.Prelude.Int.{ℤ, leb_ℤ}
use solve.Contest.Types.{ContestConfig}
use solve.Contest.Time.{ContestTime, before}
use solve.Standings.Types.{
  unset, is_accepted, is_unset, Float, SolutionReport, Decoders, Solution, ContestFakeSolution,
  ContestStandingsCell, get_report, get_fake_report,
}
use solve.Standings.Cells.{
  Round, skip, stop, go, cell_loop, after_round, is_verdict_frozen, icpc_judge, ioi_judge,
  take_points, report_round, solution_time, solution_round, fake_round,
}

module _ {Num : Type 0} (P : ContestStandingsCell Num → Type 0) where
  -- What a property of cells says of a round.
  abbrev pub OfRound : Round Num → Type 0
  OfRound skip = Unit
  OfRound (stop cell) = P cell
  OfRound (go cell) = P cell

  after_round_inv :
      (rest : ContestStandingsCell Num → Result (ContestStandingsCell Num))
      → ((cell cell' : ContestStandingsCell Num) → P cell → rest cell ≡ ok cell' → P cell')
      → (cell : ContestStandingsCell Num) (r : Round Num) {cell' : ContestStandingsCell Num}
      → P cell
      → OfRound r
      → after_round rest cell r ≡ ok cell'
      → P cell'
  unfolding after_round
  after_round_inv rest keep cell skip {cell'} p q h = keep cell cell' p h
  after_round_inv rest keep cell (stop c) {cell'} p q h = let e : c ≡ cell' = cc in rw e at q
  after_round_inv rest keep cell (go c) {cell'} p q h = keep c cell' q h

  -- A property that every round keeps holds at the end of the loop.
  pub cell_loop_inv :
      {S : Type 0} (step : ContestStandingsCell Num → S → Result (Round Num))
      → ((cell : ContestStandingsCell Num) (s : S) (r : Round Num)
          → P cell
          → step cell s ≡ ok r
          → OfRound r)
      → (ss : List S) (cell cell' : ContestStandingsCell Num) → P cell
      → cell_loop step ss cell ≡ ok cell'
      → P cell'
  unfolding cell_loop
  cell_loop_inv step keep [] cell cell' p h = let e : cell ≡ cell' = cc in rw e at p
  cell_loop_inv step keep (s ∷ ss) cell cell' p h = >>=-elim (step cell s) _ h λ r e rest.
      after_round_inv (cell_loop step ss) (cell_loop_inv step keep ss) cell r p (keep cell s r p e)
        rest

module _ {Num : Type 0} (config : ContestConfig) where
  -- A verdict stands only in a cell whose time lies before the freeze.
  abbrev pub HidesFrozen : ContestStandingsCell Num → Type 0
  HidesFrozen cell = (is_verdict_frozen config cell.time ≡ false) ⊎ (cell.verdict ≡ unset)

  pub icpc_judge_hides :
      (report : SolutionReport Num) (cell : ContestStandingsCell Num)
      → OfRound HidesFrozen (icpc_judge config true report cell)
  unfolding icpc_judge
  icpc_judge_hides report cell = elim (Bool-cases (is_accepted report.verdict)) [
    | inl a ↦ rw a (ground arith)
    | inr a ↦ rw a (ground arith)
  ]

  take_points-time :
      (f : Float Num) (report : SolutionReport Num) (points : Option Num)
      (cell : ContestStandingsCell Num)
      → (take_points f report points cell).time ≡ cell.time
  unfolding take_points
  take_points-time f report none cell = refl
  take_points-time f report (some p) cell = ground arith

  pub ioi_judge_hides :
      (f : Float Num) (report : SolutionReport Num) (cell : ContestStandingsCell Num)
      → OfRound HidesFrozen (ioi_judge f config true report cell)
  unfolding ioi_judge
  ioi_judge_hides f report cell = elim (Bool-cases (is_verdict_frozen config cell.time)) [
    | inl e ↦ rw e (inr refl)
    | inr e ↦ rw e (
        inl (
          ground (
            arith,
            e,
            take_points-time f report report.points (record cell {
              verdict = if is_unset cell.verdict then report.verdict else cell.verdict;
            }),
          )))
  ]

module _ {Num : Type 0} (d : Decoders Num) (config : ContestConfig) where
  module _ (judge : SolutionReport Num → ContestStandingsCell Num → Round Num)
      (hides : (report : SolutionReport Num) (cell : ContestStandingsCell Num)
        → OfRound (HidesFrozen config) (judge report cell)) where
    report_round_hides :
        (report : Option (Option (SolutionReport Num)))
        (arrive : ContestStandingsCell Num → ContestStandingsCell Num)
        (cell : ContestStandingsCell Num)
        → OfRound (HidesFrozen config) (report_round d judge report arrive cell)
    unfolding report_round
    report_round_hides none arrive cell = tt
    report_round_hides (some none) arrive cell = inr refl
    report_round_hides (some (some report)) arrive cell =
        ground (arith, hides report (arrive (record cell { attempt = suc cell.attempt })))

    solution_round_hides :
        (now begin : ℤ) (cell : ContestStandingsCell Num) (s : Solution) (r : Round Num)
        → HidesFrozen config cell
        → solution_round d judge now begin cell s ≡ ok r
        → OfRound (HidesFrozen config) r
    unfolding solution_round
    solution_round_hides now begin cell s r p h = elim (Bool-cases (leb_ℤ now s.create_time)) [
      | inl late ↦ let e : r ≡ skip = ground (arith, late) in rw e tt
      | inr early ↦
          let e : r ≡ report_round d judge (get_report d s) (solution_time begin s) cell =
            ground (arith, early) in
          rw e (report_round_hides (get_report d s) (solution_time begin s) cell)
    ]

    fake_round_hides :
        (time : ContestTime) (cell : ContestStandingsCell Num) (s : ContestFakeSolution)
        (r : Round Num)
        → HidesFrozen config cell
        → fake_round d judge time cell s ≡ ok r
        → OfRound (HidesFrozen config) r
    unfolding fake_round
    fake_round_hides time cell s r p h = >>=-elim (before time s.contest_time) _ h λ later _ k.
        elim (Bool-cases later) [
          | inl late ↦ let e : r ≡ skip = ground (arith, late) in rw e tt
          | inr early ↦
              let e : r
                  ≡ report_round d judge (get_fake_report d s)
                      (λ cell. record cell { time = s.contest_time }) cell =
                ground (arith, early) in
              rw e (report_round_hides (get_fake_report d s) _ cell)
        ]

    pub solution_loop_hides :
        (now begin : ℤ) (ss : List Solution) (cell cell' : ContestStandingsCell Num)
        → cell.verdict ≡ unset
        → cell_loop (solution_round d judge now begin) ss cell ≡ ok cell'
        → HidesFrozen config cell'
    solution_loop_hides now begin ss cell cell' u h =
        cell_loop_inv (HidesFrozen config) (solution_round d judge now begin)
          (solution_round_hides now begin) ss cell cell' (inr u) h

    pub fake_loop_hides :
        (time : ContestTime) (ss : List ContestFakeSolution) (cell cell' : ContestStandingsCell Num)
        → cell.verdict ≡ unset
        → cell_loop (fake_round d judge time) ss cell ≡ ok cell'
        → HidesFrozen config cell'
    fake_loop_hides time ss cell cell' u h =
        cell_loop_inv (HidesFrozen config) (fake_round d judge time) (fake_round_hides time) ss cell
          cell' (inr u) h
