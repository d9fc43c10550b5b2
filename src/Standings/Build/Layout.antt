-- ===== src/Standings/Build/Layout.antt =====
-- internal/managers/contest_standings.go: the order of the rows that are built.
use solve.Prelude.{ℕ, Bool, none, some, List, Result, ok, ◌≡◌, arith, All, >>=-elim, length}
use solve.Prelude.Sort.{sort_func, sort_func-All, sort_func-IsSorted, IsSorted}
use solve.Contest.Time.{stage, get_participant_begin_time}
use solve.Contest.Context.{ContestContext, get_effective_contest_time}
use solve.Standings.Types.{
  Float, Decoders, Solution, ContestProblem, ContestStandingsRow, ContestStandings,
  BuildStandingsOptions,
}
use solve.Standings.Cells.{icpc_judge, ioi_judge, solution_round, fake_round}
use solve.Standings.Build.Rows.{all_rows-All, icpc_flag, ioi_flag, icpc_finish_lem, ioi_finish_lem}
use solve.Standings.Order.Weak.{HasPenalty, IsOrdered, stable_participant_less-IsWeakOrder}
use solve.Standings.Order.{stable_participant_less}
use solve.Standings.Build.{
  solution_less, fake_solution_less, solutions_by_column, fake_solutions_by_column, cells_loop,
  fake_row_participant, Tables, participant_row, fake_row, icpc_finish, ioi_finish, all_rows,
  standings_frozen, build_icpc_standings, build_ioi_standings,
}

module _ {Num : Type 0} (f : Float Num) (d : Decoders Num) (get_solution : ℕ → Result Solution)
    (ctx : ContestContext) (options : BuildStandingsOptions) (problems : List ContestProblem)
    (tables : Tables) (standings : ContestStandings Num) (o : IsOrdered f) where
  -- Rows in the order of the standings, whose penalties a flag accounts for.
  abbrev pub IsLaidOut : (ℕ → Bool) → List (ContestStandingsRow Num) → Type 0
  IsLaidOut flag rows = All (HasPenalty f flag) rows × IsSorted (stable_participant_less f) rows

  sorted-IsLaidOut :
      (flag : ℕ → Bool) (rows : List (ContestStandingsRow Num))
      → All (HasPenalty f flag) rows
      → IsLaidOut flag (sort_func (stable_participant_less f) rows)
  sorted-IsLaidOut flag rows h = (
    sort_func-All (stable_participant_less f) (HasPenalty f flag) rows h,
    sort_func-IsSorted (stable_participant_less f) (HasPenalty f flag)
        (stable_participant_less-IsWeakOrder f o flag) rows h,
  )

  pub build_icpc_standings-IsLaidOut :
      build_icpc_standings f d get_solution ctx options problems tables ≡ ok standings
      → IsLaidOut (icpc_flag f) standings.rows
  unfolding build_icpc_standings participant_row fake_row
  build_icpc_standings-IsLaidOut h =
      >>=-elim (stage (get_effective_contest_time d.begin_time ctx)) _ h λ s _ k.
        >>=-elim (standings_frozen f d get_solution ctx options) _ k λ frozen _ k'.
          >>=-elim
            (all_rows f d get_solution ctx (icpc_judge ctx.contest_config frozen) (icpc_finish f d)
              problems tables (get_effective_contest_time d.begin_time ctx))
            _ k'
            λ built e last.
              let (rows, sorted, flags) =
                all_rows-All f d get_solution ctx (icpc_judge ctx.contest_config frozen)
                  (icpc_finish f d) problems tables (get_effective_contest_time d.begin_time ctx)
                  (HasPenalty f (icpc_flag f))
                  (λ p ss columns r made.
                    >>=-elim (solutions_by_column get_solution problems ss) _ made
                      λ by_column _ made'.
                        >>=-elim
                          (cells_loop f
                            (solution_round d (icpc_judge ctx.contest_config frozen) ctx.now
                              (get_participant_begin_time d.begin_time ctx.contest_config (some p)))
                            solution_less by_column 0 (length problems))
                          _ made'
                          λ cells _ made''. (icpc_finish_lem f p none cells columns r d made'').1)
                  (λ p ss columns r made.
                    >>=-elim
                      (cells_loop f
                        (fake_round d (icpc_judge ctx.contest_config frozen)
                          (get_effective_contest_time d.begin_time ctx))
                        fake_solution_less (fake_solutions_by_column problems ss) 0
                        (length problems))
                      _ made
                      λ cells _ made'.
                        (icpc_finish_lem f fake_row_participant (some p) cells columns r d made').1)
                  built e in
              let e' : standings.rows ≡ built.0 = ground (arith, last) in
              rw e' (rw sorted (sorted-IsLaidOut (icpc_flag f) rows flags))

  pub build_ioi_standings-IsLaidOut :
      build_ioi_standings f d get_solution ctx options problems tables ≡ ok standings
      → IsLaidOut (ioi_flag f) standings.rows
  unfolding build_ioi_standings participant_row fake_row
  build_ioi_standings-IsLaidOut h =
      >>=-elim (stage (get_effective_contest_time d.begin_time ctx)) _ h λ s _ k.
        >>=-elim (standings_frozen f d get_solution ctx options) _ k λ frozen _ k'.
          >>=-elim
            (all_rows f d get_solution ctx (ioi_judge f ctx.contest_config frozen) (ioi_finish f)
              problems tables (get_effective_contest_time d.begin_time ctx))
            _ k'
            λ built e last.
              let (rows, sorted, flags) =
                all_rows-All f d get_solution ctx (ioi_judge f ctx.contest_config frozen)
                  (ioi_finish f) problems tables (get_effective_contest_time d.begin_time ctx)
                  (HasPenalty f (ioi_flag f))
                  (λ p ss columns r made.
                    >>=-elim (solutions_by_column get_solution problems ss) _ made
                      λ by_column _ made'.
                        >>=-elim
                          (cells_loop f
                            (solution_round d (ioi_judge f ctx.contest_config frozen) ctx.now
                              (get_participant_begin_time d.begin_time ctx.contest_config (some p)))
                            solution_less by_column 0 (length problems))
                          _ made'
                          λ cells _ made''. (ioi_finish_lem f p none cells columns r made'').1)
                  (λ p ss columns r made.
                    >>=-elim
                      (cells_loop f
                        (fake_round d (ioi_judge f ctx.contest_config frozen)
                          (get_effective_contest_time d.begin_time ctx))
                        fake_solution_less (fake_solutions_by_column problems ss) 0
                        (length problems))
                      _ made
                      λ cells _ made'.
                        (ioi_finish_lem f fake_row_participant (some p) cells columns r made').1)
                  built e in
              let e' : standings.rows ≡ built.0 = ground (arith, last) in
              rw e' (rw sorted (sorted-IsLaidOut (ioi_flag f) rows flags))
