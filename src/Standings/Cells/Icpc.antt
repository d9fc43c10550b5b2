-- ===== src/Standings/Cells/Icpc.antt =====
-- internal/managers/contest_standings.go: what a cell of ICPC standings counts.
use solve.Prelude.{
  suc, ◌+◌, Bool, true, ◌&&◌, Option, none, some, List, [], ◌∷◌, Result, ok, ◌≡◌, refl, arith,
  length, if◌then◌else◌, Bool-cases, inl, inr, ◌⊎◌, ◌∙◌, ap,
}
use solve.Prelude.Int.{ℤ, leb_ℤ}
use solve.Contest.Types.{ContestConfig}
use solve.Standings.Types.{
  Verdict, unset, is_accepted, is_compilation_error, SolutionReport, Decoders, Solution,
  ContestStandingsCell, get_report,
}
use solve.Standings.Cells.{
  cell_loop, after_round, pending, is_verdict_frozen, icpc_judge, report_round, solution_time,
  solution_round,
}

-- The submissions that count: `none` is one that is not judged yet. Those that are sent at or
-- after the clock, cannot be read or did not compile do not count.
abbrev pub report_entry :
    {Num : Type 0}
    → Option (Option (SolutionReport Num))
    → List (Option Verdict)
    → List (Option Verdict)
report_entry none rest = rest
report_entry (some none) rest = none ∷ rest
report_entry (some (some report)) rest =
    if is_compilation_error report.verdict then rest else some report.verdict ∷ rest

-- A submission after which nothing changes: one that is not judged yet, or is accepted.
abbrev pub closes : Option Verdict → Bool
closes none = true
closes (some v) = is_accepted v

-- The submissions up to the first that closes the cell, that one included.
abbrev pub until_closed : List (Option Verdict) → List (Option Verdict)
until_closed [] = []
until_closed (v ∷ vs) = v ∷ (if closes v then [] else until_closed vs)

-- The verdict of the last submission, or `v` if there is none.
abbrev pub final_verdict : Verdict → List (Option Verdict) → Verdict
final_verdict v [] = v
final_verdict v (none ∷ vs) = final_verdict unset vs
final_verdict v (some w ∷ vs) = final_verdict w vs

module _ {Num : Type 0} (d : Decoders Num) (config : ContestConfig) (frozen : Bool)
    (now begin : ℤ) where
  abbrev pub submissions : List Solution → List (Option Verdict)
  submissions [] = []
  submissions (s ∷ ss) =
      if leb_ℤ now s.create_time
      then submissions ss
      else report_entry (get_report d s) (submissions ss)

  -- What a run of the loop from a cell leaves.
  abbrev Tallied :
      ContestStandingsCell Num → List (Option Verdict) → Result (ContestStandingsCell Num) → Type 0
  Tallied cell vs result =
      (cell' : ContestStandingsCell Num) × (result ≡ ok cell')
      × (cell'.attempt ≡ cell.attempt + length (until_closed vs))
      × ((frozen ≡ true) ⊎ (cell'.verdict ≡ final_verdict cell.verdict (until_closed vs)))
      × (cell'.column ≡ cell.column)

  shown_later :
      (vs : List (Option Verdict)) (v w u : Verdict)
      → (frozen ≡ true) ⊎ (v ≡ w)
      → (frozen ≡ true) ⊎ (u ≡ final_verdict v (until_closed vs))
      → (frozen ≡ true) ⊎ (u ≡ final_verdict w (until_closed vs))
  shown_later vs v w u (inl h) k = inl h
  shown_later vs v w u (inr e) (inl h) = inl h
  shown_later vs v w u (inr e) (inr k) = inr (k ∙ ap (λ x. final_verdict x (until_closed vs)) e)

  judge-Tallied :
      (rest : ContestStandingsCell Num → Result (ContestStandingsCell Num))
      (vs : List (Option Verdict)) (cell : ContestStandingsCell Num) (report : SolutionReport Num)
      → ((cell : ContestStandingsCell Num) → Tallied cell vs (rest cell))
      → (arrived : ContestStandingsCell Num) → arrived.attempt ≡ suc cell.attempt
      → arrived.column ≡ cell.column
      → Tallied cell
          (some report.verdict ∷ vs)
          (after_round rest cell (icpc_judge config frozen report arrived))
  unfolding after_round icpc_judge
  judge-Tallied rest vs cell report ih arrived e e' =
      let shown = record arrived {
        verdict = if frozen && is_verdict_frozen config arrived.time then unset else report.verdict;
      } in
      let shows : (frozen ≡ true) ⊎ (shown.verdict ≡ report.verdict) = ground arith in
      elim (Bool-cases (is_accepted report.verdict)) [
        | inl a ↦ rw a (shown, refl, omega arith, shows, e')
        | inr a ↦
            let (c, r, n, v, k) = ih shown in
            rw a (
              c,
              r,
              omega arith,
              shown_later vs shown.verdict report.verdict c.verdict shows v,
              k ∙ e',
            )
      ]

  report-Tallied :
      (rest : ContestStandingsCell Num → Result (ContestStandingsCell Num))
      (vs : List (Option Verdict)) (cell : ContestStandingsCell Num) (begin : ℤ) (s : Solution)
      (report : Option (Option (SolutionReport Num)))
      → ((cell : ContestStandingsCell Num) → Tallied cell vs (rest cell))
      → Tallied cell (report_entry report vs) (
          after_round rest cell
            (report_round d (icpc_judge config frozen) report (solution_time begin s) cell))
  unfolding after_round report_round pending solution_time
  report-Tallied rest vs cell begin s none ih = ih cell
  report-Tallied rest vs cell begin s (some none) ih =
      (pending cell, refl, omega arith, inr refl, refl)
  report-Tallied rest vs cell begin s (some (some report)) ih =
      elim (Bool-cases (is_compilation_error report.verdict)) [
        | inl c ↦ rw c (ih cell)
        | inr c ↦ rw c (
            judge-Tallied rest vs cell report ih
              (solution_time begin s (record cell { attempt = suc cell.attempt })) (ground arith)
              (ground arith))
      ]

  -- The loop over a participant's solutions to one problem ends, in whatever order they come; the
  -- cell counts each submission up to the first that is accepted or not judged yet, and, unless
  -- the standings are frozen, shows the verdict of the last one counted.
  pub cell_loop-icpc :
      (ss : List Solution) (cell : ContestStandingsCell Num)
      → (cell' : ContestStandingsCell Num) × (cell_loop
            (solution_round d (icpc_judge config frozen) now begin)
            ss
            cell
          ≡ ok cell')
        × (cell'.attempt ≡ cell.attempt + length (until_closed (submissions ss)))
        × ((frozen ≡ true)
            ⊎ (cell'.verdict ≡ final_verdict cell.verdict (until_closed (submissions ss))))
        × (cell'.column ≡ cell.column)
  unfolding cell_loop solution_round after_round
  cell_loop-icpc [] cell = (cell, refl, omega arith, inr refl, refl)
  cell_loop-icpc (s ∷ ss) cell = elim (Bool-cases (leb_ℤ now s.create_time)) [
    | inl late ↦ rw late (cell_loop-icpc ss cell)
    | inr early ↦ rw early (
        report-Tallied (cell_loop (solution_round d (icpc_judge config frozen) now begin) ss)
          (submissions ss) cell begin s (get_report d s) (cell_loop-icpc ss))
  ]
