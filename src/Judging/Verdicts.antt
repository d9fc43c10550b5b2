-- ===== src/Judging/Verdicts.antt =====
-- internal/invoker/judge_solution.go and testlib.go: the verdict of one test.
use solve.Prelude.{
  Bool, true, false, not, ◌&&◌, ◌||◌, none, some, Result, ok, err, >>=-elim, ◌≡◌, refl, ap, arith,
  inl, inr, Bool-cases, if◌then◌else◌,
}
use solve.Prelude.Int.{ℤ, pos, ltb_ℤ, eqb_ℤ}
use solve.Standings.Types.{Verdict, is_accepted, Float}
use solve.Judging.{
  TestReport, TestRun, TestSet, ProcessReport, get_testlib_exit_code_verdict, limit_verdict,
  process_test_report, execute_interactive_solution, execute_solution, run_testlib_checker,
  check_test, run_solution_test,
}

-- A process that kept the limits of a test set and ended without an error.
abbrev pub ends_well : {Num : Type 0} → TestSet Num → ProcessReport → Bool
ends_well set p =
    not (ltb_ℤ set.time_limit p.time)
    && not (ltb_ℤ set.memory_limit p.memory)
    && eqb_ℤ p.exit_code (pos 0)

abbrev pub exits_with_0 : Result ProcessReport → Bool
exits_with_0 (ok p) = eqb_ℤ p.exit_code (pos 0)
exits_with_0 (err e) = false

-- What an accepted test asks of the processes.
abbrev pub passes : {Num : Type 0} → Bool → TestSet Num → TestRun Num → ProcessReport → Bool
passes interactive set run p =
    ends_well set p && (not interactive || exits_with_0 run.interactor) && exits_with_0 run.checker

get_testlib_exit_code_verdict-accepted :
    (code : ℤ) (v : Verdict)
    → get_testlib_exit_code_verdict code ≡ ok v
    → is_accepted v ≡ eqb_ℤ code (pos 0)
unfolding get_testlib_exit_code_verdict
get_testlib_exit_code_verdict-accepted code v h = ground (arith, h)

limit_verdict-accepted :
    {Num : Type 0} (set : TestSet Num) (p : ProcessReport)
    → is_accepted (limit_verdict set.time_limit set.memory_limit p) ≡ ends_well set p
unfolding limit_verdict
limit_verdict-accepted set p = ground arith

module _ {Num : Type 0} where
  execute_solution-accepted :
      (interactive : Bool) (set : TestSet Num) (run : TestRun Num) (report : TestReport Num)
      → execute_solution interactive set run ≡ ok report
      → (p : ProcessReport) × (run.solution ≡ ok p)
        × (is_accepted report.verdict
            ≡ (ends_well set p && (not interactive || exits_with_0 run.interactor)))
        × (report.points ≡ none)
  unfolding execute_solution execute_interactive_solution process_test_report
  execute_solution-accepted false set run report h = >>=-elim run.solution _ h λ p ran h₁.
      let e : report ≡ process_test_report (limit_verdict set.time_limit set.memory_limit p) p =
        ground (arith, h₁) in
      (p, ran, rw e (ground (arith, limit_verdict-accepted set p)), rw e refl)
  execute_solution-accepted true set run report h = >>=-elim run.interactor _ h λ i answered h₁.
      >>=-elim run.solution _ h₁ λ p ran h₂.
        >>=-elim
          (if is_accepted (limit_verdict set.time_limit set.memory_limit p)
            then get_testlib_exit_code_verdict i.exit_code
            else ok (limit_verdict set.time_limit set.memory_limit p))
          _ h₂
          λ v found h₃.
            let e : report ≡ process_test_report v p = ground (arith, h₃) in
            let code = ap exits_with_0 answered in
            let limits = limit_verdict-accepted set p in
            elim (Bool-cases (is_accepted (limit_verdict set.time_limit set.memory_limit p))) [
              | inl kept ↦
                  let judged =
                    get_testlib_exit_code_verdict-accepted i.exit_code v (rw kept at found) in
                  (p, ran, rw e (ground (arith, judged, code, limits, kept)), rw e refl)
              | inr broken ↦
                  let same : limit_verdict set.time_limit set.memory_limit p ≡ v =
                    ground (arith, rw broken at found) in
                  (
                    p,
                    ran,
                    rw e (ground (arith, ap is_accepted same, code, limits, broken)),
                    rw e refl,
                  )
            ]

  -- A test that is judged is accepted exactly when the solution ends within the limits of time and
  -- memory and with exit code 0, the checker ends with exit code 0, and, where there is an
  -- interactor, so does it; and it has points exactly when it is accepted and the points of the
  -- test are positive, which are then its points.
  pub run_solution_test-accepted :
      (f : Float Num) (interactive : Bool) (set : TestSet Num) (run : TestRun Num)
      (report : TestReport Num)
      → run_solution_test f interactive set run ≡ ok report
      → (p : ProcessReport) × (run.solution ≡ ok p)
        × (is_accepted report.verdict ≡ passes interactive set run p)
        × (report.points ≡ (
            if passes interactive set run p && f.lt f.zero run.points
            then some run.points
            else none))
  unfolding run_solution_test check_test run_testlib_checker
  run_solution_test-accepted f interactive set run report h = >>=-elim run.files _ h λ copied c h₁.
      >>=-elim (execute_solution interactive set run) _ h₁ λ executed e h₂.
        let (p, ran, judged, bare) = execute_solution-accepted interactive set run executed e in
        elim (Bool-cases (is_accepted executed.verdict)) [
          | inr bad ↦
              let same : report ≡ executed = ground (arith, rw bad at h₂) in
              (
                p,
                ran,
                rw same (ground (arith, bad, judged)),
                rw same (ground (arith, bad, judged, bare)),
              )
          | inl good ↦ >>=-elim (run_testlib_checker run) _ (rw good at h₂) λ v checked h₃.
              >>=-elim run.checker _ checked λ k ended h₄.
                let same : report ≡ record executed {
                  verdict = v;
                  points =
                      if is_accepted v && f.lt f.zero run.points then some run.points else none;
                } =
                  ground (arith, h₃) in
                let code = get_testlib_exit_code_verdict-accepted k.exit_code v h₄ in
                (
                  p,
                  ran,
                  rw same (ground (arith, good, judged, code, ap exits_with_0 ended)),
                  rw same (ground (arith, good, judged, code, ap exits_with_0 ended)),
                )
        ]
