-- ===== src/Judging/First.antt =====
-- internal/invoker/judge_solution.go: the verdict of `runSolutionTests`.
use solve.Prelude.{
  ℕ, suc, ◌+◌, Bool, true, false, ◌&&◌, List, [], ◌∷◌, ◌++◌, Result, ok, err, >>=-elim, ◌≡◌, refl,
  ap, ◌∙◌, arith, ◌⊎◌, inl, inr, Bool-cases, length,
}
use solve.Standings.Types.{accepted, is_accepted, Float}
use solve.Judging.{
  TestReport, JudgeReport, TestRun, TestSet, Round, add_test, after_test, test_points, tests_loop,
  after_tests, test_sets_loop, run_solution_tests, run_solution_test,
}

abbrev pub all_accepted : {Num : Type 0} → List (TestReport Num) → Bool
all_accepted [] = true
all_accepted (t ∷ ts) = is_accepted t.verdict && all_accepted ts

-- The number of tests of some sets.
abbrev pub tests_of : {Num : Type 0} → Result (List (TestRun Num)) → ℕ
tests_of (ok tests) = length tests
tests_of (err e) = 0

abbrev pub count_tests : {Num : Type 0} → List (TestSet Num) → ℕ
count_tests [] = 0
count_tests (set ∷ sets) = tests_of set.get_tests + count_tests sets

module _ {Num : Type 0} where
  pub length-snoc :
      (ts : List (TestReport Num)) (t : TestReport Num) → length (ts ++ (t ∷ [])) ≡ suc (length ts)
  length-snoc [] t = refl
  length-snoc (x ∷ ts) t = ap suc (length-snoc ts t)

  pub all_accepted-snoc :
      (ts : List (TestReport Num)) (t : TestReport Num)
      → all_accepted (ts ++ (t ∷ [])) ≡ (all_accepted ts && is_accepted t.verdict)
  all_accepted-snoc [] t = ground arith
  all_accepted-snoc (x ∷ ts) t = ground (arith, all_accepted-snoc ts t)

  -- A report in which a test was not accepted and no test came after it.
  pub record IsStopped (report : JudgeReport Num) : Type 0 where
    pub passed : List (TestReport Num)
    pub last : TestReport Num
    pub tests : report.tests ≡ passed ++ (last ∷ [])
    pub before : all_accepted passed ≡ true
    pub refused : is_accepted last.verdict ≡ false
    pub verdict : report.verdict ≡ last.verdict

  -- A report of tests that all were accepted.
  pub record IsPassed (report : JudgeReport Num) (count : ℕ) : Type 0 where
    pub tests : all_accepted report.tests ≡ true
    pub all_run : length report.tests ≡ count
    pub verdict : report.verdict ≡ accepted

module _ {Num : Type 0} (f : Float Num) (interactive : Bool)
    (set_state : ℕ → Result (Unit {0})) where
  abbrev first_loop : TestSet Num → List (TestRun Num) → Round Num → Result (Bool × Round Num)
  first_loop = tests_loop f interactive false set_state

  -- How the loop over tests can end.
  abbrev FirstEnd : Round Num → ℕ → Bool × Round Num → Type 0
  FirstEnd round count end =
      ((end.0 ≡ false) × IsPassed end.1.report (length round.report.tests + count))
      ⊎ ((end.0 ≡ true) × IsStopped end.1.report)

  tests_loop-first :
      (set : TestSet Num) (tests : List (TestRun Num)) (round : Round Num) (end : Bool × Round Num)
      → IsPassed round.report (length round.report.tests)
      → first_loop set tests round ≡ ok end
      → FirstEnd round (length tests) end
  unfolding tests_loop after_test add_test test_points
  tests_loop-first set [] round end k h =
      let e : end ≡ (false, round) = ground (arith, h) in
      rw e (inl (refl, record { tests = k.tests; all_run = omega arith; verdict = k.verdict }))
  tests_loop-first set (test ∷ tests) round end k h =
      >>=-elim (set_state (suc round.test_number)) _ h λ done told h₁.
        >>=-elim (run_solution_test f interactive set test) _ h₁ λ report ran h₂.
          let noted = test_points f interactive false set_state report in
          elim (Bool-cases (is_accepted report.verdict)) [
            | inl good ↦
                let next =
                  add_test f interactive false set_state
                    (record round { test_number = suc round.test_number }) test noted in
                let grown = length-snoc round.report.tests noted in
                let later =
                  tests_loop-first set tests next end
                    (record {
                      tests =
                          all_accepted-snoc round.report.tests noted
                          ∙ ground (arith, k.tests, good);
                      all_run = refl;
                      verdict = k.verdict;
                    })
                    (rw good at h₂) in
                elim later [
                  | inl (going, p) ↦ inl (
                    going,
                    record {
                      tests = p.tests;
                      all_run = omega (arith, p.all_run, grown);
                      verdict = p.verdict;
                    },
                  )
                  | inr stopped ↦ inr stopped
                ]
            | inr bad ↦
                let h₃ = rw bad at h₂ in
                let next =
                  add_test f interactive false set_state
                    (record round { test_number = suc round.test_number }) test noted in
                let e : end ≡ (
                  true,
                  record next { report = record next.report { verdict = report.verdict } },
                ) =
                  ground (arith, h₃) in
                rw e (
                  inr (
                    refl,
                    record {
                      passed = round.report.tests;
                      last = noted;
                      tests = refl;
                      before = k.tests;
                      refused = bad;
                      verdict = refl;
                    },
                  ))
          ]

  test_sets_loop-first :
      (sets : List (TestSet Num)) (report report' : JudgeReport Num) (n : ℕ)
      → IsPassed report (length report.tests)
      → test_sets_loop f interactive false set_state sets report n ≡ ok report'
      → IsPassed report' (length report.tests + count_tests sets) ⊎ IsStopped report'
  unfolding test_sets_loop after_tests
  test_sets_loop-first [] report report' n k h =
      let e : report' ≡ report = ground (arith, h) in
      rw e (inl (record { tests = k.tests; all_run = omega arith; verdict = k.verdict }))
  test_sets_loop-first (set ∷ sets) report report' n k h =
      >>=-elim set.get_tests _ h λ tests got h₁.
        >>=-elim
          (first_loop set tests
            (record { report = report; test_number = n; group_tests = λ name. [] }))
          _ h₁
          λ end looped h₂. elim (tests_loop-first set tests _ end k looped) [
            | inl (going, p) ↦
                let later =
                  test_sets_loop-first sets end.1.report report' end.1.test_number
                    (record { tests = p.tests; all_run = refl; verdict = p.verdict })
                    (went_on set end going h₂) in
                elim later [
                  | inl q ↦ inl (record {
                    tests = q.tests;
                    all_run = omega (arith, q.all_run, p.all_run, ap tests_of got);
                    verdict = q.verdict;
                  })
                  | inr stopped ↦ inr stopped
                ]
            | inr (over, stopped) ↦ inr (rw (ended set end over h₂) stopped)
          ]
    where
      went_on :
          (set : TestSet Num) (end : Bool × Round Num)
          → end.0 ≡ false
          → after_tests f interactive false set_state
              (test_sets_loop f interactive false set_state sets)
              set
              end
            ≡ ok report'
          → test_sets_loop f interactive false set_state sets end.1.report end.1.test_number
            ≡ ok report'
      went_on set (true, round) e h = absurd (ground (arith, e))
      went_on set (false, round) e h = h

      ended :
          (set : TestSet Num) (end : Bool × Round Num)
          → end.0 ≡ true
          → after_tests f interactive false set_state
              (test_sets_loop f interactive false set_state sets)
              set
              end
            ≡ ok report'
          → report' ≡ end.1.report
      ended set (true, round) e h = ground (arith, h)
      ended set (false, round) e h = absurd (ground (arith, e))

  -- Judging without points, of a report without tests, either runs every test of every set, all of
  -- them are accepted and so is the solution; or the last test that ran is the only one that was
  -- not accepted, and the solution has its verdict.
  pub run_solution_tests-first :
      (sets : List (TestSet Num)) (report report' : JudgeReport Num)
      → report.tests ≡ []
      → run_solution_tests f interactive false set_state (ok sets) report ≡ ok report'
      → IsPassed report' (count_tests sets) ⊎ IsStopped report'
  unfolding run_solution_tests
  run_solution_tests-first sets report report' fresh h = >>=-elim (set_state 0) _ h λ done told h₁.
      let start : JudgeReport Num = record report { verdict = accepted } in
      elim (test_sets_loop-first sets start report' 0
        (record { tests = ap all_accepted fresh; all_run = refl; verdict = refl }) h₁) [
          | inl p ↦ inl (record {
            tests = p.tests;
            all_run = omega (arith, p.all_run, ap length fresh);
            verdict = p.verdict;
          })
          | inr stopped ↦ inr stopped
        ]
