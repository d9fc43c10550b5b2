-- ===== src/Judging/Filed.antt =====
-- internal/invoker/judge_solution.go: the tests that `runSolutionTests` judges and files under their
-- groups.
use solve.Prelude.{
  ℕ, suc, Bool, List, [], ◌∷◌, ◌++◌, String, str_eq, ok, ◌≡◌, if◌then◌else◌, length,
}
use solve.Standings.Types.{Float}
use solve.Judging.{TestReport, TestRun, TestSet, GroupTests, Round, run_solution_test}

-- The numbers of the tests of a group, from `n` on.
abbrev pub filed : {Num : Type 0} → ℕ → List (TestRun Num) → GroupTests
filed n [] name = []
filed n (test ∷ tests) name =
    let rest = filed (suc n) tests name in if str_eq test.group name then n ∷ rest else rest

module _ {Num : Type 0} (f : Float Num) (interactive : Bool) where
  -- The reports of tests, each from its own run, in the order of the tests.
  pub data IsJudged (set : TestSet Num) : List (TestRun Num) → List (TestReport Num) → Type 0 where
    no_test : IsJudged set [] []
    next_test :
        {test : TestRun Num} {tests : List (TestRun Num)} {report : TestReport Num}
        {reports : List (TestReport Num)}
        → run_solution_test f interactive set test ≡ ok report
        → IsJudged set tests reports
        → IsJudged set (test ∷ tests) (report ∷ reports)

  -- What the loop over tests leaves.
  record IsTested (set : TestSet Num) (tests : List (TestRun Num)) (round end : Round Num)
      : Type 0 where
    reports : List (TestReport Num)
    judged : IsJudged set tests reports
    all : end.report.tests ≡ round.report.tests ++ reports
    groups :
        (name : String)
        → end.group_tests name
          ≡ round.group_tests name ++ filed (length round.report.tests) tests name
    points : end.report.points ≡ round.report.points
