-- ===== src/Judging.antt =====
-- internal/invoker/judge_solution.go and testlib.go: the verdict and the points of a solution.
--
-- What processes and files do is given: for a test `TestRun` has whether its files can be copied,
-- and how the solution, the interactor and the checker end, with times in milliseconds. Logs are
-- left out. `set_state` is `SetDeferredState` with the number of the test.
pub mod Verdicts
pub mod First
pub mod Marked
pub mod Points
pub mod Total
pub mod Filed
use solve.Prelude.{
  ℕ, suc, zero, Bool, true, false, not, ◌&&◌, ◌||◌, Option, none, some, List, [], ◌∷◌, ◌++◌, String,
  str_eq, Result, ok, err, Error, ◌>>=◌, if◌then◌else◌, ltb, ◌==◌, length, get_elem?,
}
use solve.Prelude.Int.{ℤ, pos, ltb_ℤ, eqb_ℤ}
use solve.Standings.Types.{
  Verdict, accepted, rejected, compilation_error, time_limit_exceeded, memory_limit_exceeded,
  runtime_error, wrong_answer, presentation_error, partially_accepted, failed, is_accepted, Float,
}

pub record UsageReport : Type 0 where
  pub time : ℤ
  pub memory : ℤ

pub record TestReport (Num : Type 0) : Type 0 where
  pub verdict : Verdict
  pub usage : UsageReport
  pub points : Option Num

-- `SolutionReport`, with the fields that judging sets
pub record JudgeReport (Num : Type 0) : Type 0 where
  pub verdict : Verdict
  pub usage : UsageReport
  pub tests : List (TestReport Num)
  pub points : Option Num

-- `safeexec.Report`
pub record ProcessReport : Type 0 where
  pub time : ℤ
  pub memory : ℤ
  pub exit_code : ℤ

pub record TestRun (Num : Type 0) : Type 0 where
  pub points : Num
  pub group : String
  pub files : Result (Unit {0})
  pub interactor : Result ProcessReport
  pub solution : Result ProcessReport
  pub checker : Result ProcessReport

pub data PointsPolicy : Type 0 where
  each_test complete_group other_policy : PointsPolicy

pub record TestGroup : Type 0 where
  pub name : String
  pub points_policy : PointsPolicy

pub record TestSet (Num : Type 0) : Type 0 where
  pub time_limit : ℤ
  pub memory_limit : ℤ
  pub get_tests : Result (List (TestRun Num))
  pub get_groups : Result (List TestGroup)

unfoldable pub get_testlib_exit_code_verdict : ℤ → Result Verdict
get_testlib_exit_code_verdict exit_code =
    if eqb_ℤ exit_code (pos 0)
    then ok accepted
    else if eqb_ℤ exit_code (pos 1)
    then ok wrong_answer
    else if eqb_ℤ exit_code (pos 3)
    then ok failed
    else if eqb_ℤ exit_code (pos 2) || eqb_ℤ exit_code (pos 4) || eqb_ℤ exit_code (pos 8)
    then ok presentation_error
    else if eqb_ℤ exit_code (pos 5)
    then ok partially_accepted
    else if ltb_ℤ exit_code (pos 16)
    then err Error.unknown_exit_code
    else ok partially_accepted

-- the verdict of the three tests on the report of a process
unfoldable pub limit_verdict : ℤ → ℤ → ProcessReport → Verdict
limit_verdict time_limit memory_limit report =
    if ltb_ℤ time_limit report.time
    then time_limit_exceeded
    else if ltb_ℤ memory_limit report.memory
    then memory_limit_exceeded
    else if not (eqb_ℤ report.exit_code (pos 0))
    then runtime_error
    else accepted

module _ {Num : Type 0} where
  unfoldable pub process_test_report : Verdict → ProcessReport → TestReport Num
  process_test_report verdict report = record {
    verdict = verdict;
    usage = record { time = report.time; memory = report.memory };
    points = none;
  }

  unfoldable pub execute_interactive_solution : TestSet Num → TestRun Num → Result (TestReport Num)
  unfolding limit_verdict process_test_report get_testlib_exit_code_verdict
  execute_interactive_solution set run = do
    interactor_report ← run.interactor
    solution_report ← run.solution
    let limits = limit_verdict set.time_limit set.memory_limit solution_report
    verdict ←
        (if is_accepted limits
          then get_testlib_exit_code_verdict interactor_report.exit_code
          else ok limits)
    ok (process_test_report verdict solution_report)

  unfoldable pub execute_solution : Bool → TestSet Num → TestRun Num → Result (TestReport Num)
  unfolding execute_interactive_solution limit_verdict process_test_report
  execute_solution true set run = execute_interactive_solution set run
  execute_solution false set run = do
    report ← run.solution
    ok (process_test_report (limit_verdict set.time_limit set.memory_limit report) report)

  unfoldable pub run_testlib_checker : TestRun Num → Result Verdict
  unfolding get_testlib_exit_code_verdict
  run_testlib_checker run = do report ← run.checker; get_testlib_exit_code_verdict report.exit_code

module _ {Num : Type 0} (f : Float Num) (interactive : Bool) where
  -- what is left of `runSolutionTest` once the solution has run
  unfoldable pub check_test : TestRun Num → TestReport Num → Result (TestReport Num)
  unfolding run_testlib_checker
  check_test run report = if not (is_accepted report.verdict) then ok report else do
    verdict ← run_testlib_checker run
    ok (record report {
      verdict = verdict;
      points = if is_accepted verdict && f.lt f.zero run.points then some run.points else none;
    })

  unfoldable pub run_solution_test : TestSet Num → TestRun Num → Result (TestReport Num)
  unfolding execute_solution check_test
  run_solution_test set run = do
    copied ← run.files
    report ← execute_solution interactive set run
    check_test run report

-- `groupTests`
abbrev pub GroupTests : Type 0
GroupTests = String → List ℕ

unfoldable pub append_test : String → ℕ → GroupTests → GroupTests
append_test group id tests name = if str_eq group name then tests name ++ (id ∷ []) else tests name

unfoldable pub max_usage : UsageReport → UsageReport → UsageReport
max_usage usage test_usage = record {
  time = if ltb_ℤ usage.time test_usage.time then test_usage.time else usage.time;
  memory = if ltb_ℤ usage.memory test_usage.memory then test_usage.memory else usage.memory;
}

module _ {Num : Type 0} (f : Float Num) where
  -- the loop over the tests of a group: its points and its verdict
  unfoldable pub group_loop :
      List (TestReport Num) → List ℕ → Num → Verdict → Result (Num × Verdict)
  group_loop tests [] group_points group_verdict = ok (group_points, group_verdict)
  group_loop tests (id ∷ ids) group_points group_verdict = elim (get_elem? tests id) [
    | none ↦ err Error.panicked
    | some test ↦
        group_loop tests ids
          (elim test.points [ none ↦ group_points | some points ↦ f.add group_points points ])
          (if not (is_accepted test.verdict) then test.verdict else group_verdict)
  ]

  -- `report.Tests[id].Points = nil`
  unfoldable pub clear_test : List (TestReport Num) → ℕ → List (TestReport Num)
  clear_test [] id = []
  clear_test (test ∷ tests) zero = record test { points = none } ∷ tests
  clear_test (test ∷ tests) (suc id) = test ∷ clear_test tests id

  unfoldable pub clear_tests : List (TestReport Num) → List ℕ → List (TestReport Num)
  unfolding clear_test
  clear_tests tests [] = tests
  clear_tests tests (id ∷ ids) = clear_tests (clear_test tests id) ids

  -- `*report.Points += groupPoints`
  unfoldable pub add_points : JudgeReport Num → Num → Result (JudgeReport Num)
  add_points report group_points = elim report.points [
    | none ↦ err Error.panicked
    | some points ↦ ok (record report { points = some (f.add points group_points) })
  ]

  unfoldable pub apply_policy :
      PointsPolicy → List ℕ → JudgeReport Num → Num → Verdict → Result (JudgeReport Num)
  unfolding add_points clear_tests
  apply_policy each_test ids report group_points group_verdict = add_points report group_points
  apply_policy complete_group ids report group_points group_verdict =
      if is_accepted group_verdict
      then add_points report group_points
      else ok (record report { tests = clear_tests report.tests ids })
  apply_policy other_policy ids report group_points group_verdict = err Error.unsupported_kind

  unfoldable pub groups_loop :
      GroupTests → List TestGroup → JudgeReport Num → Result (JudgeReport Num)
  unfolding group_loop apply_policy
  groups_loop group_tests [] report = ok report
  groups_loop group_tests (group ∷ groups) report = do
    (group_points, group_verdict) ← group_loop report.tests (group_tests group.name) f.zero accepted
    report ←
        apply_policy group.points_policy (group_tests group.name) report group_points group_verdict
    groups_loop group_tests groups report

  unfoldable pub calculate_test_set_points :
      JudgeReport Num → TestSet Num → GroupTests → Result (JudgeReport Num)
  unfolding groups_loop
  calculate_test_set_points report test_set group_tests = do
    groups ← test_set.get_groups
    groups_loop group_tests groups report

-- The variables of the loops over test sets and tests.
pub record Round (Num : Type 0) : Type 0 where
  pub report : JudgeReport Num
  pub test_number : ℕ
  pub group_tests : GroupTests

module _ {Num : Type 0} (f : Float Num) (interactive enable_points : Bool)
    (set_state : ℕ → Result (Unit {0})) where
  unfoldable pub add_test : Round Num → TestRun Num → TestReport Num → Round Num
  unfolding append_test max_usage
  add_test round test test_report = record {
    report = record round.report {
      usage = max_usage round.report.usage test_report.usage;
      tests = round.report.tests ++ (test_report ∷ []);
    };
    test_number = round.test_number;
    group_tests = append_test test.group (length round.report.tests) round.group_tests;
  }

  -- the end of a round: whether judging stops, and the verdict so far
  unfoldable pub after_test :
      (Round Num → Result (Bool × Round Num)) → Verdict → Round Num → Result (Bool × Round Num)
  after_test rest verdict round =
      if is_accepted verdict
      then rest round
      else if enable_points
      then rest (record round { report = record round.report { verdict = partially_accepted } })
      else ok (true, record round { report = record round.report { verdict = verdict } })

  unfoldable pub test_points : TestReport Num → TestReport Num
  test_points report = if not enable_points then record report { points = none } else report

  -- the loop over the tests of a set
  unfoldable pub tests_loop :
      TestSet Num → List (TestRun Num) → Round Num → Result (Bool × Round Num)
  unfolding run_solution_test add_test after_test test_points
  tests_loop set [] round = ok (false, round)
  tests_loop set (test ∷ tests) round = do
    done ← set_state (suc round.test_number)
    test_report ← run_solution_test f interactive set test
    after_test (tests_loop set tests) test_report.verdict (
        add_test (record round { test_number = suc round.test_number }) test
          (test_points test_report))

  unfoldable pub after_tests :
      (JudgeReport Num → ℕ → Result (JudgeReport Num))
      → TestSet Num
      → Bool × Round Num
      → Result (JudgeReport Num)
  unfolding calculate_test_set_points
  after_tests rest set (true, round) = ok round.report
  after_tests rest set (false, round) = do
    report ←
        (if enable_points
          then calculate_test_set_points f round.report set round.group_tests
          else ok round.report)
    rest report round.test_number

  unfoldable pub test_sets_loop :
      List (TestSet Num) → JudgeReport Num → ℕ → Result (JudgeReport Num)
  unfolding tests_loop after_tests
  test_sets_loop [] report test_number = ok report
  test_sets_loop (set ∷ sets) report test_number = do
    tests ← set.get_tests
    tested ←
        tests_loop set tests
          (record { report = report; test_number = test_number; group_tests = λ name. [] })
    after_tests (test_sets_loop sets) set tested

  unfoldable pub run_solution_tests :
      Result (List (TestSet Num)) → JudgeReport Num → Result (JudgeReport Num)
  unfolding test_sets_loop
  run_solution_tests get_test_sets report = do
    done ← set_state 0
    test_sets ← get_test_sets
    test_sets_loop test_sets
        (record report {
          verdict = accepted;
          points = if enable_points then some f.zero else report.points;
        })
        0

  -- the report of a solution that compiled, or did not
  unfoldable pub after_compile :
      Result (Unit {0})
      → Result (List (TestSet Num))
      → JudgeReport Num
      → Bool
      → Result (JudgeReport Num)
  unfolding run_solution_tests
  after_compile executables get_test_sets report false =
      ok (record report { verdict = compilation_error })
  after_compile executables get_test_sets report true = do
    found ← executables
    run_solution_tests get_test_sets report

  -- the report that `executeImpl` stores
  unfoldable pub execute_impl :
      Result (Unit {0})
      → Result Bool
      → Result (Unit {0})
      → Result (List (TestSet Num))
      → Result (JudgeReport Num)
  unfolding after_compile
  execute_impl solution compiler executables get_test_sets = do
    prepared ← solution
    compiled ← compiler
    after_compile executables get_test_sets
        (record {
          verdict = rejected;
          usage = record { time = pos 0; memory = pos 0 };
          tests = [];
          points = none;
        })
        compiled
