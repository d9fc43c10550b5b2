-- ===== src/Tests/JudgeRuns.antt =====
-- Runs of judging: two tests of two groups, of which the second fails.
use solve.Prelude.{
  ℕ, ◌+◌, true, false, Option, none, some, List, [], ◌∷◌, Result, ok, err, Error, ◌≡◌, refl, ◌⊎◌,
  arith, ltb, ◌==◌, str_eq, if◌then◌else◌, get_elem?, ◌&&◌,
}
use solve.Prelude.Int.{pos, pos_part}
use solve.Standings.Types.{Verdict, accepted, rejected, wrong_answer, partially_accepted, Float}
use solve.Judging.{
  Round, append_test, TestReport, JudgeReport, ProcessReport, TestRun, TestGroup, each_test,
  complete_group, TestSet, run_solution_test, run_solution_tests, calculate_test_set_points,
  GroupTests,
}
use solve.Judging.First.{IsPassed, IsStopped, count_tests, run_solution_tests-first}
use solve.Judging.Marked.{IsMarked, run_solution_tests-IsMarked}
use solve.Judging.Verdicts.{passes, run_solution_test-accepted}
use solve.Judging.Points.{points_of, total, lost}
use solve.Judging.Total.{calculate_test_set_points-total}

abbrev naturals : Float ℕ
naturals = record { zero = 0; add = ◌+◌; lt = ltb; eq = ◌==◌; of_int = pos_part }

abbrev ended : ℕ → Result ProcessReport
ended code = ok (record { time = pos 10; memory = pos 10; exit_code = pos code })

abbrev first_test : TestRun ℕ
first_test = record {
  points = 30;
  group = "a";
  files = ok tt;
  interactor = err Error.panicked;
  solution = ended 0;
  checker = ended 0;
}

abbrev second_test : TestRun ℕ
second_test = record first_test { group = "b"; checker = ended 1 }

abbrev two_tests : TestSet ℕ
two_tests = record {
  time_limit = pos 100;
  memory_limit = pos 100;
  get_tests = ok (first_test ∷ second_test ∷ []);
  get_groups = ok (
      record { name = "a"; points_policy = each_test }
      ∷ record { name = "b"; points_policy = complete_group }
      ∷ []);
}

abbrev set_state : ℕ → Result (Unit {0})
set_state n = ok tt

abbrev fresh_report : JudgeReport ℕ
fresh_report = record {
  verdict = rejected;
  usage = record { time = pos 0; memory = pos 0 };
  tests = [];
  points = none;
}

abbrev test_report : Verdict → Option ℕ → TestReport ℕ
test_report verdict points = record {
  verdict = verdict;
  usage = record { time = pos 10; memory = pos 10 };
  points = points;
}

abbrev judged : Verdict → Option ℕ → Option ℕ → JudgeReport ℕ
judged verdict points first_points = record {
  verdict = verdict;
  usage = record { time = pos 10; memory = pos 10 };
  tests = test_report accepted first_points ∷ test_report wrong_answer none ∷ [];
  points = points;
}

without_points :
    run_solution_tests naturals false false set_state (ok (two_tests ∷ [])) fresh_report
    ≡ ok (judged wrong_answer none none)
unfolding run_solution_tests
without_points = refl

with_points :
    run_solution_tests naturals false true set_state (ok (two_tests ∷ [])) fresh_report
    ≡ ok (judged partially_accepted (some 30) (some 30))
unfolding run_solution_tests
with_points = refl

run_solution_tests-first_example :
    IsPassed (judged wrong_answer none none) (count_tests (two_tests ∷ []))
    ⊎ IsStopped (judged wrong_answer none none)
run_solution_tests-first_example =
    run_solution_tests-first naturals false set_state (two_tests ∷ []) fresh_report
      (judged wrong_answer none none) refl without_points

run_solution_tests-IsMarked_example :
    IsMarked (judged partially_accepted (some 30) (some 30)) (count_tests (two_tests ∷ []))
run_solution_tests-IsMarked_example =
    run_solution_tests-IsMarked naturals false set_state (two_tests ∷ []) fresh_report
      (judged partially_accepted (some 30) (some 30)) refl with_points

first_ok :
    run_solution_test naturals false two_tests first_test ≡ ok (test_report accepted (some 30))
unfolding run_solution_test
first_ok = refl

run_solution_test-accepted_example :
    (p : ProcessReport) × (ended 0 ≡ ok p)
    × (true ≡ passes false two_tests first_test p)
    × ((test_report accepted (some 30)).points
        ≡ (if passes false two_tests first_test p && ltb 0 30 then some 30 else none))
run_solution_test-accepted_example =
    run_solution_test-accepted naturals false two_tests first_test (test_report accepted (some 30))
      first_ok

abbrev both_groups : GroupTests
both_groups name = if str_eq name "a" then 0 ∷ [] else 1 ∷ []

abbrev summed : JudgeReport ℕ
summed = judged partially_accepted (some 30) (some 30)

sum_ok :
    calculate_test_set_points naturals
      (judged partially_accepted (some 0) (some 30))
      two_tests
      both_groups
    ≡ ok summed
unfolding calculate_test_set_points
sum_ok = refl

abbrev groups : List TestGroup
groups =
    record { name = "a"; points_policy = each_test }
    ∷ record { name = "b"; points_policy = complete_group }
    ∷ []

calculate_test_set_points-total_example :
    (some 30 ≡ some (total naturals both_groups summed.tests groups 0))
    × ((j : ℕ)
        → points_of (get_elem? summed.tests j) ≡ (
            if lost naturals both_groups summed.tests groups j
            then none
            else points_of (get_elem? summed.tests j)))
calculate_test_set_points-total_example =
    calculate_test_set_points-total naturals both_groups two_tests groups
      (judged partially_accepted (some 0) (some 30)) summed 0 refl
      (((λ j e. ground (arith, e)), tt), (tt, tt)) refl sum_ok

abbrev ended_round : Round ℕ
ended_round = record {
  report = judged partially_accepted (some 0) (some 30);
  test_number = 2;
  group_tests = append_test "b" 1 (append_test "a" 0 (λ name. []));
}

abbrev begun_report : JudgeReport ℕ
begun_report = record fresh_report { verdict = accepted; points = some 0 }
