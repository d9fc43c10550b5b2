-- ===== src/Judging/Marked.antt =====
-- internal/invoker/judge_solution.go: the verdict of `runSolutionTests` where tests have points.
use solve.Prelude.{
  ℕ, suc, zero, ◌+◌, Bool, true, false, ◌&&◌, some, List, [], ◌∷◌, Result, ok, >>=-elim, ◌≡◌, refl,
  ap, ◌∙◌, arith, inl, inr, Bool-cases, Option-cases, if◌then◌else◌, length,
}
use solve.Standings.Types.{Verdict, accepted, partially_accepted, is_accepted, Float}
use solve.Judging.{
  TestReport, JudgeReport, TestRun, TestSet, TestGroup, PointsPolicy, each_test, complete_group,
  other_policy, GroupTests, group_loop, clear_test, clear_tests, add_points, apply_policy,
  groups_loop, calculate_test_set_points, Round, add_test, after_test, test_points, tests_loop,
  after_tests, test_sets_loop, run_solution_tests, run_solution_test,
}
use solve.Judging.First.{all_accepted, tests_of, count_tests, length-snoc, all_accepted-snoc}

-- A report whose verdict says whether all of its tests were accepted.
pub record IsMarked {Num : Type 0} (report : JudgeReport Num) (count : ℕ) : Type 0 where
  pub all_run : length report.tests ≡ count
  pub verdict :
      report.verdict ≡ (if all_accepted report.tests then accepted else partially_accepted)

module _ {Num : Type 0} (f : Float Num) where
  clear_test-same :
      (tests : List (TestReport Num)) (id : ℕ)
      → (length (clear_test f tests id) ≡ length tests)
        × (all_accepted (clear_test f tests id) ≡ all_accepted tests)
  unfolding clear_test
  clear_test-same [] id = (refl, refl)
  clear_test-same (t ∷ ts) zero = (refl, refl)
  clear_test-same (t ∷ ts) (suc id) =
      let (l, a) = clear_test-same ts id in (ap suc l, ap (λ b. is_accepted t.verdict && b) a)

  clear_tests-same :
      (tests : List (TestReport Num)) (ids : List ℕ)
      → (length (clear_tests f tests ids) ≡ length tests)
        × (all_accepted (clear_tests f tests ids) ≡ all_accepted tests)
  unfolding clear_tests
  clear_tests-same tests [] = (refl, refl)
  clear_tests-same tests (id ∷ ids) =
      let (l, a) = clear_test-same tests id in
      let (l', a') = clear_tests-same (clear_test f tests id) ids in (l' ∙ l, a' ∙ a)

  add_points-IsMarked :
      (count : ℕ) (report report' : JudgeReport Num) (p : Num)
      → IsMarked report count
      → add_points f report p ≡ ok report'
      → IsMarked report' count
  unfolding add_points
  add_points-IsMarked count report report' p k h = elim (Option-cases report.points) [
    | inl none' ↦ absurd (ground (arith, rw (none', add_points) at h))
    | inr (q, some') ↦
        let e : report' ≡ record report { points = some (f.add q p) } =
          ground (arith, rw (some', add_points) at h) in
        rw e (record { all_run = k.all_run; verdict = k.verdict })
  ]

  apply_policy-IsMarked :
      (policy : PointsPolicy) (ids : List ℕ) (count : ℕ) (report report' : JudgeReport Num)
      (p : Num) (v : Verdict)
      → IsMarked report count
      → apply_policy f policy ids report p v ≡ ok report'
      → IsMarked report' count
  unfolding apply_policy
  apply_policy-IsMarked each_test ids count report report' p v k h =
      add_points-IsMarked count report report' p k h
  apply_policy-IsMarked complete_group ids count report report' p v k h =
      elim (Bool-cases (is_accepted v)) [
        | inl whole ↦ add_points-IsMarked count report report' p k (rw whole at h)
        | inr broken ↦
            let e : report' ≡ record report { tests = clear_tests f report.tests ids } =
              ground (arith, rw broken at h) in
            let (l, a) = clear_tests-same report.tests ids in
            rw e (record { all_run = l ∙ k.all_run; verdict = rw a k.verdict })
      ]
  apply_policy-IsMarked other_policy ids count report report' p v k h = absurd (ground (arith, h))

  groups_loop-IsMarked :
      (m : GroupTests) (groups : List TestGroup) (count : ℕ) (report report' : JudgeReport Num)
      → IsMarked report count
      → groups_loop f m groups report ≡ ok report'
      → IsMarked report' count
  unfolding groups_loop
  groups_loop-IsMarked m [] count report report' k h =
      let e : report' ≡ report = ground (arith, h) in rw e k
  groups_loop-IsMarked m (group ∷ groups) count report report' k h =
      >>=-elim (group_loop f report.tests (m group.name) f.zero accepted) _ h λ (p, v) looped h₁.
        >>=-elim (apply_policy f group.points_policy (m group.name) report p v) _ h₁
          λ next applied h₂.
            groups_loop-IsMarked m groups count next report'
              (apply_policy-IsMarked group.points_policy (m group.name) count report next p v k
                applied)
              h₂

  module _ (interactive : Bool) (set_state : ℕ → Result (Unit {0})) where
    tests_loop-IsMarked :
        (set : TestSet Num) (tests : List (TestRun Num)) (round : Round Num)
        (end : Bool × Round Num) (count : ℕ)
        → IsMarked round.report count
        → tests_loop f interactive true set_state set tests round ≡ ok end
        → (end.0 ≡ false) × IsMarked end.1.report (count + length tests)
    unfolding tests_loop after_test add_test test_points
    tests_loop-IsMarked set [] round end count k h =
        let e : end ≡ (false, round) = ground (arith, h) in
        rw e (refl, record { all_run = omega (arith, k.all_run); verdict = k.verdict })
    tests_loop-IsMarked set (test ∷ tests) round end count k h =
        >>=-elim (set_state (suc round.test_number)) _ h λ done told h₁.
          >>=-elim (run_solution_test f interactive set test) _ h₁ λ report ran h₂.
            let next =
              add_test f interactive true set_state
                (record round { test_number = suc round.test_number }) test report in
            let grown = length-snoc round.report.tests report in
            let mixed = all_accepted-snoc round.report.tests report in
            elim (Bool-cases (is_accepted report.verdict)) [
              | inl good ↦
                  let (going, later) =
                    tests_loop-IsMarked set tests next end (suc count)
                      (record {
                        all_run = omega (arith, grown, k.all_run);
                        verdict = k.verdict ∙ ground (arith, mixed, good);
                      })
                      (rw good at h₂) in
                  (
                    going,
                    record { all_run = omega (arith, later.all_run); verdict = later.verdict },
                  )
              | inr bad ↦
                  let (going, later) =
                    tests_loop-IsMarked set tests
                      (record next { report = record next.report { verdict = partially_accepted } })
                      end (suc count)
                      (record {
                        all_run = omega (arith, grown, k.all_run);
                        verdict = ground (arith, mixed, bad);
                      })
                      (rw bad at h₂) in
                  (
                    going,
                    record { all_run = omega (arith, later.all_run); verdict = later.verdict },
                  )
            ]

    after_tests-IsMarked :
        (rest : JudgeReport Num → ℕ → Result (JudgeReport Num)) (set : TestSet Num)
        (end : Bool × Round Num) (count : ℕ) (report' : JudgeReport Num)
        → end.0 ≡ false
        → IsMarked end.1.report count
        → after_tests f interactive true set_state rest set end ≡ ok report'
        → (next : JudgeReport Num) × IsMarked next count
          × (rest next end.1.test_number ≡ ok report')
    unfolding after_tests calculate_test_set_points
    after_tests-IsMarked rest set (true, round) count report' going k h =
        absurd (ground (arith, going))
    after_tests-IsMarked rest set (false, round) count report' going k h =
        >>=-elim (calculate_test_set_points f round.report set round.group_tests) _ h
          λ next summed h₁. >>=-elim set.get_groups _ summed λ groups got looped. (
            next,
            groups_loop-IsMarked round.group_tests groups count round.report next k looped,
            h₁,
          )

    test_sets_loop-IsMarked :
        (sets : List (TestSet Num)) (report report' : JudgeReport Num) (n count : ℕ)
        → IsMarked report count
        → test_sets_loop f interactive true set_state sets report n ≡ ok report'
        → IsMarked report' (count + count_tests sets)
    unfolding test_sets_loop
    test_sets_loop-IsMarked [] report report' n count k h =
        let e : report' ≡ report = ground (arith, h) in
        rw e (record { all_run = omega (arith, k.all_run); verdict = k.verdict })
    test_sets_loop-IsMarked (set ∷ sets) report report' n count k h =
        >>=-elim set.get_tests _ h λ tests got h₁.
          >>=-elim
            (tests_loop f interactive true set_state set tests
              (record { report = report; test_number = n; group_tests = λ name. [] }))
            _ h₁
            λ end looped h₂.
              let (going, marked) = tests_loop-IsMarked set tests _ end count k looped in
              let (next, kept, h₃) =
                after_tests-IsMarked _ set end (count + length tests) report' going marked h₂ in
              let later =
                test_sets_loop-IsMarked sets next report' end.1.test_number (count + length tests)
                  kept h₃ in
              record {
                all_run = omega (arith, later.all_run, ap tests_of got);
                verdict = later.verdict;
              }

    -- Judging with points, of a report without tests, runs every test of every set, and the
    -- solution is accepted where all of them are and partially accepted where one is not.
    pub run_solution_tests-IsMarked :
        (sets : List (TestSet Num)) (report report' : JudgeReport Num)
        → report.tests ≡ []
        → run_solution_tests f interactive true set_state (ok sets) report ≡ ok report'
        → IsMarked report' (count_tests sets)
    unfolding run_solution_tests
    run_solution_tests-IsMarked sets report report' fresh h =
        >>=-elim (set_state 0) _ h λ done told h₁.
          let start : JudgeReport Num = record report {
            verdict = accepted;
            points = some f.zero;
          } in
          let k =
            test_sets_loop-IsMarked sets start report' 0 0
              (record { all_run = ap length fresh; verdict = rw fresh refl }) h₁ in
          record { all_run = omega (arith, k.all_run); verdict = k.verdict }
