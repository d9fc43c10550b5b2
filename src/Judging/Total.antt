-- ===== src/Judging/Total.antt =====
-- internal/invoker/judge_solution.go: `calculateTestSetPoints` over the groups of a test set.
use solve.Prelude.{
  ℕ, true, false, not, ◌&&◌, none, some, List, [], ◌∷◌, ok, >>=-elim, ◌≡◌, refl, sym, ap, ◌∙◌,
  arith, inl, inr, Bool-cases, if◌then◌else◌, get_elem?, All, Ordered,
}
use solve.Standings.Types.{Verdict, accepted, is_accepted, Float}
use solve.Judging.{
  TestReport, JudgeReport, TestSet, TestGroup, PointsPolicy, each_test, complete_group,
  other_policy, GroupTests, group_loop, clear_tests, add_points, apply_policy, groups_loop,
  calculate_test_set_points,
}
use solve.Judging.Points.{
  has_test, points_of, passed, whole, counts, group_total, group_counts, total, lost,
  clear_tests-points, clear_tests-passed, group_loop-total, Agree, group_total-Agree, whole-same,
}

-- Groups that have no test in common.
abbrev pub Apart : GroupTests → TestGroup → TestGroup → Type 0
Apart m g h = (j : ℕ) → has_test (m g.name) j ≡ true → has_test (m h.name) j ≡ false

module _ {Num : Type 0} (f : Float Num) (m : GroupTests) where
  -- What a group leaves of a report.
  record IsApplied (g : TestGroup) (tests : List (TestReport Num)) (p : Num)
      (report' : JudgeReport Num) : Type 0 where
    points :
        report'.points
        ≡ some (
            if group_counts f m tests g then f.add p (group_total f tests (m g.name) f.zero) else p)
    left :
        (j : ℕ)
        → points_of (get_elem? report'.tests j) ≡ (
            if not (group_counts f m tests g) && has_test (m g.name) j
            then none
            else points_of (get_elem? tests j))
    same : (j : ℕ) → passed (get_elem? report'.tests j) ≡ passed (get_elem? tests j)

  apply_policy-IsApplied :
      (policy : PointsPolicy) (g : TestGroup) (report report' : JudgeReport Num) (p q : Num)
      (v : Verdict)
      → g.points_policy ≡ policy
      → report.points ≡ some p
      → q ≡ group_total f report.tests (m g.name) f.zero
      → is_accepted v ≡ whole report.tests (m g.name)
      → apply_policy f policy (m g.name) report q v ≡ ok report'
      → IsApplied g report.tests p report'
  unfolding apply_policy
  apply_policy-IsApplied each_test g report report' p q v policy worth sum all h =
      let e : report' ≡ record report { points = some (f.add p q) } =
        ground (arith, rw (worth, add_points) at h) in
      let yes' : group_counts f m report.tests g ≡ true =
        ap (λ c. counts c (whole report.tests (m g.name))) policy in
      rw e (record { points = rw (yes', sum) refl; left = λ j. rw yes' refl; same = λ j. refl })
  apply_policy-IsApplied complete_group g report report' p q v policy worth sum all h =
      let decided : group_counts f m report.tests g ≡ whole report.tests (m g.name) =
        ap (λ c. counts c (whole report.tests (m g.name))) policy in
      elim (Bool-cases (is_accepted v)) [
        | inl good ↦
            let e : report' ≡ record report { points = some (f.add p q) } =
              ground (arith, rw (worth, add_points) at (rw good at h)) in
            let yes' : group_counts f m report.tests g ≡ true =
              ground (arith, decided, all, good) in
            rw e
              (record { points = rw (yes', sum) refl; left = λ j. rw yes' refl; same = λ j. refl })
        | inr bad ↦
            let e : report' ≡ record report { tests = clear_tests f report.tests (m g.name) } =
              ground (arith, rw bad at h) in
            let no' : group_counts f m report.tests g ≡ false = ground (arith, decided, all, bad) in
            rw e (record {
              points = rw no' worth;
              left = λ j. rw no' (clear_tests-points f report.tests (m g.name) j);
              same = λ j. clear_tests-passed f report.tests (m g.name) j;
            })
      ]
  apply_policy-IsApplied other_policy g report report' p q v policy worth sum all h =
      absurd (ground (arith, h))

  All-later :
      (g : TestGroup) (tests now : List (TestReport Num)) (gs : List TestGroup)
      → All (Apart m g) gs
      → All (λ h. Agree f tests now (m h.name)) gs
      → (next : List (TestReport Num))
      → ((j : ℕ)
          → has_test (m g.name) j ≡ false
          → points_of (get_elem? next j) ≡ points_of (get_elem? now j))
      → All (λ h. Agree f tests next (m h.name)) gs
  All-later g tests now [] apart agree next k = tt
  All-later g tests now (h ∷ gs) apart agree next k = (
    λ j e. agree.0 j e ∙ sym (k j (ground (arith, apart.0 j, e))),
    All-later g tests now gs apart.1 agree.1 next k,
  )

  groups_loop-total :
      (groups : List TestGroup) (tests : List (TestReport Num)) (report report' : JudgeReport Num)
      (p : Num)
      → Ordered (Apart m) groups
      → All (λ h. Agree f tests report.tests (m h.name)) groups
      → ((j : ℕ) → passed (get_elem? tests j) ≡ passed (get_elem? report.tests j))
      → report.points ≡ some p
      → groups_loop f m groups report ≡ ok report'
      → (report'.points ≡ some (total f m tests groups p))
        × ((j : ℕ)
            → points_of (get_elem? report'.tests j)
              ≡ (if lost f m tests groups j then none else points_of (get_elem? report.tests j)))
  unfolding groups_loop
  groups_loop-total [] tests report report' p apart agree same worth h =
      let e : report' ≡ report = ground (arith, h) in rw e (worth, λ j. refl)
  groups_loop-total (g ∷ groups) tests report report' p apart agree same worth h =
      >>=-elim (group_loop f report.tests (m g.name) f.zero accepted) _ h λ (q, v) looped h₁.
        >>=-elim (apply_policy f g.points_policy (m g.name) report q v) _ h₁ λ next applied h₂.
          let (sum, all) = group_loop-total f report.tests (m g.name) f.zero q accepted v looped in
          let a =
            apply_policy-IsApplied g.points_policy g report next p q v refl worth sum
              (all ∙ ground arith) applied in
          let sums = group_total-Agree f tests report.tests (m g.name) f.zero agree.0 in
          let wholes = whole-same f tests report.tests (m g.name) same in
          let c : group_counts f m tests g ≡ group_counts f m report.tests g =
            ap (counts g.points_policy) wholes in
          let (points, left) =
            groups_loop-total groups tests next report'
              (if group_counts f m tests g
                then f.add p (group_total f tests (m g.name) f.zero)
                else p)
              apart.1
              (All-later g tests report.tests groups apart.0 agree.1 next.tests
                (λ j out. a.left j ∙ ground (arith, out)))
              (λ j. same j ∙ sym (a.same j)) (rw (c, sums) a.points) h₂ in
          (points, λ j. left j ∙ ground (arith, a.left j, c))

  -- Where the groups of a test set have no test in common, `calculateTestSetPoints` adds to the
  -- points of the report, in the order of the groups, the sum of each group that counts, which is
  -- every group whose policy is to count each test, and every other in which all tests were
  -- accepted; the tests of the groups that do not count lose their points, and the others keep
  -- theirs.
  pub calculate_test_set_points-total :
      (set : TestSet Num) (groups : List TestGroup) (report report' : JudgeReport Num) (p : Num)
      → set.get_groups ≡ ok groups
      → Ordered (Apart m) groups
      → report.points ≡ some p
      → calculate_test_set_points f report set m ≡ ok report'
      → (report'.points ≡ some (total f m report.tests groups p))
        × ((j : ℕ)
            → points_of (get_elem? report'.tests j) ≡ (
                if lost f m report.tests groups j
                then none
                else points_of (get_elem? report.tests j)))
  unfolding calculate_test_set_points
  calculate_test_set_points-total set groups report report' p got apart worth h =
      groups_loop-total groups report.tests report report' p apart (agrees groups) (λ j. refl) worth
        (rw got at h)
    where
      agrees : (gs : List TestGroup) → All (λ h. Agree f report.tests report.tests (m h.name)) gs
      agrees [] = tt
      agrees (g ∷ gs) = (λ j e. refl, agrees gs)
