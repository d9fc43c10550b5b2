-- ===== src/Judging/Points.antt =====
-- internal/invoker/judge_solution.go: the points that `calculateTestSetPoints` adds up.
use solve.Prelude.{
  ℕ, suc, zero, Bool, true, false, not, ◌&&◌, ◌||◌, Option, none, some, List, [], ◌∷◌, ok, ◌≡◌,
  refl, ◌∙◌, arith, inl, inr, Option-cases, if◌then◌else◌, ◌==◌, get_elem?,
}
use solve.Standings.Types.{Verdict, is_accepted, Float}
use solve.Judging.{
  TestReport, TestGroup, PointsPolicy, complete_group, GroupTests, group_loop, clear_test,
  clear_tests,
}

abbrev pub has_test : List ℕ → ℕ → Bool
has_test [] j = false
has_test (id ∷ ids) j = id == j || has_test ids j

abbrev pub points_of : {Num : Type 0} → Option (TestReport Num) → Option Num
points_of none = none
points_of (some t) = t.points

abbrev pub passed : {Num : Type 0} → Option (TestReport Num) → Bool
passed none = true
passed (some t) = is_accepted t.verdict

-- Whether all tests of a group were accepted.
abbrev pub whole : {Num : Type 0} → List (TestReport Num) → List ℕ → Bool
whole tests [] = true
whole tests (id ∷ ids) = passed (get_elem? tests id) && whole tests ids

abbrev pub counts : PointsPolicy → Bool → Bool
counts complete_group all = all
counts _ all = true

module _ {Num : Type 0} (f : Float Num) where
  abbrev pub plus : Num → Option Num → Num
  plus p none = p
  plus p (some q) = f.add p q

  abbrev pub group_total : List (TestReport Num) → List ℕ → Num → Num
  group_total tests [] p = p
  group_total tests (id ∷ ids) p = group_total tests ids (plus p (points_of (get_elem? tests id)))

  module _ (m : GroupTests) (tests : List (TestReport Num)) where
    -- Whether the points of a group count.
    abbrev pub group_counts : TestGroup → Bool
    group_counts g = counts g.points_policy (whole tests (m g.name))

    -- The sum over the groups whose points count.
    abbrev pub total : List TestGroup → Num → Num
    total [] p = p
    total (g ∷ gs) p =
        total gs (if group_counts g then f.add p (group_total tests (m g.name) f.zero) else p)

    -- Whether a test is of a group whose points do not count.
    abbrev pub lost : List TestGroup → ℕ → Bool
    lost [] j = false
    lost (g ∷ gs) j = (not (group_counts g) && has_test (m g.name) j) || lost gs j

  clear_test-points :
      (tests : List (TestReport Num)) (id j : ℕ)
      → points_of (get_elem? (clear_test f tests id) j)
        ≡ (if id == j then none else points_of (get_elem? tests j))
  unfolding clear_test
  clear_test-points [] id j = ground arith
  clear_test-points (t ∷ ts) zero zero = refl
  clear_test-points (t ∷ ts) zero (suc j) = ground arith
  clear_test-points (t ∷ ts) (suc id) zero = ground arith
  clear_test-points (t ∷ ts) (suc id) (suc j) = clear_test-points ts id j ∙ ground arith

  clear_test-passed :
      (tests : List (TestReport Num)) (id j : ℕ)
      → passed (get_elem? (clear_test f tests id) j) ≡ passed (get_elem? tests j)
  unfolding clear_test
  clear_test-passed [] id j = refl
  clear_test-passed (t ∷ ts) zero zero = refl
  clear_test-passed (t ∷ ts) zero (suc j) = refl
  clear_test-passed (t ∷ ts) (suc id) zero = refl
  clear_test-passed (t ∷ ts) (suc id) (suc j) = clear_test-passed ts id j

  pub clear_tests-points :
      (tests : List (TestReport Num)) (ids : List ℕ) (j : ℕ)
      → points_of (get_elem? (clear_tests f tests ids) j)
        ≡ (if has_test ids j then none else points_of (get_elem? tests j))
  unfolding clear_tests
  clear_tests-points tests [] j = refl
  clear_tests-points tests (id ∷ ids) j =
      clear_tests-points (clear_test f tests id) ids j
      ∙ ground (arith, clear_test-points tests id j)

  pub clear_tests-passed :
      (tests : List (TestReport Num)) (ids : List ℕ) (j : ℕ)
      → passed (get_elem? (clear_tests f tests ids) j) ≡ passed (get_elem? tests j)
  unfolding clear_tests
  clear_tests-passed tests [] j = refl
  clear_tests-passed tests (id ∷ ids) j =
      clear_tests-passed (clear_test f tests id) ids j ∙ clear_test-passed tests id j

  pub group_loop-total :
      (tests : List (TestReport Num)) (ids : List ℕ) (p p' : Num) (v v' : Verdict)
      → group_loop f tests ids p v ≡ ok (p', v')
      → (p' ≡ group_total tests ids p) × (is_accepted v' ≡ (is_accepted v && whole tests ids))
  unfolding group_loop
  group_loop-total tests [] p p' v v' h = (ground (arith, h), ground (arith, h))
  group_loop-total tests (id ∷ ids) p p' v v' h = elim (Option-cases (get_elem? tests id)) [
    | inl none' ↦ absurd (ground (arith, rw (none', group_loop) at h))
    | inr (t, found) ↦ elim (Option-cases t.points) [
      | inl bare ↦
          let (a, b) = group_loop-total tests ids p p' _ v' (rw (found, group_loop, bare) at h) in
          (rw (found, bare) a, rw found (ground (arith, b)))
      | inr (q, worth) ↦
          let (a, b) =
            group_loop-total tests ids (f.add p q) p' _ v' (rw (found, group_loop, worth) at h) in
          (rw (found, worth) a, rw found (ground (arith, b)))
    ]
  ]

  -- Two lists of reports that agree on some tests.
  abbrev pub Agree : List (TestReport Num) → List (TestReport Num) → List ℕ → Type 0
  Agree tests tests' ids =
      (j : ℕ)
      → has_test ids j ≡ true
      → points_of (get_elem? tests j) ≡ points_of (get_elem? tests' j)

  pub group_total-Agree :
      (tests tests' : List (TestReport Num)) (ids : List ℕ) (p : Num)
      → Agree tests tests' ids
      → group_total tests ids p ≡ group_total tests' ids p
  group_total-Agree tests tests' [] p h = refl
  group_total-Agree tests tests' (id ∷ ids) p h =
      rw (h id (ground arith))
        (group_total-Agree tests tests' ids _ (λ j e. h j (ground (arith, e))))

  pub whole-same :
      (tests tests' : List (TestReport Num)) (ids : List ℕ)
      → ((j : ℕ) → passed (get_elem? tests j) ≡ passed (get_elem? tests' j))
      → whole tests ids ≡ whole tests' ids
  whole-same tests tests' [] h = refl
  whole-same tests tests' (id ∷ ids) h = ground (arith, h id, whole-same tests tests' ids h)
