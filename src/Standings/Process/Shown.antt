-- ===== src/Standings/Process/Shown.antt =====
-- internal/managers/contest_standings.go: what BuildStandings shows.
use solve.Prelude.{
  ℕ, suc, Bool, Bool-cases, Option, none, some, true, false, List, [], ◌∷◌, map, Result, ok, ◌≡◌,
  refl, sym, ◌∙◌, ◌+◌, arith, All, All-map, select, select-All, select-Ordered, sum_by, >>=-elim,
  inl, inr, ap,
}
use solve.Prelude.Sort.{IsSorted}
use solve.Perms.Set.{has_permission}
use solve.Perms.Roles.{observe_contest_full_standings_role}
use solve.Contest.Types.{StandingsKind, ioi_standings}
use solve.Contest.Context.{ContestContext}
use solve.Standings.Types.{
  Float, Decoders, Solution, ContestProblem, ContestStandingsColumn, ContestStandingsCell,
  ContestStandingsRow, ContestStandings, BuildStandingsOptions,
}
use solve.Standings.Cells.Freeze.{HidesFrozen}
use solve.Standings.Order.{
  is_placed_participant, stable_participant_less, participant_less, next_place, places_loop,
  calculate_places,
}
use solve.Standings.Order.Weak.{
  IsOrdered, HasPenalty, participant_less-IsWeakOrder, participant_less_of_stable,
}
use solve.Standings.Order.Places.{rank, calculate_places-rank}
use solve.Standings.Build.{Tables, new_columns}
use solve.Standings.Build.Frozen.{Hides, build_icpc_standings-Hides, build_ioi_standings-Hides}
use solve.Standings.Build.Rows.{icpc_flag, ioi_flag}
use solve.Standings.Build.Layout.{build_icpc_standings-IsLaidOut, build_ioi_standings-IsLaidOut}
use solve.Standings.Process.{
  is_shown, process_rows, process_standings, build_kind, do_build_standings, build_standings,
}
use solve.Standings.Process.Totals.{
  total_at, accepted_at, attempts_in, accepts_in, process_rows_lem, new_columns_total,
}

module _ {Num : Type 0} (f : Float Num) where
  sum-places_loop :
      (g : List (ContestStandingsCell Num) → ℕ) (it : Option (ContestStandingsRow Num)) (place : ℕ)
      (rows : List (ContestStandingsRow Num))
      → sum_by (λ row. g row.cells) (places_loop f it place rows) ≡ sum_by (λ row. g row.cells) rows
  unfolding places_loop
  sum-places_loop g it place [] = refl
  sum-places_loop g it place (row ∷ rows) =
      elim (Bool-cases (is_placed_participant row.participant.kind)) [
        | inl p ↦ rw p (
            ap (λ n. g row.cells + n)
              (sum-places_loop g (some (record row { place = next_place f it place row }))
                (suc place) rows))
        | inr p ↦ rw p (ap (λ n. g row.cells + n) (sum-places_loop g it place rows))
      ]

  All-places_loop :
      (Q : List (ContestStandingsCell Num) → Type 0) (it : Option (ContestStandingsRow Num))
      (place : ℕ) (rows : List (ContestStandingsRow Num))
      → All (λ row. Q row.cells) rows
      → All (λ row. Q row.cells) (places_loop f it place rows)
  unfolding places_loop
  All-places_loop Q it place [] h = tt
  All-places_loop Q it place (row ∷ rows) h =
      elim (Bool-cases (is_placed_participant row.participant.kind)) [
        | inl p ↦ rw p (
          h.0,
          All-places_loop Q (some (record row { place = next_place f it place row })) (suc place)
              rows h.1,
        )
        | inr p ↦ rw p (h.0, All-places_loop Q it place rows h.1)
      ]

module _ {Num : Type 0} (f : Float Num) (ctx : ContestContext)
    (options : BuildStandingsOptions) where
  -- The rows that a visitor is shown.
  abbrev pub visible : ContestStandings Num → List (ContestStandingsRow Num)
  visible s =
      select
        (λ row.
          is_shown (has_permission ctx.permissions observe_contest_full_standings_role) options
            s.stage row.participant.kind)
        s.rows

  process_standings_lem :
      (s t : ContestStandings Num)
      → process_standings f ctx options s ≡ ok t
      → (t.rows ≡ calculate_places f (visible s))
        × (t.frozen ≡ s.frozen)
        × (t.stage ≡ s.stage)
        × ((i : ℕ)
            → (total_at i t.columns ≡ sum_by (λ row. sum_by (attempts_in i) row.cells) (visible s))
              × (accepted_at i t.columns
                  ≡ sum_by (λ row. sum_by (accepts_in i) row.cells) (visible s)))
  unfolding process_standings
  process_standings_lem s t h =
      >>=-elim
        (process_rows f
          (λ row.
            is_shown (has_permission ctx.permissions observe_contest_full_standings_role) options
              s.stage row.participant.kind)
          s.rows (new_columns (map (λ c. c.problem) s.columns)))
        _ h
        λ r e last.
          let columns = new_columns (map (λ (c : ContestStandingsColumn). c.problem) s.columns) in
          let eq : r.0 ≡ visible s = (process_rows_lem f _ 0 s.rows columns r e).0 in
          (
            ground (arith, last, eq),
            ground (arith, last),
            ground (arith, last),
            λ i.
                let (_, t₁, a₁) = process_rows_lem f _ i s.rows columns r e in
                let (t₀, a₀) =
                  new_columns_total f i
                    (map (λ (c : ContestStandingsColumn). c.problem) s.columns) in
                let c : t.columns ≡ r.1 = ground (arith, last) in rw c (omega arith, omega arith),
          )

module _ {Num : Type 0} (f : Float Num) (d : Decoders Num) (get_solution : ℕ → Result Solution)
    (ctx : ContestContext) (options : BuildStandingsOptions) (tables : Tables) where
  -- Rows in the order of the standings, for some account of who has a penalty.
  abbrev LaidOut : List (ContestStandingsRow Num) → Type 0
  LaidOut rows =
      (flag : ℕ → Bool) × All (HasPenalty f flag) rows × IsSorted (stable_participant_less f) rows

  build_kind-LaidOut :
      (kind : StandingsKind) (problems : List ContestProblem) (s : ContestStandings Num)
      → IsOrdered f
      → build_kind f d get_solution kind ctx options problems tables ≡ ok s
      → LaidOut s.rows
  unfolding build_kind
  build_kind-LaidOut ioi_standings problems s o h =
      let (a, b) =
        build_ioi_standings-IsLaidOut f d get_solution ctx options problems tables s o h in
      (ioi_flag f, a, b)
  build_kind-LaidOut _ problems s o h =
      let (a, b) =
        build_icpc_standings-IsLaidOut f d get_solution ctx options problems tables s o h in
      (icpc_flag f, a, b)

  build_kind-Hides :
      (kind : StandingsKind) (problems : List ContestProblem) (s : ContestStandings Num)
      → build_kind f d get_solution kind ctx options problems tables ≡ ok s
      → s.frozen ≡ true
      → Hides f d get_solution ctx options problems tables s s
  unfolding build_kind
  build_kind-Hides ioi_standings problems s h z =
      build_ioi_standings-Hides f d get_solution ctx options problems tables s h z
  build_kind-Hides _ problems s h z =
      build_icpc_standings-Hides f d get_solution ctx options problems tables s h z

  visible-LaidOut : (s : ContestStandings Num) → LaidOut s.rows → LaidOut (visible f ctx options s)
  visible-LaidOut s (flag, a, b) = (
    flag,
    select-All _ (HasPenalty f flag) s.rows a,
    select-Ordered _ (λ x y. stable_participant_less f y x ≡ false) s.rows b,
  )

  stable-IsSorted :
      IsOrdered f
      → (rows : List (ContestStandingsRow Num)) → IsSorted (stable_participant_less f) rows
      → IsSorted (participant_less f) rows
  stable-IsSorted o [] h = tt
  stable-IsSorted o (x ∷ xs) h = (
    All-map _ _ xs (λ y e. participant_less_of_stable f o (λ _. true) y x e) h.0,
    stable-IsSorted o xs h.1,
  )

  -- A visitor is shown some of the rows that were built, with other places. Where scores are
  -- ordered these rows are sorted by the kind of participant, the score and the penalty, and the
  -- place of every placed row is one more than the number of placed rows shown that are better.
  pub build_standings-rank :
      (t : ContestStandings Num)
      → IsOrdered f
      → build_standings f d get_solution ctx options tables ≡ ok t
      → (s : ContestStandings Num) × (do_build_standings f d get_solution ctx options tables ≡ ok s)
        × IsSorted (stable_participant_less f) (visible f ctx options s)
        × (t.rows ≡ map (rank f (visible f ctx options s)) (visible f ctx options s))
  unfolding build_standings do_build_standings
  build_standings-rank t o h =
      >>=-elim (do_build_standings f d get_solution ctx options tables) _ h λ s e last.
        let (flag, p, sorted) =
          visible-LaidOut s (build_kind-LaidOut ctx.contest_config.standings_kind _ s o e) in
        let (rows, _, _, _) = process_standings_lem f ctx options s t last in
        (
          s,
          e,
          sorted,
          rows
              ∙ calculate_places-rank f (HasPenalty f flag) (participant_less-IsWeakOrder f o flag)
                  (λ row n k. k) (visible f ctx options s) p
                  (stable-IsSorted o (visible f ctx options s) sorted),
        )

  -- The counts of each column that a visitor is shown are those of the rows that the visitor is
  -- shown: the attempts and the accepted cells in it.
  pub build_standings_totals :
      (t : ContestStandings Num) (i : ℕ)
      → build_standings f d get_solution ctx options tables ≡ ok t
      → (total_at i t.columns ≡ sum_by (λ row. sum_by (attempts_in i) row.cells) t.rows)
        × (accepted_at i t.columns ≡ sum_by (λ row. sum_by (accepts_in i) row.cells) t.rows)
  unfolding build_standings calculate_places
  build_standings_totals t i h =
      >>=-elim (do_build_standings f d get_solution ctx options tables) _ h λ s e last.
        let (rows, _, _, totals) = process_standings_lem f ctx options s t last in
        let (a, b) = totals i in
        (
          rw a (
              rw rows (
                sym (sum-places_loop f (sum_by (attempts_in i)) none 1 (visible f ctx options s)))),
          rw b (
              rw rows
                (sym (sum-places_loop f (sum_by (accepts_in i)) none 1 (visible f ctx options s)))),
        )

  -- Frozen standings of either kind show no verdict in a cell whose time lies at or after the
  -- begin of the freeze.
  pub build_standings_hides :
      (t : ContestStandings Num)
      → build_standings f d get_solution ctx options tables ≡ ok t
      → t.frozen ≡ true
      → All
          (λ (row : ContestStandingsRow Num). All (HidesFrozen ctx.contest_config) row.cells)
          t.rows
  unfolding build_standings do_build_standings calculate_places
  build_standings_hides t h z =
      >>=-elim (do_build_standings f d get_solution ctx options tables) _ h λ s e last.
        let (rows, frozen, _, _) = process_standings_lem f ctx options s t last in
        let hides = build_kind-Hides ctx.contest_config.standings_kind _ s e (sym frozen ∙ z) in
        rw rows (
          All-places_loop f (All (HidesFrozen ctx.contest_config)) none 1 (visible f ctx options s)
            (select-All _ _ s.rows hides))
