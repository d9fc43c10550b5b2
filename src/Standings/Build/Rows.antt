-- ===== src/Standings/Build/Rows.antt =====
-- internal/managers/contest_standings.go: every row that is built.
use solve.Prelude.{
  ℕ, ◌==◌, Bool, false, Option, none, some, List, [], ◌∷◌, ◌++◌, Result, ok, ◌≡◌, refl, arith, All,
  All-append, >>=-elim, if◌then◌else◌,
}
use solve.Prelude.Int.{ℤ, pos}
use solve.Prelude.Sort.{sort_func}
use solve.Contest.Types.{ContestParticipant, ParticipantKind, regular_participant}
use solve.Contest.Time.{ContestTime}
use solve.Contest.Context.{ContestContext}
use solve.Standings.Types.{
  Float, SolutionReport, Decoders, Solution, ContestSolution, ContestFakeSolution,
  ContestFakeParticipant, ContestProblem, ContestStandingsColumn, ContestStandingsCell,
  ContestStandingsRow,
}
use solve.Standings.Cells.{Round}
use solve.Standings.Order.Weak.{HasPenalty}
use solve.Standings.Order.{is_placed_participant, get_participant_order, stable_participant_less}
use solve.Standings.Build.{
  icpc_row, ioi_row, count_cells, Tables, row_step, rows_loop, participant_row, fake_row,
  icpc_finish, ioi_finish, icpc_total, participant_rows, fake_rows, all_rows, new_columns,
}

module _ {Num A S : Type 0} (Q : ContestStandingsRow Num → Type 0) (mine : A → List S)
    (make : A
      → List S
      → List ContestStandingsColumn
      → Result (ContestStandingsRow Num × List ContestStandingsColumn))
    (made : (a : A) (ss : List S) (columns : List ContestStandingsColumn)
        (r : ContestStandingsRow Num × List ContestStandingsColumn)
      → make a ss columns ≡ ok r
      → Q r.0) where
  row_step-All :
      (a : A) (ss : List S) (columns : List ContestStandingsColumn)
      (rest : List ContestStandingsColumn
        → Result (List (ContestStandingsRow Num) × List ContestStandingsColumn))
      (r : List (ContestStandingsRow Num) × List ContestStandingsColumn)
      → ((columns : List ContestStandingsColumn)
            (r : List (ContestStandingsRow Num) × List ContestStandingsColumn)
          → rest columns ≡ ok r
          → All Q r.0)
      → row_step (make a) ss rest columns ≡ ok r
      → All Q r.0
  unfolding row_step
  row_step-All a [] columns rest r keep h = keep columns r h
  row_step-All a (s ∷ ss) columns rest r keep h = >>=-elim (make a (s ∷ ss) columns) _ h λ row e k.
      >>=-elim (rest row.1) _ k λ rows e' last.
        let eq : r.0 ≡ row.0 ∷ rows.0 = cc in
        rw eq (made a (s ∷ ss) columns row e, keep row.1 rows e')

  -- What holds of each row that is made holds of all rows of the loop.
  pub rows_loop-All :
      (as' : List A) (columns : List ContestStandingsColumn)
      (r : List (ContestStandingsRow Num) × List ContestStandingsColumn)
      → rows_loop mine make as' columns ≡ ok r
      → All Q r.0
  unfolding rows_loop
  rows_loop-All [] columns r h = let e : r.0 ≡ [] = cc in rw e tt
  rows_loop-All (a ∷ as') columns r h =
      row_step-All a (mine a) columns (rows_loop mine make as') r (rows_loop-All as') h

module _ {Num : Type 0} (f : Float Num) (d : Decoders Num) (get_solution : ℕ → Result Solution)
    (ctx : ContestContext) (judge : SolutionReport Num → ContestStandingsCell Num → Round Num)
    (finish : ContestParticipant
      → Option ContestFakeParticipant
      → List (ContestStandingsCell Num)
      → List ContestStandingsColumn
      → Result (ContestStandingsRow Num × List ContestStandingsColumn))
    (problems : List ContestProblem) (tables : Tables) (time : ContestTime)
    (Q : ContestStandingsRow Num → Type 0)
    (made_row : (p : ContestParticipant) (ss : List ContestSolution)
        (columns : List ContestStandingsColumn)
        (r : ContestStandingsRow Num × List ContestStandingsColumn)
      → participant_row f d get_solution ctx judge finish problems tables time p ss columns ≡ ok r
      → Q r.0)
    (made_fake : (p : ContestFakeParticipant) (ss : List ContestFakeSolution)
        (columns : List ContestStandingsColumn)
        (r : ContestStandingsRow Num × List ContestStandingsColumn)
      → fake_row f d get_solution ctx judge finish problems tables time p ss columns ≡ ok r
      → Q r.0) where
  -- The rows are those of the two loops, sorted, and what holds of each row holds of all.
  pub all_rows-All :
      (r : List (ContestStandingsRow Num) × List ContestStandingsColumn)
      → all_rows f d get_solution ctx judge finish problems tables time ≡ ok r
      → (rows : List (ContestStandingsRow Num)) × (r.0 ≡ sort_func (stable_participant_less f) rows)
        × All Q rows
  unfolding all_rows participant_rows fake_rows
  all_rows-All r h =
      >>=-elim
        (participant_rows f d get_solution ctx judge finish problems tables time tables.participants
          (new_columns problems))
        _ h
        λ real e rest.
          >>=-elim
            (fake_rows f d get_solution ctx judge finish problems tables time
              tables.fake_participants real.1)
            _ rest
            λ fake e' last. (
              real.0 ++ fake.0,
              cc,
              All-append Q real.0 fake.0
                  (rows_loop-All Q _ _ made_row tables.participants (new_columns problems) real e)
                  (rows_loop-All Q _ _ made_fake tables.fake_participants real.1 fake e'),
            )

-- The ends of a round keep the cells, and give penalties by the kind of participant alone.
module _ {Num : Type 0} (f : Float Num) where
  -- Whether a row of ICPC standings has a penalty, by the order of its participant's kind.
  abbrev pub icpc_flag : ℕ → Bool
  icpc_flag n = n == 1

  abbrev pub ioi_flag : ℕ → Bool
  ioi_flag n = false

  module _ (participant : ContestParticipant) (fake : Option ContestFakeParticipant)
      (cells : List (ContestStandingsCell Num)) (columns : List ContestStandingsColumn)
      (r : ContestStandingsRow Num × List ContestStandingsColumn) where
    pub icpc_finish_lem :
        (d : Decoders Num)
        → icpc_finish f d participant fake cells columns ≡ ok r
        → (r.0.cells ≡ cells) × HasPenalty f icpc_flag r.0
    unfolding icpc_finish icpc_row get_participant_order is_placed_participant
    icpc_finish_lem d h = >>=-elim (icpc_row f d columns participant fake cells) _ h λ row e last.
        >>=-elim (icpc_total f d columns cells f.zero (pos 0)) _ e λ total _ made.
          let k : r.0 ≡ row = ground (arith, last) in
          rw k (
            ground (arith, made),
            by_kind row participant.kind total.1 (ground (arith, made)) (ground (arith, made)),
          )
      where
        by_kind :
            (row : ContestStandingsRow Num) (kind : ParticipantKind) (penalty : ℤ)
            → row.participant.kind ≡ kind
            → row.penalty ≡ (if is_placed_participant kind then some penalty else none)
            → HasPenalty f icpc_flag row
        by_kind row regular_participant penalty e e' = rw (e, e') refl
        by_kind row _ penalty e e' = rw (e, e') refl

    pub ioi_finish_lem :
        ioi_finish f participant fake cells columns ≡ ok r
        → (r.0.cells ≡ cells) × HasPenalty f ioi_flag r.0
    unfolding ioi_finish ioi_row
    ioi_finish_lem h =
        >>=-elim (count_cells f cells columns) _ h
          λ c e last. (ground (arith, last), ground (arith, last))

  pub icpc_finish-cells :
      (d : Decoders Num) (p : ContestParticipant) (q : Option ContestFakeParticipant)
      (cells : List (ContestStandingsCell Num)) (columns : List ContestStandingsColumn)
      (r : ContestStandingsRow Num × List ContestStandingsColumn)
      → icpc_finish f d p q cells columns ≡ ok r
      → r.0.cells ≡ cells
  icpc_finish-cells d p q cells columns r h = (icpc_finish_lem p q cells columns r d h).0

  pub ioi_finish-cells :
      (p : ContestParticipant) (q : Option ContestFakeParticipant)
      (cells : List (ContestStandingsCell Num)) (columns : List ContestStandingsColumn)
      (r : ContestStandingsRow Num × List ContestStandingsColumn)
      → ioi_finish f p q cells columns ≡ ok r
      → r.0.cells ≡ cells
  ioi_finish-cells p q cells columns r h = (ioi_finish_lem p q cells columns r h).0
