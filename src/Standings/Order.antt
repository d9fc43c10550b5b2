-- ===== src/Standings/Order.antt =====
-- internal/managers/contest_standings.go: the order of the rows, and their places.
pub mod Weak
pub mod Places
use solve.Prelude.{
  ℕ, suc, ◌+◌, ltb, ◌==◌, Bool, true, false, not, ◌&&◌, ◌||◌, Option, none, some, List, [], ◌∷◌,
  if◌then◌else◌,
}
use solve.Prelude.Int.{ℤ, ltb_ℤ, eqb_ℤ}
use solve.Contest.Types.{
  ParticipantKind, regular_participant, manager_participant, virtual_participant,
}
use solve.Standings.Types.{Float, ContestStandingsRow}

unfoldable pub is_placed_participant : ParticipantKind → Bool
is_placed_participant regular_participant = true
is_placed_participant virtual_participant = true
is_placed_participant _ = false

unfoldable pub get_participant_order : ParticipantKind → ℕ
get_participant_order manager_participant = 0
get_participant_order regular_participant = 1
get_participant_order virtual_participant = 1
get_participant_order _ = 2

-- `lhs.Penalty != nil && rhs.Penalty != nil && *lhs.Penalty != *rhs.Penalty`, and what follows
unfoldable pub penalty_or_id_less : Option ℤ → Option ℤ → ℕ → ℕ → Bool
penalty_or_id_less (some l) (some r) i j = if not (eqb_ℤ l r) then ltb_ℤ l r else ltb i j
penalty_or_id_less _ _ i j = ltb i j

unfoldable pub penalty_less : Option ℤ → Option ℤ → Bool
penalty_less (some l) (some r) = ltb_ℤ l r
penalty_less _ _ = false

module _ {Num : Type 0} (f : Float Num) where
  unfoldable pub stable_participant_less : ContestStandingsRow Num → ContestStandingsRow Num → Bool
  unfolding penalty_or_id_less
  stable_participant_less lhs rhs =
      let lhs_order = get_participant_order lhs.participant.kind in
      let rhs_order = get_participant_order rhs.participant.kind in
      if not (lhs_order == rhs_order)
      then ltb lhs_order rhs_order
      else if not (f.eq lhs.score rhs.score)
      then f.lt rhs.score lhs.score
      else penalty_or_id_less lhs.penalty rhs.penalty lhs.participant.id rhs.participant.id

  unfoldable pub participant_less : ContestStandingsRow Num → ContestStandingsRow Num → Bool
  unfolding penalty_less
  participant_less lhs rhs =
      let lhs_order = get_participant_order lhs.participant.kind in
      let rhs_order = get_participant_order rhs.participant.kind in
      if not (lhs_order == rhs_order)
      then ltb lhs_order rhs_order
      else if not (f.eq lhs.score rhs.score)
      then f.lt rhs.score lhs.score
      else penalty_less lhs.penalty rhs.penalty

  -- the place of a row: that of the row `it` before it, unless that is strictly better
  unfoldable pub next_place : Option (ContestStandingsRow Num) → ℕ → ContestStandingsRow Num → ℕ
  next_place none place row = place
  next_place (some it) place row = if not (participant_less it row) then it.place else place

  -- the loop of `calculatePlaces`: `it` is the last placed row, if there is one
  unfoldable pub places_loop :
      Option (ContestStandingsRow Num)
      → ℕ
      → List (ContestStandingsRow Num)
      → List (ContestStandingsRow Num)
  unfolding next_place
  places_loop it place [] = []
  places_loop it place (row ∷ rows) =
      let placed = record row { place = next_place it place row } in
      let with' = placed ∷ places_loop (some placed) (suc place) rows in
      let without = row ∷ places_loop it place rows in
      if is_placed_participant row.participant.kind then with' else without

  unfoldable pub calculate_places : List (ContestStandingsRow Num) → List (ContestStandingsRow Num)
  unfolding places_loop
  calculate_places rows = places_loop none 1 rows
