-- ===== src/Standings/Process.antt =====
-- internal/managers/contest_standings.go: `BuildStandings` without its cache, and what a visitor
-- is shown of the standings.
pub mod Totals
pub mod Shown
use solve.Prelude.{
  ℕ, suc, ◌+◌, Bool, true, false, not, ◌&&◌, ◌||◌, Option, none, some, List, [], ◌∷◌, map, Result,
  ok, err, ◌>>=◌, if◌then◌else◌, String,
}
use Prim.Native.Nat.{Ordering}
use Prim.Native.String.{compare}
use solve.Prelude.Sort.{sort_func}
use solve.Perms.Set.{has_permission}
use solve.Perms.Roles.{observe_contest_full_standings_role}
use solve.Contest.Types.{
  ParticipantKind, regular_participant, upsolving_participant, StandingsKind, ioi_standings,
}
use solve.Contest.Time.{ContestStage, contest_finished}
use solve.Contest.Context.{ContestContext, is_finished, is_upsolving}
use solve.Standings.Types.{
  Float, Decoders, Solution, ContestProblem, ContestStandingsColumn, ContestStandingsRow,
  ContestStandings, BuildStandingsOptions,
}
use solve.Standings.Order.{is_placed_participant, calculate_places}
use solve.Standings.Build.{
  Tables, count_cells, build_icpc_standings, build_ioi_standings, new_columns,
}

-- Go's `<` on strings
abbrev pub str_ltb : String → String → Bool
str_ltb a b = elim (compare a b) [ Ordering.lt ↦ true | _ ↦ false ]

abbrev pub is_regular : ParticipantKind → Bool
is_regular regular_participant = true
is_regular _ = false

-- the `continue` tests of the loop of `processStandings`
unfoldable pub is_shown : Bool → BuildStandingsOptions → ContestStage → ParticipantKind → Bool
is_shown full options stage kind =
    not (options.only_official && not (is_regular kind))
    && (full || (if is_upsolving kind then is_finished stage else is_placed_participant kind))

module _ {Num : Type 0} (f : Float Num) where
  -- the loop of `processStandings`
  unfoldable pub process_rows :
      (ContestStandingsRow Num → Bool)
      → List (ContestStandingsRow Num)
      → List ContestStandingsColumn
      → Result (List (ContestStandingsRow Num) × List ContestStandingsColumn)
  process_rows shown [] columns = ok ([], columns)
  process_rows shown (row ∷ rows) columns = elim (shown row) [
    | false ↦ process_rows shown rows columns
    | true ↦
        (count_cells f row.cells columns >>= λ columns₁.
        process_rows shown rows columns₁ >>= λ (rest, columns₂). ok (row ∷ rest, columns₂))
  ]

  unfoldable pub process_standings :
      ContestContext → BuildStandingsOptions → ContestStandings Num → Result (ContestStandings Num)
  unfolding process_rows is_shown
  process_standings ctx options standings = do
    let full = has_permission ctx.permissions observe_contest_full_standings_role
    (rows, columns) ←
        process_rows (λ row. is_shown full options standings.stage row.participant.kind)
          standings.rows (new_columns (map (λ c. c.problem) standings.columns))
    ok (record {
      columns = columns;
      rows = calculate_places f rows;
      stage = standings.stage;
      frozen = standings.frozen;
    })

  module _ (d : Decoders Num) (get_solution : ℕ → Result Solution) where
    -- the `switch ctx.ContestConfig.StandingsKind`
    unfoldable pub build_kind :
        StandingsKind
        → ContestContext
        → BuildStandingsOptions
        → List ContestProblem
        → Tables
        → Result (ContestStandings Num)
    build_kind ioi_standings ctx options problems tables =
        build_ioi_standings f d get_solution ctx options problems tables
    build_kind _ ctx options problems tables =
        build_icpc_standings f d get_solution ctx options problems tables

    -- problems in the order of their codes, by Go's `<` on strings
    unfoldable pub do_build_standings :
        ContestContext → BuildStandingsOptions → Tables → Result (ContestStandings Num)
    unfolding build_kind
    do_build_standings ctx options tables =
        let problems =
          sort_func (λ (l r : ContestProblem). str_ltb l.code r.code) tables.problems in
        build_kind ctx.contest_config.standings_kind ctx options problems tables

    -- with `standings.use_cache` off
    unfoldable pub build_standings :
        ContestContext → BuildStandingsOptions → Tables → Result (ContestStandings Num)
    build_standings ctx options tables =
        do_build_standings ctx options tables >>= process_standings ctx options
