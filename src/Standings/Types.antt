-- ===== src/Standings/Types.antt =====
-- The data of standings (internal/managers/contest_standings.go) and of the solutions, problems
-- and fake participants that they are built from (internal/models).
use solve.Prelude.{ℕ, String, Bool, true, false, Option, none, some, List, [], ◌∷◌}
use solve.Prelude.Int.{ℤ}
use solve.Contest.Types.{Json, ContestParticipant}
use solve.Contest.Time.{ContestStage}

-- `unset` is the zero value, `other_verdict` another number that names no verdict.
pub data Verdict : Type 0 where
  unset accepted rejected compilation_error time_limit_exceeded memory_limit_exceeded : Verdict
  runtime_error wrong_answer presentation_error partially_accepted failed : Verdict
  other_verdict : ℤ → Verdict

-- `v == models.Accepted`, `v == models.CompilationError`, `v == 0`
abbrev pub is_accepted : Verdict → Bool
is_accepted accepted = true
is_accepted _ = false

abbrev pub is_compilation_error : Verdict → Bool
is_compilation_error compilation_error = true
is_compilation_error _ = false

abbrev pub is_unset : Verdict → Bool
is_unset unset = true
is_unset _ = false

-- What the standings use of Go's float64.
pub record Float (Num : Type 0) : Type 0 where
  pub zero : Num
  pub add : Num → Num → Num
  pub lt : Num → Num → Bool
  pub eq : Num → Num → Bool
  pub of_int : ℤ → Num

-- The fields of a report that the standings read.
pub record SolutionReport (Num : Type 0) : Type 0 where
  pub verdict : Verdict
  pub points : Option Num

-- What encoding/json makes of a column that is set: `none` is an error, `some none` a null.
pub record Decoders (Num : Type 0) : Type 0 where
  pub begin_time : Json → Option ℤ
  pub report : Json → Option (Option (SolutionReport Num))
  pub fake_report : Json → Option (Option (SolutionReport Num))
  -- the field `points` of a problem's config
  pub problem_points : Json → Option (Option ℤ)

pub record Solution : Type 0 where
  pub id : ℕ
  pub report : Json
  pub create_time : ℤ

pub record ContestSolution : Type 0 where
  pub id : ℕ
  pub participant_id : ℕ
  pub problem_id : ℕ

pub record ContestFakeSolution : Type 0 where
  pub id : ℕ
  pub participant_id : ℕ
  pub problem_id : ℕ
  pub contest_time : ℤ
  pub report : Json

pub record ContestFakeParticipant : Type 0 where
  pub id : ℕ
  pub title : String

pub record ContestProblem : Type 0 where
  pub id : ℕ
  pub code : String
  pub config : Json

pub record ContestStandingsColumn : Type 0 where
  pub problem : ContestProblem
  pub total_solutions : ℕ
  pub accepted_solutions : ℕ

pub record ContestStandingsCell (Num : Type 0) : Type 0 where
  pub column : ℕ
  pub verdict : Verdict
  pub points : Num
  pub attempt : ℕ
  pub time : ℤ

pub record ContestStandingsRow (Num : Type 0) : Type 0 where
  pub participant : ContestParticipant
  pub fake_participant : Option ContestFakeParticipant
  pub cells : List (ContestStandingsCell Num)
  pub score : Num
  pub penalty : Option ℤ
  pub place : ℕ

pub record ContestStandings (Num : Type 0) : Type 0 where
  pub columns : List ContestStandingsColumn
  pub rows : List (ContestStandingsRow Num)
  pub stage : ContestStage
  pub frozen : Bool

pub record BuildStandingsOptions : Type 0 where
  pub only_official : Bool
  pub ignore_freeze : Bool

-- a null column is no value
decode_column : {A : Type 0} → (Json → Option (Option A)) → Json → Option (Option A)
decode_column decode [] = some none
decode_column decode (b ∷ bs) = decode (b ∷ bs)

module _ {Num : Type 0} (d : Decoders Num) where
  -- `Solution.GetReport`
  unfoldable pub get_report : Solution → Option (Option (SolutionReport Num))
  unfolding decode_column
  get_report solution = decode_column d.report solution.report

  -- `ContestFakeSolution.GetReport`
  unfoldable pub get_fake_report : ContestFakeSolution → Option (Option (SolutionReport Num))
  unfolding decode_column
  get_fake_report solution = decode_column d.fake_report solution.report

  -- `ContestProblem.GetConfig`, its field `points`
  unfoldable pub get_problem_points : ContestProblem → Option (Option ℤ)
  unfolding decode_column
  get_problem_points problem = decode_column d.problem_points problem.config
