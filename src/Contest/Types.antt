-- ===== src/Contest/Types.antt =====
-- internal/models/contest.go and contest_participant.go: the data of contests and participants.
use solve.Prelude.{ℕ, String, Bool, List}
use solve.Prelude.Int.{ℤ}

-- The bytes of a JSON column; the empty list is a column that is not set.
abbrev pub Json : Type 0
Json = List ℕ

-- `other_standings` is a number that names no kind.
pub data StandingsKind : Type 0 where
  disabled_standings icpc_standings ioi_standings : StandingsKind
  other_standings : ℤ → StandingsKind

pub record ContestConfig : Type 0 where
  pub begin_time : ℤ
  pub duration : ℤ
  pub enable_registration : Bool
  pub enable_virtual : Bool
  pub enable_upsolving : Bool
  pub enable_observing : Bool
  pub freeze_begin_duration : ℤ
  pub freeze_end_time : ℤ
  pub standings_kind : StandingsKind

pub record Contest : Type 0 where
  pub id : ℕ
  -- 0 is no owner
  pub owner_id : ℕ
  pub config : Json
  pub title : String

-- `other n` is a number that names no kind.
pub data ParticipantKind : Type 0 where
  regular_participant upsolving_participant manager_participant : ParticipantKind
  observer_participant virtual_participant : ParticipantKind
  other_participant : ℕ → ParticipantKind

-- A participant that stands for no row has the ID 0.
pub record ContestParticipant : Type 0 where
  pub id : ℕ
  pub contest_id : ℕ
  pub account_id : ℕ
  pub kind : ParticipantKind
  pub config : Json
