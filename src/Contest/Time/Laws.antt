-- ===== src/Contest/Time/Laws.antt =====
-- internal/managers/contest.go: the contest time against the calendar.
use solve.Prelude.{◌≡◌, arith, Option, ok, true, false, if◌then◌else◌}
use solve.Prelude.Int.{
  ℤ, pos, eqb_ℤ, ltb_ℤ, leb_ℤ, ◌+ℤ◌, ◌-ℤ◌, IsInt64, add64_exact, sub64_exact, -ℤ_parts,
}
use solve.Contest.Types.{Json, ContestConfig, ContestParticipant}
use solve.Contest.Time.{
  ContestStage, contest_not_planned, contest_not_started, contest_started, contest_finished, stage,
  before, get_participant_begin_time, get_participant_contest_time,
}

-- The stage by comparing the clock with the exact begin and end.
abbrev pub calendar_stage : ℤ → ℤ → ℤ → ContestStage
calendar_stage begin duration now =
    if eqb_ℤ begin (pos 0)
    then contest_not_planned
    else if leb_ℤ (begin +ℤ duration) now
    then contest_finished
    else if leb_ℤ begin now
    then contest_started
    else contest_not_started

module _ (unmarshal : Json → Option ℤ) (config : ContestConfig)
    (participant : Option ContestParticipant) (now : ℤ) where
  abbrev begin : ℤ
  begin = get_participant_begin_time unmarshal config participant

  -- Where the end of the contest and the time since its begin fit an int64, the stage of the
  -- contest time of any participant is the one that the calendar gives; in particular `Stage`
  -- does not panic.
  pub stage-get_participant_contest_time :
      IsInt64 (begin +ℤ config.duration)
      → IsInt64 (now -ℤ begin)
      → stage (get_participant_contest_time unmarshal config participant now)
        ≡ ok (calendar_stage begin config.duration now)
  unfolding stage get_participant_contest_time
  stage-get_participant_contest_time he hb =
      rw (add64_exact begin config.duration he, sub64_exact now begin hb)
        (ground (arith, -ℤ_parts now begin))

  -- Where the end of the contest and the time since its begin fit an int64, `Before` answers true
  -- for a contest that is not planned or has not started, false for one that is finished, and
  -- compares the time since the begin with `t` while the contest runs, with no panic.
  pub before-get_participant_contest_time :
      (t : ℤ)
      → IsInt64 (begin +ℤ config.duration)
      → IsInt64 (now -ℤ begin)
      → before (get_participant_contest_time unmarshal config participant now) t
        ≡ ok (elim (calendar_stage begin config.duration now) [
          | contest_not_planned ↦ true
          | contest_not_started ↦ true
          | contest_started ↦ ltb_ℤ (now -ℤ begin) t
          | contest_finished ↦ false
        ])
  unfolding before get_participant_contest_time
  before-get_participant_contest_time t he hb =
      rw (add64_exact begin config.duration he, sub64_exact now begin hb)
        (ground (arith, -ℤ_parts now begin))
