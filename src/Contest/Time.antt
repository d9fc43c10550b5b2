-- ===== src/Contest/Time.antt =====
-- internal/managers/contest.go: the time of a contest as one participant sees it.
--
-- `unmarshal` stands for encoding/json: the field `begin_time` of a participant's config, with
-- 0 for a field that is left out, or `none` where the decoder reports an error.
pub mod Laws
use solve.Prelude.{
  Bool, true, false, Option, none, some, [], ◌∷◌, Result, ok, err, Error, if◌then◌else◌,
}
use solve.Prelude.Int.{ℤ, pos, negsuc, ltb_ℤ, leb_ℤ, eqb_ℤ, add64, sub64}
use solve.Contest.Types.{
  Json, ContestConfig, ParticipantKind, ContestParticipant, regular_participant,
  virtual_participant,
}

pub data ContestStage : Type 0 where
  contest_not_planned contest_not_started contest_started contest_finished : ContestStage

-- `stage >= ContestNotStarted`
unfoldable pub stage_planned : ContestStage → Bool
stage_planned contest_not_planned = false
stage_planned _ = true

abbrev pub ContestTime : Type 0
ContestTime = ℤ

abbrev pub contest_time_not_planned : ContestTime
contest_time_not_planned = negsuc 0

abbrev pub contest_time_not_started : ContestTime
contest_time_not_started = negsuc 1

abbrev pub contest_time_finished : ContestTime
contest_time_finished = negsuc 2

unfoldable pub before : ContestTime → ℤ → Result Bool
before c time =
    if eqb_ℤ c contest_time_not_planned
    then ok true
    else if eqb_ℤ c contest_time_not_started
    then ok true
    else if eqb_ℤ c contest_time_finished
    then ok false
    else if ltb_ℤ c (pos 0)
    then err Error.panicked
    else ok (ltb_ℤ c time)

unfoldable pub stage : ContestTime → Result ContestStage
stage c =
    if eqb_ℤ c contest_time_not_planned
    then ok contest_not_planned
    else if eqb_ℤ c contest_time_not_started
    then ok contest_not_started
    else if eqb_ℤ c contest_time_finished
    then ok contest_finished
    else if ltb_ℤ c (pos 0)
    then err Error.panicked
    else ok contest_started

module _ (unmarshal : Json → Option ℤ) where
  -- `ScanConfig`: an empty config leaves the zero value
  unfoldable pub scan_config : Json → Option ℤ
  scan_config [] = some (pos 0)
  scan_config (b ∷ bs) = unmarshal (b ∷ bs)

  -- the two cases of the `switch`, on the scanned config
  regular_begin_time : ℤ → Option ℤ → ℤ
  regular_begin_time begin none = begin
  regular_begin_time begin (some t) = if eqb_ℤ t (pos 0) then begin else t

  virtual_begin_time : ℤ → Option ℤ → ℤ
  virtual_begin_time begin none = begin
  virtual_begin_time begin (some t) = t

  begin_time_of_kind : ℤ → ParticipantKind → Json → ℤ
  unfolding regular_begin_time virtual_begin_time scan_config
  begin_time_of_kind begin regular_participant config =
      regular_begin_time begin (scan_config config)
  begin_time_of_kind begin virtual_participant config =
      virtual_begin_time begin (scan_config config)
  begin_time_of_kind begin _ config = begin

  unfoldable pub get_participant_begin_time : ContestConfig → Option ContestParticipant → ℤ
  unfolding begin_time_of_kind
  get_participant_begin_time config none = config.begin_time
  get_participant_begin_time config (some participant) =
      begin_time_of_kind config.begin_time participant.kind participant.config

  unfoldable pub get_participant_contest_time :
      ContestConfig → Option ContestParticipant → ℤ → ContestTime
  get_participant_contest_time config participant now =
      let begin = get_participant_begin_time config participant in
      if eqb_ℤ begin (pos 0)
      then contest_time_not_planned
      else if leb_ℤ (add64 begin config.duration) now
      then contest_time_finished
      else if leb_ℤ begin now
      then sub64 now begin
      else contest_time_not_started
