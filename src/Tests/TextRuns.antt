-- ===== src/Tests/TextRuns.antt =====
-- Texts of enumerations, read.
use solve.Prelude.{ℕ, String, true, ok, ◌≡◌, ◌↔◌}
use solve.Prelude.Int.{ℤ}
use solve.Contest.Types.{icpc_standings, virtual_participant}
use solve.Contest.Kinds.{
  unmarshal_standings_kind, standings_kind_string, unmarshal_participant_kind,
  participant_kind_string, unmarshal_standings_kind-string, unmarshal_participant_kind-string,
}
use solve.Standings.Types.{wrong_answer}
use solve.Standings.Verdicts.{unmarshal_verdict, verdict_string, unmarshal_verdict_lem}

-- what stands for `fmt.Sprintf`
abbrev unnamed : ℕ → String
unnamed _ = "ParticipantKind(6)"

abbrev unnamed_standings : ℤ → String
unnamed_standings _ = "StandingsKind(3)"

abbrev unnamed_verdict : ℤ → String
unnamed_verdict _ = "Verdict(11)"

unmarshal_standings_kind-string_example :
    (unmarshal_standings_kind "icpc" ≡ ok icpc_standings)
    ↔ ((true ≡ true) × ("icpc" ≡ standings_kind_string unnamed_standings icpc_standings))
unmarshal_standings_kind-string_example =
    unmarshal_standings_kind-string unnamed_standings "icpc" icpc_standings

unmarshal_participant_kind-string_example :
    (unmarshal_participant_kind "virtual" ≡ ok virtual_participant)
    ↔ ((true ≡ true) × ("virtual" ≡ participant_kind_string unnamed virtual_participant))
unmarshal_participant_kind-string_example =
    unmarshal_participant_kind-string unnamed "virtual" virtual_participant

unmarshal_verdict_example :
    (unmarshal_verdict "wrong_answer" ≡ ok wrong_answer)
    ↔ ((true ≡ true) × ("wrong_answer" ≡ verdict_string unnamed_verdict wrong_answer))
unmarshal_verdict_example = unmarshal_verdict_lem unnamed_verdict "wrong_answer" wrong_answer
