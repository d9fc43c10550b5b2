-- ===== src/Contest/Kinds.antt =====
-- internal/models: the texts of the enumerations that a contest stores.
--
-- `number` stands for `fmt.Sprintf` on a number that names no kind.
use solve.Prelude.{
  ℕ, Bool, true, false, String, Result, ok, err, Error, ◌≡◌, refl, ◌↔◌, arith, if◌then◌else◌,
  str_eq, eq_iff,
}
use solve.Prelude.Int.{ℤ}
use solve.Contest.Types.{
  StandingsKind, disabled_standings, icpc_standings, ioi_standings, other_standings,
  ParticipantKind, regular_participant, upsolving_participant, manager_participant,
  observer_participant, virtual_participant, other_participant,
}

unfoldable pub standings_kind_string : (ℤ → String) → StandingsKind → String
standings_kind_string number disabled_standings = "disabled"
standings_kind_string number icpc_standings = "icpc"
standings_kind_string number ioi_standings = "ioi"
standings_kind_string number (other_standings n) = number n

unfoldable pub unmarshal_standings_kind : String → Result StandingsKind
unmarshal_standings_kind s =
    if str_eq s "disabled"
    then ok disabled_standings
    else if str_eq s "icpc"
    then ok icpc_standings
    else if str_eq s "ioi"
    then ok ioi_standings
    else err Error.unsupported_kind

unfoldable pub participant_kind_string : (ℕ → String) → ParticipantKind → String
participant_kind_string number regular_participant = "regular"
participant_kind_string number upsolving_participant = "upsolving"
participant_kind_string number manager_participant = "manager"
participant_kind_string number observer_participant = "observer"
participant_kind_string number virtual_participant = "virtual"
participant_kind_string number (other_participant n) = number n

unfoldable pub unmarshal_participant_kind : String → Result ParticipantKind
unmarshal_participant_kind s =
    if str_eq s "regular"
    then ok regular_participant
    else if str_eq s "upsolving"
    then ok upsolving_participant
    else if str_eq s "manager"
    then ok manager_participant
    else if str_eq s "observer"
    then ok observer_participant
    else if str_eq s "virtual"
    then ok virtual_participant
    else err Error.unsupported_kind

-- A kind with a name of its own.
abbrev pub is_named : ParticipantKind → Bool
is_named (other_participant n) = false
is_named _ = true

-- A kind of standings with a name of its own.
abbrev pub is_named_standings : StandingsKind → Bool
is_named_standings (other_standings n) = false
is_named_standings _ = true

-- A text is read as a kind of standings exactly when it is the text of a kind that has a name, and
-- never as a number that names none, whatever `String` prints for those.
pub unmarshal_standings_kind-string :
    (number : ℤ → String) (s : String) (k : StandingsKind)
    → (unmarshal_standings_kind s ≡ ok k)
      ↔ ((is_named_standings k ≡ true) × (s ≡ standings_kind_string number k))
unfolding unmarshal_standings_kind standings_kind_string
unmarshal_standings_kind-string number s k = (
  (λ h. ground (arith, h, eq_iff s "disabled", eq_iff s "icpc", eq_iff s "ioi")),
  λ (named, h). rw h (back k named),
)
  where
    back :
        (k : StandingsKind)
        → is_named_standings k ≡ true
        → unmarshal_standings_kind (standings_kind_string number k) ≡ ok k
    back disabled_standings e = refl
    back icpc_standings e = refl
    back ioi_standings e = refl
    back (other_standings n) e = absurd (ground arith)

-- A text is read as a kind of participant exactly when it is the name of a kind that has one.
pub unmarshal_participant_kind-string :
    (number : ℕ → String) (s : String) (k : ParticipantKind)
    → (unmarshal_participant_kind s ≡ ok k)
      ↔ ((is_named k ≡ true) × (s ≡ participant_kind_string number k))
unfolding unmarshal_participant_kind participant_kind_string
unmarshal_participant_kind-string number s k = (
  (λ h. ground (
    arith,
    h,
    eq_iff s "regular",
    eq_iff s "upsolving",
    eq_iff s "manager",
    eq_iff s "observer",
    eq_iff s "virtual",
  )),
  λ (named, h). rw h (back k named),
)
  where
    back :
        (k : ParticipantKind)
        → is_named k ≡ true
        → unmarshal_participant_kind (participant_kind_string number k) ≡ ok k
    back regular_participant e = refl
    back upsolving_participant e = refl
    back manager_participant e = refl
    back observer_participant e = refl
    back virtual_participant e = refl
    back (other_participant n) e = absurd (ground arith)
