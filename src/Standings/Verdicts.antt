-- ===== src/Standings/Verdicts.antt =====
-- internal/models/solution.go: the texts of verdicts.
--
-- `number` stands for `fmt.Sprintf` on a number that names no verdict.
use solve.Prelude.{
  Bool, true, false, String, Result, ok, err, Error, ◌≡◌, refl, ◌↔◌, arith, if◌then◌else◌, str_eq,
  eq_iff, Bool-cases, inl, inr, ap, sym, ◌∙◌,
}
use solve.Prelude.Int.{ℤ, pos}
use solve.Standings.Types.{
  Verdict, unset, accepted, rejected, compilation_error, time_limit_exceeded, memory_limit_exceeded,
  runtime_error, wrong_answer, presentation_error, partially_accepted, failed, other_verdict,
}

unfoldable pub verdict_string : (ℤ → String) → Verdict → String
verdict_string number unset = number (pos 0)
verdict_string number accepted = "accepted"
verdict_string number rejected = "rejected"
verdict_string number compilation_error = "compilation_error"
verdict_string number time_limit_exceeded = "time_limit_exceeded"
verdict_string number memory_limit_exceeded = "memory_limit_exceeded"
verdict_string number runtime_error = "runtime_error"
verdict_string number wrong_answer = "wrong_answer"
verdict_string number presentation_error = "presentation_error"
verdict_string number partially_accepted = "partially_accepted"
verdict_string number failed = "failed"
verdict_string number (other_verdict n) = number n

unfoldable pub unmarshal_verdict : String → Result Verdict
unmarshal_verdict s =
    if str_eq s "accepted"
    then ok accepted
    else if str_eq s "rejected"
    then ok rejected
    else if str_eq s "compilation_error"
    then ok compilation_error
    else if str_eq s "time_limit_exceeded"
    then ok time_limit_exceeded
    else if str_eq s "memory_limit_exceeded"
    then ok memory_limit_exceeded
    else if str_eq s "runtime_error"
    then ok runtime_error
    else if str_eq s "wrong_answer"
    then ok wrong_answer
    else if str_eq s "presentation_error"
    then ok presentation_error
    else if str_eq s "partially_accepted"
    then ok partially_accepted
    else if str_eq s "failed"
    then ok failed
    else err Error.unsupported_kind

-- A verdict with a name of its own.
abbrev pub has_text : Verdict → Bool
has_text unset = false
has_text (other_verdict n) = false
has_text _ = true

unmarshal_verdict-verdict_string :
    (number : ℤ → String) (v : Verdict)
    → has_text v ≡ true
    → unmarshal_verdict (verdict_string number v) ≡ ok v
unfolding unmarshal_verdict verdict_string
unmarshal_verdict-verdict_string number unset e = absurd (ground arith)
unmarshal_verdict-verdict_string number accepted e = refl
unmarshal_verdict-verdict_string number rejected e = refl
unmarshal_verdict-verdict_string number compilation_error e = refl
unmarshal_verdict-verdict_string number time_limit_exceeded e = refl
unmarshal_verdict-verdict_string number memory_limit_exceeded e = refl
unmarshal_verdict-verdict_string number runtime_error e = refl
unmarshal_verdict-verdict_string number wrong_answer e = refl
unmarshal_verdict-verdict_string number presentation_error e = refl
unmarshal_verdict-verdict_string number partially_accepted e = refl
unmarshal_verdict-verdict_string number failed e = refl
unmarshal_verdict-verdict_string number (other_verdict n) e = absurd (ground arith)

module _ (number : ℤ → String) (s : String) (v : Verdict) where
  abbrev Read : Type 0
  Read = (has_text v ≡ true) × (s ≡ verdict_string number v)

  read_case :
      (w : Verdict) {rest : Result Verdict}
      → has_text w ≡ true
      → (rest ≡ ok v → Read)
      → (if str_eq s (verdict_string number w) then ok w else rest) ≡ ok v
      → Read
  read_case w {rest} e k h = elim (Bool-cases (str_eq s (verdict_string number w))) [
    | inl yes' ↦
        let found : ok w ≡ ok v = rw yes' at h in
        let same : w ≡ v = cc in
        let text : s ≡ verdict_string number w =
          ground (arith, yes', eq_iff s (verdict_string number w)) in
        (ap has_text (sym same) ∙ e, text ∙ ap (verdict_string number) same)
    | inr no' ↦ k (rw no' at h)
  ]

  read_none : err Error.unsupported_kind ≡ ok v → Read
  read_none h = absurd (ground arith)

  -- A text is read as a verdict exactly when it is the text of a verdict that has a name, and never
  -- as 0 or another number that names none, whatever `String` prints for those.
  pub unmarshal_verdict_lem :
      (unmarshal_verdict s ≡ ok v) ↔ ((has_text v ≡ true) × (s ≡ verdict_string number v))
  unfolding unmarshal_verdict verdict_string
  unmarshal_verdict_lem = (
    read_case accepted refl (
        read_case rejected refl (
          read_case compilation_error refl (
            read_case time_limit_exceeded refl (
              read_case memory_limit_exceeded refl (
                read_case runtime_error refl (
                  read_case wrong_answer refl (
                    read_case presentation_error refl
                      (read_case partially_accepted refl (read_case failed refl read_none))))))))),
    λ (named, h). rw h (unmarshal_verdict-verdict_string number v named),
  )
