-- ===== src/Contest/Context/Effective.antt =====
-- internal/managers/contest.go: which participant a context acts for.
use solve.Prelude.{
  ℕ, suc, ◌+◌, Bool, true, false, ◌&&◌, Option, none, some, List, [], ◌∷◌, ◌++◌, ok, ◌≡◌, refl, ◌⊎◌,
  arith, length, get_elem?, All, >>=-eq-ok, >>=-elim, Bool-cases, inl, inr, String, ap, ◌∙◌, ◌==◌,
  Option-cases,
}
use solve.Prelude.Int.{ℤ}
use solve.Contest.Types.{Json, Contest, ContestConfig, ContestParticipant}
use solve.Contest.Time.{ContestStage, stage, get_participant_contest_time}
use solve.Contest.Permissions.{check_effective_participant}
use solve.Contest.Context.{
  Visitor, ContestContext, Roster, assemble, is_upsolving, disable_upsolving, find_effective,
  build_context, get_config, visitor_roster, find_by_id, set_effective_participant,
  get_effective_participant,
}

module _ (unmarshal : Json → Option ℤ) (config : ContestConfig) (now : ℤ) (disabled : Bool) where
  -- A participant that `BuildContext` may choose, and one that it passes over.
  abbrev pub Eligible : ContestParticipant → Type 0
  Eligible p =
      ((disabled && is_upsolving p.kind) ≡ false)
      × (check_effective_participant unmarshal config p now ≡ ok true)

  abbrev pub PassedOver : ContestParticipant → Type 0
  PassedOver p =
      ((disabled && is_upsolving p.kind) ≡ true)
      ⊎ (check_effective_participant unmarshal config p now ≡ ok false)

  abbrev HeadEligible : List ContestParticipant → Type 0
  HeadEligible [] = Unit
  HeadEligible (p ∷ ps) = Eligible p

  -- `n` is the position of the first eligible participant, or the length if there is none.
  abbrev pub FirstEligible : ℕ → List ContestParticipant → Type 0
  FirstEligible n ps =
      (pre : List ContestParticipant) × (post : List ContestParticipant) × (ps ≡ pre ++ post)
      × (n ≡ length pre)
      × All PassedOver pre
      × HeadEligible post

  FirstEligible-cons :
      (p : ContestParticipant) (n : ℕ) (ps : List ContestParticipant)
      → PassedOver p
      → FirstEligible n ps
      → FirstEligible (suc n) (p ∷ ps)
  FirstEligible-cons p n ps h (pre, post, e, l, over, head) =
      (p ∷ pre, post, ap (◌∷◌ p) e, ap suc l, (h, over), head)

  pub find_effective_lem :
      (i : ℕ) (ps : List ContestParticipant) {j : ℕ}
      → find_effective unmarshal config now disabled i ps ≡ ok j
      → (n : ℕ) × (j ≡ i + n) × FirstEligible n ps
  unfolding find_effective
  find_effective_lem i [] h = (0, ground arith, ([], [], refl, refl, tt, tt))
  find_effective_lem i (p ∷ ps) {j} h = elim (Bool-cases (disabled && is_upsolving p.kind)) [
    | inl off ↦
        let (n, e, f) = find_effective_lem (suc i) ps {j = j} (rw off at h) in
        (suc n, omega arith, FirstEligible-cons p n ps (inl off) f)
    | inr on ↦
        let (found, checked, k) =
          >>=-eq-ok (check_effective_participant unmarshal config p now) _ (rw on at h) in
        elim (Bool-cases found) [
          | inl yes' ↦ (0, ground arith, ([], p ∷ ps, refl, refl, tt, (on, checked ∙ ap ok yes')))
          | inr no' ↦
              let (n, e, f) = find_effective_lem (suc i) ps {j = j} (rw no' at k) in
              (suc n, omega arith, FirstEligible-cons p n ps (inr (checked ∙ ap ok no')) f)
        ]
  ]

  get_elem?-length-append :
      (pre post : List ContestParticipant) {p : ContestParticipant}
      → get_elem? (pre ++ post) (length pre) ≡ some p
      → (rest : List ContestParticipant) × (post ≡ p ∷ rest)
  get_elem?-length-append [] [] h = absurd (ground arith)
  get_elem?-length-append [] (q ∷ post) h = (post, ground arith)
  get_elem?-length-append (q ∷ pre) post h = get_elem?-length-append pre post h

  pub FirstEligible-Eligible :
      (n : ℕ) (ps : List ContestParticipant) {p : ContestParticipant}
      → FirstEligible n ps
      → get_elem? ps n ≡ some p
      → Eligible p
  FirstEligible-Eligible n ps {p} (pre, post, e, l, over, head) h =
      let h' : get_elem? (pre ++ post) (length pre) ≡ some p = rw (← e, ← l) h in
      let (rest, e') = get_elem?-length-append pre post h' in rw e' at head

module _ (unmarshal_config : Json → Option ContestConfig) (unmarshal : Json → Option ℤ)
    (get_setting : String → Option String) (store : List ContestParticipant) (visitor : Visitor)
    (contest : Contest) (now : ℤ) (c : ContestContext)
    (built : build_context unmarshal_config unmarshal get_setting store visitor contest now
      ≡ ok c) where
  -- What a context is made of.
  pub build_context_parts :
      (config : ContestConfig) × (s : ContestStage) × (r : Roster) × (i : ℕ) × (get_config
          unmarshal_config contest.config
        ≡ ok config)
      × (stage (get_participant_contest_time unmarshal config none now) ≡ ok s)
      × (visitor_roster unmarshal store contest config now s visitor.account visitor ≡ ok r)
      × (find_effective unmarshal config now (disable_upsolving get_setting) 0 r.participants
          ≡ ok i)
      × (c ≡ assemble visitor contest config now s r i)
  unfolding build_context
  build_context_parts =
      >>=-elim (get_config unmarshal_config contest.config) _ built λ config e₁ k₁.
        >>=-elim (stage (get_participant_contest_time unmarshal config none now)) _ k₁ λ s e₂ k₂.
          >>=-elim (visitor_roster unmarshal store contest config now s visitor.account visitor) _
            k₂
            λ r e₃ k₃.
              >>=-elim
                (find_effective unmarshal config now (disable_upsolving get_setting) 0
                  r.participants)
                _ k₃ λ i e₄ k₄. (config, s, r, i, e₁, e₂, e₃, e₄, cc)

  -- A context that `BuildContext` returns acts for the first of its participants that is active
  -- at its time, where upsolving participants are passed over if the setting disables them; and
  -- for none if no participant is.
  pub build_context-FirstEligible :
      FirstEligible unmarshal c.contest_config c.now
        (disable_upsolving get_setting)
        c.effective_pos
        c.participants
  unfolding assemble
  build_context-FirstEligible =
      let (config, s, r, i, _, _, _, found, e) = build_context_parts in
      let (n, j, first) =
        find_effective_lem unmarshal config now (disable_upsolving get_setting) 0 r.participants
          found in
      let j' : i ≡ n = omega arith in rw e (rw j' first)

module _ (unmarshal : Json → Option ℤ) where
  find_by_id_lem :
      (config : ContestConfig) (now : ℤ) (id i : ℕ) (ps : List ContestParticipant) {j : ℕ}
      → find_by_id unmarshal config now id i ps ≡ ok (some j)
      → (n : ℕ) × (p : ContestParticipant) × (j ≡ i + n)
        × (get_elem? ps n ≡ some p)
        × (p.id ≡ id)
        × (check_effective_participant unmarshal config p now ≡ ok true)
  unfolding find_by_id
  find_by_id_lem config now id i [] h = absurd (ground arith)
  find_by_id_lem config now id i (p ∷ ps) {j} h = elim (Bool-cases (p.id == id)) [
    | inl same ↦
        let (found, checked, k) =
          >>=-eq-ok (check_effective_participant unmarshal config p now) _ (rw same at h) in
        elim (Bool-cases found) [
          | inl yes' ↦ (0, p, ground arith, refl, ground arith, checked ∙ ap ok yes')
          | inr no' ↦ absurd (ground arith)
        ]
    | inr other ↦
        let (n, q, e, g, same, checked) =
          find_by_id_lem config now id (suc i) ps {j = j} (rw other at h) in
        (suc n, q, omega arith, g, same, checked)
  ]

  -- `SetEffectiveParticipant` changes nothing but the effective participant, and that only to a
  -- participant with the given ID that is active at the context's time.
  pub set_effective_participant_lem :
      (c c' : ContestContext) (id : ℕ)
      → set_effective_participant unmarshal c id ≡ ok c'
      → (c' ≡ c)
        ⊎ ((p : ContestParticipant) × (c' ≡ record c { effective_pos = c'.effective_pos })
            × (get_effective_participant c' ≡ some p)
            × (p.id ≡ id)
            × (check_effective_participant unmarshal c.contest_config p c.now ≡ ok true))
  unfolding set_effective_participant get_effective_participant
  set_effective_participant_lem c c' id h =
      let (found, e, k) =
        >>=-eq-ok (find_by_id unmarshal c.contest_config c.now id 0 c.participants) _ h in
      elim (Option-cases found) [
        | inl none' ↦ inl (ground arith)
        | inr (i, some') ↦
            let (n, p, j, g, same, checked) =
              find_by_id_lem c.contest_config c.now id 0 c.participants {j = i} (e ∙ ap ok some') in
            inr (p, ground arith, ground arith, same, checked)
      ]
