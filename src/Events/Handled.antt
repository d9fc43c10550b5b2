-- ===== src/Events/Handled.antt =====
-- internal/db/event_consumer.go: the loop over the rows, and the events that it hands over.
use solve.Prelude.{
  ℕ, Bool, true, false, not, ◌&&◌, ◌||◌, Option, none, some, List, [], ◌∷◌, ◌++◌, Result, ok, err,
  Error, ◌>>=◌, ◌≡◌, refl, ap, arith, inl, inr, ◌==◌, ltb, Option-cases, Result-cases,
}
use solve.Events.{EventRange, in_ranges, Consumed, seek, after_handler, after_seek, events_loop}
use solve.Events.Ranges.{IsRanges, IsCut, in_ranges-append, in_ranges-below, seek-IsCut, seek-none}

-- Whether an ID is that of one of the events.
abbrev pub delivered : {E : Type 0} → (E → ℕ) → List E → ℕ → Bool
delivered event_id [] x = false
delivered event_id (e ∷ es) x = event_id e == x || delivered event_id es x

-- Whether one of the events has a greater ID.
abbrev pub overtaken : {E : Type 0} → (E → ℕ) → List E → ℕ → Bool
overtaken event_id [] x = false
overtaken event_id (e ∷ es) x = ltb x (event_id e) || overtaken event_id es x

module _ {E S : Type 0} (event_id : E → ℕ) where
  module _ (fn : E → S → Result S) where
    -- The handler on each event in turn.
    abbrev pub run_all : List E → S → Result S
    run_all [] s = ok s
    run_all (e ∷ es) s = fn e s >>= run_all es

    -- How a loop that handled some events ends, on what is left of them: after the last one with
    -- the error of the rows, or at the first that its handler refuses, or at the first whose ID is
    -- not pending or lies below that of an event that was handled.
    pub data IsEnd (rows_error : Option Error) (c : Consumed S) (handled : List E)
        : List E → Type 0 where
      at_end : c.error ≡ rows_error → IsEnd rows_error c handled []
      refused :
          {event : E} {events : List E} {x : Error}
          → fn event c.state ≡ err x
          → c.error ≡ some x
          → IsEnd rows_error c handled (event ∷ events)
      astray :
          {event : E} {events : List E}
          → (in_ranges c.ranges (event_id event)
              && not (overtaken event_id handled (event_id event)))
            ≡ false
          → c.error ≡ some Error.invalid_event_id
          → IsEnd rows_error c handled (event ∷ events)

    -- What the loop leaves, whether a round fails or not: the events up to that round are handled,
    -- and their IDs are no longer in the ranges; all other IDs are there as before.
    pub record IsHandled (lo : ℕ) (rs : List EventRange) (events : List E) (s : S) (c : Consumed S)
        : Type 0 where
      pub handled : List E
      pub left : List E
      pub split : events ≡ handled ++ left
      pub ranges_ok : IsRanges lo c.ranges
      pub pending :
          (x : ℕ) → in_ranges c.ranges x ≡ (in_ranges rs x && not (delivered event_id handled x))
      pub were : (x : ℕ) → delivered event_id handled x ≡ true → in_ranges rs x ≡ true
      pub ran : run_all handled s ≡ ok c.state
      pub ends : IsEnd none c handled left

    stopped-IsHandled :
        (lo : ℕ) (rs : List EventRange) (events : List E) (s : S) (e : Error)
        → IsRanges lo rs
        → IsEnd none (record { ranges = rs; state = s; error = some e }) [] events
        → IsHandled lo rs events s (record { ranges = rs; state = s; error = some e })
    stopped-IsHandled lo rs events s e k ends = record {
      handled = [];
      left = events;
      split = refl;
      ranges_ok = k;
      pending = λ x. ground arith;
      were = λ x h. absurd (ground (arith, h));
      ran = refl;
      ends = ends;
    }

    round-IsEnd :
        (lo : ℕ) (rs : List EventRange) (event : E) (skipped found : List EventRange)
        (c : Consumed S) (handled left : List E)
        → IsCut lo rs (event_id event) skipped found
        → IsEnd none c handled left
        → IsEnd none (record c { ranges = skipped ++ c.ranges }) (event ∷ handled) left
    round-IsEnd lo rs event skipped found c handled _ cut (at_end none') = at_end none'
    round-IsEnd lo rs event skipped found c handled _ cut (refused failed e) = refused failed e
    round-IsEnd lo rs event skipped found c handled _ cut (astray {event = late} h e) =
        astray
          (ground (
            arith,
            h,
            in_ranges-append skipped c.ranges (event_id late),
            cut.below (event_id late),
            cut.reach,
          ))
          e

    round-IsHandled :
        (lo : ℕ) (rs : List EventRange) (event : E) (events : List E) (s s' : S)
        (skipped found : List EventRange) (c : Consumed S)
        → (cut : IsCut lo rs (event_id event) skipped found) → fn event s ≡ ok s'
        → IsHandled cut.from found events s' c
        → IsHandled lo rs (event ∷ events) s (record c { ranges = skipped ++ c.ranges })
    round-IsHandled lo rs event events s s' skipped found c cut ran h = record {
      handled = event ∷ h.handled;
      left = h.left;
      split = ap (◌∷◌ event) h.split;
      ranges_ok = cut.glue c.ranges h.ranges_ok;
      pending = λ x. ground (
        arith,
        in_ranges-append skipped c.ranges x,
        h.pending x,
        cut.same x,
        cut.below x,
        h.were x,
        in_ranges-below cut.from found x cut.found_ok,
      );
      were = λ x d. ground (arith, d, h.were x, cut.same x, cut.was);
      ran = rw ran h.ran;
      ends = round-IsEnd lo rs event skipped found c h.handled h.left cut h.ends;
    }

    pub events_loop-IsHandled :
        (lo : ℕ) (rs : List EventRange) (events : List E) (s : S)
        → IsRanges lo rs
        → IsHandled lo rs events s (events_loop event_id fn events rs s)
    unfolding events_loop after_seek after_handler
    events_loop-IsHandled lo rs [] s k = record {
      handled = [];
      left = [];
      split = refl;
      ranges_ok = k;
      pending = λ x. ground arith;
      were = λ x h. absurd (ground (arith, h));
      ran = refl;
      ends = at_end refl;
    }
    events_loop-IsHandled lo rs (event ∷ events) s k =
        elim (Option-cases (seek rs (event_id event))) [
          | inl none' ↦ rw none' (
              stopped-IsHandled lo rs (event ∷ events) s Error.invalid_event_id k
                (astray (ground (arith, seek-none rs (event_id event) none')) refl))
          | inr ((skipped, found), e) ↦
              let cut = seek-IsCut lo rs (event_id event) skipped found k e in
              elim (Result-cases (fn event s)) [
                | inl (s', ran) ↦
                    rw (e, ran)
                      (round-IsHandled lo rs event events s s' skipped found _ cut ran
                        (events_loop-IsHandled cut.from found events s' cut.found_ok))
                | inr (x, failed) ↦
                    rw (e, failed)
                      (stopped-IsHandled lo rs (event ∷ events) s x k (refused failed refl))
              ]
        ]
