-- ===== src/Events/Consume.antt =====
-- internal/db/event_consumer.go: one call of `ConsumeEvents`.
use solve.Prelude.{
  leb, ◌&&◌, ◌⊎◌, ℕ, ◌+◌, ◌≤◌, ◌<◌, true, not, Option, none, some, List, [], ◌∷◌, ◌++◌, Result, ok,
  Error, >>=-elim, ◌≡◌, refl, ◌∙◌, arith, inl, inr, Option-cases, All, Ordered, length,
}
use solve.Events.{
  Consumed, EventRange, in_ranges, seek, after_handler, after_seek, events_loop, after_loop,
  after_load, consume_events, event_gap_skip_window,
}
use solve.Events.Ranges.{IsRanges, IsCut, seek-IsCut, seek-none}
use solve.Events.Handled.{delivered, run_all, IsEnd}

module _ {E S : Type 0} (event_id : E → ℕ) (fn : E → S → Result S) where
  -- What a call leaves, where `ends` tells how it ends: the events of `handled` were handled, their IDs were pending and are so no
  -- more, and all other IDs from `floor` on are pending as before. Below `floor` nothing is pending
  -- any more: these are the gaps that are skipped.
  pub record IsConsumed (lo : ℕ) (rs : List EventRange) (events : List E)
      (rows_error : Option Error) (s : S) (c : Consumed S) : Type 0 where
    pub handled : List E
    pub left : List E
    pub floor : ℕ
    pub split : events ≡ handled ++ left
    pub ranges_ok : IsRanges lo c.ranges
    pub pending :
        (x : ℕ)
        → in_ranges c.ranges x
          ≡ (in_ranges rs x && not (delivered event_id handled x) && leb floor x)
    pub skips : (floor ≡ 0) ⊎ (event_gap_skip_window < length rs + length events)
    pub were : (x : ℕ) → delivered event_id handled x ≡ true → in_ranges rs x ≡ true
    pub ran : run_all event_id fn handled s ≡ ok c.state
    pub ends : IsEnd event_id fn rows_error c handled left
    pub bounded : (c.error ≡ none) → length c.ranges ≤ event_gap_skip_window

  seek_later :
      (lo : ℕ) (rs : List EventRange) (event : E) (events : List E)
      (skipped found : List EventRange)
      → IsCut lo rs (event_id event) skipped found
      → All (λ e. event_id event < event_id e) events
      → All (λ e. in_ranges rs (event_id e) ≡ true) events
      → All (λ e. in_ranges found (event_id e) ≡ true) events
  seek_later lo rs event [] skipped found cut h k = tt
  seek_later lo rs event (e ∷ es) skipped found cut h k = (
    ground (arith, h.0, k.0, cut.same (event_id e), cut.below (event_id e), cut.reach),
    seek_later lo rs event es skipped found cut h.1 k.1,
  )

  events_loop-run_all :
      (lo : ℕ) (rs : List EventRange) (events : List E) (s s' : S)
      → IsRanges lo rs
      → Ordered (λ a b. event_id a < event_id b) events
      → All (λ e. in_ranges rs (event_id e) ≡ true) events
      → run_all event_id fn events s ≡ ok s'
      → ((events_loop event_id fn events rs s).state ≡ s')
        × ((events_loop event_id fn events rs s).error ≡ none)
  unfolding events_loop after_seek after_handler
  events_loop-run_all lo rs [] s s' k o a h = (ground (arith, h), refl)
  events_loop-run_all lo rs (event ∷ events) s s' k o a h =
      elim (Option-cases (seek rs (event_id event))) [
        | inl none' ↦ absurd (ground (arith, a.0, seek-none rs (event_id event) none'))
        | inr ((skipped, found), e) ↦
            let cut = seek-IsCut lo rs (event_id event) skipped found k e in
            >>=-elim (fn event s) _ h λ t ran rest.
              rw (e, ran)
                (events_loop-run_all cut.from found events t s' cut.found_ok o.1
                  (seek_later lo rs event events skipped found cut o.0 a.1) rest)
      ]

  after_loop-none :
      (rows_error : Option Error) (ranges : List EventRange) (s : S) (error : Option Error)
      → error ≡ none
      → ((after_loop event_id fn rows_error
            (record { ranges = ranges; state = s; error = error })).state
          ≡ s)
        × ((after_loop event_id fn rows_error
              (record { ranges = ranges; state = s; error = error })).error
            ≡ rows_error)
  unfolding after_loop
  after_loop-none rows_error ranges s none h = (refl, refl)
  after_loop-none rows_error ranges s (some e) h = absurd (ground (arith, h))

  -- Where `LoadEvents` returns events of the ranges, in ascending order of their IDs, and the
  -- handler accepts them, a call of `ConsumeEvents` hands over each of them once, in that order,
  -- and ends with no error but that of the rows: `invalid event ID` does not occur.
  pub consume_events-run_all :
      (load : List EventRange → Result (List E × Option Error)) (lo : ℕ) (rs : List EventRange)
      (events : List E) (rows_error : Option Error) (s s' : S)
      → load rs ≡ ok (events, rows_error)
      → IsRanges lo rs
      → Ordered (λ a b. event_id a < event_id b) events
      → All (λ e. in_ranges rs (event_id e) ≡ true) events
      → run_all event_id fn events s ≡ ok s'
      → ((consume_events event_id fn load rs s).state ≡ s')
        × ((consume_events event_id fn load rs s).error ≡ rows_error)
  unfolding consume_events after_load
  consume_events-run_all load lo rs events rows_error s s' loaded k o a h =
      let (state, error) = events_loop-run_all lo rs events s s' k o a h in
      let c = events_loop event_id fn events rs s in
      let (kept, last) = after_loop-none rows_error c.ranges c.state c.error error in
      rw loaded (kept ∙ state, last)
