-- ===== src/Tests/EventRuns.antt =====
-- Runs of the event consumer: rows of events that transactions committed out of order.
use solve.Prelude.{
  ℕ, ◌≡◌, refl, Option, none, List, [], ◌∷◌, Result, ok, err, Error, inl, inr, true, arith, All,
}
use solve.Events.{
  get_events_where, EventRange, in_ranges, range_contains, consume_events, new_event_consumer,
  begin_event_id, Consumed, event_gap_skip_window,
}
use solve.Events.Where.{get_events_where-in_ranges}
use solve.Events.Ranges.{IsRanges}
use solve.Events.Consume.{consume_events-run_all}

-- Event 3 was handled before, and 2 was not committed then.
abbrev gap : List EventRange
gap = record { begin = 2; end = 3 } ∷ record { begin = 4; end = 0 } ∷ []

gap-IsRanges : IsRanges 2 gap
unfolding IsRanges
gap-IsRanges = (omega arith, inr (omega arith, omega arith, (omega arith, inl (refl, refl))))

abbrev load_two : List EventRange → Result (List ℕ × Option Error)
load_two ranges = ok (2 ∷ 5 ∷ [], none)

abbrev note : ℕ → List ℕ → Result (List ℕ)
note event seen = ok (event ∷ seen)

gap_run : consume_events (λ e. e) note load_two gap [] ≡ record {
  ranges = record { begin = 4; end = 5 } ∷ record { begin = 6; end = 0 } ∷ [];
  state = 5 ∷ 2 ∷ [];
  error = none;
}
unfolding consume_events solve.Events.after_seek solve.Events.seek range_contains
gap_run = refl

gap-inside : All (λ e. in_ranges gap e ≡ true) (2 ∷ 5 ∷ [])
unfolding in_ranges range_contains
gap-inside = (refl, (refl, tt))

consume_events-run_all_example :
    ((consume_events (λ e. e) note load_two gap []).state ≡ 5 ∷ 2 ∷ [])
    × ((consume_events (λ e. e) note load_two gap []).error ≡ none)
consume_events-run_all_example =
    consume_events-run_all (λ e. e) note load_two 2 gap (2 ∷ 5 ∷ []) none [] (5 ∷ 2 ∷ []) refl
      gap-IsRanges ((omega arith, tt), (tt, tt)) gap-inside refl

-- A consumer that begins at 0: the range without a limit is taken for an empty one.
zero_begin :
    begin_event_id
      (consume_events (λ e. e) note (λ ranges. ok ([], none)) (new_event_consumer 0) []).ranges
    ≡ err Error.panicked
unfolding consume_events new_event_consumer begin_event_id
zero_begin = refl

get_events_where-in_ranges_example : get_events_where gap 2 ≡ in_ranges gap 2
get_events_where-in_ranges_example =
    get_events_where-in_ranges (record { begin = 2; end = 3 }) (record { begin = 4; end = 0 } ∷ [])
      2
