-- ===== src/Events.antt =====
-- internal/db/event_consumer.go, and the ranges of internal/db/event_store.go: each event of a
-- store is handled once, although transactions may commit their events out of order.
--
-- `load` is what `LoadEvents` returns for ranges: rows, and the error after them. IDs are natural
-- numbers below the limit of int64. A handler that fails leaves its state as it was.
pub mod Ranges
pub mod Where
pub mod Handled
pub mod Dropped
pub mod Consume
use solve.Prelude.{
  ℕ, suc, ◌-◌, Bool, true, false, not, ◌&&◌, ◌||◌, Option, none, some, List, [], ◌∷◌, ◌++◌, Result,
  ok, err, Error, ◌>>=◌, if◌then◌else◌, ltb, leb, ◌==◌, length, drop, select,
}

-- The IDs from `begin` up to, but without, `end`; an `end` of 0 is no limit.
pub record EventRange : Type 0 where
  pub begin : ℕ
  pub end : ℕ

unfoldable pub range_contains : EventRange → ℕ → Bool
range_contains r id = leb r.begin id && (r.end == 0 || ltb id r.end)

-- Whether an ID is in one of the ranges.
unfoldable pub in_ranges : List EventRange → ℕ → Bool
in_ranges [] id = false
in_ranges (r ∷ rs) id = range_contains r id || in_ranges rs id

-- The condition on IDs that `LoadEvents` asks rows for; without ranges it asks for all rows.
unfoldable pub get_where : EventRange → ℕ → Bool
get_where r id =
    if r.end == 0
    then leb r.begin id
    else if suc r.begin == r.end
    then id == r.begin
    else leb r.begin id && ltb id r.end

unfoldable pub where_loop : List EventRange → (ℕ → Bool) → ℕ → Bool
unfolding get_where
where_loop [] where' id = where' id
where_loop (rng ∷ ranges) where' id = where_loop ranges (λ i. where' i || get_where rng i) id

unfoldable pub get_events_where : List EventRange → ℕ → Bool
unfolding get_where where_loop
get_events_where [] id = true
get_events_where (rng ∷ ranges) id = where_loop ranges (get_where rng) id

abbrev pub event_gap_skip_window : ℕ
event_gap_skip_window = 5000

-- the range that `it` points to, without an ID that it contains
unfoldable pub cut_range : EventRange → ℕ → List EventRange → List EventRange
cut_range r id rest =
    if id == r.begin
    then record r { begin = suc r.begin } ∷ rest
    else record r { end = id } ∷ record r { begin = suc id } ∷ rest

-- The search for the range of an event: the ranges that `it` passes, and those from it on after
-- the ID is cut out.
unfoldable pub pass_range :
    EventRange
    → Option (List EventRange × List EventRange)
    → Option (List EventRange × List EventRange)
pass_range r none = none
pass_range r (some (skipped, found)) = some (r ∷ skipped, found)

unfoldable pub seek : List EventRange → ℕ → Option (List EventRange × List EventRange)
unfolding pass_range cut_range
seek [] id = none
seek (r ∷ rs) id =
    let further = pass_range r (seek rs id) in
    if range_contains r id then some ([], cut_range r id rs) else further

-- What a call leaves: the ranges, the state of the handler, and the error.
pub record Consumed (S : Type 0) : Type 0 where
  pub ranges : List EventRange
  pub state : S
  pub error : Option Error

module _ {E S : Type 0} (event_id : E → ℕ) (fn : E → S → Result S) where
  -- the rest of a round, after the search and after the handler
  unfoldable pub after_handler :
      List EventRange → S → (S → Consumed S) → List EventRange → Result S → Consumed S
  after_handler ranges s rest skipped (err e) = record {
    ranges = ranges;
    state = s;
    error = some e;
  }
  after_handler ranges s rest skipped (ok s') = record (rest s') {
    ranges = skipped ++ (rest s').ranges;
  }

  unfoldable pub after_seek :
      List EventRange
      → S
      → E
      → (List EventRange → S → Consumed S)
      → Option (List EventRange × List EventRange)
      → Consumed S
  unfolding after_handler
  after_seek ranges s event rest none = record {
    ranges = ranges;
    state = s;
    error = some Error.invalid_event_id;
  }
  after_seek ranges s event rest (some (skipped, found)) =
      after_handler ranges s (rest found) skipped (fn event s)

  -- the loop over the rows, from the range on that `it` points to
  unfoldable pub events_loop : List E → List EventRange → S → Consumed S
  events_loop [] ranges s = record { ranges = ranges; state = s; error = none }
  events_loop (event ∷ events) ranges s =
      after_seek ranges s event (events_loop events) (seek ranges (event_id event))

  unfoldable pub remove_empty_ranges : List EventRange → List EventRange
  remove_empty_ranges ranges =
      let kept = select (λ r. not (r.begin == r.end)) ranges in
      drop (length kept - event_gap_skip_window) kept

  -- the end of a call: a round that fails returns at once
  unfoldable pub after_loop : Option Error → Consumed S → Consumed S
  unfolding remove_empty_ranges
  after_loop rows_error c = elim c.error [
    | some e ↦ c
    | none ↦ record c { ranges = remove_empty_ranges c.ranges; error = rows_error }
  ]

  unfoldable pub after_load : List EventRange → S → Result (List E × Option Error) → Consumed S
  unfolding after_loop events_loop
  after_load ranges s (err e) = record { ranges = ranges; state = s; error = some e }
  after_load ranges s (ok (events, rows_error)) =
      after_loop rows_error (events_loop events ranges s)

  unfoldable pub consume_events :
      (List EventRange → Result (List E × Option Error)) → List EventRange → S → Consumed S
  unfolding after_load
  consume_events load ranges s = after_load ranges s (load ranges)

unfoldable pub new_event_consumer : ℕ → List EventRange
new_event_consumer begin_id = record { begin = begin_id; end = 0 } ∷ []

-- `c.ranges[0].Begin`
unfoldable pub begin_event_id : List EventRange → Result ℕ
begin_event_id [] = err Error.panicked
begin_event_id (r ∷ rs) = ok r.begin
