-- ===== src/Events/Where.antt =====
-- internal/db/event_store.go: the condition that `LoadEvents` asks rows for.
use solve.Prelude.{ℕ, Bool, ◌||◌, List, [], ◌∷◌, ◌≡◌, ◌∙◌, arith}
use solve.Events.{EventRange, range_contains, in_ranges, get_where, where_loop, get_events_where}

where_loop-in_ranges :
    (ranges : List EventRange) (where' : ℕ → Bool) (id : ℕ)
    → where_loop ranges where' id ≡ (where' id || in_ranges ranges id)
unfolding where_loop get_where in_ranges range_contains
where_loop-in_ranges [] where' id = ground arith
where_loop-in_ranges (rng ∷ ranges) where' id =
    where_loop-in_ranges ranges (λ i. where' i || get_where rng i) id ∙ ground arith

-- The condition of `LoadEvents` for ranges of which there is at least one holds for an ID exactly
-- when one of the ranges contains it, also where it asks for a single ID by an equation.
pub get_events_where-in_ranges :
    (rng : EventRange) (ranges : List EventRange) (id : ℕ)
    → get_events_where (rng ∷ ranges) id ≡ in_ranges (rng ∷ ranges) id
unfolding get_events_where get_where in_ranges range_contains
get_events_where-in_ranges rng ranges id =
    where_loop-in_ranges ranges (get_where rng) id ∙ ground arith
