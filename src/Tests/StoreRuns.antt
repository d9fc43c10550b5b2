-- ===== src/Tests/StoreRuns.antt =====
-- Runs of a cached store: pairs of an ID and a role, with an index on the role.
use solve.Prelude.{
  ℕ, ◌≡◌, refl, Option, none, some, List, [], ◌∷◌, ◌++◌, Result, ok, Error, Bool, inl, true, false,
  arith, if◌then◌else◌, ltb, ◌==◌, All,
}
use solve.Events.{EventRange, in_ranges, range_contains}
use solve.Events.Ranges.{IsRanges}
use solve.Stores.{
  BTreeMap, IndexKey, map_less, tied, Change, create_event, update_event, delete_event, ObjectEvent,
  CachedStore, reset, init_objects, sync, get_object,
}
use solve.Stores.Replay.{replay}
use solve.Stores.Synced.{IsSynced}
use solve.Stores.Init.{rows_table, objects_loop-IsSynced}
use solve.Stores.Index.{IsLog}
use solve.Stores.Sync.{answer, sync-IsSynced, init_objects-sync-IsSynced}

-- Maps as functions.
abbrev function_map : (Key Val : Type 0) (same : Key → Key → Bool) → BTreeMap Key Val same
function_map Key Val same = record {
  Map = Key → Option Val;
  new_map = λ k. none;
  get = λ m k. m k;
  set = λ m k v k'. if same k k' then some v else m k';
  delete = λ m k k'. if same k k' then none else m k';
  get-new_map = λ k. refl;
  get-set = λ m k v k'. refl;
  get-delete = λ m k k'. refl;
}

abbrev row_id : ℕ × ℕ → ℕ
row_id row = row.0

abbrev row_role : ℕ × ℕ → Option ℕ
row_role row = some row.1

abbrev by_id : BTreeMap ℕ (ℕ × ℕ) ◌==◌
by_id = function_map ℕ (ℕ × ℕ) ◌==◌

abbrev by_role : BTreeMap (IndexKey ℕ) (Unit {0}) (tied (map_less ltb))
by_role = function_map (IndexKey ℕ) (Unit {0}) (tied (map_less ltb))

abbrev event : ℕ → Change (ℕ × ℕ) → ObjectEvent (ℕ × ℕ)
event n change = record { event_id = n; change = change }

-- The snapshot has seen events 1 and 2; the consumer loads 2 again, and 3 and 4.
abbrev before : List (ObjectEvent (ℕ × ℕ))
before = event 1 (create_event (7, 1)) ∷ []

abbrev again : List (ObjectEvent (ℕ × ℕ))
again = event 2 (create_event (8, 2)) ∷ []

abbrev after : List (ObjectEvent (ℕ × ℕ))
after = event 3 (update_event (7, 5)) ∷ event 4 (delete_event 8) ∷ []

abbrev rows : List (ℕ × ℕ)
rows = (7, 1) ∷ (8, 2) ∷ []

abbrev ranges : List EventRange
ranges = record { begin = 2; end = 0 } ∷ []

abbrev load : List EventRange → Result (List (ObjectEvent (ℕ × ℕ)) × Option Error)
load _ = ok (again ++ after, none)

abbrev no_row : ℕ → Option (ℕ × ℕ)
no_row i = none

rows-snapshot : (i : ℕ) → rows_table row_id rows i ≡ replay row_id (before ++ again) no_row i
rows-snapshot i = ground arith

ranges-IsRanges : IsRanges 2 ranges
unfolding IsRanges
ranges-IsRanges = (omega arith, inl (refl, refl))

ranges-inside : All (λ e. in_ranges ranges e.event_id ≡ true) (again ++ after)
unfolding in_ranges range_contains
ranges-inside = (refl, (refl, (refl, tt)))

again-IsLog : IsLog row_id (again ++ after) (replay row_id before no_row)
again-IsLog = (
  (λ i e. ground (arith, e)),
  ((λ i e. absurd (ground (arith, e))), ((λ i e. absurd (ground (arith, e))), tt)),
)

abbrev empty : CachedStore row_id row_role ltb by_id by_role
empty = reset row_id row_role ltb by_id by_role

-- A store of one row, in step with its table.
abbrev one : CachedStore row_id row_role ltb by_id by_role
one = (init_objects row_id row_role ltb by_id by_role (ok ((7, 1) ∷ [], none)) empty).store

one-IsSynced : IsSynced row_id row_role ltb by_id by_role one (rows_table row_id ((7, 1) ∷ []))
unfolding init_objects
one-IsSynced = objects_loop-IsSynced row_id row_role ltb by_id by_role ((7, 1) ∷ []) (tt, tt)

init_objects-sync-IsSynced_example :
    ((init_objects row_id row_role ltb by_id by_role (ok (rows, none)) one).error ≡ none)
    × ((sync row_id row_role ltb by_id by_role false load ranges
          (init_objects row_id row_role ltb by_id by_role (ok (rows, none)) one).store).error
        ≡ none)
    × IsSynced row_id row_role ltb by_id by_role
        (sync row_id row_role ltb by_id by_role false load ranges
          (init_objects row_id row_role ltb by_id by_role (ok (rows, none)) one).store).state
        (replay row_id (before ++ (again ++ after)) no_row)
    × ((i : ℕ)
        → get_object row_id row_role ltb by_id by_role
            (sync row_id row_role ltb by_id by_role false load ranges
              (init_objects row_id row_role ltb by_id by_role (ok (rows, none)) one).store).state
            i
          ≡ answer (replay row_id (before ++ (again ++ after)) no_row i))
init_objects-sync-IsSynced_example =
    init_objects-sync-IsSynced row_id row_role ltb by_id by_role load 2 ranges rows before again
      after none one no_row ((refl, tt), (tt, tt)) rows-snapshot refl ranges-IsRanges
      ((omega arith, (omega arith, tt)), ((omega arith, tt), (tt, tt))) ranges-inside
      (refl, (refl, (refl, tt))) again-IsLog

abbrev load_after : List EventRange → Result (List (ObjectEvent (ℕ × ℕ)) × Option Error)
load_after _ = ok (after, none)

after-inside : All (λ e. in_ranges ranges e.event_id ≡ true) after
unfolding in_ranges range_contains
after-inside = (refl, (refl, tt))

sync-IsSynced_example :
    ((sync row_id row_role ltb by_id by_role false load_after ranges one).error ≡ none)
    × IsSynced row_id row_role ltb by_id by_role
        (sync row_id row_role ltb by_id by_role false load_after ranges one).state
        (replay row_id after (rows_table row_id ((7, 1) ∷ [])))
    × ((i : ℕ)
        → get_object row_id row_role ltb by_id by_role
            (sync row_id row_role ltb by_id by_role false load_after ranges one).state
            i
          ≡ answer (replay row_id after (rows_table row_id ((7, 1) ∷ [])) i))
sync-IsSynced_example =
    sync-IsSynced row_id row_role ltb by_id by_role load_after 2 ranges after none one
      (rows_table row_id ((7, 1) ∷ [])) refl ranges-IsRanges ((omega arith, tt), (tt, tt))
      after-inside (refl, (refl, tt))
      ((λ i e. absurd (ground (arith, e))), ((λ i e. absurd (ground (arith, e))), tt)) one-IsSynced
