-- ===== src/Stores/Sync.antt =====
-- internal/models/cached_store.go: `Sync` on the events that its consumer hands over, and `Get`
-- after it.
use solve.Prelude.{
  ℕ, Bool, true, false, ◌<◌, Option, none, some, List, ◌++◌, Result, ok, err, Error, ◌≡◌, refl,
  ◌==◌, All, Ordered,
}
use solve.Events.{EventRange, in_ranges}
use solve.Events.Ranges.{IsRanges}
use solve.Events.Handled.{run_all}
use solve.Events.Consume.{consume_events-run_all}
use solve.Stores.{
  BTreeMap, tied, map_less, IndexKey, ObjectEvent, consume_event, init_objects, sync, get_object,
  objects_loop, reset,
}
use solve.Stores.Replay.{replay}
use solve.Stores.Follow.{Store}
use solve.Stores.Index.{IsLog}
use solve.Stores.Synced.{IsSynced, run-IsSynced}
use solve.Stores.Init.{rows_table, is_known, run-known, objects_loop-run-IsSynced}

-- What `Get` answers for a row.
abbrev pub answer : {T : Type 0} → Option T → Result T
answer none = err Error.no_rows
answer (some x) = ok x

module _ {T K : Type 0} (object_id : T → ℕ) (index_key : T → Option K) (less : K → K → Bool)
    (o : BTreeMap ℕ T ◌==◌) (m : BTreeMap (IndexKey K) (Unit {0}) (tied (map_less less)))
    (load : List EventRange → Result (List (ObjectEvent T) × Option Error)) where
  get_object-answer :
      (s : Store object_id index_key less o m) (i : ℕ) (row : Option T)
      → o.get s.objects i ≡ row
      → get_object object_id index_key less o m s i ≡ answer row
  unfolding get_object
  get_object-answer s i none h = rw (h, get_object) refl
  get_object-answer s i (some x) h = rw (h, get_object) refl

  sync-run :
      (lo : ℕ) (rs : List EventRange) (events : List (ObjectEvent T)) (rows_error : Option Error)
      (s : Store object_id index_key less o m)
      → load rs ≡ ok (events, rows_error)
      → IsRanges lo rs
      → Ordered (λ a b. a.event_id < b.event_id) events
      → All (λ e. in_ranges rs e.event_id ≡ true) events
      → All (λ e. is_known e.change ≡ true) events
      → (s' : Store object_id index_key less o m) × (run_all
            (λ (e : ObjectEvent T). e.event_id)
            (consume_event object_id index_key less o m)
            events
            s
          ≡ ok s')
        × ((sync object_id index_key less o m false load rs s).state ≡ s')
        × ((sync object_id index_key less o m false load rs s).error ≡ rows_error)
  unfolding sync
  sync-run lo rs events rows_error s loaded k ordered inside known =
      let (s', ran) = run-known object_id index_key less o m events s known in
      let (state, error) =
        consume_events-run_all (λ (e : ObjectEvent T). e.event_id)
          (consume_event object_id index_key less o m) load lo rs events rows_error s s' loaded k
          ordered inside ran in
      (s', ran, state, error)

  -- A `Sync` outside of a transaction, of a store in step with a table, whose consumer loads events
  -- of its ranges, in ascending order and of known kinds, that are a log of the table: it ends with
  -- no error but that of the rows, the store is in step with the table after these events, index
  -- included, and `Get` answers with the row of that table or with `sql.ErrNoRows`.
  pub sync-IsSynced :
      (lo : ℕ) (rs : List EventRange) (events : List (ObjectEvent T)) (rows_error : Option Error)
      (s : Store object_id index_key less o m) (t : ℕ → Option T)
      → load rs ≡ ok (events, rows_error)
      → IsRanges lo rs
      → Ordered (λ a b. a.event_id < b.event_id) events
      → All (λ e. in_ranges rs e.event_id ≡ true) events
      → All (λ e. is_known e.change ≡ true) events
      → IsLog object_id events t
      → IsSynced object_id index_key less o m s t
      → ((sync object_id index_key less o m false load rs s).error ≡ rows_error)
        × IsSynced object_id index_key less o m
            (sync object_id index_key less o m false load rs s).state
            (replay object_id events t)
        × ((i : ℕ)
            → get_object object_id index_key less o m
                (sync object_id index_key less o m false load rs s).state
                i
              ≡ answer (replay object_id events t i))
  sync-IsSynced lo rs events rows_error s t loaded k ordered inside known log synced =
      let (s', ran, state, error) =
        sync-run lo rs events rows_error s loaded k ordered inside known in
      let next = run-IsSynced object_id index_key less o m events s s' t synced log ran in
      (error, rw state next, rw state (λ i. get_object-answer s' i _ (next.rows i)))

  -- The first `Sync` of a store that `initObjects` filled with the rows of a snapshot, without an
  -- error and whatever the store held before, where the events `pre` and `mid` of the log made the
  -- rows and the consumer then loads `mid` once more with `post`, the events after the snapshot:
  -- replaying `mid` does no harm, the store and its index are in step with the table that all the
  -- events make, and `Get` answers with the row of that table or with `sql.ErrNoRows`.
  pub init_objects-sync-IsSynced :
      (lo : ℕ) (rs : List EventRange) (rows : List T) (pre mid post : List (ObjectEvent T))
      (rows_error : Option Error) (s : Store object_id index_key less o m) (t : ℕ → Option T)
      → Ordered (λ x y. (object_id x == object_id y) ≡ false) rows
      → ((i : ℕ) → rows_table object_id rows i ≡ replay object_id (pre ++ mid) t i)
      → load rs ≡ ok (mid ++ post, rows_error)
      → IsRanges lo rs
      → Ordered (λ a b. a.event_id < b.event_id) (mid ++ post)
      → All (λ e. in_ranges rs e.event_id ≡ true) (mid ++ post)
      → All (λ e. is_known e.change ≡ true) (mid ++ post)
      → IsLog object_id (mid ++ post) (replay object_id pre t)
      → ((init_objects object_id index_key less o m (ok (rows, none)) s).error ≡ none)
        × ((sync object_id index_key less o m false load rs
              (init_objects object_id index_key less o m (ok (rows, none)) s).store).error
            ≡ rows_error)
        × IsSynced object_id index_key less o m
            (sync object_id index_key less o m false load rs
              (init_objects object_id index_key less o m (ok (rows, none)) s).store).state
            (replay object_id (pre ++ (mid ++ post)) t)
        × ((i : ℕ)
            → get_object object_id index_key less o m
                (sync object_id index_key less o m false load rs
                  (init_objects object_id index_key less o m (ok (rows, none)) s).store).state
                i
              ≡ answer (replay object_id (pre ++ (mid ++ post)) t i))
  unfolding init_objects
  init_objects-sync-IsSynced lo rs rows pre mid post rows_error s t distinct snapshot loaded k
        ordered inside known log =
      let start =
        objects_loop object_id index_key less o m rows (reset object_id index_key less o m) in
      let (s', ran, state, error) =
        sync-run lo rs (mid ++ post) rows_error start loaded k ordered inside known in
      let next =
        objects_loop-run-IsSynced object_id index_key less o m rows pre mid post t s' distinct
          snapshot log ran in
      (refl, error, rw state next, rw state (λ i. get_object-answer s' i _ (next.rows i)))
