-- ===== src/Stores/Init.antt =====
-- internal/models/cached_store.go: the objects and the entries that `Init` leaves in a store, and
-- those after the events that are handled next.
use solve.Prelude.{
  ℕ, Bool, true, false, Option, none, some, List, [], ◌∷◌, ◌++◌, Result, ok, ◌>>=◌, ◌≡◌, refl, sym,
  ap, ◌∙◌, arith, inl, inr, if◌then◌else◌, ◌==◌, Bool-cases, >>=-elim, All, Ordered,
}
use solve.Events.Handled.{run_all}
use solve.Stores.{
  BTreeMap, tied, map_less, IndexKey, Change, create_event, update_event, delete_event, other_kind,
  ObjectEvent, reset, on_create_object, consume_event, objects_loop,
}
use solve.Stores.Replay.{change_table, replay, replay-append, replay_again}
use solve.Stores.Follow.{Store, keyed}
use solve.Stores.Index.{IsLog}
use solve.Stores.Synced.{
  IsSynced, run-IsSynced, run-IsBehind, run-objects, IsSynced-IsBehind, IsBehind-IsSynced,
}

-- The table that rows make.
abbrev pub rows_table : {T : Type 0} → (T → ℕ) → List T → ℕ → Option T
rows_table object_id [] i = none
rows_table object_id (x ∷ xs) i =
    let rest = rows_table object_id xs i in if object_id x == i then some x else rest

abbrev pub or_else : {T : Type 0} → Option T → Option T → Option T
or_else none t = t
or_else (some x) t = some x

-- Whether the kind of an event is one that stores know.
abbrev pub is_known : {T : Type 0} → Change T → Bool
is_known other_kind = false
is_known _ = true

-- The events of rows that are created.
abbrev created : {T : Type 0} → List T → List (ObjectEvent T)
created [] = []
created (x ∷ xs) = record { event_id = 0; change = create_event x } ∷ created xs

module _ {T : Type 0} (object_id : T → ℕ) where
  rows_table-none :
      (i : ℕ) (xs : List T)
      → All (λ y. (object_id y == i) ≡ false) xs
      → rows_table object_id xs i ≡ none
  rows_table-none i [] h = refl
  rows_table-none i (x ∷ xs) h = ground (arith, rows_table-none i xs h.1, h.0)

  other_ids :
      (i : ℕ) (x : T) (xs : List T)
      → (object_id x == i) ≡ true
      → All (λ y. (object_id x == object_id y) ≡ false) xs
      → All (λ y. (object_id y == i) ≡ false) xs
  other_ids i x [] e h = tt
  other_ids i x (y ∷ ys) e h = (ground (arith, e, h.0), other_ids i x ys e h.1)

  replay-created :
      (rows : List T) (t : ℕ → Option T) (i : ℕ)
      → Ordered (λ x y. (object_id x == object_id y) ≡ false) rows
      → replay object_id (created rows) t i ≡ or_else (rows_table object_id rows i) (t i)
  replay-created [] t i h = refl
  replay-created (x ∷ xs) t i h = replay-created xs _ i h.1 ∙ elim (Bool-cases (object_id x == i)) [
    | inl same ↦ rw (same, rows_table-none i xs (other_ids i x xs same h.0)) refl
    | inr other ↦ rw other refl
  ]

  created-IsLog :
      (rows : List T) (t : ℕ → Option T)
      → Ordered (λ x y. (object_id x == object_id y) ≡ false) rows
      → All (λ x. t (object_id x) ≡ none) rows
      → IsLog object_id (created rows) t
  created-IsLog [] t d h = tt
  created-IsLog (x ∷ xs) t d h = (
    (λ i e. let same : object_id x ≡ i = ground (arith, e) in ap t (sym same) ∙ h.0),
    created-IsLog xs _ d.1 (later xs d.0 h.1),
  )
    where
      later :
          (ys : List T)
          → All (λ y. (object_id x == object_id y) ≡ false) ys
          → All (λ y. t (object_id y) ≡ none) ys
          → All (λ y. change_table object_id (create_event x) t (object_id y) ≡ none) ys
      later [] d h = tt
      later (y ∷ ys) d h = (rw d.0 h.0, later ys d.1 h.1)

  abbrev nothing : ℕ → Option T
  nothing i = none

  nothing_is_held : (rows : List T) → All (λ x. nothing (object_id x) ≡ none) rows
  nothing_is_held [] = tt
  nothing_is_held (x ∷ xs) = (refl, nothing_is_held xs)

  IsLog-append :
      (es fs : List (ObjectEvent T)) (t : ℕ → Option T)
      → IsLog object_id (es ++ fs) t
      → IsLog object_id es t × IsLog object_id fs (replay object_id es t)
  IsLog-append [] fs t h = (tt, h)
  IsLog-append (e ∷ es) fs t h = let (log, later) = IsLog-append es fs _ h.1 in ((h.0, log), later)

module _ {T K : Type 0} (object_id : T → ℕ) (index_key : T → Option K) (less : K → K → Bool)
    (o : BTreeMap ℕ T ◌==◌) (m : BTreeMap (IndexKey K) (Unit {0}) (tied (map_less less))) where
  abbrev S : Type 0
  S = Store object_id index_key less o m

  abbrev handle : ObjectEvent T → S → Result S
  handle = consume_event object_id index_key less o m

  abbrev run : List (ObjectEvent T) → S → Result S
  run = run_all (λ (e : ObjectEvent T). e.event_id) handle

  handle-known :
      (c : Change T) (n : ℕ) (s : S)
      → is_known c ≡ true
      → (s' : S) × (handle (record { event_id = n; change = c }) s ≡ ok s')
  unfolding consume_event
  handle-known (create_event x) n s h = (_, refl)
  handle-known (update_event x) n s h = (_, refl)
  handle-known (delete_event d) n s h = (_, refl)
  handle-known other_kind n s h = absurd (ground (arith, h))

  pub run-known :
      (es : List (ObjectEvent T)) (s : S)
      → All (λ e. is_known e.change ≡ true) es
      → (s' : S) × (run es s ≡ ok s')
  run-known [] s h = (s, refl)
  run-known (e ∷ es) s h =
      let (u, first) = handle-known e.change e.event_id s h.0 in
      let (s', rest) = run-known es u h.1 in (s', ap (λ r. r >>= run es) first ∙ rest)

  run-append :
      (es fs : List (ObjectEvent T)) (s s' : S)
      → run (es ++ fs) s ≡ ok s'
      → (u : S) × (run es s ≡ ok u) × (run fs u ≡ ok s')
  run-append [] fs s s' h = (s, refl, h)
  run-append (e ∷ es) fs s s' h =
      >>=-elim (handle e s) _ h
        λ v ran rest. let (u, first, last) = run-append es fs v s' rest in (u, rw ran first, last)

  objects_loop-run :
      (rows : List T) (s : S)
      → run (created rows) s ≡ ok (objects_loop object_id index_key less o m rows s)
  unfolding objects_loop consume_event
  objects_loop-run [] s = refl
  objects_loop-run (x ∷ xs) s =
      objects_loop-run xs (on_create_object object_id index_key less o m s x)

  IsSynced-eq :
      (s : S) (t u : ℕ → Option T)
      → IsSynced object_id index_key less o m s t
      → ((i : ℕ) → t i ≡ u i)
      → IsSynced object_id index_key less o m s u
  IsSynced-eq s t u k e = record {
    rooted = k.rooted;
    rows = λ i. k.rows i ∙ e i;
    entries = λ key i. k.entries key i ∙ ap (keyed object_id index_key less o m key) (e i);
  }

  reset-IsSynced :
      IsSynced object_id index_key less o m (reset object_id index_key less o m) (λ i. none)
  unfolding reset
  reset-IsSynced = record {
    rooted = λ d x h. absurd (ground (arith, h, o.get-new_map d));
    rows = λ i. o.get-new_map i;
    entries = λ k i. rw (m.get-new_map (record { key = k; id = i })) refl;
  }

  -- An empty store that is filled with rows of distinct IDs holds those rows, and its index has
  -- their entries and no others.
  pub objects_loop-IsSynced :
      (rows : List T)
      → Ordered (λ x y. (object_id x == object_id y) ≡ false) rows
      → IsSynced object_id index_key less o m
          (objects_loop object_id index_key less o m rows (reset object_id index_key less o m))
          (rows_table object_id rows)
  objects_loop-IsSynced rows distinct =
      let start = reset object_id index_key less o m in
      let k =
        run-IsSynced object_id index_key less o m (created rows) start _ (nothing object_id)
          reset-IsSynced (created-IsLog object_id rows _ distinct (nothing_is_held object_id rows))
          (objects_loop-run rows start) in
      IsSynced-eq _ _ _ k (λ i.
        replay-created object_id rows (nothing object_id) i distinct
        ∙ or_else-none (rows_table object_id rows i))
    where
      or_else-none : (t : Option T) → or_else t none ≡ t
      or_else-none none = refl
      or_else-none (some x) = refl

  -- Where the events up to a snapshot are `pre` and `mid`, and the rows of the snapshot are the
  -- table they make, a store that is filled with the rows and then handles `mid` once more, and
  -- `post` after it, is in step with the table that all events make.
  pub objects_loop-run-IsSynced :
      (rows : List T) (pre mid post : List (ObjectEvent T)) (t : ℕ → Option T) (s' : S)
      → Ordered (λ x y. (object_id x == object_id y) ≡ false) rows
      → ((i : ℕ) → rows_table object_id rows i ≡ replay object_id (pre ++ mid) t i)
      → IsLog object_id (mid ++ post) (replay object_id pre t)
      → run
          (mid ++ post)
          (objects_loop object_id index_key less o m rows (reset object_id index_key less o m))
        ≡ ok s'
      → IsSynced object_id index_key less o m s' (replay object_id (pre ++ (mid ++ post)) t)
  objects_loop-run-IsSynced rows pre mid post t s' distinct snapshot log h =
      let start =
        objects_loop object_id index_key less o m rows (reset object_id index_key less o m) in
      let held = replay object_id pre t in
      let loaded = objects_loop-IsSynced rows distinct in
      let (u, first, last) = run-append mid post start s' h in
      let (log₀, log₁) = IsLog-append object_id mid post held log in
      let same : (i : ℕ) → rows_table object_id rows i ≡ replay object_id mid held i =
        λ i. snapshot i ∙ ap (λ f. f i) (replay-append object_id pre mid t) in
      let behind =
        run-IsBehind object_id index_key less o m mid start u (rows_table object_id rows) held log₀
          (IsSynced-IsBehind object_id index_key less o m start _ _ held loaded (λ i. inl refl))
          first in
      let now : (i : ℕ) → o.get u.objects i ≡ replay object_id mid held i = λ i.
        run-objects object_id index_key less o m mid start u _ i (loaded.rows i ∙ same i) first
        ∙ replay_again object_id mid held i in
      let k =
        IsBehind-IsSynced object_id index_key less o m u _ _ _ behind now (λ i. inr (same i)) in
      rw (replay-append object_id pre (mid ++ post) t, replay-append object_id mid post held)
        (run-IsSynced object_id index_key less o m post u s' _ k log₁ last)
