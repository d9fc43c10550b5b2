-- ===== src/Stores.antt =====
-- internal/models/cached_store.go and btree_index.go: a table that is kept in memory, with an
-- index, and follows the events of the table.
--
-- `BTreeMap` is what the code relies on of the maps of github.com/udovin/algo/btree, where `same`
-- tells which keys their order does not tell apart. A store with several indexes does to each of
-- them what is done here to one. A pointer to a store is a store that is passed on.
pub mod Replay
pub mod Follow
pub mod Index
pub mod Synced
pub mod Init
pub mod Sync
use solve.Prelude.{
  ℕ, Bool, true, false, not, ◌&&◌, Option, none, some, List, [], ◌∷◌, Result, ok, err, Error, ◌≡◌,
  if◌then◌else◌, ltb, ◌==◌,
}
use solve.Events.{EventRange, Consumed, consume_events}

pub record BTreeMap (Key Val : Type 0) (same : Key → Key → Bool) : Type 1 where
  pub Map : Type 0
  pub new_map : Map
  pub get : Map → Key → Option Val
  pub set : Map → Key → Val → Map
  pub delete : Map → Key → Map
  pub get-new_map : (k : Key) → get new_map k ≡ none
  pub get-set :
      (m : Map) (k : Key) (v : Val) (k' : Key)
      → get (set m k v) k' ≡ (if same k k' then some v else get m k')
  pub get-delete :
      (m : Map) (k k' : Key) → get (delete m k) k' ≡ (if same k k' then none else get m k')

-- Keys that neither precede the other.
abbrev pub tied : {A : Type 0} → (A → A → Bool) → A → A → Bool
tied less a b = not (less a b) && not (less b a)

unfoldable pub less_pair_int64 : ℕ × ℕ → ℕ × ℕ → Bool
less_pair_int64 lhs rhs = if not (lhs.0 == rhs.0) then ltb lhs.0 rhs.0 else ltb lhs.1 rhs.1

-- `btreeIndexKey`, and `mapLess` on it
pub record IndexKey (K : Type 0) : Type 0 where
  pub key : K
  pub id : ℕ

unfoldable pub map_less : {K : Type 0} → (K → K → Bool) → IndexKey K → IndexKey K → Bool
map_less less lhs rhs =
    if less lhs.key rhs.key then true else if less rhs.key lhs.key then false else ltb lhs.id rhs.id

-- The event of a change to an object; `other_kind` is a kind that the store does not know.
pub data Change (T : Type 0) : Type 0 where
  create_event update_event : T → Change T
  delete_event : ℕ → Change T
  other_kind : Change T

pub record ObjectEvent (T : Type 0) : Type 0 where
  pub event_id : ℕ
  pub change : Change T

module _ {T K : Type 0} (object_id : T → ℕ) (index_key : T → Option K) (less : K → K → Bool)
    (o : BTreeMap ℕ T ◌==◌) (m : BTreeMap (IndexKey K) (Unit {0}) (tied (map_less less))) where
  pub record CachedStore : Type 0 where
    pub objects : o.Map
    pub index : m.Map

  unfoldable pub register : m.Map → T → m.Map
  register i object = elim (index_key object) [
    | none ↦ i
    | some key ↦ m.set i (record { key = key; id = object_id object }) tt
  ]

  unfoldable pub deregister : m.Map → T → m.Map
  deregister i object = elim (index_key object) [
    | none ↦ i
    | some key ↦ m.delete i (record { key = key; id = object_id object })
  ]

  unfoldable pub reset : CachedStore
  reset = record { objects = o.new_map; index = m.new_map }

  unfoldable pub on_create_object : CachedStore → T → CachedStore
  unfolding register
  on_create_object s object = record {
    objects = o.set s.objects (object_id object) object;
    index = register s.index object;
  }

  unfoldable pub on_delete_object : CachedStore → ℕ → CachedStore
  unfolding deregister
  on_delete_object s id = elim (o.get s.objects id) [
    | none ↦ s
    | some object ↦ record { objects = o.delete s.objects id; index = deregister s.index object }
  ]

  unfoldable pub on_update_object : CachedStore → T → CachedStore
  unfolding on_delete_object on_create_object
  on_update_object s object = on_create_object (on_delete_object s (object_id object)) object

  unfoldable pub consume_event : ObjectEvent T → CachedStore → Result CachedStore
  unfolding on_update_object
  consume_event event s = elim event.change [
    | create_event object ↦ ok (on_create_object s object)
    | delete_event id ↦ ok (on_delete_object s id)
    | update_event object ↦ ok (on_update_object s object)
    | other_kind ↦ err Error.unexpected_event
  ]

  -- the loop over the rows that `LoadObjects` returns
  unfoldable pub objects_loop : List T → CachedStore → CachedStore
  objects_loop [] s = s
  objects_loop (object ∷ objects) s = objects_loop objects (on_create_object s object)

  -- what `initObjects` leaves
  pub record Filled : Type 0 where
    pub store : CachedStore
    pub error : Option Error

  -- `LoadObjects` returns the rows, with what `rows.Err()` is after them, or an error and nil. After
  -- `sql.ErrNoRows` the code goes on, and a call of nil panics.
  unfoldable pub init_objects : Result (List T × Option Error) → CachedStore → Filled
  unfolding objects_loop reset
  init_objects (ok (rows, rows_error)) s = record {
    store = objects_loop rows reset;
    error = rows_error;
  }
  init_objects (err Error.no_rows) s = record { store = reset; error = some Error.panicked }
  init_objects (err e) s = record { store = s; error = some e }

  -- `Sync`, without the time that it notes
  unfoldable pub sync :
      Bool
      → (List EventRange → Result (List (ObjectEvent T) × Option Error))
      → List EventRange
      → CachedStore
      → Consumed CachedStore
  sync in_tx load ranges s =
      if in_tx
      then record { ranges = ranges; state = s; error = some Error.in_transaction }
      else consume_events (λ (e : ObjectEvent T). e.event_id) consume_event load ranges s

  -- `Get` on a store that needs no sync
  unfoldable pub get_object : CachedStore → ℕ → Result T
  get_object s id = elim (o.get s.objects id) [ none ↦ err Error.no_rows | some object ↦ ok object ]
