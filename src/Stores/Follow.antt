-- ===== src/Stores/Follow.antt =====
-- internal/models/cached_store.go: the objects and the index of a store that handles events.
use solve.Prelude.{
  ℕ, Bool, true, false, not, ◌&&◌, ◌||◌, Option, none, some, ok, ◌≡◌, sym, ap, ◌∙◌, arith, inl, inr,
  if◌then◌else◌, ◌==◌, Option-cases,
}
use solve.Stores.{
  BTreeMap, tied, map_less, IndexKey, Change, create_event, update_event, delete_event, other_kind,
  ObjectEvent, CachedStore, register, deregister, on_create_object, on_delete_object,
  on_update_object, consume_event,
}
use solve.Stores.Replay.{change_table}

tied-map_less :
    {K : Type 0} (less : K → K → Bool) (a b : IndexKey K)
    → tied (map_less less) a b ≡ (tied less a.key b.key && a.id == b.id)
unfolding map_less
tied-map_less less a b = ground arith

abbrev pub has_value : {A : Type 0} → Option A → Bool
has_value none = false
has_value (some _) = true

abbrev pub is_create_of : {T : Type 0} → (T → ℕ) → Change T → ℕ → Bool
is_create_of object_id (create_event object) i = object_id object == i
is_create_of object_id _ i = false

module _ {T K : Type 0} (object_id : T → ℕ) (index_key : T → Option K) (less : K → K → Bool)
    (o : BTreeMap ℕ T ◌==◌) (m : BTreeMap (IndexKey K) (Unit {0}) (tied (map_less less))) where
  abbrev pub Store : Type 0
  Store = CachedStore object_id index_key less o m

  -- Whether an object, if there is one, has a key.
  abbrev pub keyed : K → Option T → Bool
  keyed k none = false
  keyed k (some object) = elim (index_key object) [ none ↦ false | some key ↦ tied less key k ]

  abbrev pub has_entry : Store → K → ℕ → Bool
  has_entry s k i = has_value (m.get s.index (record { key = k; id = i }))

  pub create-objects :
      (s : Store) (x : T) (i : ℕ)
      → o.get (on_create_object object_id index_key less o m s x).objects i
        ≡ (if object_id x == i then some x else o.get s.objects i)
  unfolding on_create_object
  create-objects s x i = o.get-set s.objects (object_id x) x i

  pub delete-objects :
      (s : Store) (d i : ℕ)
      → o.get (on_delete_object object_id index_key less o m s d).objects i
        ≡ (if d == i then none else o.get s.objects i)
  unfolding on_delete_object
  delete-objects s d i = elim (Option-cases (o.get s.objects d)) [
    | inl none' ↦ rw (none', on_delete_object) (ground (arith, none', ap (o.get s.objects)))
    | inr (x, e) ↦ rw (e, on_delete_object) (o.get-delete s.objects d i)
  ]

  pub register-entry :
      (index : m.Map) (x : T) (k : K) (i : ℕ)
      → has_value
          (m.get (register object_id index_key less o m index x) (record { key = k; id = i }))
        ≡ ((object_id x == i && keyed k (some x))
            || has_value (m.get index (record { key = k; id = i })))
  unfolding register
  register-entry index x k i = elim (Option-cases (index_key x)) [
    | inl none' ↦ rw (none', register) (ground arith)
    | inr (key, e) ↦
        rw (e, register)
          (ground (
            arith,
            m.get-set index (record { key = key; id = object_id x }) tt
                (record { key = k; id = i }),
            tied-map_less less (record { key = key; id = object_id x })
                (record { key = k; id = i }),
          ))
  ]

  pub deregister-entry :
      (index : m.Map) (x : T) (k : K) (i : ℕ)
      → has_value
          (m.get (deregister object_id index_key less o m index x) (record { key = k; id = i }))
        ≡ (not (object_id x == i && keyed k (some x))
            && has_value (m.get index (record { key = k; id = i })))
  unfolding deregister
  deregister-entry index x k i = elim (Option-cases (index_key x)) [
    | inl none' ↦ rw (none', deregister) (ground arith)
    | inr (key, e) ↦
        rw (e, deregister)
          (ground (
            arith,
            m.get-delete index (record { key = key; id = object_id x })
                (record { key = k; id = i }),
            tied-map_less less (record { key = key; id = object_id x })
                (record { key = k; id = i }),
          ))
  ]

  change-objects :
      (c : Change T) (n : ℕ) (s s' : Store) (i : ℕ)
      → consume_event object_id index_key less o m (record { event_id = n; change = c }) s ≡ ok s'
      → o.get s'.objects i ≡ change_table object_id c (λ j. o.get s.objects j) i
  unfolding consume_event on_update_object
  change-objects (create_event x) n s s' i h =
      let e : s' ≡ on_create_object object_id index_key less o m s x = ground (arith, h) in
      rw e (create-objects s x i)
  change-objects (update_event x) n s s' i h =
      let deleted = on_delete_object object_id index_key less o m s (object_id x) in
      let e : s' ≡ on_create_object object_id index_key less o m deleted x = ground (arith, h) in
      rw e (ground (arith, create-objects deleted x i, delete-objects s (object_id x) i))
  change-objects (delete_event d) n s s' i h =
      let e : s' ≡ on_delete_object object_id index_key less o m s d = ground (arith, h) in
      rw e (delete-objects s d i)
  change-objects other_kind n s s' i h = absurd (ground (arith, h))

  pub event-objects :
      (e : ObjectEvent T) (s s' : Store) (i : ℕ)
      → consume_event object_id index_key less o m e s ≡ ok s'
      → o.get s'.objects i ≡ change_table object_id e.change (λ j. o.get s.objects j) i
  event-objects e s s' i h = change-objects e.change e.event_id s s' i h

  -- Each object is kept under its own ID.
  abbrev pub IsRooted : Store → Type 0
  IsRooted s = (d : ℕ) (x : T) → o.get s.objects d ≡ some x → object_id x ≡ d

  change_table-rooted :
      (c : Change T) (t : ℕ → Option T) (d : ℕ) (x : T)
      → (t d ≡ some x → object_id x ≡ d)
      → change_table object_id c t d ≡ some x
      → object_id x ≡ d
  change_table-rooted (create_event y) t d x k h = ground (arith, h, k)
  change_table-rooted (update_event y) t d x k h = ground (arith, h, k)
  change_table-rooted (delete_event y) t d x k h = ground (arith, h, k)
  change_table-rooted other_kind t d x k h = k h

  pub event-IsRooted :
      (e : ObjectEvent T) (s s' : Store)
      → IsRooted s
      → consume_event object_id index_key less o m e s ≡ ok s'
      → IsRooted s'
  event-IsRooted e s s' k h d x found =
      change_table-rooted e.change (λ j. o.get s.objects j) d x (k d x)
        (sym (event-objects e s s' d h) ∙ found)
