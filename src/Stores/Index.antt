-- ===== src/Stores/Index.antt =====
-- internal/models/cached_store.go and btree_index.go: the entries of an index while its store
-- handles events, those before its snapshot among them.
use solve.Prelude.{
  ℕ, Bool, true, not, ◌&&◌, ◌||◌, Option, none, some, List, [], ◌∷◌, ok, ◌≡◌, refl, ap, ◌∙◌, arith,
  ◌⊎◌, inl, inr, ◌==◌, Bool-cases, Option-cases,
}
use solve.Stores.{
  BTreeMap, tied, map_less, IndexKey, Change, create_event, update_event, delete_event, other_kind,
  ObjectEvent, on_create_object, on_delete_object, on_update_object, consume_event,
}
use solve.Stores.Replay.{change_table}
use solve.Stores.Follow.{
  Store, keyed, has_entry, is_create_of, create-objects, delete-objects, register-entry,
  deregister-entry, IsRooted,
}

-- A log of a table: an event creates only an ID that the table does not hold.
abbrev pub IsLog : {T : Type 0} → (T → ℕ) → List (ObjectEvent T) → (ℕ → Option T) → Type 0
IsLog object_id [] t = Unit
IsLog object_id (e ∷ es) t =
    ((i : ℕ) → is_create_of object_id e.change i ≡ true → t i ≡ none)
    × IsLog object_id es (change_table object_id e.change t)

module _ {T K : Type 0} (object_id : T → ℕ) (index_key : T → Option K) (less : K → K → Bool)
    (o : BTreeMap ℕ T ◌==◌) (m : BTreeMap (IndexKey K) (Unit {0}) (tied (map_less less))) (k : K)
    (i : ℕ) where
  create-entry :
      (s : Store object_id index_key less o m) (x : T)
      → has_entry object_id index_key less o m
          (on_create_object object_id index_key less o m s x)
          k
          i
        ≡ ((object_id x == i && keyed object_id index_key less o m k (some x))
            || has_entry object_id index_key less o m s k i)
  unfolding on_create_object
  create-entry s x = register-entry object_id index_key less o m s.index x k i

  delete-entry :
      (s : Store object_id index_key less o m) (d : ℕ)
      → IsRooted object_id index_key less o m s
      → has_entry object_id index_key less o m
          (on_delete_object object_id index_key less o m s d)
          k
          i
        ≡ (not (d == i && keyed object_id index_key less o m k (o.get s.objects d))
            && has_entry object_id index_key less o m s k i)
  unfolding on_delete_object
  delete-entry s d rooted = elim (Option-cases (o.get s.objects d)) [
    | inl none' ↦ rw (none', on_delete_object) (ground arith)
    | inr (x, e) ↦
        rw (e, on_delete_object)
          (ground
            (arith, rooted d x e, deregister-entry object_id index_key less o m s.index x k i))
  ]

  -- The entry of the key stands where the object has it, and else only where it is left over from
  -- an object `old`.
  pub record Fits (old : Option T) (s : Store object_id index_key less o m) : Type 0 where
    pub cover :
        keyed object_id index_key less o m k (o.get s.objects i) ≡ true
        → has_entry object_id index_key less o m s k i ≡ true
    pub source :
        has_entry object_id index_key less o m s k i ≡ true
        → (keyed object_id index_key less o m k (o.get s.objects i)
            || keyed object_id index_key less o m k old)
          ≡ true

  create-Fits :
      (old : Option T) (s : Store object_id index_key less o m) (x : T)
      → ((object_id x == i) ≡ true → (o.get s.objects i ≡ old) ⊎ (o.get s.objects i ≡ none))
      → Fits old s
      → Fits old (on_create_object object_id index_key less o m s x)
  create-Fits old s x free f = elim (Bool-cases (object_id x == i)) [
    | inl same ↦
        let now : o.get (on_create_object object_id index_key less o m s x).objects i ≡ some x =
          create-objects object_id index_key less o m s x i ∙ rw same refl in
        elim (free same) [
          | inl kept ↦ record {
            cover = λ h.
                ground
                  (arith, h, same, create-entry s x, ap (keyed object_id index_key less o m k) now);
            source = λ h. ground (
              arith,
              h,
              same,
              create-entry s x,
              ap (keyed object_id index_key less o m k) now,
              ap (keyed object_id index_key less o m k) kept,
              f.source,
            );
          }
          | inr none' ↦ record {
            cover = λ h.
                ground
                  (arith, h, same, create-entry s x, ap (keyed object_id index_key less o m k) now);
            source = λ h. ground (
              arith,
              h,
              same,
              create-entry s x,
              ap (keyed object_id index_key less o m k) now,
              ap (keyed object_id index_key less o m k) none',
              f.source,
            );
          }
        ]
    | inr other ↦
        let now : o.get (on_create_object object_id index_key less o m s x).objects i
            ≡ o.get s.objects i =
          create-objects object_id index_key less o m s x i ∙ rw other refl in
        record {
          cover = λ h. ground (
            arith,
            h,
            other,
            create-entry s x,
            ap (keyed object_id index_key less o m k) now,
            f.cover,
          );
          source = λ h. ground (
            arith,
            h,
            other,
            create-entry s x,
            ap (keyed object_id index_key less o m k) now,
            f.source,
          );
        }
  ]

  delete-Fits :
      (old : Option T) (s : Store object_id index_key less o m) (d : ℕ)
      → IsRooted object_id index_key less o m s
      → Fits old s
      → Fits old (on_delete_object object_id index_key less o m s d)
  delete-Fits old s d rooted f = elim (Bool-cases (d == i)) [
    | inl same ↦
        let now : o.get (on_delete_object object_id index_key less o m s d).objects i ≡ none =
          delete-objects object_id index_key less o m s d i ∙ rw same refl in
        let here' : d ≡ i = ground (arith, same) in
        let was = ap (λ j. keyed object_id index_key less o m k (o.get s.objects j)) here' in
        record {
          cover = λ h. ground (arith, h, ap (keyed object_id index_key less o m k) now);
          source = λ h. ground (
            arith,
            h,
            same,
            was,
            delete-entry s d rooted,
            ap (keyed object_id index_key less o m k) now,
            f.source,
          );
        }
    | inr other ↦
        let now : o.get (on_delete_object object_id index_key less o m s d).objects i
            ≡ o.get s.objects i =
          delete-objects object_id index_key less o m s d i ∙ rw other refl in
        record {
          cover = λ h. ground (
            arith,
            h,
            other,
            delete-entry s d rooted,
            ap (keyed object_id index_key less o m k) now,
            f.cover,
          );
          source = λ h. ground (
            arith,
            h,
            other,
            delete-entry s d rooted,
            ap (keyed object_id index_key less o m k) now,
            f.source,
          );
        }
  ]

  pub change-Fits :
      (c : Change T) (n : ℕ) (old : Option T) (s s' : Store object_id index_key less o m)
      → (is_create_of object_id c i ≡ true → (o.get s.objects i ≡ old) ⊎ (o.get s.objects i ≡ none))
      → IsRooted object_id index_key less o m s
      → Fits old s
      → consume_event object_id index_key less o m (record { event_id = n; change = c }) s ≡ ok s'
      → Fits old s'
  unfolding consume_event on_update_object
  change-Fits (create_event x) n old s s' free rooted f h =
      let e : s' ≡ on_create_object object_id index_key less o m s x = ground (arith, h) in
      rw e (create-Fits old s x free f)
  change-Fits (delete_event d) n old s s' free rooted f h =
      let e : s' ≡ on_delete_object object_id index_key less o m s d = ground (arith, h) in
      rw e (delete-Fits old s d rooted f)
  change-Fits (update_event x) n old s s' free rooted f h =
      let deleted = on_delete_object object_id index_key less o m s (object_id x) in
      let e : s' ≡ on_create_object object_id index_key less o m deleted x = ground (arith, h) in
      rw e (
        create-Fits old deleted x
          (λ same.
            inr (delete-objects object_id index_key less o m s (object_id x) i ∙ rw same refl))
          (delete-Fits old s (object_id x) rooted f))
  change-Fits other_kind n old s s' free rooted f h = absurd (ground (arith, h))
