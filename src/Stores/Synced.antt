-- ===== src/Stores/Synced.antt =====
-- internal/models/cached_store.go: what `Init` and the calls of `Sync` after it leave in a store.
use solve.Prelude.{
  ℕ, Bool, true, Option, none, List, [], ◌∷◌, Result, ok, ◌≡◌, refl, ap, ◌∙◌, arith, ◌⊎◌, inl, inr,
  ◌==◌, Bool-cases, >>=-elim,
}
use solve.Events.Handled.{run_all}
use solve.Stores.{BTreeMap, tied, map_less, IndexKey, ObjectEvent, consume_event}
use solve.Stores.Replay.{change_table, replay, is_about, change_table-about, change_table-other}
use solve.Stores.Follow.{
  Store, keyed, has_entry, is_create_of, event-objects, IsRooted, event-IsRooted,
}
use solve.Stores.Index.{IsLog, Fits, change-Fits}

module _ {T K : Type 0} (object_id : T → ℕ) (index_key : T → Option K) (less : K → K → Bool)
    (o : BTreeMap ℕ T ◌==◌) (m : BTreeMap (IndexKey K) (Unit {0}) (tied (map_less less))) where
  abbrev S : Type 0
  S = Store object_id index_key less o m

  abbrev run : List (ObjectEvent T) → S → Result S
  run = run_all (λ (e : ObjectEvent T). e.event_id) (consume_event object_id index_key less o m)

  -- A store that holds the rows of a table, and whose index has the entries of those rows and no
  -- others.
  pub record IsSynced (s : Store object_id index_key less o m) (t : ℕ → Option T) : Type 0 where
    pub rooted : IsRooted object_id index_key less o m s
    pub rows : (i : ℕ) → o.get s.objects i ≡ t i
    pub entries :
        (k : K) (i : ℕ)
        → has_entry object_id index_key less o m s k i ≡ keyed object_id index_key less o m k (t i)

  -- A store on the way from a snapshot `old` to a table `t`.
  pub record IsBehind (s : S) (old t : ℕ → Option T) : Type 0 where
    rooted : IsRooted object_id index_key less o m s
    fits : (k : K) (i : ℕ) → Fits object_id index_key less o m k i (old i) s
    at : (i : ℕ) → (o.get s.objects i ≡ old i) ⊎ (o.get s.objects i ≡ t i)

  event-IsBehind :
      (e : ObjectEvent T) (s s' : S) (old t : ℕ → Option T)
      → ((i : ℕ) → is_create_of object_id e.change i ≡ true → t i ≡ none)
      → IsBehind s old t
      → consume_event object_id index_key less o m e s ≡ ok s'
      → IsBehind s' old (change_table object_id e.change t)
  event-IsBehind e s s' old t fresh b h = record {
    rooted = event-IsRooted object_id index_key less o m e s s' b.rooted h;
    fits = λ k i.
        change-Fits object_id index_key less o m k i e.change e.event_id (old i) s s'
          (λ c. elim (b.at i) [ inl e₀ ↦ inl e₀ | inr e₁ ↦ inr (e₁ ∙ fresh i c) ]) b.rooted
          (b.fits k i) h;
    at = λ i.
        let now = event-objects object_id index_key less o m e s s' i h in
        elim (Bool-cases (is_about object_id e.change i)) [
          | inl about ↦ inr (now ∙ change_table-about object_id e.change _ t i (inl about))
          | inr other ↦ elim (b.at i) [
            | inl e₀ ↦ inl (now ∙ change_table-other object_id e.change _ i other ∙ e₀)
            | inr e₁ ↦ inr (now ∙ change_table-about object_id e.change _ t i (inr e₁))
          ]
        ];
  }

  pub run-IsBehind :
      (es : List (ObjectEvent T)) (s s' : S) (old t : ℕ → Option T)
      → IsLog object_id es t
      → IsBehind s old t
      → run es s ≡ ok s'
      → IsBehind s' old (replay object_id es t)
  run-IsBehind [] s s' old t log b h = let e : s' ≡ s = ground (arith, h) in rw e b
  run-IsBehind (e ∷ es) s s' old t log b h =
      >>=-elim (consume_event object_id index_key less o m e s) _ h
        λ u ran rest. run-IsBehind es u s' old _ log.1 (event-IsBehind e s u old t log.0 b ran) rest

  pub run-objects :
      (es : List (ObjectEvent T)) (s s' : S) (t : ℕ → Option T) (i : ℕ)
      → o.get s.objects i ≡ t i
      → run es s ≡ ok s'
      → o.get s'.objects i ≡ replay object_id es t i
  run-objects [] s s' t i k h = let e : s' ≡ s = ground (arith, h) in rw e k
  run-objects (e ∷ es) s s' t i k h =
      >>=-elim (consume_event object_id index_key less o m e s) _ h λ u ran rest.
        run-objects es u s' _ i
          (event-objects object_id index_key less o m e s u i ran
            ∙ change_table-about object_id e.change _ t i (inr k))
          rest

  pub IsSynced-IsBehind :
      (s : S) (u old t : ℕ → Option T)
      → IsSynced s u
      → ((i : ℕ) → (u i ≡ old i) ⊎ (u i ≡ t i))
      → IsBehind s old t
  IsSynced-IsBehind s u old t k at = record {
    rooted = k.rooted;
    fits = λ key i. record {
      cover = λ h.
          ground
            (arith, h, k.entries key i, ap (keyed object_id index_key less o m key) (k.rows i));
      source = λ h.
          ground
            (arith, h, k.entries key i, ap (keyed object_id index_key less o m key) (k.rows i));
    };
    at = λ i. elim (at i) [ inl e₀ ↦ inl (k.rows i ∙ e₀) | inr e₁ ↦ inr (k.rows i ∙ e₁) ];
  }

  -- Once the objects are those of a table, and nothing else was in the snapshot, so are the entries.
  pub IsBehind-IsSynced :
      (s : S) (old t u : ℕ → Option T)
      → IsBehind s old t
      → ((i : ℕ) → o.get s.objects i ≡ u i)
      → ((i : ℕ) → (old i ≡ none) ⊎ (old i ≡ u i))
      → IsSynced s u
  IsBehind-IsSynced s old t u b now was = record {
    rooted = b.rooted;
    rows = now;
    entries = λ k i.
        let f = b.fits k i in
        elim (was i) [
          | inl gone ↦ ground (
            arith,
            f.cover,
            f.source,
            ap (keyed object_id index_key less o m k) (now i),
            ap (keyed object_id index_key less o m k) gone,
          )
          | inr kept ↦ ground (
            arith,
            f.cover,
            f.source,
            ap (keyed object_id index_key less o m k) (now i),
            ap (keyed object_id index_key less o m k) kept,
          )
        ];
  }

  pub run-IsSynced :
      (es : List (ObjectEvent T)) (s s' : S) (t : ℕ → Option T)
      → IsSynced s t
      → IsLog object_id es t
      → run es s ≡ ok s'
      → IsSynced s' (replay object_id es t)
  run-IsSynced es s s' t k log h =
      IsBehind-IsSynced s' (λ i. none) _ _
        (run-IsBehind es s s' (λ i. none) t log (IsSynced-IsBehind s t _ t k (λ i. inr refl)) h)
        (λ i. run-objects es s s' t i (k.rows i) h) (λ i. inl refl)
