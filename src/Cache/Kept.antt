-- ===== src/Cache/Kept.antt =====
-- internal/pkg/cache/cache.go: counters and owners over the steps of clients and loads.
use solve.Prelude.{
  ℕ, ◌+◌, ◌<◌, ◌≤◌, false, Option, none, some, List, ◌∷◌, ok, >>=-elim, ◌≡◌, refl, sym, subst, ap,
  ◌∙◌, arith, ◌⊎◌, inl, inr, Bool-cases, Option-cases, ◌==◌, ltb, In, here, there,
}
use solve.Prelude.Int.{pos}
use solve.Cache.{
  Manager, Ref, resource_ref, future_ref, set_resource, acquire, lookup, load_known, load_fast,
  new_future,
}
use solve.Cache.Steps.{ref_id, Job, World, HasRoom}
use solve.Cache.Owned.{tally, entry_id, tally-In, tally-lookup, loading, eq-IsCounted}
use solve.Cache.Cells.{acquire-Cells}
use solve.Cache.Finish.{owned, Owned}

-- The references to a resource, and the loads of it that panicked.
abbrev pub base : List Ref → List Job → ℕ → ℕ
base refs lost i = tally ref_id refs i + tally entry_id lost i

module _ {V : Type 0} where
  abbrev pub owners : World V → ℕ → ℕ
  owners w i = owned (base w.refs w.lost) w.manager (tally entry_id w.running) i

  -- Each resource has as many owners as its counter says, and the pending loads are those that the
  -- map of futures has.
  pub record IsConsistent (w : World V) : Type 0 where
    pub cells : Owned (base w.refs w.lost) w.manager (tally entry_id w.running)
    pub unused : (i : ℕ) → w.manager.next ≤ i → owners w i ≡ 0
    pub futures : (k i : ℕ) → w.manager.futures k ≡ some i → In (k, i) w.running ⊎ In (k, i) w.lost
    pub jobs : (k i : ℕ) → In (k, i) w.running → w.manager.futures k ≡ some i

  pub owned-below : (w : World V) (i : ℕ) → IsConsistent w → 0 < owners w i → i < w.manager.next
  owned-below w i k some' = elim (Bool-cases (ltb i w.manager.next)) [
    | inl yes' ↦ ground (arith, yes')
    | inr no' ↦ absurd (omega (arith, some', k.unused i (ground (arith, no'))))
  ]

  pub future-owned :
      (w : World V) (key i : ℕ) → IsConsistent w → w.manager.futures key ≡ some i → 0 < owners w i
  future-owned w key i k h = elim (k.futures key i h) [
    | inl r ↦ omega (arith, tally-In entry_id w.running (key, i) r)
    | inr l ↦ omega (arith, tally-In entry_id w.lost (key, i) l)
  ]

  pub load_fast-owned :
      (w : World V) (key : ℕ) (ref : Ref) (m : Manager V)
      → IsConsistent w
      → load_fast key w.manager ≡ ok (some (ref, m))
      → (0 < owners w (ref_id ref)) × (acquire (ref_id ref) w.manager ≡ ok m)
  unfolding load_fast load_known
  load_fast-owned w key ref m k h = elim (Option-cases (lookup w.manager.cache key)) [
    | inr (r, found) ↦ >>=-elim (acquire r w.manager) _ (rw found at h) λ m' got h₁.
        let e : ref ≡ resource_ref r = ground (arith, h₁) in
        let e' : m' ≡ m = ground (arith, h₁) in
        rw e (omega (arith, tally-lookup w.manager.cache key r found), got ∙ ap ok e')
    | inl absent ↦ elim (Option-cases (w.manager.futures key)) [
      | inr (f, pending) ↦ >>=-elim (acquire f w.manager) _ (rw (absent, pending) at h) λ m' got h₁.
          let e : ref ≡ future_ref f = ground (arith, h₁) in
          let e' : m' ≡ m = ground (arith, h₁) in
          rw e (future-owned w key f k pending, got ∙ ap ok e')
      | inl nothing ↦ absurd (ground (arith, rw (absent, nothing) at h))
    ]
  ]

  pub fast-IsConsistent :
      (w : World V) (key : ℕ) (ref : Ref) (m : Manager V)
      → IsConsistent w
      → HasRoom w.manager ref
      → load_fast key w.manager ≡ ok (some (ref, m))
      → IsConsistent (record w { manager = m; refs = ref ∷ w.refs })
  fast-IsConsistent w key ref m k room h =
      let (some', got) = load_fast-owned w key ref m k h in
      let own' : ℕ → ℕ =
        λ i. owned (base (ref ∷ w.refs) w.lost) w.manager (tally entry_id w.running) i in
      let (cells, cache, futures, next) =
        acquire-Cells w.manager m (owners w) (tally entry_id w.running)
          (tally entry_id w.manager.cache) own' (ref_id ref) k.cells
          (owned-below w (ref_id ref) k some') some' room (λ i. omega arith) got in
      record {
        cells = rw cache cells;
        unused = λ i late. elim (Bool-cases (ref_id ref == i)) [
          | inl same ↦ absurd (ground (arith, same, late, next, owned-below w (ref_id ref) k some'))
          | inr other ↦ rw cache (ground (arith, other, k.unused i (omega (arith, late, next))))
        ];
        futures =
            λ key' i e. k.futures key' i (ap (λ (f : ℕ → Option ℕ). f key') (sym futures) ∙ e);
        jobs = λ key' i r. ap (λ (f : ℕ → Option ℕ). f key') futures ∙ k.jobs key' i r;
      }

  pub load_fast-none : (key : ℕ) (m : Manager V) → load_fast key m ≡ ok none → m.futures key ≡ none
  unfolding load_fast load_known
  load_fast-none key m h = elim (Option-cases (lookup m.cache key)) [
    | inr (r, found) ↦
        >>=-elim (acquire r m) _ (rw found at h) λ m' got h₁. absurd (ground (arith, h₁))
    | inl absent ↦ elim (Option-cases (m.futures key)) [
      | inl nothing ↦ nothing
      | inr (f, pending) ↦
          >>=-elim (acquire f m) _ (rw (absent, pending) at h)
            λ m' got h₁. absurd (ground (arith, h₁))
    ]
  ]

  pub new_future-IsConsistent :
      (w : World V) (key : ℕ)
      → IsConsistent w
      → w.manager.futures key ≡ none
      → IsConsistent (record w {
        manager = new_future key w.manager;
        refs = future_ref w.manager.next ∷ w.refs;
        running = (key, w.manager.next) ∷ w.running;
      })
  unfolding new_future set_resource
  new_future-IsConsistent w key k nothing =
      let n = w.manager.next in
      record {
        cells = λ i below. elim (Bool-cases (n == i)) [
          | inl same ↦
              let e : n ≡ i = ground (arith, same) in
              let none' = k.unused i (ground (arith, e)) in
              rw same (record {
                count = ap pos (ground (arith, none'));
                fits = ground (arith, none');
                status =
                    loading refl refl refl refl (ground (arith, none')) (ground (arith, none'));
              })
          | inr other ↦ rw other (
              eq-IsCounted _ _ _ _ _ _ (omega arith) (omega arith)
                (k.cells i (ground (arith, other, below))))
        ];
        unused = λ i late.
            let other : (n == i) ≡ false = ground (arith, late) in
            rw other (omega (arith, k.unused i (omega (arith, late))));
        futures = λ key' i e. elim (Bool-cases (key == key')) [
          | inl same ↦
              let a : key ≡ key' = ground (arith, same) in
              let b : n ≡ i = ground (arith, rw same at e) in
              inl (
                subst (λ (p : ℕ × ℕ). In p ((key, n) ∷ w.running))
                  (ap (λ x. (x, n)) a ∙ ap (λ x. (key', x)) b) here)
          | inr other ↦ elim (k.futures key' i (rw other at e)) [
            | inl r ↦ inl (there r)
            | inr l ↦ inr l
          ]
        ];
        jobs = λ key' i r. new_job key' i r;
      }
    where
      new_job :
          (key' i : ℕ)
          → In (key', i) ((key, w.manager.next) ∷ w.running)
          → (new_future key w.manager).futures key' ≡ some i
      new_job key' i here = ground arith
      new_job key' i (there r) = elim (Bool-cases (key == key')) [
        | inl same ↦
            let a : key ≡ key' = ground (arith, same) in
            absurd (ground (arith, nothing, k.jobs key' i r, ap w.manager.futures a))
        | inr other ↦ rw other (k.jobs key' i r)
      ]
