-- ===== src/Cache/Steady.antt =====
-- internal/pkg/cache/cache.go: every step of clients and loads keeps counters and owners in step.
use solve.Prelude.{
  ℕ, ◌+◌, Option, none, some, List, ◌∷◌, ◌++◌, ok, >>=-elim, ◌≡◌, sym, ap, ◌∙◌, arith, inl, inr,
  Option-cases, ◌==◌,
}
use solve.Cache.{
  Manager, Ref, future_ref, set_resource, release, lookup, remove, load_fast, new_future,
  or_new_future, load_slow, delete_key,
}
use solve.Cache.Steps.{ref_id, World, started, HasRoom}
use solve.Cache.Owned.{one, tally, entry_id, tally-middle, tally-remove}
use solve.Cache.Cells.{release-Cells}
use solve.Cache.Finish.{owned}
use solve.Cache.Kept.{
  base, owners, IsConsistent, fast-IsConsistent, load_fast-none, new_future-IsConsistent,
}

module _ {V : Type 0} where
  pub slow-IsConsistent :
      (w : World V) (key : ℕ) (ref : Ref) (future : Option ℕ) (m : Manager V)
      → IsConsistent w
      → (future ≡ none → HasRoom w.manager ref)
      → load_slow key w.manager ≡ ok (ref, future, m)
      → IsConsistent
          (record w { manager = m; refs = ref ∷ w.refs; running = started key future w.running })
  unfolding load_slow or_new_future
  slow-IsConsistent w key ref future m k room h =
      >>=-elim (load_fast key w.manager) _ h λ known quick h₁. elim (Option-cases known) [
        | inr ((ref', m'), found) ↦
            let h₂ = rw found at h₁ in
            let a : ref ≡ ref' = ground (arith, h₂) in
            let b : future ≡ none = ground (arith, h₂) in
            let c : m ≡ m' = ground (arith, h₂) in
            let room' = room b in
            rw (b, c)
              (fast-IsConsistent w key ref m' k room'
                (quick ∙ ap ok (found ∙ ap (λ r. some (r, m')) (sym a))))
        | inl nothing ↦
            let h₂ = rw nothing at h₁ in
            let a : ref ≡ future_ref w.manager.next = ground (arith, h₂) in
            let b : future ≡ some w.manager.next = ground (arith, h₂) in
            let c : m ≡ new_future key w.manager = ground (arith, h₂) in
            rw (a, b, c)
              (new_future-IsConsistent w key k
                (load_fast-none key w.manager (quick ∙ ap ok nothing)))
      ]

  pub release-IsConsistent :
      (w : World V) (ref : Ref) (before after : List Ref)
      → IsConsistent w
      → w.refs ≡ before ++ (ref ∷ after)
      → IsConsistent (record w { manager = release (ref_id ref) w.manager; refs = before ++ after })
  unfolding release set_resource
  release-IsConsistent w ref before after k e =
      let fewer : (i : ℕ)
          → tally ref_id w.refs i ≡ one (ref_id ref == i) + tally ref_id (before ++ after) i =
        λ i. ap (λ rs. tally ref_id rs i) e ∙ tally-middle ref_id before ref after i in
      record {
        cells =
            release-Cells w.manager (owners w) (tally entry_id w.running)
              (tally entry_id w.manager.cache)
              (λ i. owned (base (before ++ after) w.lost) w.manager (tally entry_id w.running) i) _
              (ref_id ref) k.cells (λ i. omega (arith, fewer i)) (λ i. omega arith);
        unused = λ i late. omega (arith, k.unused i late, fewer i);
        futures = k.futures;
        jobs = k.jobs;
      }

  pub delete-IsConsistent :
      (w : World V) (key : ℕ)
      → IsConsistent w
      → IsConsistent (record w { manager = (delete_key key w.manager).1 })
  unfolding delete_key release set_resource
  delete-IsConsistent w key k = elim (Option-cases (lookup w.manager.cache key)) [
    | inl absent ↦ rw (absent, delete_key) k
    | inr (r, found) ↦
        let m : Manager V = record w.manager { cache = remove w.manager.cache key } in
        let fewer = λ (i : ℕ). tally-remove w.manager.cache key r i found in
        rw (found, delete_key)
          (record {
            cells =
                release-Cells m (owners w) (tally entry_id w.running)
                  (tally entry_id w.manager.cache)
                  (λ i. owned (base w.refs w.lost) m (tally entry_id w.running) i) _ r k.cells
                  (λ i. omega (arith, fewer i)) (λ i. omega (arith, fewer i));
            unused = λ i late. omega (arith, k.unused i late, fewer i);
            futures = k.futures;
            jobs = k.jobs;
          })
  ]
