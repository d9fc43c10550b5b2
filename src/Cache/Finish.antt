-- ===== src/Cache/Finish.antt =====
-- internal/pkg/cache/cache.go: what the end of a load leaves of the resources.
use solve.Prelude.Int.{pos}
use solve.Prelude.{
  ℕ, ◌+◌, ◌<◌, true, false, none, some, ◌∷◌, Error, ◌≡◌, refl, ap, ◌∙◌, arith, inl, inr, Bool-cases,
  Option-cases, if◌then◌else◌, ◌==◌,
}
use solve.Cache.{
  Resource, Manager, loaded, failed, panics, set_resource, drop_counter, release, lookup, remove,
  is_future, update_cache, release_old, set_loaded, close_done, finish_load,
}
use solve.Cache.Owned.{
  one, tally, entry_id, tally-remove, tally-lookup, remove-none, loading, broken, held, gone,
  IsCounted,
}
use solve.Cache.Cells.{Cells, set-Cells, release-Cells, eq-Cells}

same_id : (f : ℕ) → (f == f) ≡ true
same_id f = ground arith

module _ {V : Type 0} where
  update_cache-ok :
      (key f : ℕ) (m : Manager V)
      → (m.resources f).error ≡ none
      → update_cache key f m ≡ (
        lookup m.cache key,
        record m {
          futures =
              if is_future (m.futures key) f
              then (λ k. if key == k then none else m.futures k)
              else m.futures;
          cache = (key, f) ∷ remove m.cache key;
        },
      )
  unfolding update_cache lookup remove is_future
  update_cache-ok key f m h = rw (h, update_cache) refl

  update_cache-failed :
      (key f : ℕ) (m : Manager V) (e : Error)
      → (m.resources f).error ≡ some e
      → update_cache key f m ≡ (
        some f,
        record m {
          futures =
              if is_future (m.futures key) f
              then (λ k. if key == k then none else m.futures k)
              else m.futures;
        },
      )
  unfolding update_cache is_future
  update_cache-failed key f m e h = rw (h, update_cache) refl

  -- The owners of resources: references and loads that panicked, cache entries, and running loads.
  abbrev pub owned : (ℕ → ℕ) → Manager V → (ℕ → ℕ) → ℕ → ℕ
  owned base m running i = base i + tally entry_id m.cache i + running i

  abbrev pub Owned : (ℕ → ℕ) → Manager V → (ℕ → ℕ) → Type 0
  Owned base m running = Cells m (owned base m running) running (tally entry_id m.cache)

  -- A running load has a resource that is being loaded.
  pub running-loading :
      (r : Resource V) (n running cached : ℕ)
      → IsCounted r n running cached
      → 0 < running
      → (r.done ≡ false)
        × (r.resource ≡ none)
        × (r.error ≡ none)
        × (r.released ≡ 0)
        × (running ≡ 1)
        × (cached ≡ 0)
  running-loading r n running cached k some' = elim k.status [
    | loading a b c d e f ↦ (a, b, c, d, e, f)
    | broken x a b c d e f ↦ absurd (omega (arith, e, some'))
    | held v a b c d e f ↦ absurd (omega (arith, e, some'))
    | gone a b c d e f ↦ absurd (omega (arith, e, some'))
  ]

  finish_ok-resources :
      (key f : ℕ) (v : V) (m : Manager V) (i : ℕ)
      → (m.resources f).error ≡ none
      → lookup m.cache key ≡ none
      → (finish_load key f (loaded v) m).resources i
        ≡ (set_resource m f (record (m.resources f) { resource = some v; done = true })).resources i
  unfolding finish_load set_loaded close_done release_old set_resource
  finish_ok-resources key f v m i good absent =
      let m₁ = set_resource m f (record (m.resources f) { resource = some v }) in
      let e : (m₁.resources f).error ≡ none = rw (same_id f) good in
      rw (update_cache-ok key f m₁ e, absent, same_id f)
        (elim (Bool-cases (f == i)) [ inl same ↦ rw same refl | inr other ↦ rw other refl ])

  pub finish_ok-next :
      (key f : ℕ) (v : V) (m : Manager V)
      → (m.resources f).error ≡ none
      → ((finish_load key f (loaded v) m).next ≡ m.next)
        × ((finish_load key f (loaded v) m).cache ≡ (key, f) ∷ remove m.cache key)
        × ((finish_load key f (loaded v) m).futures ≡ (
            if is_future (m.futures key) f
            then (λ k. if key == k then none else m.futures k)
            else m.futures))
  unfolding finish_load set_loaded close_done release_old release set_resource
  finish_ok-next key f v m good =
      let m₁ = set_resource m f (record (m.resources f) { resource = some v }) in
      let e : (m₁.resources f).error ≡ none = rw (same_id f) good in
      elim (Option-cases (lookup m.cache key)) [
        | inl absent ↦ rw (update_cache-ok key f m₁ e, absent) (refl, refl, refl)
        | inr (r, found) ↦ rw (update_cache-ok key f m₁ e, found) (refl, refl, refl)
      ]

  finish_ok-released :
      (key f r : ℕ) (v : V) (m : Manager V) (i : ℕ)
      → (m.resources f).error ≡ none
      → lookup m.cache key ≡ some r
      → (f == r) ≡ false
      → (finish_load key f (loaded v) m).resources i
        ≡ (release r (
              set_resource m f
                (record (m.resources f) { resource = some v; done = true }))).resources
            i
  unfolding finish_load set_loaded close_done release_old release set_resource
  finish_ok-released key f r v m i good found differs =
      let m₁ = set_resource m f (record (m.resources f) { resource = some v }) in
      let e : (m₁.resources f).error ≡ none = rw (same_id f) good in
      let back : (r == f) ≡ false = ground (arith, differs) in
      rw (update_cache-ok key f m₁ e, found, differs, same_id f, back)
        (elim (Bool-cases (f == i)) [
          | inl same ↦
              let apart : (r == i) ≡ false = ground (arith, same, back) in rw (same, apart) refl
          | inr other ↦ rw other refl
        ])

  -- The load of a resource that is held from then on.
  pub finish_ok-Owned :
      (base running running' : ℕ → ℕ) (key f : ℕ) (v : V) (m : Manager V)
      → Owned base m running
      → f < m.next
      → ((i : ℕ) → running i ≡ one (f == i) + running' i)
      → Owned base (finish_load key f (loaded v) m) running'
  unfolding set_resource release
  finish_ok-Owned base running running' key f v m k below runs =
      let cell = k f below in
      let (a, b, c, d, e, g) =
        running-loading (m.resources f) _ (running f) _ cell (ground (arith, runs f)) in
      let (n, entries, futures) = finish_ok-next key f v m c in
      let r₂ : Resource V = record (m.resources f) { resource = some v; done = true } in
      let live : (n' c' : ℕ) → n' ≡ owned base m running f → IsCounted r₂ n' (running' f) c' =
        λ n' c' own. record {
          count = rw own cell.count;
          fits = rw own cell.fits;
          status = held v refl refl c d (ground (arith, runs f, e)) (ground (arith, own, e));
        } in
      elim (Option-cases (lookup m.cache key)) [
        | inl absent ↦
            let tallies : (i : ℕ)
                → tally entry_id (finish_load key f (loaded v) m).cache i
                  ≡ one (f == i) + tally entry_id m.cache i =
              λ i.
                ap (λ es. tally entry_id es i)
                  (entries ∙ ap (◌∷◌ (key, f)) (remove-none m.cache key absent)) in
            eq-Cells (set_resource m f r₂) (finish_load key f (loaded v) m) (owned base m running)
              running' (λ i. one (f == i) + tally entry_id m.cache i) _ _ _ n
              (λ i. finish_ok-resources key f v m i c absent)
              (λ i. omega (arith, tallies i, runs i)) (λ i. refl) tallies
              (set-Cells m (owned base m running) running (tally entry_id m.cache)
                (owned base m running) running' _ f r₂ k (λ b'. live _ _ refl)
                (λ i other. (refl, ground (arith, runs i, other), ground (arith, other))))
        | inr (r, found) ↦
            let differs : (f == r) ≡ false =
              ground (arith, tally-lookup m.cache key r found, g, ap (tally entry_id m.cache)) in
            let tallies : (i : ℕ)
                → tally entry_id (finish_load key f (loaded v) m).cache i
                  ≡ one (f == i) + tally entry_id (remove m.cache key) i =
              λ i. ap (λ es. tally entry_id es i) entries in
            eq-Cells (release r (set_resource m f r₂)) (finish_load key f (loaded v) m)
              (λ i. owned base (finish_load key f (loaded v) m) running' i) running'
              (λ i. one (f == i) + tally entry_id (remove m.cache key) i) _ _ _ n
              (λ i. finish_ok-released key f r v m i c found differs) (λ i. refl) (λ i. refl)
              tallies
              (release-Cells (set_resource m f r₂) (owned base m running) running'
                (λ i. one (f == i) + tally entry_id m.cache i)
                (λ i. owned base (finish_load key f (loaded v) m) running' i) _ r
                (set-Cells m (owned base m running) running (tally entry_id m.cache)
                  (owned base m running) running' _ f r₂ k (λ b'. live _ _ refl)
                  (λ i other. (refl, ground (arith, runs i, other), ground (arith, other))))
                (λ i. omega (arith, tallies i, runs i, tally-remove m.cache key r i found))
                (λ i. omega (arith, tally-remove m.cache key r i found)))
      ]

  pub finish_failed-resources :
      (key f : ℕ) (e : Error) (m : Manager V)
      → (m.resources f).resource ≡ none
      → ((finish_load key f (failed e) m).next ≡ m.next)
        × ((finish_load key f (failed e) m).cache ≡ m.cache)
        × ((finish_load key f (failed e) m).futures ≡ (
            if is_future (m.futures key) f
            then (λ k. if key == k then none else m.futures k)
            else m.futures))
        × ((i : ℕ)
            → (finish_load key f (failed e) m).resources i
              ≡ (release f (
                    set_resource m f
                      (record (m.resources f) { error = some e; done = true }))).resources
                  i)
  unfolding finish_load set_loaded close_done release_old release set_resource drop_counter
  finish_failed-resources key f e m bare =
      let m₁ = set_resource m f (record (m.resources f) { error = some e }) in
      let x : (m₁.resources f).error ≡ some e = rw (same_id f) refl in
      rw (update_cache-failed key f m₁ e x, same_id f)
        (
          refl,
          refl,
          refl,
          λ i. elim (Bool-cases (f == i)) [
            | inl same ↦ rw (same, bare, drop_counter) refl
            | inr other ↦ rw other refl
          ],
        )

  -- The load of a resource that no one can have.
  pub finish_failed-Owned :
      (base running running' : ℕ → ℕ) (key f : ℕ) (e : Error) (m : Manager V)
      → Owned base m running
      → f < m.next
      → ((i : ℕ) → running i ≡ one (f == i) + running' i)
      → Owned base (finish_load key f (failed e) m) running'
  unfolding set_resource release
  finish_failed-Owned base running running' key f e m k below runs =
      let cell = k f below in
      let (a, b, c, d, r, g) =
        running-loading (m.resources f) _ (running f) _ cell (ground (arith, runs f)) in
      let (n, entries, futures, resources) = finish_failed-resources key f e m b in
      let r₂ : Resource V = record (m.resources f) { error = some e; done = true } in
      let tallies : (i : ℕ)
          → tally entry_id (finish_load key f (failed e) m).cache i ≡ tally entry_id m.cache i =
        λ i. ap (λ es. tally entry_id es i) entries in
      eq-Cells (release f (set_resource m f r₂)) (finish_load key f (failed e) m)
        (λ i. owned base m running' i) running' (tally entry_id m.cache) _ _ _ n resources
        (λ i. omega (arith, tallies i)) (λ i. refl) tallies
        (release-Cells (set_resource m f r₂) (owned base m running) running'
          (tally entry_id m.cache) (λ i. owned base m running' i) _ f
          (set-Cells m (owned base m running) running (tally entry_id m.cache)
            (owned base m running) running' (tally entry_id m.cache) f r₂ k
            (λ b'. record {
              count = cell.count;
              fits = cell.fits;
              status = broken e refl b refl d (ground (arith, runs f, r)) g;
            })
            (λ i other. (refl, ground (arith, runs i, other), omega arith)))
          (λ i. omega (arith, runs i)) (λ i. omega arith))

  -- A load that panics keeps its share.
  pub finish_panics-Owned :
      (base running running' : ℕ → ℕ) (key f : ℕ) (m : Manager V)
      → Owned base m running
      → f < m.next
      → ((i : ℕ) → running i ≡ one (f == i) + running' i)
      → Owned (λ i. one (f == i) + base i) (finish_load key f panics m) running'
  unfolding finish_load set_loaded close_done set_resource
  finish_panics-Owned base running running' key f m k below runs =
      let cell = k f below in
      let (a, b, c, d, r, g) =
        running-loading (m.resources f) _ (running f) _ cell (ground (arith, runs f)) in
      let r₂ : Resource V = record (m.resources f) {
        resource = none;
        error = some Error.panicked;
        done = true;
      } in
      eq-Cells (set_resource m f r₂) (finish_load key f panics m)
        (λ i. owned (λ j. one (f == j) + base j) m running' i) running' (tally entry_id m.cache) _ _
        _ refl
        (λ i. elim (Bool-cases (f == i)) [
          | inl same ↦ rw (same, same_id f) refl
          | inr other ↦ rw other refl
        ])
        (λ i. refl) (λ i. refl) (λ i. refl)
        (set-Cells m (owned base m running) running (tally entry_id m.cache) _ running'
          (tally entry_id m.cache) f r₂ k
          (λ b'. record {
            count = cell.count ∙ ap pos (omega (arith, runs f));
            fits = omega (arith, cell.fits, runs f);
            status = broken Error.panicked refl refl refl d (ground (arith, runs f, r)) g;
          })
          (λ i other. (omega (arith, runs i), ground (arith, runs i, other), omega arith)))
