-- ===== src/Cache/Safe.antt =====
-- internal/pkg/cache/cache.go: what holds after any steps of clients and loads.
use solve.Prelude.{
  ℕ, suc, ◌+◌, ◌^◌, ◌<◌, Bool, true, false, not, ◌&&◌, Option, none, some, [], ok, ◌≡◌, refl, ap,
  ◌∙◌, arith, inl, inr, Option-cases, if◌then◌else◌, ◌==◌,
}
use solve.Prelude.Int.{pos}
use solve.Cache.{
  Resource, Manager, Ref, resource_ref, future_ref, set_resource, acquire, lookup, new_manager,
  load_known, load_fast, new_future, or_new_future, load_slow,
}
use solve.Cache.Steps.{World, Step, fast, slow, finish, release_ref, delete, Steps, stay, step}
use solve.Cache.Owned.{tally-lookup, loading}
use solve.Cache.Kept.{owners, IsConsistent, owned-below, fast-IsConsistent}
use solve.Cache.Steady.{slow-IsConsistent, release-IsConsistent, delete-IsConsistent}
use solve.Cache.Ended.{finish-IsConsistent}
use solve.Cache.Owned.{broken, held, gone, add64_1}
use solve.Prelude.Int.{add64, leb_ℤ}
use solve.Cache.Kept.{future-owned}

-- A manager that no one has used yet.
abbrev pub start : {V : Type 0} → Resource V → World V
start unused = record { manager = new_manager unused; refs = []; running = []; lost = [] }

abbrev pub is_some : {A : Type 0} → Option A → Bool
is_some none = false
is_some (some a) = true

-- A resource that was loaded without an error.
abbrev pub is_loaded : {V : Type 0} → Resource V → Bool
is_loaded r = r.done && not (is_some r.error)

module _ {V : Type 0} where
  start-IsConsistent : (unused : Resource V) → IsConsistent (start unused)
  unfolding new_manager
  start-IsConsistent unused = record {
    cells = λ i below. absurd (omega (arith, below));
    unused = λ i late. refl;
    futures = λ k i h. absurd (ground (arith, h));
    jobs = λ k i r. elim r [ ];
  }

  Step-IsConsistent : (w w' : World V) → IsConsistent w → Step w w' → IsConsistent w'
  Step-IsConsistent w w' k (fast key ref m room h) = fast-IsConsistent w key ref m k room h
  Step-IsConsistent w w' k (slow key ref future m room h) =
      slow-IsConsistent w key ref future m k room h
  Step-IsConsistent w w' k (finish job before after result e) =
      finish-IsConsistent w k job before after e result
  Step-IsConsistent w w' k (release_ref ref before after e) =
      release-IsConsistent w ref before after k e
  Step-IsConsistent w w' k (delete key) = delete-IsConsistent w key k

  Steps-IsConsistent : (unused : Resource V) (w : World V) → Steps (start unused) w → IsConsistent w
  Steps-IsConsistent unused w stay = start-IsConsistent unused
  Steps-IsConsistent unused w (step {u = u} before next) =
      Step-IsConsistent u w (Steps-IsConsistent unused u before) next

  -- Whatever clients and loads do, in any order: a resource that was loaded without an error is
  -- there as long as it has an owner, a reference that a client holds or an entry of the cache, and
  -- it was released exactly once when it has none; before it is loaded, or where loading failed,
  -- nothing is released.
  pub Steps-released :
      (unused : Resource V) (w : World V) (i : ℕ)
      → Steps (start unused) w
      → i < w.manager.next
      → (is_some (w.manager.resources i).resource
          ≡ (is_loaded (w.manager.resources i) && not (owners w i == 0)))
        × ((w.manager.resources i).released
            ≡ (if is_loaded (w.manager.resources i) && owners w i == 0 then 1 else 0))
  Steps-released unused w i s below =
      let cell = (Steps-IsConsistent unused w s).cells i below in
      elim cell.status [
        | loading a b c d e f ↦ (rw (a, b) refl, rw (a, d) refl)
        | broken x a b c d e f ↦ (rw (a, b, c) refl, rw (a, c, d) refl)
        | held v a b c d e f ↦ (rw (a, b, c) (ground (arith, f)), rw (a, c, d) (ground (arith, f)))
        | gone a b c d e f ↦ (rw (a, b, c) (ground (arith, f)), rw (a, c, d) (ground (arith, f)))
      ]

  acquire_ok :
      (w : World V) (i : ℕ)
      → IsConsistent w
      → 0 < owners w i
      → owners w i + 1 < 2 ^ 63
      → (m : Manager V) × (acquire i w.manager ≡ ok m)
  unfolding acquire
  acquire_ok w i k some' room =
      let cell = k.cells i (owned-below w i k some') in
      let counter = ap (λ c. add64 c (pos 1)) cell.count ∙ add64_1 (owners w i) room in
      let big : leb_ℤ (pos (suc (owners w i))) (pos 1) ≡ false = ground (arith, some') in
      (
        set_resource w.manager i
            (record (w.manager.resources i) { counter = pos (suc (owners w i)) }),
        rw (counter, big) refl,
      )

  -- Whatever clients and loads did before, `loadSlow` finds no resource that was released: as long
  -- as each resource has fewer than 2^63 - 1 owners, it returns a reference and does not panic.
  pub load_slow_returns :
      (unused : Resource V) (w : World V) (key : ℕ)
      → Steps (start unused) w
      → ((i : ℕ) → owners w i + 1 < 2 ^ 63)
      → (ref : Ref) × (future : Option ℕ) × (m : Manager V) × (load_slow key w.manager
          ≡ ok (ref, future, m))
  unfolding load_slow load_fast load_known or_new_future
  load_slow_returns unused w key s room =
      let k = Steps-IsConsistent unused w s in
      elim (Option-cases (lookup w.manager.cache key)) [
        | inr (r, found) ↦
            let (m, got) =
              acquire_ok w r k (omega (arith, tally-lookup w.manager.cache key r found)) (room r) in
            (resource_ref r, none, m, rw (found, got) refl)
        | inl absent ↦ elim (Option-cases (w.manager.futures key)) [
          | inr (f, pending) ↦
              let (m, got) = acquire_ok w f k (future-owned w key f k pending) (room f) in
              (future_ref f, none, m, rw (absent, pending, got) refl)
          | inl nothing ↦ (
            future_ref w.manager.next,
            some w.manager.next,
            new_future key w.manager,
            rw (absent, nothing) refl,
          )
        ]
      ]
