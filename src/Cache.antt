-- ===== src/Cache.antt =====
-- internal/pkg/cache/cache.go: resources that are loaded once for each key and counted by those who
-- hold them.
--
-- A pointer to a resource, and to the future that loads it, is a number. `released` counts the
-- calls of `Release` on what the storage loaded, which returns a resource or an error. A map is a
-- function of its key, and `cache`, of which the length is asked, a list. A reference that was
-- released is no longer a reference, since a second `Release` of it does nothing.
pub mod Steps
pub mod Owned
pub mod Cells
pub mod Finish
pub mod Kept
pub mod Steady
pub mod Ended
pub mod Safe
use solve.Prelude.{
  ℕ, suc, Bool, true, false, not, ◌&&◌, Option, none, some, List, [], ◌∷◌, Result, ok, err, Error,
  ◌>>=◌, if◌then◌else◌, ◌==◌, length,
}
use solve.Prelude.Int.{ℤ, pos, negsuc, add64, leb_ℤ, eqb_ℤ}

-- `resource` and its `resourceFuture`
pub record Resource (V : Type 0) : Type 0 where
  pub resource : Option V
  pub counter : ℤ
  pub done : Bool
  pub error : Option Error
  pub released : ℕ

pub record Manager (V : Type 0) : Type 0 where
  pub cache : List (ℕ × ℕ)
  pub futures : ℕ → Option ℕ
  pub resources : ℕ → Resource V
  pub next : ℕ

-- `resourceRef`, or `resourceFutureRef`, until it is released
pub data Ref : Type 0 where
  resource_ref future_ref : ℕ → Ref

-- What `storage.Load` does.
pub data Loaded (V : Type 0) : Type 0 where
  loaded : V → Loaded V
  failed : Error → Loaded V
  panics : Loaded V

-- `m.cache[key]` and `delete(m.cache, key)`
unfoldable pub lookup : List (ℕ × ℕ) → ℕ → Option ℕ
lookup [] key = none
lookup (entry ∷ entries) key =
    let rest = lookup entries key in if entry.0 == key then some entry.1 else rest

unfoldable pub remove : List (ℕ × ℕ) → ℕ → List (ℕ × ℕ)
remove [] key = []
remove (entry ∷ entries) key =
    let rest = remove entries key in if entry.0 == key then entries else entry ∷ rest

unfoldable pub is_future : Option ℕ → ℕ → Bool
is_future none f = false
is_future (some g) f = g == f

module _ {V : Type 0} where
  unfoldable pub new_manager : Resource V → Manager V
  new_manager unused = record {
    cache = [];
    futures = λ key. none;
    resources = λ id. unused;
    next = 0;
  }

  unfoldable pub set_resource : Manager V → ℕ → Resource V → Manager V
  set_resource m id r = record m { resources = λ j. if id == j then r else m.resources j }

  unfoldable pub acquire : ℕ → Manager V → Result (Manager V)
  unfolding set_resource
  acquire id m =
      let counter = add64 (m.resources id).counter (pos 1) in
      if leb_ℤ counter (pos 1)
      then err Error.panicked
      else ok (set_resource m id (record (m.resources id) { counter = counter }))

  -- `resource.Release`
  unfoldable pub drop_counter : Resource V → Resource V
  drop_counter r =
      let counter = add64 r.counter (negsuc 0) in
      elim r.resource [
        | none ↦ record r { counter = counter }
        | some v ↦
            if eqb_ℤ counter (pos 0)
            then record r { counter = counter; resource = none; released = suc r.released }
            else record r { counter = counter }
      ]

  unfoldable pub release : ℕ → Manager V → Manager V
  unfolding set_resource drop_counter
  release id m = set_resource m id (drop_counter (m.resources id))

  -- the two lookups that `loadFast` and `loadSlow` begin with
  unfoldable pub load_known : Option ℕ → Option ℕ → Manager V → Result (Option (Ref × Manager V))
  unfolding acquire
  load_known (some r) future m = do m' ← acquire r m; ok (some (resource_ref r, m'))
  load_known none (some f) m = do m' ← acquire f m; ok (some (future_ref f, m'))
  load_known none none m = ok none

  unfoldable pub load_fast : ℕ → Manager V → Result (Option (Ref × Manager V))
  unfolding load_known lookup
  load_fast key m = load_known (lookup m.cache key) (m.futures key) m

  -- a new future, which the cache and the caller hold
  unfoldable pub new_future : ℕ → Manager V → Manager V
  unfolding set_resource
  new_future key m =
      let r : Resource V = record {
        resource = none;
        counter = pos 2;
        done = false;
        error = none;
        released = 0;
      } in
      record (set_resource m m.next r) {
        futures = λ k. if key == k then some m.next else m.futures k;
        next = suc m.next;
      }

  -- `loadSlow`: the reference, and the future whose loading is started, if one is
  unfoldable pub or_new_future :
      ℕ → Manager V → Option (Ref × Manager V) → Ref × Option ℕ × Manager V
  unfolding new_future
  or_new_future key m (some (ref, m')) = (ref, none, m')
  or_new_future key m none = (future_ref m.next, some m.next, new_future key m)

  unfoldable pub load_slow : ℕ → Manager V → Result (Ref × Option ℕ × Manager V)
  unfolding load_fast or_new_future
  load_slow key m = load_fast key m >>= λ known. ok (or_new_future key m known)

  unfoldable pub update_cache : ℕ → ℕ → Manager V → Option ℕ × Manager V
  unfolding is_future lookup remove
  update_cache key f m =
      let kept : ℕ → Option ℕ =
        if is_future (m.futures key) f
        then (λ k. if key == k then none else m.futures k)
        else m.futures in
      elim (m.resources f).error [
        | some e ↦ (some f, record m { futures = kept })
        | none ↦
            (lookup m.cache key, record m { futures = kept; cache = (key, f) ∷ remove m.cache key })
      ]

  unfoldable pub release_old : Option ℕ × Manager V → Manager V
  unfolding release
  release_old (none, m) = m
  release_old (some r, m) = release r m

  unfoldable pub set_loaded : Loaded V → Resource V → Resource V
  set_loaded (loaded v) r = record r { resource = some v }
  set_loaded (failed e) r = record r { error = some e }
  set_loaded panics r = record r { resource = none; error = some Error.panicked }

  unfoldable pub close_done : ℕ → Manager V → Manager V
  unfolding set_resource
  close_done f m = set_resource m f (record (m.resources f) { done = true })

  -- the goroutine that `loadSlow` starts, from the return of `storage.Load` on
  unfoldable pub finish_load : ℕ → ℕ → Loaded V → Manager V → Manager V
  unfolding set_loaded update_cache release_old close_done
  finish_load key f (loaded v) m =
      close_done f (
        release_old (update_cache key f (set_resource m f (set_loaded (loaded v) (m.resources f)))))
  finish_load key f (failed e) m =
      close_done f (
        release_old (update_cache key f (set_resource m f (set_loaded (failed e) (m.resources f)))))
  finish_load key f panics m = close_done f (set_resource m f (set_loaded panics (m.resources f)))

  unfoldable pub delete_key : ℕ → Manager V → Bool × Manager V
  unfolding release lookup remove
  delete_key key m = elim (lookup m.cache key) [
    | none ↦ (false, m)
    | some r ↦ (true, release r (record m { cache = remove m.cache key }))
  ]

  unfoldable pub len : Manager V → ℕ
  len m = length m.cache

  -- `Get` of a resource, and of a future that is done
  unfoldable pub get_resource : Resource V → Result V
  get_resource r = elim r.resource [ none ↦ err Error.panicked | some v ↦ ok v ]

  unfoldable pub get_ref : Ref → Manager V → Result V
  unfolding get_resource
  get_ref (resource_ref r) m = get_resource (m.resources r)
  get_ref (future_ref f) m = elim (m.resources f).error [
    | some e ↦ err e
    | none ↦ get_resource (m.resources f)
  ]
