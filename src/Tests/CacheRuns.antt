-- ===== src/Tests/CacheRuns.antt =====
-- Runs of the resource cache: a load, its release by the client, and its deletion.
use solve.Prelude.{
  ℕ, ◌+◌, ◌^◌, ◌<◌, Bool, true, false, not, ◌&&◌, Option, none, some, List, [], ◌∷◌, Result, ok,
  ◌≡◌, refl, arith, if◌then◌else◌, ◌==◌, ltb, Bool-cases, inl, inr,
}
use solve.Prelude.Int.{pos}
use solve.Cache.{
  Resource, Manager, Ref, future_ref, loaded, new_manager, new_future, finish_load, release,
  delete_key, load_slow,
}
use solve.Cache.Steps.{World, Steps, stay, step, slow, finish, release_ref, delete}
use solve.Cache.Kept.{owners}
use solve.Cache.Safe.{start, is_some, is_loaded, Steps-released, load_slow_returns}

abbrev unused : Resource ℕ
unused = record { resource = none; counter = pos 0; done = false; error = none; released = 0 }

abbrev begun : World ℕ
begun = record {
  manager = new_future 7 (new_manager unused);
  refs = future_ref 0 ∷ [];
  running = (7, 0) ∷ [];
  lost = [];
}

abbrev ended : World ℕ
ended = record begun { manager = finish_load 7 0 (loaded 42) begun.manager; running = [] }

abbrev let_go : World ℕ
let_go = record ended { manager = release 0 ended.manager; refs = [] }

abbrev deleted : World ℕ
deleted = record let_go { manager = (delete_key 7 let_go.manager).1 }

begin_load :
    load_slow 7 (new_manager unused) ≡ ok (future_ref 0, some 0, new_future 7 (new_manager unused))
unfolding load_slow new_manager
begin_load = refl

run-Steps : Steps (start unused) deleted
run-Steps =
    step
      (step
        (step
          (step stay (
            slow 7 (future_ref 0) (some 0) (new_future 7 (new_manager unused))
              (λ e. absurd (ground (arith, e))) begin_load))
          (finish (7, 0) [] [] (loaded 42) refl))
        (release_ref (future_ref 0) [] [] refl))
      (delete 7)

one_used : 0 < deleted.manager.next
unfolding delete_key finish_load new_future new_manager solve.Prelude.Int.add64
    solve.Prelude.Int.◌+ℤ◌
one_used = omega arith

Steps-released_example :
    (is_some (deleted.manager.resources 0).resource
      ≡ (is_loaded (deleted.manager.resources 0) && not (owners deleted 0 == 0)))
    × ((deleted.manager.resources 0).released
        ≡ (if is_loaded (deleted.manager.resources 0) && owners deleted 0 == 0 then 1 else 0))
Steps-released_example = Steps-released unused deleted 0 run-Steps one_used

-- It was released once.
run_released : (deleted.manager.resources 0).released ≡ 1
unfolding delete_key finish_load new_future new_manager solve.Prelude.Int.add64
    solve.Prelude.Int.◌+ℤ◌
run_released = refl

few_owners : (i : ℕ) → owners begun i + 1 < 2 ^ 63
unfolding new_future new_manager
few_owners i = elim (Bool-cases (0 == i)) [
  | inl same ↦ rw same (omega arith)
  | inr other ↦ rw other (omega arith)
]

begun-Steps : Steps (start unused) begun
begun-Steps = step stay (
    slow 7 (future_ref 0) (some 0) (new_future 7 (new_manager unused))
      (λ e. absurd (ground (arith, e))) begin_load)

load_slow_returns_example :
    (ref : Ref) × (future : Option ℕ) × (m : Manager ℕ) × (load_slow 7 begun.manager
      ≡ ok (ref, future, m))
load_slow_returns_example = load_slow_returns unused begun 7 begun-Steps few_owners
