-- ===== src/Cache/Steps.antt =====
-- internal/pkg/cache/cache.go: the calls of clients and the goroutines of a manager, in any order.
use solve.Prelude.{ℕ, ◌+◌, ◌^◌, ◌<◌, Option, none, some, List, ◌∷◌, ◌++◌, ok, ◌≡◌}
use solve.Prelude.Int.{pos_part}
use solve.Cache.{
  Manager, Ref, resource_ref, future_ref, Loaded, load_fast, load_slow, finish_load, release,
  delete_key,
}

abbrev pub ref_id : Ref → ℕ
ref_id (resource_ref r) = r
ref_id (future_ref f) = f

-- A load that was started: the key and the future.
abbrev pub Job : Type 0
Job = ℕ × ℕ

-- The manager, the references that clients hold, the loads that run, and those that panicked.
pub record World (V : Type 0) : Type 0 where
  pub manager : Manager V
  pub refs : List Ref
  pub running : List Job
  pub lost : List Job

abbrev pub started : ℕ → Option ℕ → List Job → List Job
started key none jobs = jobs
started key (some f) jobs = (key, f) ∷ jobs

abbrev pub panicked_jobs : {V : Type 0} → Loaded V → Job → List Job → List Job
panicked_jobs Loaded.panics job jobs = job ∷ jobs
panicked_jobs _ job jobs = jobs

-- A counter that can be incremented.
abbrev pub HasRoom : {V : Type 0} → Manager V → Ref → Type 0
HasRoom m ref = pos_part (m.resources (ref_id ref)).counter + 1 < 2 ^ 63

module _ {V : Type 0} where
  -- `slow` is a `loadSlow` at any time after a `loadFast` that found nothing.
  pub data Step (w : World V) : World V → Type 0 where
    fast :
        (key : ℕ) (ref : Ref) (m : Manager V)
        → HasRoom w.manager ref
        → load_fast key w.manager ≡ ok (some (ref, m))
        → Step w (record w { manager = m; refs = ref ∷ w.refs })
    slow :
        (key : ℕ) (ref : Ref) (future : Option ℕ) (m : Manager V)
        → (future ≡ none → HasRoom w.manager ref)
        → load_slow key w.manager ≡ ok (ref, future, m)
        → Step w
            (record w { manager = m; refs = ref ∷ w.refs; running = started key future w.running })
    finish :
        (job : Job) (before after : List Job) (result : Loaded V)
        → w.running ≡ before ++ (job ∷ after)
        → Step w (record w {
          manager = finish_load job.0 job.1 result w.manager;
          running = before ++ after;
          lost = panicked_jobs result job w.lost;
        })
    release_ref :
        (ref : Ref) (before after : List Ref)
        → w.refs ≡ before ++ (ref ∷ after)
        → Step w (record w { manager = release (ref_id ref) w.manager; refs = before ++ after })
    delete : (key : ℕ) → Step w (record w { manager = (delete_key key w.manager).1 })

  pub data Steps (w : World V) : World V → Type 0 where
    stay : Steps w w
    step : {u v : World V} → Steps w u → Step u v → Steps w v
