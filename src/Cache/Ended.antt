-- ===== src/Cache/Ended.antt =====
-- internal/pkg/cache/cache.go: the end of a load keeps counters and owners in step.
use solve.Prelude.{
  ℕ, ◌+◌, ◌<◌, ◌≤◌, true, Option, none, some, List, [], ◌∷◌, ◌++◌, ◌≡◌, refl, sym, subst, ap, ◌∙◌,
  arith, ◌⊎◌, inl, inr, Bool-cases, if◌then◌else◌, ◌==◌, In, here, there,
}
use solve.Cache.{
  Loaded, loaded, failed, panics, set_resource, remove, is_future, finish_load, close_done,
  set_loaded,
}
use solve.Cache.Steps.{Job, World, panicked_jobs}
use solve.Cache.Owned.{
  one, tally, entry_id, tally-middle, tally-In, In-middle, middle-In, middle-there, eq-IsCounted,
}
use solve.Cache.Finish.{
  finish_ok-next, finish_ok-Owned, finish_failed-resources, finish_failed-Owned,
  finish_panics-Owned, running-loading,
}
use solve.Cache.Kept.{base, IsConsistent, owned-below}

is_future-same : (f : ℕ) → is_future (some f) f ≡ true
unfolding is_future
is_future-same f = ground arith

tally-remove_le :
    (entries : List (ℕ × ℕ)) (key i : ℕ)
    → tally entry_id (remove entries key) i ≤ tally entry_id entries i
unfolding remove
tally-remove_le [] key i = omega arith
tally-remove_le (entry ∷ entries) key i = ground (arith, tally-remove_le entries key i)

module _ {V : Type 0} where
  module _ (w : World V) (k : IsConsistent w) (job : Job) (before after : List Job)
      (e : w.running ≡ before ++ (job ∷ after)) where
    mine : In job w.running
    mine = subst (In job) (sym e) (middle-In entry_id before job after)

    runs :
        (i : ℕ) → tally entry_id w.running i ≡ one (job.1 == i) + tally entry_id (before ++ after) i
    runs i = ap (λ rs. tally entry_id rs i) e ∙ tally-middle entry_id before job after i

    below : job.1 < w.manager.next
    below = owned-below w job.1 k (ground (arith, tally-In entry_id w.running job mine))

    alone : tally entry_id (before ++ after) job.1 ≡ 0
    alone =
        let r =
          running-loading (w.manager.resources job.1) _ _ _ (k.cells job.1 below)
            (ground (arith, tally-In entry_id w.running job mine)) in
        ground (arith, r, runs job.1)

    taken : (w.manager.futures job.0 ≡ some job.1)
    taken = k.jobs job.0 job.1 mine

    still : (k' i : ℕ) → In (k', i) (before ++ after) → w.manager.futures k' ≡ some i
    still k' i r =
        k.jobs k' i (subst (In (k', i)) (sym e) (middle-there entry_id before job (k', i) after r))

    cleared-futures :
        (F : ℕ → Option ℕ) (k' i : ℕ)
        → F ≡ (
            if is_future (w.manager.futures job.0) job.1
            then (λ k. if job.0 == k then none else w.manager.futures k)
            else w.manager.futures)
        → F k' ≡ some i
        → In (k', i) (before ++ after) ⊎ In (k', i) w.lost
    cleared-futures F k' i eq h =
        let is : is_future (w.manager.futures job.0) job.1 ≡ true =
          ap (λ o. is_future o job.1) taken ∙ is_future-same job.1 in
        let h' : (if job.0 == k' then none else w.manager.futures k') ≡ some i =
          sym (ap (λ (G : ℕ → Option ℕ). G k') eq ∙ rw is refl) ∙ h in
        elim (Bool-cases (job.0 == k')) [
          | inl same ↦ absurd (ground (arith, rw same at h'))
          | inr other ↦ elim (k.futures k' i (rw other at h')) [
            | inr l ↦ inr l
            | inl r ↦ elim (In-middle entry_id before job (k', i) after (subst (In (k', i)) e r)) [
              | inl p ↦ absurd (ground (arith, other, ap (λ (q : ℕ × ℕ). q.0) p))
              | inr r' ↦ inl r'
            ]
          ]
        ]

    cleared-jobs :
        (F : ℕ → Option ℕ) (k' i : ℕ)
        → F ≡ (
            if is_future (w.manager.futures job.0) job.1
            then (λ k. if job.0 == k then none else w.manager.futures k)
            else w.manager.futures)
        → In (k', i) (before ++ after)
        → F k' ≡ some i
    cleared-jobs F k' i eq r =
        let is : is_future (w.manager.futures job.0) job.1 ≡ true =
          ap (λ o. is_future o job.1) taken ∙ is_future-same job.1 in
        let now : F k' ≡ (if job.0 == k' then none else w.manager.futures k') =
          ap (λ (G : ℕ → Option ℕ). G k') eq ∙ rw is refl in
        elim (Bool-cases (job.0 == k')) [
          | inr other ↦ now ∙ rw other (still k' i r)
          | inl same ↦
              let a : job.0 ≡ k' = ground (arith, same) in
              let b : job.1 ≡ i = ground (arith, taken, still k' i r, ap w.manager.futures a) in
              absurd (ground (arith, alone, tally-In entry_id (before ++ after) (k', i) r, b))
        ]

    pub finish-IsConsistent :
        (result : Loaded V)
        → IsConsistent (record w {
          manager = finish_load job.0 job.1 result w.manager;
          running = before ++ after;
          lost = panicked_jobs result job w.lost;
        })
    unfolding finish_load close_done set_loaded set_resource
    finish-IsConsistent (loaded v) =
        let r =
          running-loading (w.manager.resources job.1) _ _ _ (k.cells job.1 below)
            (ground (arith, tally-In entry_id w.running job mine)) in
        let (n, entries, futures) = finish_ok-next job.0 job.1 v w.manager r.2 in
        record {
          cells =
              finish_ok-Owned (base w.refs w.lost) (tally entry_id w.running)
                (tally entry_id (before ++ after)) job.0 job.1 v w.manager k.cells below runs;
          unused = λ i late.
              let late' : w.manager.next ≤ i = omega (arith, late, n) in
              let t : tally entry_id (finish_load job.0 job.1 (loaded v) w.manager).cache i
                  ≡ one (job.1 == i) + tally entry_id (remove w.manager.cache job.0) i =
                ap (λ es. tally entry_id es i) entries in
              omega (arith, t, k.unused i late', runs i, tally-remove_le w.manager.cache job.0 i);
          futures = λ k' i h. cleared-futures _ k' i futures h;
          jobs = λ k' i h. cleared-jobs _ k' i futures h;
        }
    finish-IsConsistent (failed x) =
        let r =
          running-loading (w.manager.resources job.1) _ _ _ (k.cells job.1 below)
            (ground (arith, tally-In entry_id w.running job mine)) in
        let (n, entries, futures, resources) =
          finish_failed-resources job.0 job.1 x w.manager r.1 in
        record {
          cells =
              finish_failed-Owned (base w.refs w.lost) (tally entry_id w.running)
                (tally entry_id (before ++ after)) job.0 job.1 x w.manager k.cells below runs;
          unused = λ i late.
              let late' : w.manager.next ≤ i = omega (arith, late, n) in
              let t : tally entry_id (finish_load job.0 job.1 (failed x) w.manager).cache i
                  ≡ tally entry_id w.manager.cache i =
                ap (λ es. tally entry_id es i) entries in
              omega (arith, t, k.unused i late', runs i);
          futures = λ k' i h. cleared-futures _ k' i futures h;
          jobs = λ k' i h. cleared-jobs _ k' i futures h;
        }
    finish-IsConsistent panics = record {
      cells = λ i late. eq-IsCounted _ _ _ _ _ _ (omega arith) refl (
          finish_panics-Owned (base w.refs w.lost) (tally entry_id w.running)
            (tally entry_id (before ++ after)) job.0 job.1 w.manager k.cells below runs i late);
      unused = λ i late. omega (arith, k.unused i late, runs i);
      futures = λ k' i h. elim (k.futures k' i h) [
        | inr l ↦ inr (there l)
        | inl r ↦ elim (In-middle entry_id before job (k', i) after (subst (In (k', i)) e r)) [
          | inl p ↦ inr (subst (λ (q : ℕ × ℕ). In q (job ∷ w.lost)) (sym p) here)
          | inr r' ↦ inl r'
        ]
      ];
      jobs = still;
    }
