-- ===== src/Locks/Exclusion.antt =====
-- internal/models/lock.go: how many guards of one lock can be held at a time.
use solve.Prelude.{
  ℕ, ◌+◌, ◌≤◌, ◌<◌, true, false, Option, none, some, List, [], ◌∷◌, ◌++◌, Result, ok, err, Error,
  ◌≡◌, refl, arith, All, All-map, All-append, count_if, count_if-append, count_if-le, count_if-zero,
  Bool-cases, inl, inr, ◌==◌, leb, ltb, Option-cases, sym, subst,
}
use solve.Locks.Steps.{
  LockState, Step, tick, acquires, pings, releases, Steps, done, then', is_held,
}
use solve.Locks.{
  Lock, LockTable, LockGuard, lock_timeout, set_lock, is_current, update, as_acquired,
  acquire_by_name, ping, release, expired,
}

All-split :
    (P : LockGuard → Type 0) (pre : List LockGuard) (guard : LockGuard) (post : List LockGuard)
    → All P (pre ++ guard ∷ post)
    → All P pre × P guard × All P post
All-split P [] guard post h = (tt, h.0, h.1)
All-split P (g ∷ pre) guard post h =
    let (a, b, c) = All-split P pre guard post h.1 in ((h.0, a), b, c)

as_acquired-err : (e : Error) {guard : LockGuard} → as_acquired (err e) ≡ ok guard → ⊥
unfolding as_acquired
as_acquired-err e h = ground arith

as_acquired-ok :
    (r : Result LockGuard) {guard : LockGuard} → as_acquired r ≡ ok guard → r ≡ ok guard
unfolding as_acquired
as_acquired-ok (ok g) h = h
as_acquired-ok (err e) h = absurd (as_acquired-err e h)

expire_at : Option Lock → Option ℕ
expire_at none = none
expire_at (some row) = some row.expire_time

module _ (id : ℕ) where
  -- A guard that has not expired expires when its row says.
  abbrev Follows : LockTable → ℕ → LockGuard → Type 0
  Follows table now guard =
      is_held id now guard ≡ true → expire_at (table id) ≡ some guard.lock.expire_time

  record IsExclusive (s : LockState) : Type 0 where
    alone : count_if (is_held id s.now) s.guards ≤ 1
    follows : All (Follows s.table s.now) s.guards

  -- an update that succeeds found the guard's expiry in the row
  update_lem :
      (table : LockTable) (guard : LockGuard) (token expire_time : ℕ) {guard' : LockGuard}
      → (update false table guard token expire_time).1 ≡ ok guard'
      → (expire_at (table guard.lock.id) ≡ some guard.lock.expire_time)
        × ((update false table guard token expire_time).0
            ≡ set_lock table (record guard.lock { token = token; expire_time = expire_time }))
        × (guard'
            ≡ record { lock = record guard.lock { token = token; expire_time = expire_time } })
  unfolding update is_current expire_at
  update_lem table guard token expire_time h = elim (Option-cases (table guard.lock.id)) [
    | inl missing ↦ absurd (ground (arith, missing))
    | inr (row, found) ↦ elim (Bool-cases (is_current guard.lock (some row))) [
      | inl current ↦ (
        ground (arith, found, current),
        ground (arith, found, current),
        ground (arith, found, current),
      )
      | inr stale ↦ absurd (ground (arith, found, stale))
    ]
  ]

  -- An update that succeeds keeps one of two: the guard it starts from had the lock, or none has.
  none_held :
      (table : LockTable) (now e : ℕ) (guards : List LockGuard)
      → All (Follows table now) guards
      → expire_at (table id) ≡ some e
      → e < now
      → count_if (is_held id now) guards ≡ 0
  unfolding expired
  none_held table now e guards h found late = count_if-zero (is_held id now) guards (
      All-map (Follows table now) (λ g. is_held id now g ≡ false) guards
        (λ g follows. ground (arith, follows, found)) h)

  count_if_zero-All :
      (now : ℕ) (guards : List LockGuard)
      → count_if (is_held id now) guards ≡ 0
      → All (λ g. is_held id now g ≡ false) guards
  count_if_zero-All now [] h = tt
  count_if_zero-All now (g ∷ gs) h = elim (Bool-cases (is_held id now g)) [
    | inl held ↦ absurd (ground (arith, held, h))
    | inr free ↦ (free, count_if_zero-All now gs (ground (arith, h, free)))
  ]

  free-Follows :
      (table : LockTable) (now : ℕ) (guards : List LockGuard)
      → All (λ g. is_held id now g ≡ false) guards
      → All (Follows table now) guards
  free-Follows table now guards h =
      All-map (λ g. is_held id now g ≡ false) (Follows table now) guards
        (λ g free held. absurd (ground (arith, free, held))) h

  kept-Follows :
      (table table' : LockTable) (now : ℕ) (guards : List LockGuard)
      → table' id ≡ table id
      → All (Follows table now) guards
      → All (Follows table' now) guards
  kept-Follows table table' now guards e h =
      All-map (Follows table now) (Follows table' now) guards (λ g f held. rw e (f held)) h

  -- What an update that succeeds leaves, where no other guard holds its lock.
  update-Exclusive :
      (table : LockTable) (now : ℕ) (pre post : List LockGuard) (guard : LockGuard)
      (token expire_time : ℕ) {guard' : LockGuard}
      → All (Follows table now) pre
      → All (Follows table now) post
      → count_if (is_held id now) pre + count_if (is_held id now) post ≤ 1
      → (guard.lock.id ≡ id → count_if (is_held id now) pre + count_if (is_held id now) post ≡ 0)
      → (update false table guard token expire_time).1 ≡ ok guard'
      → (count_if (is_held id now) (pre ++ guard' ∷ post) ≤ 1)
        × All (Follows (update false table guard token expire_time).0 now) (pre ++ guard' ∷ post)
  unfolding set_lock expire_at
  update-Exclusive table now pre post guard token expire_time {guard'} before after one alone h =
      let (_, left, made) = update_lem table guard token expire_time {guard' = guard'} h in
      let written = (update false table guard token expire_time).0 in
      let split = count_if-append (is_held id now) pre (guard' ∷ post) in
      elim (Bool-cases (guard.lock.id == id)) [
        | inl same ↦
            let zero : count_if (is_held id now) pre + count_if (is_held id now) post ≡ 0 =
              alone (ground (arith, same)) in
            (
              ground (arith, split, zero),
              All-append (Follows written now) pre (guard' ∷ post)
                  (free-Follows written now pre (count_if_zero-All now pre (omega (arith, zero))))
                  (
                    (λ _. rw left (ground (arith, same, made))),
                    free-Follows written now post
                        (count_if_zero-All now post (omega (arith, zero))),
                  ),
            )
        | inr other ↦
            let kept : written id ≡ table id = rw left (ground (arith, other)) in
            (
              ground (arith, split, other, made),
              All-append (Follows written now) pre (guard' ∷ post)
                  (kept-Follows table written now pre kept before)
                  (
                    (λ held. absurd (ground (arith, other, made, held))),
                    kept-Follows table written now post kept after,
                  ),
            )
      ]

  -- the same from a guard that a client has
  write-IsExclusive :
      (s : LockState) (pre post : List LockGuard) (guard : LockGuard) (token expire_time : ℕ)
      {guard' : LockGuard}
      → s.guards ≡ pre ++ guard ∷ post
      → IsExclusive s
      → (update false s.table guard token expire_time).1 ≡ ok guard'
      → IsExclusive (record s {
        table = (update false s.table guard token expire_time).0;
        guards = pre ++ guard' ∷ post;
      })
  unfolding expired
  write-IsExclusive s pre post guard token expire_time {guard'} e x h =
      let all' : All (Follows s.table s.now) (pre ++ guard ∷ post) = rw e at x.follows in
      let (before, _, after) = All-split (Follows s.table s.now) pre guard post all' in
      let split = count_if-append (is_held id s.now) pre (guard ∷ post) in
      let one : count_if (is_held id s.now) (pre ++ guard ∷ post) ≤ 1 = rw e at x.alone in
      let (found, _, _) = update_lem s.table guard token expire_time {guard' = guard'} h in
      let (alone', follows') =
        update-Exclusive s.table s.now pre post guard token expire_time {guard' = guard'} before
          after (ground (arith, split, one))
          (λ same. elim (Bool-cases (is_held id s.now guard)) [
            | inl held ↦ ground (arith, split, one, held)
            | inr free ↦
                let found' : expire_at (s.table id) ≡ some guard.lock.expire_time =
                  rw same at found in
                let late : guard.lock.expire_time < s.now = ground (arith, free, same) in
                omega (
                  arith,
                  none_held s.table s.now guard.lock.expire_time pre before found' late,
                  none_held s.table s.now guard.lock.expire_time post after found' late,
                )
          ])
          h in
      record { alone = alone'; follows = follows' }

  later-IsExclusive :
      (s : LockState) (d : ℕ) → IsExclusive s → IsExclusive (record s { now = s.now + d })
  unfolding expired
  later-IsExclusive s d x = record {
    alone = omega (
      arith,
      count_if-le (is_held id (s.now + d)) (is_held id s.now) s.guards
          (λ g held. ground (arith, held)),
      x.alone,
    );
    follows =
        All-map (Follows s.table s.now) (Follows s.table (s.now + d)) s.guards
          (λ g f held. f (ground (arith, held))) x.follows;
  }

  acquire_lem :
      (table : LockTable) (lock : Lock) (now later draw : ℕ) {guard : LockGuard}
      → (acquire_by_name false table (some lock) now later draw).1 ≡ ok guard
      → (lock.expire_time < now)
        × ((update false table (record { lock = lock }) (draw + 1) (later + lock_timeout)).1
            ≡ ok guard)
        × ((acquire_by_name false table (some lock) now later draw).0
            ≡ (update false table (record { lock = lock }) (draw + 1) (later + lock_timeout)).0)
  unfolding acquire_by_name as_acquired
  acquire_lem table lock now later draw h = elim (Bool-cases (leb now lock.expire_time)) [
    | inl early ↦ absurd (ground (arith, early, h))
    | inr late ↦ (
      ground (arith, late),
      as_acquired-ok
          (update false table (record { lock = lock }) (draw + 1) (later + lock_timeout)).1
          (rw late at h),
      rw late refl,
    )
  ]

  Step-IsExclusive : {s t : LockState} → Step s t → IsExclusive s → IsExclusive t
  unfolding ping release
  Step-IsExclusive (tick s d) x = later-IsExclusive s d x
  Step-IsExclusive (acquires s lock now later draw {guard} earlier h) x =
      let (late, written, left) = acquire_lem s.table lock now later draw {guard = guard} h in
      let (found, _, _) =
        update_lem s.table (record { lock = lock }) (draw + 1) (later + lock_timeout)
          {guard' = guard} written in
      let (alone', follows') =
        update-Exclusive s.table s.now [] s.guards (record { lock = lock }) (draw + 1)
          (later + lock_timeout) {guard' = guard} tt x.follows (omega (arith, x.alone))
          (λ same. omega (
            arith,
            none_held s.table s.now lock.expire_time s.guards x.follows (rw same at found)
                (omega (arith, late, earlier)),
          ))
          written in
      record {
        alone = alone';
        follows = subst (λ t. All (Follows t s.now) (guard ∷ s.guards)) (sym left) follows';
      }
  Step-IsExclusive (pings s pre post guard now later {guard'} e h) x =
      elim (Bool-cases (ltb guard.lock.expire_time now)) [
        | inl late ↦ absurd (ground (arith, late, h))
        | inr early ↦ rw early (
            write-IsExclusive s pre post guard guard.lock.token (later + lock_timeout)
              {guard' = guard'} e x (rw early at h))
      ]
  Step-IsExclusive (releases s pre post guard now {guard'} e h) x =
      elim (Bool-cases (ltb guard.lock.expire_time now)) [
        | inl late ↦ absurd (ground (arith, late, h))
        | inr early ↦
            rw early (write-IsExclusive s pre post guard 0 0 {guard' = guard'} e x (rw early at h))
      ]

  Steps-IsExclusive : {s t : LockState} → Steps s t → IsExclusive s → IsExclusive t
  Steps-IsExclusive (done s) x = x
  Steps-IsExclusive (then' step rest) x = Steps-IsExclusive rest (Step-IsExclusive step x)

-- From a state in which no client has a guard, whatever the table holds, clients that acquire,
-- ping and release in any order never hold two guards of one lock that have not expired.
pub Steps-is_held :
    (table : LockTable) (now id : ℕ) (t : LockState)
    → Steps (record { table = table; now = now; guards = [] }) t
    → count_if (is_held id t.now) t.guards ≤ 1
Steps-is_held table now id t steps =
    let x = Steps-IsExclusive id steps (record { alone = omega arith; follows = tt }) in x.alone
