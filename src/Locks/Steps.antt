-- ===== src/Locks/Steps.antt =====
-- Clients of one table of locks, as steps in any order.
use solve.Prelude.{ℕ, ◌+◌, ◌≤◌, Bool, false, not, ◌&&◌, some, List, ◌∷◌, ◌++◌, ok, ◌≡◌, ◌==◌}
use solve.Locks.{Lock, LockTable, LockGuard, acquire_by_name, ping, release, expired}

-- The table, the clock, and the guards that clients were given.
pub record LockState : Type 0 where
  pub table : LockTable
  pub now : ℕ
  pub guards : List LockGuard

-- Time passes, and clients acquire, ping and release. What they read of the lock and the clock
-- may be old when their statement runs; a call that fails leaves the state as it is.
pub data Step : LockState → LockState → Type 0 where
  tick : (s : LockState) (d : ℕ) → Step s (record s { now = s.now + d })
  acquires :
      (s : LockState) (lock : Lock) (now later draw : ℕ) {guard : LockGuard}
      → now ≤ s.now
      → (acquire_by_name false s.table (some lock) now later draw).1 ≡ ok guard
      → Step s (record s {
        table = (acquire_by_name false s.table (some lock) now later draw).0;
        guards = guard ∷ s.guards;
      })
  pings :
      (s : LockState) (pre post : List LockGuard) (guard : LockGuard) (now later : ℕ)
      {guard' : LockGuard}
      → s.guards ≡ pre ++ guard ∷ post
      → (ping false s.table guard now later).1 ≡ ok guard'
      → Step s (record s {
        table = (ping false s.table guard now later).0;
        guards = pre ++ guard' ∷ post;
      })
  releases :
      (s : LockState) (pre post : List LockGuard) (guard : LockGuard) (now : ℕ) {guard' : LockGuard}
      → s.guards ≡ pre ++ guard ∷ post
      → (release false s.table guard now).1 ≡ ok guard'
      → Step s
          (record s { table = (release false s.table guard now).0; guards = pre ++ guard' ∷ post })

pub data Steps : LockState → LockState → Type 0 where
  done : (s : LockState) → Steps s s
  then' : {s t u : LockState} → Step s t → Steps t u → Steps s u

-- A guard of the lock `id` that has not expired.
abbrev pub is_held : ℕ → ℕ → LockGuard → Bool
is_held id now guard = guard.lock.id == id && not (expired guard now)
