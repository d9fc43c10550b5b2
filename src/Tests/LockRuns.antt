-- ===== src/Tests/LockRuns.antt =====
-- A lock that expired at 5 is acquired at 20, and time passes.
use solve.Prelude.{
  ◌+◌, ◌≤◌, false, none, some, [], ◌∷◌, ok, ◌≡◌, refl, arith, count_if, ◌==◌, if◌then◌else◌,
}
use solve.Locks.{Lock, LockTable, LockGuard, acquire_by_name, as_acquired, update, is_current}
use solve.Locks.Steps.{LockState, Step, tick, acquires, Steps, done, then', is_held}
use solve.Locks.Exclusion.{Steps-is_held}

abbrev old_lock : Lock
old_lock = record { id = 1; name = "daemon"; token = 9; expire_time = 5 }

abbrev one_lock : LockTable
one_lock id = if id == 1 then some old_lock else none

abbrev new_guard : LockGuard
new_guard = record { lock = record { id = 1; name = "daemon"; token = 8; expire_time = 35 } }

abbrev at_start : LockState
at_start = record { table = one_lock; now = 20; guards = [] }

abbrev acquired : LockState
acquired = record {
  table = (acquire_by_name false one_lock (some old_lock) 20 20 7).0;
  now = 20;
  guards = new_guard ∷ [];
}

acquired_ok : (acquire_by_name false one_lock (some old_lock) 20 20 7).1 ≡ ok new_guard
unfolding acquire_by_name as_acquired update is_current
acquired_ok = refl

acquire-Step : Step at_start acquired
acquire-Step = acquires at_start old_lock 20 20 7 (omega arith) acquired_ok

run-Steps : Steps at_start (record acquired { now = acquired.now + 3 })
run-Steps = then' acquire-Step (then' (tick acquired 3) (done _))

Steps-is_held_example : count_if (is_held 1 (20 + 3)) (new_guard ∷ []) ≤ 1
Steps-is_held_example =
    Steps-is_held one_lock 20 1 (record acquired { now = acquired.now + 3 }) run-Steps
