-- ===== src/Locks.antt =====
-- internal/models/lock.go: locks that clients hold for some seconds, as rows of a table.
--
-- The table is a function of the primary key. What a `SELECT` returned, the readings of the clock
-- and the random number are arguments. Every operation returns the table that it leaves. A
-- statement that the database fails to run is not modelled.
pub mod Steps
pub mod Exclusion
use solve.Prelude.{
  ℕ, suc, ◌+◌, String, Bool, true, false, ◌&&◌, Option, none, some, Result, ok, err, Error,
  if◌then◌else◌, ltb, leb, ◌==◌,
}

pub record Lock : Type 0 where
  pub id : ℕ
  pub name : String
  pub token : ℕ
  pub expire_time : ℕ

abbrev pub LockTable : Type 0
LockTable = ℕ → Option Lock

abbrev pub lock_timeout : ℕ
lock_timeout = 15

-- What a guard keeps besides its store and its mutex.
pub record LockGuard : Type 0 where
  pub lock : Lock

unfoldable pub set_lock : LockTable → Lock → LockTable
set_lock table lock id = if id == lock.id then some lock else table id

-- `WHERE id = … AND token = … AND expire_time = …`
unfoldable pub is_current : Lock → Option Lock → Bool
is_current lock none = false
is_current lock (some row) = row.token == lock.token && row.expire_time == lock.expire_time

unfoldable pub update : Bool → LockTable → LockGuard → ℕ → ℕ → LockTable × Result LockGuard
unfolding set_lock is_current
update in_tx table guard token expire_time =
    let lock = record guard.lock { token = token; expire_time = expire_time } in
    if in_tx
    then (table, err Error.in_transaction)
    else if is_current guard.lock (table guard.lock.id)
    then (set_lock table lock, ok (record { lock = lock }))
    else (table, err Error.lock_released)

-- `errors.Is(err, ErrLockReleased)`
unfoldable pub as_acquired : Result LockGuard → Result LockGuard
as_acquired (ok guard) = ok guard
as_acquired (err Error.lock_released) = err Error.lock_acquired
as_acquired (err e) = err e

-- The guard's lock is as it was found at `now`; it expires after `later`, the second reading.
unfoldable pub acquire_by_name :
    Bool → LockTable → Option Lock → ℕ → ℕ → ℕ → LockTable × Result LockGuard
unfolding update as_acquired
acquire_by_name in_tx table none now later draw =
    (table, err (if in_tx then Error.in_transaction else Error.no_rows))
acquire_by_name in_tx table (some lock) now later draw =
    let (table', r) =
      update in_tx table (record { lock = lock }) (draw + 1) (later + lock_timeout) in
    if in_tx
    then (table, err Error.in_transaction)
    else if leb now lock.expire_time
    then (table, err Error.lock_acquired)
    else (table', as_acquired r)

unfoldable pub ping : Bool → LockTable → LockGuard → ℕ → ℕ → LockTable × Result LockGuard
unfolding update
ping in_tx table guard now later =
    if ltb guard.lock.expire_time now
    then (table, err Error.lock_released)
    else update in_tx table guard guard.lock.token (later + lock_timeout)

unfoldable pub release : Bool → LockTable → LockGuard → ℕ → LockTable × Result LockGuard
unfolding update
release in_tx table guard now =
    if ltb guard.lock.expire_time now
    then (table, err Error.lock_released)
    else update in_tx table guard 0 0

unfoldable pub expired : LockGuard → ℕ → Bool
expired guard now = ltb guard.lock.expire_time now
