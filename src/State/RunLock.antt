-- ===== src/State/RunLock.antt =====
-- crates/yds-state/src/lib.rs: the lock that keeps two runs apart.
pub mod Exclusive
use ya_disk_sync.Base.{
  ℕ, ◌+◌, Bool, true, false, Option, none, some, List, [], ◌∷◌, ltb, if◌then◌else◌,
}
use ya_disk_sync.Base.Text.{Text, ◌==◌}

-- The row of the table `state_locks` with the name of the run lock; the name is its primary key, so
-- there is one at most. Times are seconds of Unix; the texts of the same times are left out.
pub record LockRow : Type 0 where
  pub owner : Text
  pub heartbeat_unix_seconds : ℕ

pub record RunLockGuard : Type 0 where
  pub owner : Text

abbrev pub new_row : Text → ℕ → Option LockRow
new_row owner now = some (record { owner = owner; heartbeat_unix_seconds = now })

-- The insertion, or else the replacement of a row that is stale.
unfoldable pub try_acquire_run_lock :
    Text → ℕ → ℕ → Option LockRow → Option RunLockGuard × Option LockRow
try_acquire_run_lock owner now stale_after none =
    (some (record { owner = owner }), new_row owner now)
try_acquire_run_lock owner now stale_after (some row) =
    if ltb (row.heartbeat_unix_seconds + stale_after) now
    then (some (record { owner = owner }), new_row owner now)
    else (none, some row)

unfoldable pub heartbeat_run_lock : RunLockGuard → ℕ → Option LockRow → Bool × Option LockRow
heartbeat_run_lock guard now none = (false, none)
heartbeat_run_lock guard now (some row) =
    if row.owner == guard.owner
    then (true, some (record row { heartbeat_unix_seconds = now }))
    else (false, some row)

unfoldable pub release_run_lock : RunLockGuard → Option LockRow → Bool × Option LockRow
release_run_lock guard none = (false, none)
release_run_lock guard (some row) =
    if row.owner == guard.owner then (true, none) else (false, some row)

-- One call of any process.
pub data LockCall : Type 0 where
  acquires : Text → ℕ → LockCall
  beats : RunLockGuard → ℕ → LockCall
  releases : RunLockGuard → LockCall

-- Whether a call got what it wanted.
abbrev pub succeeds : Option RunLockGuard → Bool
succeeds none = false
succeeds (some guard) = true

unfoldable pub call_lock : ℕ → LockCall → Option LockRow → Bool × Option LockRow
call_lock stale_after (acquires owner now) row =
    let (guard, row') = try_acquire_run_lock owner now stale_after row in (succeeds guard, row')
call_lock stale_after (beats guard now) row = heartbeat_run_lock guard now row
call_lock stale_after (releases guard) row = release_run_lock guard row

-- The answers to a sequence of calls, and the row that they leave.
unfoldable pub call_all : ℕ → List LockCall → Option LockRow → List Bool × Option LockRow
call_all stale_after [] row = ([], row)
call_all stale_after (c ∷ calls) row =
    let (answer, row') = call_lock stale_after c row in
    let (answers, last) = call_all stale_after calls row' in (answer ∷ answers, last)
