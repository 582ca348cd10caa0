-- ===== src/State/RunLock/Exclusive.antt =====
-- What the run lock promises, and for how long.
use ya_disk_sync.Base.{
  ℕ, ◌+◌, ◌<◌, ◌≤◌, ◌≡◌, refl, true, false, some, List, [], ◌∷◌, ltb, arith, map, All,
}
use ya_disk_sync.Base.Text.{Text, ◌==◌}
use ya_disk_sync.State.RunLock.{
  LockRow, LockCall, acquires, beats, releases, new_row, try_acquire_run_lock, heartbeat_run_lock,
  release_run_lock, call_lock, call_all,
}

-- A call that is no one's with the given owner's guard; an acquisition is in time if it comes
-- before the given heartbeat is stale.
abbrev pub IsForeignInTime : Text → ℕ → LockCall → Type 0
IsForeignInTime owner deadline (acquires other now) = now ≤ deadline
IsForeignInTime owner deadline (beats guard now) = (owner == guard.owner) ≡ false
IsForeignInTime owner deadline (releases guard) = (owner == guard.owner) ≡ false

refused :
    (stale_after : ℕ) (row : LockRow) (c : LockCall)
    → IsForeignInTime row.owner (row.heartbeat_unix_seconds + stale_after) c
    → call_lock stale_after c (some row) ≡ (false, some row)
unfolding call_lock try_acquire_run_lock heartbeat_run_lock release_run_lock
refused stale_after row (acquires other now) h = rw in_time refl
  where
    in_time : ltb (row.heartbeat_unix_seconds + stale_after) now ≡ false
    in_time = ground (arith, h)
refused stale_after row (beats guard now) h = rw h refl
refused stale_after row (releases guard) h = rw h refl

-- While the heartbeat of the holder is not older than the time after which a lock is stale, no call
-- of anyone else succeeds, and the row stays as it is: nobody acquires the lock (not even the holder
-- again), and nobody with another owner's guard refreshes or releases it.
pub call_all-refused :
    (stale_after : ℕ) (row : LockRow) (calls : List LockCall)
    → All (IsForeignInTime row.owner (row.heartbeat_unix_seconds + stale_after)) calls
    → call_all stale_after calls (some row) ≡ (map (λ (c : LockCall). false) calls, some row)
unfolding call_all
call_all-refused stale_after row [] h = refl
call_all-refused stale_after row (c ∷ calls) h =
    rw (refused stale_after row c h.0, call_all-refused stale_after row calls h.1) refl

-- A holder who does not refresh the lock, as the engine never does, loses it: the first acquisition
-- after the time in which a lock gets stale succeeds, and while the new heartbeat is fresh no call of
-- anyone but the new owner does, the old holder's heartbeats and releases among them.
pub try_acquire_run_lock-replaces :
    (stale_after : ℕ) (row : LockRow) (other : Text) (now : ℕ) (calls : List LockCall)
    → row.heartbeat_unix_seconds + stale_after < now
    → All (IsForeignInTime other (now + stale_after)) calls
    → call_all stale_after (acquires other now ∷ calls) (some row)
      ≡ (true ∷ map (λ (c : LockCall). false) calls, new_row other now)
unfolding call_all call_lock try_acquire_run_lock
try_acquire_run_lock-replaces stale_after row other now calls late h =
    rw (stale, call_all-refused stale_after fresh_row calls h) refl
  where
    stale : ltb (row.heartbeat_unix_seconds + stale_after) now ≡ true
    stale = ground (arith, late)

    fresh_row : LockRow
    fresh_row = record { owner = other; heartbeat_unix_seconds = now }
