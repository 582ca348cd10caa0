-- ===== src/Examples/Lock.antt =====
-- The run lock with two processes.
use ya_disk_sync.Base.{◌+◌, ◌<◌, ◌≤◌, ◌≡◌, refl, true, false, some, List, [], ◌∷◌, arith, map}
use ya_disk_sync.Base.Text.{Text, ◌==◌}
use ya_disk_sync.State.RunLock.{LockRow, LockCall, acquires, beats, releases, new_row, call_all}
use ya_disk_sync.State.RunLock.Exclusive.{call_all-refused, try_acquire_run_lock-replaces}

abbrev first : Text
first = b'a' ∷ []

abbrev second : Text
second = b'b' ∷ []

-- The first owner holds the lock since the time 100, and a lock is stale after 50.
abbrev held : LockRow
held = record { owner = first; heartbeat_unix_seconds = 100 }

abbrev second_calls : List LockCall
second_calls = acquires second 150 ∷ releases (record { owner = second }) ∷ []

call_all-refused_example :
    call_all 50 second_calls (some held) ≡ (map (λ (c : LockCall). false) second_calls, some held)
unfolding ◌==◌
call_all-refused_example = call_all-refused 50 held second_calls (in_time, (refl, tt))
  where
    in_time : 150 ≤ 100 + 50
    in_time = ground arith

abbrev first_calls : List LockCall
first_calls = beats (record { owner = first }) 160 ∷ releases (record { owner = first }) ∷ []

try_acquire_run_lock-replaces_example :
    call_all 50 (acquires second 151 ∷ first_calls) (some held)
    ≡ (true ∷ map (λ (c : LockCall). false) first_calls, new_row second 151)
unfolding ◌==◌
try_acquire_run_lock-replaces_example =
    try_acquire_run_lock-replaces 50 held second 151 first_calls late (refl, (refl, tt))
  where
    late : 100 + 50 < 151
    late = ground arith
