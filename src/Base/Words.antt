-- ===== src/Base/Words.antt =====
-- Machine integers. A `u64` is the number itself; an `i64` is its bit pattern, a number below
-- 2 ^ 64 that stands for a negative value from 2 ^ 63 on.
use Prim.Native.Nat.{ℕ, ◌+◌, ◌^◌, ◌-◌, ◌%◌, min}
use mathlib.Core.Bool.{Bool, ◌&&◌}
use ya_disk_sync.Base.Tests.{ltb}

-- `a + b` on `i64`, which wraps round in a release build.
unfoldable pub add_i64 : ℕ → ℕ → ℕ
add_i64 a b = (a + b) % 2 ^ 64

-- `a > 0` on `i64`
unfoldable pub is_positive_i64 : ℕ → Bool
is_positive_i64 a = ltb 0 a && ltb a (2 ^ 63)

-- `a.saturating_add(b)` on `u64`
unfoldable pub saturating_add : ℕ → ℕ → ℕ
saturating_add a b = min (a + b) (2 ^ 64 - 1)

-- `i64::try_from(value).unwrap_or(i64::MAX)`
unfoldable pub u64_to_i64 : ℕ → ℕ
u64_to_i64 value = min value (2 ^ 63 - 1)
