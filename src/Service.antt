-- ===== src/Service.antt =====
-- crates/yds-service/src/lib.rs: when the next run starts.
pub mod Schedule
use mathlib.Core.Option
use ya_disk_sync.Base.{ℕ, ◌+◌, ◌*◌, ◌/◌, Option, none, some, ltb, if◌then◌else◌}
use ya_disk_sync.Base.Result.{Result, ok, err, ◌>>=◌}
use ya_disk_sync.Base.Text.{Text}
use ya_disk_sync.Core.Validation.{split_once_colon, parse_u8}

-- `ServiceError::InvalidScheduleTime`
pub data ServiceError : Type 0 where
  invalid_schedule_time : Text → ServiceError

-- The start time of a `DailyUtcSchedule`.
pub record DailyUtcSchedule : Type 0 where
  pub hour : ℕ
  pub minute : ℕ

abbrev pub day_ns : ℕ
day_ns = 86400000000000

abbrev pub minute_ns : ℕ
minute_ns = 60000000000

abbrev pub or_invalid_time : {A : Type 0} → Text → Option A → Result A ServiceError
or_invalid_time value none = err (invalid_schedule_time value)
or_invalid_time value (some a) = ok a

-- `DailyUtcSchedule::parse`; `from_hms` is the function of the crate `time` for full minutes.
unfoldable pub parse :
    (ℕ → ℕ → Option DailyUtcSchedule) → Text → Result DailyUtcSchedule ServiceError
parse from_hms value = or_invalid_time value (split_once_colon value) >>= λ parts.
    or_invalid_time value (parse_u8 parts.0) >>= λ hour.
    or_invalid_time value (parse_u8 parts.1) >>= λ minute.
    or_invalid_time value (from_hms hour minute)

abbrev pub start_ns : DailyUtcSchedule → ℕ
start_ns schedule = (schedule.hour * 60 + schedule.minute) * minute_ns

-- A moment is the number of nanoseconds since some midnight of UTC.
unfoldable pub next_after : DailyUtcSchedule → ℕ → ℕ
next_after schedule now =
    let candidate = now / day_ns * day_ns + start_ns schedule in
    if ltb now candidate then candidate else candidate + day_ns
