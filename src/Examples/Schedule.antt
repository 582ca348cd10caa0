-- ===== src/Examples/Schedule.antt =====
-- The schedule of a configuration that starts its runs at 23:00.
use ya_disk_sync.Base.{
  ℕ, ◌≡◌, refl, true, [], ◌∷◌, ◌*◌, ltb, ◌&&◌, Option, none, some, arith, if◌then◌else◌,
}
use ya_disk_sync.Base.Result.{ok}
use ya_disk_sync.Base.Text.{Text, is_empty}
use ya_disk_sync.Core.Validation.{
  split_once_colon, byte_length, parse_digits, parse_u8, below_option, is_time_of_parts,
  is_valid_utc_time,
}
use ya_disk_sync.Service.{DailyUtcSchedule, minute_ns, parse, next_after}
use ya_disk_sync.Service.Schedule.{AcceptsTimes, IsNext, parse-IsNext}

abbrev eleven : Text
eleven = b'2' ∷ b'3' ∷ b':' ∷ b'0' ∷ b'0' ∷ []

eleven_is_valid : is_valid_utc_time eleven ≡ true
unfolding is_valid_utc_time is_time_of_parts split_once_colon byte_length parse_u8 parse_digits
    below_option is_empty
eleven_is_valid = refl

abbrev from_hms : ℕ → ℕ → Option DailyUtcSchedule
from_hms hour minute =
    if ltb hour 24 && ltb minute 60 then some (record { hour = hour; minute = minute }) else none

accepts : AcceptsTimes from_hms
accepts hour minute h m = rw (early, below) refl
  where
    early : ltb hour 24 ≡ true
    early = ground (arith, h)

    below : ltb minute 60 ≡ true
    below = ground (arith, m)

parse-IsNext_example :
    (schedule : DailyUtcSchedule) × (parse from_hms eleven ≡ ok schedule)
    × IsNext schedule (1380 * minute_ns) (next_after schedule (1380 * minute_ns))
parse-IsNext_example = parse-IsNext from_hms eleven (1380 * minute_ns) accepts eleven_is_valid
