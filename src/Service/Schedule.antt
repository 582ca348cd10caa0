-- ===== src/Service/Schedule.antt =====
-- The schedule of a configuration that passes validation.
use ya_disk_sync.Base.{
  ℕ, ◌+◌, ◌%◌, ◌<◌, ◌≤◌, ◌≡◌, refl, Bool, true, ◌&&◌, Option, none, some, ltb, nat_eq, arith,
}
use ya_disk_sync.Base.Result.{ok, ◌>>=◌}
use ya_disk_sync.Base.Text.{Text}
use ya_disk_sync.Core.Validation.{
  split_once_colon, parse_u8, byte_length, below_option, is_time_of_parts, is_valid_utc_time,
}
use ya_disk_sync.Service.{DailyUtcSchedule, day_ns, or_invalid_time, parse, start_ns, next_after}

last_two : (a b c d : Bool) → a && b && c && d ≡ true → (c ≡ true) × (d ≡ true)
last_two a b c d h = ground arith

-- The moment is the next one of the start time after `now`.
pub record IsNext (schedule : DailyUtcSchedule) (now next : ℕ) : Type 0 where
  pub later : now < next
  pub within_day : next ≤ now + day_ns
  pub at_start : next % day_ns ≡ start_ns schedule

next_after-IsNext :
    (schedule : DailyUtcSchedule) (now : ℕ)
    → schedule.hour < 24
    → schedule.minute < 60
    → IsNext schedule now (next_after schedule now)
unfolding next_after
next_after-IsNext schedule now h m = record {
  later = ground (arith, h, m);
  within_day = ground (arith, h, m);
  at_start = ground (arith, h, m);
}

-- The crate `time` accepts the hours and minutes of a day, and keeps them.
abbrev pub AcceptsTimes : (ℕ → ℕ → Option DailyUtcSchedule) → Type 0
AcceptsTimes from_hms =
    (hour minute : ℕ)
    → hour < 24
    → minute < 60
    → from_hms hour minute ≡ some (record { hour = hour; minute = minute })

-- What parse makes of the parts of a time that validation accepts.
parts_parse :
    (from_hms : ℕ → ℕ → Option DailyUtcSchedule) (accepts : AcceptsTimes from_hms) (value : Text)
    (hour minute : Option ℕ)
    → below_option 24 hour ≡ true
    → below_option 60 minute ≡ true
    → (schedule : DailyUtcSchedule) × ((or_invalid_time value hour >>= λ h.
          or_invalid_time value minute >>= λ m. or_invalid_time value (from_hms h m))
        ≡ ok schedule)
      × (schedule.hour < 24)
      × (schedule.minute < 60)
unfolding below_option
parts_parse from_hms accepts value none minute h m = cc
parts_parse from_hms accepts value (some hour) none h m = cc
parts_parse from_hms accepts value (some hour) (some minute) h m =
    let early = is_below 24 hour h in
    let below = is_below 60 minute m in
    (
      record { hour = hour; minute = minute },
      rw (accepts hour minute early below) refl,
      early,
      below,
    )
  where
    is_below : (n k : ℕ) → ltb k n ≡ true → k < n
    is_below n k e = ground (arith, e)

parse_valid :
    (from_hms : ℕ → ℕ → Option DailyUtcSchedule) (accepts : AcceptsTimes from_hms) (value : Text)
    → is_valid_utc_time value ≡ true
    → (schedule : DailyUtcSchedule) × (parse from_hms value ≡ ok schedule)
      × (schedule.hour < 24)
      × (schedule.minute < 60)
unfolding is_valid_utc_time is_time_of_parts parse
parse_valid from_hms accepts value h = go (split_once_colon value) h
  where
    go :
        (o : Option (Text × Text))
        → is_time_of_parts o ≡ true
        → (schedule : DailyUtcSchedule) × ((or_invalid_time value o >>= λ parts.
              or_invalid_time value (parse_u8 parts.0) >>= λ hour.
              or_invalid_time value (parse_u8 parts.1) >>= λ minute.
              or_invalid_time value (from_hms hour minute))
            ≡ ok schedule)
          × (schedule.hour < 24)
          × (schedule.minute < 60)
    go none e = cc
    go (some parts) e =
        let times =
          last_two (nat_eq (byte_length parts.0) 2) (nat_eq (byte_length parts.1) 2)
            (below_option 24 (parse_u8 parts.0)) (below_option 60 (parse_u8 parts.1)) e in
        parts_parse from_hms accepts value (parse_u8 parts.0) (parse_u8 parts.1) times.0 times.1

-- If the crate for times accepts the hours and minutes of a day, a start time that the validation of
-- the configuration accepts is a schedule for the scheduler, and the start that it gives for any
-- moment is later than that, by a day at most, and at the start time of its day.
pub parse-IsNext :
    (from_hms : ℕ → ℕ → Option DailyUtcSchedule) (value : Text) (now : ℕ)
    → AcceptsTimes from_hms
    → is_valid_utc_time value ≡ true
    → (schedule : DailyUtcSchedule) × (parse from_hms value ≡ ok schedule)
      × IsNext schedule now (next_after schedule now)
parse-IsNext from_hms value now accepts h =
    let (schedule, parsed, hour, minute) = parse_valid from_hms accepts value h in
    (schedule, parsed, next_after-IsNext schedule now hour minute)
