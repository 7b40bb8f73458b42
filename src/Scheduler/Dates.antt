-- ===== src/Scheduler/Dates.antt =====
-- src/scheduler.ts: instants, the parsing of timestamps, and the hours that bound a daypart.
-- An instant counts from a UTC midnight, so its UTC day starts at a multiple of `day_ms`.
use scheduleos.Base.{
  ℕ, ◌+◌, ◌-◌, ◌*◌, ◌%◌, ◌≤◌, arith, String, Result, ok, err, ltb, if◌then◌else◌, Option, none,
  some,
}
use scheduleos.Domain.{Instant, Timestamp, iso, Daypart, morning, afternoon, evening}

abbrev pub minute_ms : ℕ
minute_ms = 60000

abbrev pub hour_ms : ℕ
hour_ms = 3600000

abbrev pub day_ms : ℕ
day_ms = 86400000

-- `diverges` is no error of the source: the loop of `scheduleTask` has no end.
pub data Error : Type 0 where
  invalid_iso_date : (field : String) → Error
  invalid_time : Error
  diverges : Error

abbrev pub parse_iso : Timestamp → String → Result Error Instant
parse_iso (iso t) field = ok t
parse_iso Timestamp.malformed field = err (invalid_iso_date field)

-- An optional timestamp that is read where it is there.
abbrev pub parse_optional : Option Timestamp → String → Result Error (Option Instant)
parse_optional none field = ok none
parse_optional (some (iso t)) field = ok (some t)
parse_optional (some Timestamp.malformed) field = err (invalid_iso_date field)

abbrev pub max_date : Instant → Instant → Instant
max_date a b = if ltb b a then a else b

abbrev pub min_date : Instant → Instant → Instant
min_date a b = if ltb a b then a else b

-- `?? 0` on an optional number of minutes.
abbrev pub or_zero : Option ℕ → ℕ
or_zero none = 0
or_zero (some n) = n

start_hour : Daypart → ℕ
start_hour morning = 9
start_hour afternoon = 12
start_hour evening = 17

end_hour : Daypart → ℕ
end_hour morning = 12
end_hour afternoon = 17
end_hour evening = 21

unfoldable pub daypart_start : Instant → Daypart → Instant
unfolding start_hour
daypart_start date daypart = date - date % day_ms + start_hour daypart * hour_ms

unfoldable pub daypart_end : Instant → Daypart → Instant
unfolding end_hour
daypart_end date daypart = date - date % day_ms + end_hour daypart * hour_ms

pub max_date-le_left : (a b : Instant) → a ≤ max_date a b
max_date-le_left a b = ground arith

pub max_date-le_right : (a b : Instant) → b ≤ max_date a b
max_date-le_right a b = ground arith

pub min_date-le_left : (a b : Instant) → min_date a b ≤ a
min_date-le_left a b = ground arith

pub min_date-le_right : (a b : Instant) → min_date a b ≤ b
min_date-le_right a b = ground arith
