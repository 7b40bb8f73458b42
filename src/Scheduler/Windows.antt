-- ===== src/Scheduler/Windows.antt =====
-- src/scheduler.ts: `buildWorkingWindows`. What `Intl.DateTimeFormat` answers is a parameter: for
-- a time zone, the parts of the local time at an instant. A zone that it does not know is left out.
pub mod Inside
use scheduleos.Base.{
  ◌+◌, ◌-◌, ◌*◌, ◌/◌, ◌%◌, ◌==◌, ℕ, zero, suc, Bool, true, false, ◌&&◌, ◌||◌, not, List, [], ◌∷◌,
  ◌++◌, Result, ok, err, ◌>>=◌, leb, ltb, if◌then◌else◌, sort_by, compare, Ordering, filter, any,
  flat_map, String,
}
use scheduleos.Domain.{Instant, TimeText, clock, WorkingHours, BreakWindow}
use scheduleos.Scheduler.Dates.{Error, invalid_time, minute_ms, hour_ms, day_ms, max_date, min_date}
use scheduleos.Scheduler.Slots.{BusyBlock}

pub record LocalDate : Type 0 where
  pub year : ℕ
  pub month : ℕ
  pub day : ℕ

pub record LocalDateTime : Type 0 where
  pub date : LocalDate
  pub hour : ℕ
  pub minute : ℕ

abbrev pub TimeZones : Type 0
TimeZones = String → Instant → LocalDateTime

-- The day of `Date.UTC`, counted from the first day of a `Date`. The year starts in March, and 400
-- years are added first, so that the first months of the year 0 have a year before them.
utc_day : LocalDate → ℕ
utc_day d =
    let year = if ltb d.year 100 then d.year + 1900 else d.year in
    let y = if leb d.month 2 then year + 399 else year + 400 in
    let day_of_year = (153 * ((d.month + 9) % 12) + 2) / 5 + d.day - 1 in
    100000000 + (365 * y + y / 4 - y / 100 + y / 400 + day_of_year) - 865565

utc_instant : LocalDate → ℕ → ℕ → Instant
unfolding utc_day
utc_instant d hour minute = utc_day d * day_ms + hour * hour_ms + minute * minute_ms

-- `getUTCDay` of that day, Sunday first. The first day of a `Date` is a Tuesday.
pub weekday : LocalDate → ℕ
unfolding utc_day
weekday d = (utc_day d + 2) % 7

normalize_hour : ℕ → ℕ
normalize_hour hour = if hour == 24 then 0 else hour

pub parse_time : TimeText → Result Error (ℕ × ℕ)
parse_time TimeText.malformed = err invalid_time
parse_time (clock hour minute) =
    if ltb 23 hour || ltb 59 minute then err invalid_time else ok (hour, minute)

same_date : LocalDate → LocalDate → Bool
same_date a b = a.year == b.year && (a.month == b.month && a.day == b.day)

abbrev compare_dates : LocalDate → LocalDate → Ordering
compare_dates a b = compare (utc_day a) (utc_day b)

-- `datesByKey.set(key, date)`: a key that is there keeps its place.
add_date : List LocalDate → LocalDate → List LocalDate
unfolding same_date
add_date dates d = if any (same_date d) dates then dates else dates ++ d ∷ []

abbrev step_ms : ℕ
step_ms = 6 * hour_ms

abbrev margin_ms : ℕ
margin_ms = 36 * hour_ms

unfoldable pub subtract_busy_block : BusyBlock → BusyBlock → List BusyBlock
subtract_busy_block window busy =
    let before : BusyBlock = record {
      start = window.start;
      end = min_date busy.start window.end;
    } in
    let after : BusyBlock = record { start = max_date busy.end window.start; end = window.end } in
    if leb busy.end window.start || leb window.end busy.start
    then window ∷ []
    else filter (λ (item : BusyBlock). ltb item.start item.end)
        ((if ltb window.start busy.start then before ∷ [] else [])
          ++ (if ltb busy.end window.end then after ∷ [] else []))

module _ (zones : TimeZones) where
  get_local_date_time : Instant → String → LocalDateTime
  unfolding normalize_hour
  get_local_date_time date timezone =
      let parts = zones timezone date in record parts { hour = normalize_hour parts.hour }

  -- `while (cursor <= end)`, on fuel: `dates` is the map so far.
  local_dates_from : ℕ → Instant → Instant → String → List LocalDate → List LocalDate
  unfolding get_local_date_time add_date
  local_dates_from zero cursor end timezone dates = dates
  local_dates_from (suc fuel) cursor end timezone dates =
      let dates' = add_date dates (get_local_date_time cursor timezone).date in
      let rest = local_dates_from fuel (cursor + step_ms) end timezone dates' in
      if leb cursor end then rest else dates

  enumerate_local_dates : String → Instant → Instant → List LocalDate
  unfolding local_dates_from utc_day sort_by
  enumerate_local_dates timezone range_start range_end =
      let cursor = range_start - margin_ms in
      let end = range_end + margin_ms in
      sort_by compare_dates (local_dates_from ((end - cursor) / step_ms + 1) cursor end timezone [])

  -- The loop of `localTimeToUtc`: `attempts` are left, and the local time wanted is `desired`.
  adjust : ℕ → Instant → Instant → String → Instant
  unfolding get_local_date_time utc_instant
  adjust zero desired candidate timezone = candidate
  adjust (suc attempts) desired candidate timezone =
      let local = get_local_date_time candidate timezone in
      let actual = utc_instant local.date local.hour local.minute in
      let next = adjust attempts desired (candidate + desired - actual) timezone in
      if desired == actual then candidate else next

  pub local_time_to_utc : LocalDate → TimeText → String → Result Error Instant
  unfolding adjust parse_time
  local_time_to_utc date time timezone = do
    (hour, minute) ← parse_time time
    let desired = utc_instant date hour minute
    ok (adjust 3 desired desired timezone)

  pub break_block : LocalDate → String → BreakWindow → Result Error BusyBlock
  unfolding local_time_to_utc
  break_block date timezone break_window = do
    start ← local_time_to_utc date break_window.start_time timezone
    end ← local_time_to_utc date break_window.end_time timezone
    ok (record { start = start; end = end })

  pub subtract_break_windows :
      LocalDate → String → List BreakWindow → List BusyBlock → Result Error (List BusyBlock)
  unfolding break_block subtract_busy_block
  subtract_break_windows date timezone [] available = ok available
  subtract_break_windows date timezone (break_window ∷ rest) available = do
    busy ← break_block date timezone break_window
    subtract_break_windows date timezone rest
        (flat_map (λ window. subtract_busy_block window busy) available)

  -- The windows of a local date that is a working day.
  pub working_day_windows :
      WorkingHours → Instant → Instant → LocalDate → Result Error (List BusyBlock)
  unfolding subtract_break_windows
  working_day_windows hours range_start range_end date = do
    start ← local_time_to_utc date hours.start_time hours.timezone
    end ← local_time_to_utc date hours.end_time hours.timezone
    let window : BusyBlock = record {
      start = max_date start range_start;
      end = min_date end range_end;
    }
    let broken = subtract_break_windows date hours.timezone hours.break_windows (window ∷ [])
    if ltb window.start window.end then broken else ok []

  -- The body of the loop over the local dates.
  pub day_windows : WorkingHours → Instant → Instant → LocalDate → Result Error (List BusyBlock)
  unfolding working_day_windows weekday
  day_windows hours range_start range_end date =
      if any (λ day. day == weekday date) hours.days_of_week
      then working_day_windows hours range_start range_end date
      else ok []

  pub days_windows :
      WorkingHours → Instant → Instant → List LocalDate → Result Error (List BusyBlock)
  unfolding day_windows
  days_windows hours range_start range_end [] = ok []
  days_windows hours range_start range_end (date ∷ dates) = do
    windows ← day_windows hours range_start range_end date
    rest ← days_windows hours range_start range_end dates
    ok (windows ++ rest)

  unfoldable pub build_working_windows :
      WorkingHours → Instant → Instant → Result Error (List BusyBlock)
  unfolding days_windows enumerate_local_dates
  build_working_windows hours range_start range_end =
      days_windows hours range_start range_end
        (enumerate_local_dates hours.timezone range_start range_end)
