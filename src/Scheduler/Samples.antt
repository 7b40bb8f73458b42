-- ===== src/Scheduler/Samples.antt =====
-- Small inputs of the scheduler, after those of src/scheduler.test.ts, and what it does on them.
use scheduleos.Base.{
  ◌+◌, ◌-◌, ◌*◌, ◌/◌, ◌%◌, ℕ, ◌≡◌, refl, true, false, List, [], ◌∷◌, map, none, some, Result, ok,
  err, String, ltb, leb, if◌then◌else◌,
}
use scheduleos.Domain.{
  Instant, iso, Timestamp, clock, Scope, SchedulingTask, Priority, SchedulingMode, TaskConfidence,
  CalendarEvent, CalendarStatus, BusyStatus, PrivacyLevel, TimeBlock, WorkingHours, SchedulePlan,
}
use scheduleos.Scheduler.Dates.{Error, hour_ms, minute_ms, day_ms}
use scheduleos.Scheduler.Plan.{get_invalid_reason}
use scheduleos.Scheduler.Place.{schedule_task, to_time_block}
use scheduleos.Scheduler.Slots.{find_slot}
use scheduleos.Scheduler.Windows.{TimeZones, LocalDate}
use scheduleos.Scheduler.Create.{CreateScheduleInput, create_schedule}

-- A time zone that is UTC: the civil date of a day count.
civil_date : ℕ → LocalDate
civil_date day =
    let z = day - 99280532 in
    let era = z / 146097 in
    let doe = z % 146097 in
    let yoe = (doe - doe / 1460 + doe / 36524 - doe / 146096) / 365 in
    let doy = doe - (365 * yoe + yoe / 4 - yoe / 100) in
    let mp = (5 * doy + 2) / 153 in
    let month = if ltb mp 10 then mp + 3 else mp - 9 in
    record {
      year = yoe + era * 400 + (if leb month 2 then 1 else 0);
      month = month;
      day = doy - (153 * mp + 2) / 5 + 1;
    }

unfoldable pub utc_zone : TimeZones
unfolding civil_date
utc_zone timezone t = record {
  date = civil_date (t / day_ms);
  hour = t % day_ms / hour_ms;
  minute = t % hour_ms / minute_ms;
}

-- 2026-07-22T00:00:00.000Z, a Wednesday.
abbrev pub midnight : Instant
midnight = 8641784678400000

abbrev pub at_hour : ℕ → Instant
at_hour h = midnight + h * hour_ms

abbrev pub demo_scope : Scope
demo_scope = record {
  tenant_id = "tenant_demo";
  workspace_id = "workspace_demo";
  user_id = "user_jordan";
}

abbrev pub base_task : SchedulingTask
base_task = record {
  id = "task";
  scope = demo_scope;
  owner_id = "user_jordan";
  title = "Demo task";
  priority = Priority.medium;
  estimated_duration_minutes = 60;
  remaining_duration_minutes = 60;
  scheduling_mode = SchedulingMode.deadline_driven;
  splittable = false;
  scheduling_eligible = true;
  blocked = false;
  waiting = false;
  confidence = TaskConfidence.confirmed;
  created_at = iso (midnight - 12 * hour_ms);
  updated_at = iso (midnight - 12 * hour_ms);
  deadline = some (iso (at_hour 21));
  earliest_start = none;
  latest_finish = none;
  minimum_block_minutes = none;
  maximum_block_minutes = none;
  preferred_block_minutes = none;
  preferred_dayparts = [];
  dependencies = [];
}

abbrev pub fixed_event : Instant → Instant → CalendarEvent
fixed_event start end = record {
  id = "event";
  scope = demo_scope;
  calendar_id = "calendar_work";
  title = "Private event";
  start = iso start;
  end = iso end;
  timezone = "UTC";
  all_day = false;
  status = CalendarStatus.confirmed;
  busy_status = BusyStatus.busy;
  movable = false;
  locked = true;
  privacy_level = PrivacyLevel.busy_only;
  version = 1;
  buffer_before_minutes = none;
  buffer_after_minutes = none;
  travel_before_minutes = none;
  travel_after_minutes = none;
}

abbrev pub demo_hours : WorkingHours
demo_hours = record {
  user_id = "user_jordan";
  timezone = "UTC";
  days_of_week = 3 ∷ [];
  start_time = clock 9 0;
  end_time = clock 17 0;
  break_windows = [];
}

abbrev pub demo_input : List SchedulingTask → List CalendarEvent → CreateScheduleInput
demo_input tasks events = record {
  scope = demo_scope;
  range_start = iso (at_hour 9);
  range_end = iso (at_hour 17);
  timezone = "UTC";
  tasks = tasks;
  calendar_events = events;
  working_hours = demo_hours;
  existing_blocks = [];
  plan_id = "plan_demo";
}

-- Where the blocks of a plan lie, for the tests.
abbrev block_times : Result Error SchedulePlan → List (String × Timestamp × Timestamp)
block_times (ok plan) = map (λ (b : TimeBlock). (b.task_id, b.start, b.end)) plan.blocks
block_times (err e) = []

abbrev pub first_task : SchedulingTask
first_task = record base_task { id = "first"; priority = Priority.high }

abbrev pub second_task : SchedulingTask
second_task = record base_task { id = "second" }

-- Opens all that a run of the scheduler computes with.
unfoldable pub program : Unit {0}
unfolding create_schedule utc_zone get_invalid_reason schedule_task find_slot to_time_block
program = tt

-- Two tasks before an event, the one of higher priority first.
two_tasks_before_event :
    block_times (
      create_schedule utc_zone
        (demo_input (second_task ∷ first_task ∷ []) (fixed_event (at_hour 11) (at_hour 12) ∷ [])))
    ≡ ("first", iso (at_hour 9), iso (at_hour 10))
      ∷ ("second", iso (at_hour 10), iso (at_hour 11))
      ∷ []
unfolding program
two_tasks_before_event = refl

-- A break from 12:00 to 13:00 in the hours from 11:00 to 15:00, and a task of 90 minutes.
after_lunch :
    block_times (
      create_schedule utc_zone
        (record (demo_input (record base_task { remaining_duration_minutes = 90 } ∷ []) []) {
          working_hours = record demo_hours {
            start_time = clock 11 0;
            end_time = clock 15 0;
            break_windows =
                record { label = "Lunch"; start_time = clock 12 0; end_time = clock 13 0 } ∷ [];
          };
        }))
    ≡ ("task", iso (at_hour 13), iso (at_hour 14 + 30 * minute_ms)) ∷ []
unfolding program
after_lunch = refl
