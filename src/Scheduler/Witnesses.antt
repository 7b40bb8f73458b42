-- ===== src/Scheduler/Witnesses.antt =====
-- Concrete inputs of the scheduler at which its theorems apply.
use scheduleos.Base.{
  ◌*◌, ◌≤◌, ℕ, ◌≡◌, ◌≢◌, refl, true, List, [], ◌∷◌, Option, none, some, Result, ok, err, arith, inl,
  inr, All, any, leb, ltb, not, ◌&&◌, suc,
}
use scheduleos.Domain.{
  Instant, iso, clock, SchedulingTask, SchedulePlan, PlanStatus, TimeBlock, WorkingHours,
}
use scheduleos.Scheduler.Dates.{Error, minute_ms}
use scheduleos.Scheduler.Slots.{BusyBlock, find_slot, matches_preferred_daypart}
use scheduleos.Scheduler.Slots.Sorted.{covers}
use scheduleos.Scheduler.Slots.Sound.{IsPlaced, find_slot-IsPlaced}
use scheduleos.Scheduler.Slots.Best.{find_slot_complete, find_slot-earliest}
use scheduleos.Scheduler.Place.{
  schedule_task, split_loop, place_input, block_limits, requested_duration, PlaceInput,
}
use scheduleos.Scheduler.Place.Ends.{
  Scheduled, schedule_task-Scheduled, schedule_task_total, split_loop-stuck,
}
use scheduleos.Scheduler.Order.{order_tasks_for_scheduling}
use scheduleos.Scheduler.Order.Distinct.{IsOrdering, order_tasks-IsOrdering}
use scheduleos.Scheduler.Order.Total.{order_tasks_total}
use scheduleos.Scheduler.Windows.{
  LocalDate, subtract_busy_block, day_windows, build_working_windows,
}
use scheduleos.Scheduler.Windows.Inside.{
  IsWindowOf, subtract_busy_block-covers, day_windows-covers, build_working_windows-inside,
}
use scheduleos.Scheduler.Capacity.{calculate_available_ms}
use scheduleos.Scheduler.Capacity.Free.{free_time, calculate_available_ms-free_time}
use scheduleos.Scheduler.Create.{CreateScheduleInput, create_schedule}
use scheduleos.Scheduler.Create.Conflicts.{HasNoConflicts, create_schedule-HasNoConflicts}
use scheduleos.Scheduler.Create.Accounts.{IsAccounted, create_schedule_accounts}
use scheduleos.Scheduler.Samples.{
  utc_zone, at_hour, demo_scope, base_task, fixed_event, demo_hours, demo_input, first_task,
  second_task, program,
}

abbrev from_to : ℕ → ℕ → BusyBlock
from_to start end = record { start = at_hour start; end = at_hour end }

-- Work from 9 to 17 with a meeting from 10 to 12.
abbrev day : List BusyBlock
day = from_to 9 17 ∷ []

abbrev meeting : List BusyBlock
meeting = from_to 10 12 ∷ []

-- A slot of two hours is found behind the meeting.
afternoon_slot : find_slot day meeting 120 (at_hour 9) (at_hour 17) [] ≡ some (from_to 12 14)
unfolding find_slot
afternoon_slot = refl

find_slot-IsPlaced_example :
    IsPlaced (at_hour 9) (at_hour 17) (120 * minute_ms) day meeting (from_to 12 14)
find_slot-IsPlaced_example =
    find_slot-IsPlaced day meeting 120 (at_hour 9) (at_hour 17) [] (from_to 12 14) (tt, tt)
      (omega arith) afternoon_slot

find_slot_complete_example : find_slot day meeting 120 (at_hour 9) (at_hour 17) [] ≢ none
find_slot_complete_example =
    find_slot_complete day meeting 120 (at_hour 9) (at_hour 17) (at_hour 13) [] (omega arith) (
      inl (record {
        opens = omega arith;
        after = omega arith;
        closes = omega arith;
        before = omega arith;
        free = (inr (omega arith), tt);
      }))

find_slot-earliest_example : at_hour 12 ≤ at_hour 13
unfolding matches_preferred_daypart
find_slot-earliest_example =
    find_slot-earliest day meeting 120 (at_hour 9) (at_hour 17) (at_hour 13) [] (from_to 12 14)
      (omega arith)
      (inl (record {
        opens = omega arith;
        after = omega arith;
        closes = omega arith;
        before = omega arith;
        free = (inr (omega arith), tt);
      }))
      afternoon_slot refl

-- A task of 90 minutes that is split into blocks of at most an hour.
abbrev split_task : SchedulingTask
split_task = record base_task {
  splittable = true;
  remaining_duration_minutes = 90;
  minimum_block_minutes = some 30;
  maximum_block_minutes = some 60;
}

abbrev or_empty : Result Error (Option (List TimeBlock)) → List TimeBlock
or_empty (ok (some blocks)) = blocks
or_empty _ = []

abbrev split_blocks : List TimeBlock
unfolding program
split_blocks = or_empty (schedule_task split_task demo_scope day meeting (at_hour 9) (at_hour 17))

split_runs :
    schedule_task split_task demo_scope day meeting (at_hour 9) (at_hour 17)
    ≡ ok (some split_blocks)
unfolding program
split_runs = refl

schedule_task-Scheduled_example :
    Scheduled split_task demo_scope day meeting (at_hour 9) (at_hour 17) split_blocks
schedule_task-Scheduled_example =
    schedule_task-Scheduled split_task demo_scope day meeting (at_hour 9) (at_hour 17) split_blocks
      (omega arith) split_runs

schedule_task_total_example :
    (o : Option (List TimeBlock)) × (schedule_task split_task demo_scope day meeting
        (at_hour 9)
        (at_hour 17)
      ≡ ok o)
unfolding block_limits
schedule_task_total_example =
    schedule_task_total split_task demo_scope day meeting (at_hour 9) (at_hour 17) refl refl
      (inl (omega arith))

-- Blocks of at least 0 and at most 0 minutes.
abbrev idle_task : SchedulingTask
idle_task = record base_task {
  splittable = true;
  minimum_block_minutes = some 0;
  maximum_block_minutes = some 0;
}

abbrev idle_input : PlaceInput
idle_input = place_input idle_task demo_scope day none none (at_hour 9) (at_hour 17)

idle_rounds : (r : ℕ) → requested_duration (block_limits idle_task) (suc r) ≡ 0
unfolding requested_duration block_limits
idle_rounds r = ground arith

split_loop-stuck_example : split_loop idle_input (block_limits idle_task) 60 60 [] 1 ≢ ok (some [])
split_loop-stuck_example =
    split_loop-stuck idle_input (block_limits idle_task) idle_rounds 60 59 [] 1 []

-- The second task needs the first.
abbrev dependent_tasks : List SchedulingTask
dependent_tasks = record second_task { dependencies = "first" ∷ [] } ∷ first_task ∷ []

order_runs :
    order_tasks_for_scheduling dependent_tasks
    ≡ ok (some (first_task ∷ record second_task { dependencies = "first" ∷ [] } ∷ []))
unfolding order_tasks_for_scheduling
order_runs = refl

order_tasks-IsOrdering_example :
    IsOrdering dependent_tasks
      (first_task ∷ record second_task { dependencies = "first" ∷ [] } ∷ [])
order_tasks-IsOrdering_example = order_tasks-IsOrdering dependent_tasks _ order_runs

order_tasks_total_example :
    (ordered : List SchedulingTask) × (order_tasks_for_scheduling dependent_tasks
      ≡ ok (some ordered))
order_tasks_total_example = order_tasks_total dependent_tasks (
  record { created = _; created_read = refl; due = inr (_, refl) },
  (record { created = _; created_read = refl; due = inr (_, refl) }, tt),
)

-- Two meetings that overlap, the later one first.
calculate_available_ms-free_time_example :
    calculate_available_ms day (from_to 11 13 ∷ from_to 10 12 ∷ [])
    ≡ free_time (from_to 11 13 ∷ from_to 10 12 ∷ []) day
calculate_available_ms-free_time_example =
    calculate_available_ms-free_time day (from_to 11 13 ∷ from_to 10 12 ∷ []) (omega arith, tt)
      (omega arith, (omega arith, tt))

subtract_busy_block-covers_example :
    any (covers (at_hour 11)) (subtract_busy_block (from_to 9 17) (from_to 10 12))
    ≡ (covers (at_hour 11) (from_to 9 17) && not (covers (at_hour 11) (from_to 10 12)))
subtract_busy_block-covers_example =
    subtract_busy_block-covers (at_hour 11) (from_to 9 17) (from_to 10 12)

-- A day with a lunch break.
abbrev lunch_hours : WorkingHours
lunch_hours = record demo_hours {
  break_windows = record { label = "Lunch"; start_time = clock 12 0; end_time = clock 13 0 } ∷ [];
}

abbrev wednesday : LocalDate
wednesday = record { year = 2026; month = 7; day = 22 }

day_windows-covers_example :
    (windows : List BusyBlock) × (day_windows utc_zone lunch_hours
        (at_hour 8)
        (at_hour 16)
        wednesday
      ≡ ok windows)
    × ((t : Instant)
        → any (covers t) windows ≡ (
            (leb (at_hour 9) t && ltb t (at_hour 17))
            && (leb (at_hour 8) t && ltb t (at_hour 16))
            && not (any (covers t) (from_to 12 13 ∷ []))))
unfolding program
day_windows-covers_example =
    day_windows-covers utc_zone lunch_hours (at_hour 8) (at_hour 16) wednesday (at_hour 9)
      (at_hour 17) (from_to 12 13 ∷ []) refl refl refl refl

abbrev or_nothing : Result Error (List BusyBlock) → List BusyBlock
or_nothing (ok windows) = windows
or_nothing (err e) = []

abbrev lunch_windows : List BusyBlock
unfolding program
lunch_windows = or_nothing (build_working_windows utc_zone lunch_hours (at_hour 8) (at_hour 16))

lunch_runs : build_working_windows utc_zone lunch_hours (at_hour 8) (at_hour 16) ≡ ok lunch_windows
unfolding program
lunch_runs = refl

build_working_windows-inside_example : All (IsWindowOf (at_hour 8) (at_hour 16)) lunch_windows
build_working_windows-inside_example =
    build_working_windows-inside utc_zone lunch_hours (at_hour 8) (at_hour 16) lunch_windows
      lunch_runs

-- Two tasks around a meeting.
abbrev demo_day : CreateScheduleInput
demo_day = demo_input (second_task ∷ first_task ∷ []) (fixed_event (at_hour 11) (at_hour 12) ∷ [])

abbrev no_plan : SchedulePlan
no_plan = record {
  id = "";
  scope = demo_scope;
  range_start = iso (at_hour 9);
  range_end = iso (at_hour 17);
  timezone = "UTC";
  status = PlanStatus.failed;
  blocks = [];
  unscheduled_tasks = [];
  capacity_warnings = [];
  explanations = [];
}

abbrev plan_of : Result Error SchedulePlan → SchedulePlan
plan_of (ok plan) = plan
plan_of (err e) = no_plan

abbrev demo_plan : SchedulePlan
demo_plan = plan_of (create_schedule utc_zone demo_day)

demo_runs : create_schedule utc_zone demo_day ≡ ok demo_plan
unfolding program
demo_runs = refl

create_schedule-HasNoConflicts_example : HasNoConflicts utc_zone demo_day demo_plan
create_schedule-HasNoConflicts_example =
    create_schedule-HasNoConflicts utc_zone demo_day demo_plan demo_runs

create_schedule_accounts_example : All (IsAccounted demo_day demo_plan) demo_day.tasks
create_schedule_accounts_example = create_schedule_accounts utc_zone demo_day demo_plan demo_runs
