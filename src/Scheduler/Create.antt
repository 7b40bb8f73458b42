-- ===== src/Scheduler/Create.antt =====
-- src/scheduler.ts: `createSchedule` plans the tasks of a range around what is fixed.
pub mod Conflicts
pub mod Accounts
pub mod Identity
use scheduleos.Base.{
  ◌+◌, ◌-◌, ◌*◌, ◌==◌, ◌<◌, ℕ, zero, suc, Bool, true, false, ◌&&◌, ◌||◌, not, List, [], ◌∷◌, ◌++◌,
  map, Option, none, some, Result, ok, err, ◌>>=◌, leb, ltb, if◌then◌else◌, sort_by,
  sort_by_throwing, compare, Ordering, filter, any, flat_map, length, String, str_eq, join,
  traverse,
}
use scheduleos.Domain.{
  Instant, Timestamp, Scope, SchedulingTask, SchedulingMode, CalendarEvent, CalendarStatus,
  BusyStatus, TimeBlock, BlockStatus, WorkingHours, CapacityWarning, WarningCode,
  SchedulingExplanation, ExplanationType, SchedulePlan, PlanStatus, Reason, UnscheduledTask,
}
use scheduleos.Scheduler.Dates.{Error, diverges, minute_ms, parse_iso, or_zero}
use scheduleos.Scheduler.Slots.{BusyBlock, compare_busy_blocks}
use scheduleos.Scheduler.Place.{time_block_to_busy_block}
use scheduleos.Scheduler.Plan.{Progress, PlanContext, plan_tasks}
use scheduleos.Scheduler.Order.{order_tasks_for_scheduling}
use scheduleos.Scheduler.Windows.{TimeZones, build_working_windows}
use scheduleos.Scheduler.Capacity.{calculate_available_ms}

-- The plan's id is an argument of `createSchedule` here: its default cleans up the other fields by
-- regular expressions.
pub record CreateScheduleInput : Type 0 where
  pub scope : Scope
  pub range_start : Timestamp
  pub range_end : Timestamp
  pub timezone : String
  pub tasks : List SchedulingTask
  pub calendar_events : List CalendarEvent
  pub working_hours : WorkingHours
  pub existing_blocks : List TimeBlock
  pub plan_id : String

abbrev pub is_cancelled : CalendarStatus → Bool
is_cancelled CalendarStatus.cancelled = true
is_cancelled _ = false

abbrev pub is_free : BusyStatus → Bool
is_free BusyStatus.free = true
is_free _ = false

abbrev pub is_locked_status : BlockStatus → Bool
is_locked_status BlockStatus.locked = true
is_locked_status _ = false

-- The buffers and the travel time of an event are busy too. A start before the first instant of a
-- `Date` is taken for that instant.
unfoldable pub event_to_busy_block : CalendarEvent → Result Error (List BusyBlock)
event_to_busy_block event =
    let busy = (do
      start ← parse_iso event.start "event.start"
      end ← parse_iso event.end "event.end"
      ok (
          record {
            start =
                start
                - (or_zero event.buffer_before_minutes + or_zero event.travel_before_minutes)
                  * minute_ms;
            end =
                end
                + (or_zero event.buffer_after_minutes + or_zero event.travel_after_minutes)
                  * minute_ms;
          }
          ∷ [])) in
    if is_cancelled event.status || is_free event.busy_status then ok [] else busy

events_to_busy_blocks : List CalendarEvent → Result Error (List BusyBlock)
unfolding event_to_busy_block
events_to_busy_blocks [] = ok []
events_to_busy_blocks (event ∷ events) = do
  blocks ← event_to_busy_block event
  rest ← events_to_busy_blocks events
  ok (blocks ++ rest)

abbrev pub is_locked_block : TimeBlock → Bool
is_locked_block block = block.locked || is_locked_status block.status

abbrev preserved_explanation : TimeBlock → SchedulingExplanation
preserved_explanation block = record {
  type = ExplanationType.block_preserved;
  task_id = some block.task_id;
  block_id = some block.id;
}

-- `input.tasks.filter(...).reduce(...)`: the tasks that are not among the unscheduled ones.
required_minutes : List UnscheduledTask → List SchedulingTask → ℕ
required_minutes unscheduled [] = 0
required_minutes unscheduled (task ∷ tasks) =
    (if any (λ (item : UnscheduledTask). str_eq item.task_id task.id) unscheduled
      then 0
      else task.remaining_duration_minutes)
    + required_minutes unscheduled tasks

pub compare_block_starts : TimeBlock → TimeBlock → Result Error Ordering
compare_block_starts a b = do
  start_a ← parse_iso a.start "block.start"
  start_b ← parse_iso b.start "block.start"
  ok (compare start_a start_b)

over_capacity : PlanContext → List SchedulingTask → Progress → Result Error (List CapacityWarning)
unfolding required_minutes
over_capacity ctx tasks p = do
  placed ← traverse time_block_to_busy_block p.blocks
  ok (
      p.capacity_warnings
      ++ record {
        code = WarningCode.over_capacity;
        task_id = none;
        available_ms = calculate_available_ms ctx.working_windows (ctx.fixed_busy ++ placed);
        required_minutes = required_minutes p.unscheduled_tasks tasks;
      }
        ∷ [])

abbrev is_empty {ℓ} : {A : Type ℓ} → List A → Bool
is_empty [] = true
is_empty (_ ∷ _) = false

-- The warnings of the plan.
pub final_warnings :
    CreateScheduleInput → PlanContext → Progress → Result Error (List CapacityWarning)
unfolding over_capacity
final_warnings input ctx p =
    let warned = over_capacity ctx input.tasks p in
    if is_empty p.unscheduled_tasks then ok p.capacity_warnings else warned

-- The plan that the loop's lists make.
pub finish : CreateScheduleInput → PlanContext → Progress → Result Error SchedulePlan
unfolding final_warnings compare_block_starts sort_by_throwing
finish input ctx p = do
  warnings ← final_warnings input ctx p
  blocks ← sort_by_throwing compare_block_starts p.blocks
  ok (record {
    id = input.plan_id;
    scope = input.scope;
    range_start = input.range_start;
    range_end = input.range_end;
    timezone = input.timezone;
    status = if is_empty p.unscheduled_tasks then PlanStatus.proposed else PlanStatus.failed;
    blocks = blocks;
    unscheduled_tasks = p.unscheduled_tasks;
    capacity_warnings = warnings;
    explanations = p.explanations;
  })

-- What the loop starts from.
pub record Start : Type 0 where
  pub context : PlanContext
  pub locked : List TimeBlock

pub start_schedule : TimeZones → CreateScheduleInput → Result Error Start
unfolding events_to_busy_blocks time_block_to_busy_block build_working_windows sort_by
start_schedule zones input = do
  range_start ← parse_iso input.range_start "rangeStart"
  range_end ← parse_iso input.range_end "rangeEnd"
  working_windows ← build_working_windows zones input.working_hours range_start range_end
  let locked = filter is_locked_block input.existing_blocks
  events ← events_to_busy_blocks input.calendar_events
  kept ← traverse time_block_to_busy_block locked
  ok (record {
    context = record {
      scope = input.scope;
      working_windows = working_windows;
      fixed_busy = sort_by compare_busy_blocks (events ++ kept);
      range_start = range_start;
      range_end = range_end;
    };
    locked = locked;
  })

abbrev pub first_progress : List TimeBlock → Progress
first_progress locked = record {
  blocks = locked;
  explanations = map preserved_explanation locked;
  capacity_warnings = [];
  unscheduled_tasks = [];
}

abbrev or_diverges {ℓ} : {A : Type ℓ} → Option A → Result Error A
or_diverges none = err diverges
or_diverges (some a) = ok a

unfoldable pub create_schedule : TimeZones → CreateScheduleInput → Result Error SchedulePlan
unfolding start_schedule finish order_tasks_for_scheduling plan_tasks
create_schedule zones input = do
  start ← start_schedule zones input
  order ← order_tasks_for_scheduling input.tasks
  ordered ← or_diverges order
  progress ← plan_tasks start.context ordered (first_progress start.locked)
  finish input start.context progress
