-- ===== src/Scheduler/Plan.antt =====
-- src/scheduler.ts: the loop of `createSchedule` over the tasks of a plan.
pub mod Step
pub mod Accounts
use scheduleos.Base.{
  ◌+◌, ◌-◌, ◌*◌, ◌==◌, ◌<◌, ℕ, zero, suc, Bool, true, false, ◌&&◌, ◌||◌, not, List, [], ◌∷◌, ◌++◌,
  map, Option, none, some, Result, ok, err, ◌>>=◌, leb, ltb, if◌then◌else◌, sort_by,
  sort_by_throwing, compare, Ordering, filter, any, flat_map, length, String, str_eq, join,
  traverse,
}
use scheduleos.Domain.{
  Instant, Timestamp, Scope, SchedulingTask, SchedulingMode, CalendarEvent, CalendarStatus,
  BusyStatus, TimeBlock, BlockStatus, WorkingHours, CapacityWarning, WarningCode,
  SchedulingExplanation, ExplanationType, SchedulePlan, PlanStatus, Reason, UnscheduledTask,
}
use scheduleos.Scheduler.Dates.{Error, diverges, minute_ms, parse_iso, or_zero}
use scheduleos.Scheduler.Slots.{BusyBlock, compare_busy_blocks}
use scheduleos.Scheduler.Place.{time_block_to_busy_block, schedule_task}
use scheduleos.Scheduler.Order.{order_tasks_for_scheduling}
use scheduleos.Scheduler.Windows.{TimeZones, build_working_windows}
use scheduleos.Scheduler.Capacity.{calculate_available_ms, classify_deadline_failure}

same_scope : Scope → Scope → Bool
same_scope a b =
    str_eq a.tenant_id b.tenant_id
    && (str_eq a.workspace_id b.workspace_id && str_eq a.user_id b.user_id)

abbrev is_do_not_schedule : SchedulingMode → Bool
is_do_not_schedule SchedulingMode.do_not_schedule = true
is_do_not_schedule _ = false

abbrev is_deadline_driven : SchedulingMode → Bool
is_deadline_driven SchedulingMode.deadline_driven = true
is_deadline_driven _ = false

abbrev is_none {ℓ} : {A : Type ℓ} → Option A → Bool
is_none none = true
is_none (some _) = false

-- `minimumBlockMinutes && remaining < minimumBlockMinutes`
abbrev below_minimum : Option ℕ → ℕ → Bool
below_minimum none remaining = false
below_minimum (some minimum) remaining = not (minimum == 0) && ltb remaining minimum

unfoldable pub get_invalid_reason : SchedulingTask → Scope → Option Reason
unfolding same_scope
get_invalid_reason task input =
    if not (same_scope task.scope input)
    then some Reason.wrong_scope
    else if not task.scheduling_eligible
    then some Reason.scheduling_ineligible
    else if task.blocked
    then some Reason.blocked
    else if task.waiting
    then some Reason.waiting
    else if is_do_not_schedule task.scheduling_mode
    then some Reason.do_not_schedule
    else if task.remaining_duration_minutes == 0 || task.estimated_duration_minutes == 0
    then some Reason.invalid_duration
    else if is_none task.deadline && is_deadline_driven task.scheduling_mode
    then some Reason.missing_deadline
    else if not task.splittable
        && below_minimum task.minimum_block_minutes task.remaining_duration_minutes
    then some Reason.invalid_minimum_block
    else none

-- The lists that the loop over the tasks pushes to.
pub record Progress : Type 0 where
  pub blocks : List TimeBlock
  pub explanations : List SchedulingExplanation
  pub capacity_warnings : List CapacityWarning
  pub unscheduled_tasks : List UnscheduledTask

add_unscheduled_explanation :
    SchedulingTask → List SchedulingExplanation → List SchedulingExplanation
add_unscheduled_explanation task explanations =
    explanations
    ++ record { type = ExplanationType.task_unscheduled; task_id = some task.id; block_id = none }
      ∷ []

abbrev placed_explanation : SchedulingTask → TimeBlock → SchedulingExplanation
placed_explanation task block = record {
  type = ExplanationType.task_placed;
  task_id = some task.id;
  block_id = some block.id;
}

abbrev is_at_risk : Reason → Bool
is_at_risk Reason.deadline_at_risk = true
is_at_risk _ = false

-- What the loop reads: the input, the working windows, the fixed busy blocks and the range.
pub record PlanContext : Type 0 where
  pub scope : Scope
  pub working_windows : List BusyBlock
  pub fixed_busy : List BusyBlock
  pub range_start : Instant
  pub range_end : Instant

module _ (ctx : PlanContext) where
  -- The task's own blocks that are not locked do not count as busy.
  pub other_blocks : SchedulingTask → Progress → List TimeBlock
  other_blocks task p = filter (λ block. not (str_eq block.task_id task.id)) p.blocks

  pub reject : SchedulingTask → Reason → Progress → Progress
  unfolding add_unscheduled_explanation
  reject task reason p = record p {
    unscheduled_tasks = p.unscheduled_tasks ++ record { task_id = task.id; reason = reason } ∷ [];
    explanations = add_unscheduled_explanation task p.explanations;
  }

  pub accept : SchedulingTask → List TimeBlock → Progress → Progress
  accept task task_blocks p = record p {
    blocks = p.blocks ++ task_blocks;
    explanations = p.explanations ++ map (placed_explanation task) task_blocks;
  }

  -- A task that found no slot.
  pub give_up : SchedulingTask → Progress → Result Error Progress
  unfolding add_unscheduled_explanation
  give_up task p = do
    placed ← traverse time_block_to_busy_block p.blocks
    let available = calculate_available_ms ctx.working_windows (ctx.fixed_busy ++ placed)
    reason ← classify_deadline_failure task ctx.working_windows (ctx.fixed_busy ++ placed)
    ok (record p {
      unscheduled_tasks = p.unscheduled_tasks ++ record { task_id = task.id; reason = reason } ∷ [];
      capacity_warnings =
          p.capacity_warnings
          ++ record {
            code =
                if is_at_risk reason
                then WarningCode.deadline_at_risk
                else WarningCode.no_contiguous_slot;
            task_id = some task.id;
            available_ms = available;
            required_minutes = task.remaining_duration_minutes;
          }
            ∷ [];
      explanations = add_unscheduled_explanation task p.explanations;
    })

  pub plan_valid_task : SchedulingTask → Progress → Result Error Progress
  unfolding other_blocks accept give_up
  plan_valid_task task p = do
    others ← traverse time_block_to_busy_block (other_blocks task p)
    found ←
        schedule_task task ctx.scope ctx.working_windows (ctx.fixed_busy ++ others) ctx.range_start
          ctx.range_end
    elim found [ none ↦ give_up task p | some task_blocks ↦ ok (accept task task_blocks p) ]

  -- The body of the loop.
  pub plan_task : SchedulingTask → Progress → Result Error Progress
  unfolding plan_valid_task reject
  plan_task task p = elim (get_invalid_reason task ctx.scope) [
    | some reason ↦ ok (reject task reason p)
    | none ↦ plan_valid_task task p
  ]

  unfoldable pub plan_tasks : List SchedulingTask → Progress → Result Error Progress
  unfolding plan_task
  plan_tasks [] p = ok p
  plan_tasks (task ∷ tasks) p = do p' ← plan_task task p; plan_tasks tasks p'
