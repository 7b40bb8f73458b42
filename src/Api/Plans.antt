-- ===== src/Api/Plans.antt =====
-- src/api.ts: the handlers that make a plan, accept or reject it, and plan again around what is fixed.
pub mod Kept
use scheduleos.Base.{
  ◌+◌, ℕ, Bool, true, false, ◌&&◌, ◌||◌, not, List, [], ◌∷◌, Option, none, some, Result, ok, err,
  if◌then◌else◌, filter, any, find, map, String, str_eq, join, decimal,
}
use scheduleos.Domain.{
  Instant, Timestamp, iso, Scope, SchedulingTask, CalendarEvent, SchedulePlan, PlanStatus,
  TimeBlock, BlockStatus, WorkingHours, CapacityWarning, WarningCode,
}
use scheduleos.Records.{AuditEvent, ActorType}
use scheduleos.Repositories.{ApiStore, RepositoryActor, matches_scope}
use scheduleos.Repositories.Tasks.{list_tasks, list_for_schedule}
use scheduleos.Repositories.Keyed.{entry_of, get_working_hours, append_audit_event}
use scheduleos.Repositories.Plans.{
  get_plan, upsert_plan, replace_plan, BlockAction, lock, unlock, complete, missed,
  apply_block_action, update_block, TimePatch, apply_block_time_patch,
}
use scheduleos.Scheduler.Dates.{Error}
use scheduleos.Scheduler.Windows.{TimeZones}
use scheduleos.Scheduler.Create.{CreateScheduleInput, create_schedule}
use scheduleos.Api.{ApiError, api_error, scheduler_error, validation_failed, Platform}
use scheduleos.Api.Handlers.{
  Handler, ◌>>=◌, ◌>>◌, return, check, look, set, perform, query, required,
}

abbrev pub of_scheduler {ℓ} : {A : Type ℓ} → Result Error A → Result ApiError A
of_scheduler (ok value) = ok value
of_scheduler (err thrown) = err (scheduler_error thrown)

-- An event of the API about a plan or what it holds.
abbrev pub api_event : Instant → Scope → (id action resource_type resource_id : String) → AuditEvent
api_event now scope id action resource_type resource_id = record {
  id = id;
  scope = scope;
  occurred_at = iso now;
  actor_type = ActorType.system;
  actor_id = "scheduleos-api";
  action = action;
  resource_type = resource_type;
  resource_id = resource_id;
}

abbrev pub schedule_plan_audit_event :
    Platform → Instant → SchedulePlan → (name action : String) → AuditEvent
schedule_plan_audit_event platform now plan name action =
    api_event now plan.scope
      (join ("audit_" ∷ name ∷ "_" ∷ plan.id ∷ "_" ∷ platform.epoch_ms now ∷ [])) action
      "SCHEDULE_PLAN" plan.id

abbrev pub schedule_capacity_warning_audit_event :
    Platform → Instant → SchedulePlan → ℕ → AuditEvent
schedule_capacity_warning_audit_event platform now plan index =
    api_event now plan.scope
      (join (
        "audit_schedule_capacity_exceeded_"
        ∷ plan.id
        ∷ "_"
        ∷ decimal index
        ∷ "_"
        ∷ platform.epoch_ms now
        ∷ []))
      "SCHEDULE_CAPACITY_EXCEEDED" "SCHEDULE_PLAN" plan.id

abbrev pub task_deadline_risk_audit_event :
    Platform → Instant → SchedulePlan → String → ℕ → AuditEvent
task_deadline_risk_audit_event platform now plan task_id index =
    api_event now plan.scope
      (join (
        "audit_task_deadline_at_risk_"
        ∷ plan.id
        ∷ "_"
        ∷ task_id
        ∷ "_"
        ∷ decimal index
        ∷ "_"
        ∷ platform.epoch_ms now
        ∷ []))
      "TASK_DEADLINE_AT_RISK" "TASK" task_id

-- The task that a warning puts at risk of its deadline.
abbrev pub task_at_risk : CapacityWarning → Option String
task_at_risk warning = elim warning.code [
  | WarningCode.deadline_at_risk ↦ warning.task_id
  | _ ↦ none
]

unfoldable pub append_deadline_risk :
    Platform → Instant → RepositoryActor → SchedulePlan → Option String → ℕ → Handler (Unit {0})
append_deadline_risk platform now actor plan none index = return tt
append_deadline_risk platform now actor plan (some task_id) index = do
  event ←
      perform
        (append_audit_event actor (task_deadline_risk_audit_event platform now plan task_id index))
  return tt

-- The warnings that are left, from the index of the first of them.
unfoldable pub append_warnings_from :
    Platform
    → Instant
    → RepositoryActor
    → SchedulePlan
    → List CapacityWarning
    → ℕ
    → Handler (Unit {0})
append_warnings_from platform now actor plan [] index = return tt
append_warnings_from platform now actor plan (warning ∷ warnings) index = do
  event ←
      perform
        (append_audit_event actor (schedule_capacity_warning_audit_event platform now plan index))
  append_deadline_risk platform now actor plan (task_at_risk warning) index
  append_warnings_from platform now actor plan warnings (index + 1)

unfoldable pub append_schedule_warning_audit_events :
    Platform → Instant → RepositoryActor → SchedulePlan → Handler (Unit {0})
append_schedule_warning_audit_events platform now actor plan =
    append_warnings_from platform now actor plan plan.capacity_warnings 0

pub record ScheduleRequest : Type 0 where
  pub scope : Scope
  pub range_start : Timestamp
  pub range_end : Timestamp
  pub timezone : String

-- The handler of `POST /api/schedule-plans`, with the id that the plan gets.
unfoldable pub post_schedule_plan :
    Platform
    → TimeZones
    → Instant
    → RepositoryActor
    → ScheduleRequest
    → String
    → Handler SchedulePlan
post_schedule_plan platform zones now actor request plan_id = do
  found ← query (get_working_hours actor request.scope)
  working_hours ←
      required (validation_failed "workingHours are required before creating a schedule plan.")
        found
  tasks ← query (list_tasks actor request.scope)
  calendar_events ← query (list_for_schedule actor request.scope)
  created ← check (
      of_scheduler (
        create_schedule zones (record {
          scope = request.scope;
          range_start = request.range_start;
          range_end = request.range_end;
          timezone = request.timezone;
          tasks = tasks;
          calendar_events = calendar_events;
          working_hours = working_hours;
          existing_blocks = [];
          plan_id = plan_id;
        })))
  plan ← perform (upsert_plan actor created)
  event ← perform (
      append_audit_event actor
        (schedule_plan_audit_event platform now plan "schedule_created" "SCHEDULE_CREATED"))
  append_schedule_warning_audit_events platform now actor plan
  return plan

unfoldable pub accept_block : TimeBlock → TimeBlock
accept_block block = if block.locked then block else record block { status = BlockStatus.accepted }

-- The handler of `POST /api/schedule-plans/:id/accept`.
unfoldable pub accept_plan : Platform → Instant → RepositoryActor → String → Handler SchedulePlan
accept_plan platform now actor plan_id = do
  plan ← query (get_plan actor plan_id)
  saved ← perform (
      upsert_plan actor
        (record plan { status = PlanStatus.accepted; blocks = map accept_block plan.blocks }))
  event ← perform (
      append_audit_event actor
        (schedule_plan_audit_event platform now saved "schedule_accepted" "SCHEDULE_ACCEPTED"))
  return saved

-- The handler of `POST /api/schedule-plans/:id/reject`.
unfoldable pub reject_plan : Platform → Instant → RepositoryActor → String → Handler SchedulePlan
reject_plan platform now actor plan_id = do
  plan ← query (get_plan actor plan_id)
  saved ← perform (upsert_plan actor (record plan { status = PlanStatus.rejected }))
  event ← perform (
      append_audit_event actor
        (schedule_plan_audit_event platform now saved "schedule_rejected" "SCHEDULE_REJECTED"))
  return saved

abbrev pub is_completed : BlockStatus → Bool
is_completed BlockStatus.completed = true
is_completed _ = false

abbrev pub is_preserved_status : BlockStatus → Bool
is_preserved_status BlockStatus.locked = true
is_preserved_status BlockStatus.completed = true
is_preserved_status _ = false

abbrev pub is_preserved : TimeBlock → Bool
is_preserved block = block.locked || is_preserved_status block.status

unfoldable pub lock_if_completed : TimeBlock → TimeBlock
lock_if_completed block =
    if is_completed block.status then record block { locked = true } else block

-- The blocks that planning again keeps.
unfoldable pub preserved_blocks : SchedulePlan → List TimeBlock
preserved_blocks plan = map lock_if_completed (filter is_preserved plan.blocks)

abbrev pub has_task : String → List TimeBlock → Bool
has_task task_id blocks = any (λ (block : TimeBlock). str_eq block.task_id task_id) blocks

-- The input of the scheduler when a plan is made again.
unfoldable pub replan_input : SchedulePlan → WorkingHours → ApiStore → CreateScheduleInput
replan_input previous working_hours store = record {
  scope = previous.scope;
  range_start = previous.range_start;
  range_end = previous.range_end;
  timezone = previous.timezone;
  tasks =
      filter
        (λ (task : SchedulingTask).
          matches_scope task.scope previous.scope
          && not (has_task task.id (preserved_blocks previous)))
        store.tasks;
  calendar_events =
      filter (λ (event : CalendarEvent). matches_scope event.scope previous.scope)
        store.calendar_events;
  working_hours = working_hours;
  existing_blocks = preserved_blocks previous;
  plan_id = previous.id;
}

-- `store.plans` changes before the handler checks who may store the plan.
unfoldable pub replan_schedule : TimeZones → String → Handler SchedulePlan
replan_schedule zones plan_id = do
  store ← look
  previous ←
      required (api_error 404 "NOT_FOUND" "Schedule plan not found.")
        (find (λ (plan : SchedulePlan). str_eq plan.id plan_id) store.plans)
  working_hours ←
      required (validation_failed "workingHours are required before replanning schedule.")
        (entry_of previous.scope.user_id store.working_hours)
  replanned ←
      check (of_scheduler (create_schedule zones (replan_input previous working_hours store)))
  set (replace_plan replanned store)
  return replanned

-- The handler of `POST /api/schedule-plans/:id/replan`.
unfoldable pub replan :
    Platform → TimeZones → Instant → RepositoryActor → String → Handler SchedulePlan
replan platform zones now actor plan_id = do
  plan ← query (get_plan actor plan_id)
  replanned ← replan_schedule zones plan_id
  saved ← perform (upsert_plan actor replanned)
  event ← perform (
      append_audit_event actor
        (schedule_plan_audit_event platform now saved "schedule_replanned" "SCHEDULE_REPLANNED"))
  append_schedule_warning_audit_events platform now actor saved
  return saved

abbrev pub action_name : BlockAction → String
action_name lock = "lock"
action_name unlock = "unlock"
action_name complete = "complete"
action_name missed = "missed"

abbrev pub block_action_name : BlockAction → String
block_action_name lock = "BLOCK_LOCK"
block_action_name unlock = "BLOCK_UNLOCK"
block_action_name complete = "BLOCK_COMPLETE"
block_action_name missed = "BLOCK_MISSED"

abbrev pub time_block_audit_event : Platform → Instant → TimeBlock → BlockAction → AuditEvent
time_block_audit_event platform now block action =
    api_event now block.scope
      (join
        ("audit_block_" ∷ action_name action ∷ "_" ∷ block.id ∷ "_" ∷ platform.epoch_ms now ∷ []))
      (block_action_name action) "TIME_BLOCK" block.id

-- The handler of `POST /api/time-blocks/:id/:action`.
unfoldable pub post_block_action :
    Platform → Instant → RepositoryActor → String → BlockAction → Handler TimeBlock
post_block_action platform now actor block_id action = do
  updated ← perform (update_block actor block_id (λ block. ok (apply_block_action action block)))
  event ← perform (append_audit_event actor (time_block_audit_event platform now updated action))
  return updated

-- The handler of `PATCH /api/time-blocks/:id`.
unfoldable pub patch_block : RepositoryActor → String → TimePatch → Handler TimeBlock
patch_block actor block_id patch =
    perform (update_block actor block_id (apply_block_time_patch patch))
