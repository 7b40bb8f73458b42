-- ===== src/Api/Writeback.antt =====
-- src/api.ts: writing the blocks of an accepted plan to a calendar.
pub mod Stored
pub mod Events
pub mod Written
use scheduleos.Base.{
  ◌+◌, ℕ, Bool, true, false, ◌&&◌, ◌||◌, not, List, [], ◌∷◌, ◌++◌, Option, none, some, Result, ok,
  err, ltb, leb, if◌then◌else◌, filter, any, map, String, str_eq, join, length,
}
use scheduleos.Domain.{
  Instant, Timestamp, iso, Scope, SchedulingTask, CalendarEvent, CalendarStatus, BusyStatus,
  PrivacyLevel, SchedulePlan, PlanStatus, TimeBlock, BlockStatus,
}
use scheduleos.Repositories.{
  ApiStore, RepositoryActor, RepositoryError, not_found, forbidden, matches_scope,
}
use scheduleos.Repositories.Tasks.{
  list_tasks, list_for_schedule, get_calendar_event, upsert_calendar_event, delete_calendar_event,
}
use scheduleos.Repositories.Plans.{get_plan}
use scheduleos.Api.Overlap.{
  CalendarWritebackConflict, is_blocking_calendar_event, calendar_writeback_conflicts,
}
use scheduleos.Api.{ApiError, api_error, repository_error, validation_failed}
use scheduleos.Api.Handlers.{Handler, ◌>>=◌, ◌>>◌, return, check, look, perform, query, throw_if}
use scheduleos.Api.Access.{AuthPrincipal, repository_actor, assert_authorized}

pub record CalendarWritebackRequest : Type 0 where
  pub scope : Scope
  pub calendar_id : String
  pub read_only : Bool

-- `taskTitles.get(id)`: of tasks with one id the last gives the title.
unfoldable pub task_title : String → List SchedulingTask → Option String
task_title id [] = none
task_title id (task ∷ tasks) =
    let here = if str_eq task.id id then some task.title else none in
    elim (task_title id tasks) [ some title ↦ some title | none ↦ here ]

abbrev pub title_or : Option String → String → String
title_or none other = other
title_or (some title) other = title

abbrev pub is_written : BlockStatus → Bool
is_written BlockStatus.accepted = true
is_written BlockStatus.locked = true
is_written _ = false

-- `sanitizeId`, a regular expression's work, is an argument.
module _ (sanitize_id : String → String) where
  unfoldable pub block_event :
      SchedulePlan → List SchedulingTask → CalendarWritebackRequest → TimeBlock → CalendarEvent
  block_event plan tasks request block = record {
    id = join ("writeback_" ∷ sanitize_id request.calendar_id ∷ "_" ∷ sanitize_id block.id ∷ []);
    scope = request.scope;
    calendar_id = request.calendar_id;
    title = title_or (task_title block.task_id tasks) "Scheduled work";
    start = block.start;
    end = block.end;
    timezone = plan.timezone;
    all_day = false;
    status = CalendarStatus.confirmed;
    busy_status = BusyStatus.busy;
    movable = true;
    locked = block.locked;
    privacy_level = PrivacyLevel.busy_only;
    version = 1;
    buffer_before_minutes = none;
    buffer_after_minutes = none;
    travel_before_minutes = none;
    travel_after_minutes = none;
  }

  unfoldable pub accepted_plan_blocks_to_calendar_events :
      SchedulePlan → List SchedulingTask → CalendarWritebackRequest → List CalendarEvent
  accepted_plan_blocks_to_calendar_events plan tasks request =
      map (block_event plan tasks request)
        (filter (λ (block : TimeBlock). is_written block.status) plan.blocks)

abbrev pub UpsertCounts : Type 0
UpsertCounts = ℕ × ℕ

abbrev pub counted_get :
    Result RepositoryError CalendarEvent → UpsertCounts → Result ApiError UpsertCounts
counted_get (ok event) (created, updated) = ok (created, updated + 1)
counted_get (err (not_found message)) (created, updated) = ok (created + 1, updated)
counted_get (err thrown) counts = err (repository_error thrown)

-- The first loop of `upsertCalendarEvents`, with the numbers created and updated so far. The second,
-- over events that are cancelled, has none of them here.
unfoldable pub upsert_calendar_events :
    RepositoryActor → Scope → List CalendarEvent → UpsertCounts → Handler UpsertCounts
upsert_calendar_events actor scope [] counts = return counts
upsert_calendar_events actor scope (event ∷ events) counts = do
  store ← look
  counts' ← check (counted_get (get_calendar_event actor scope event.id store) counts)
  saved ← perform (upsert_calendar_event actor event scope)
  upsert_calendar_events actor scope events counts'

-- The events of the calendar that a writeback must not overlap.
unfoldable pub existing_events :
    CalendarWritebackRequest → List CalendarEvent → List CalendarEvent → List CalendarEvent
existing_events request candidates events =
    filter
      (λ (event : CalendarEvent).
        str_eq event.calendar_id request.calendar_id
        && (not (any (λ (candidate : CalendarEvent). str_eq candidate.id event.id) candidates)
            && is_blocking_calendar_event event))
      events

abbrev pub is_accepted_plan : PlanStatus → Bool
is_accepted_plan PlanStatus.accepted = true
is_accepted_plan _ = false

abbrev pub is_nonempty {ℓ} : {A : Type ℓ} → List A → Bool
is_nonempty [] = false
is_nonempty (x ∷ xs) = true

-- The events that a plan's blocks become, with their conflicts.
unfoldable pub planned_writeback :
    (String → String)
    → RepositoryActor
    → CalendarWritebackRequest
    → String
    → (message : String) → Handler (List CalendarEvent × List CalendarWritebackConflict)
planned_writeback sanitize_id actor request plan_id message = do
  plan ← query (get_plan actor plan_id)
  throw_if (not (matches_scope plan.scope request.scope))
      (repository_error (forbidden "Schedule plan is outside requested scope."))
  throw_if (not (is_accepted_plan plan.status)) (api_error 409 "SCHEDULE_PLAN_NOT_ACCEPTED" message)
  tasks ← query (list_tasks actor request.scope)
  let candidates = accepted_plan_blocks_to_calendar_events sanitize_id plan tasks request
  events ← query (list_for_schedule actor request.scope)
  conflicts ←
      check (calendar_writeback_conflicts candidates (existing_events request candidates events))
  return (candidates, conflicts)

-- The handler of `POST /api/schedule-plans/:id/calendar-writeback/preview`.
unfoldable pub preview_writeback :
    (String → String)
    → Option AuthPrincipal
    → CalendarWritebackRequest
    → String
    → Handler (List CalendarWritebackConflict)
preview_writeback sanitize_id principal request plan_id = do
  authorized ← check (assert_authorized principal request.scope)
  planned ←
      planned_writeback sanitize_id (repository_actor principal) request plan_id
        "Only accepted schedule plans can be previewed for calendar write-back."
  return planned.1

-- The handler of `POST /api/schedule-plans/:id/calendar-writeback`: the events, and the numbers of
-- those that are created and updated.
unfoldable pub write_back :
    (String → String)
    → Option AuthPrincipal
    → CalendarWritebackRequest
    → String
    → Handler (List CalendarEvent × UpsertCounts)
write_back sanitize_id principal request plan_id = do
  authorized ← check (assert_authorized principal request.scope)
  throw_if request.read_only (
      api_error 409 "CALENDAR_READ_ONLY"
        "Cannot write accepted schedule blocks to a read-only calendar.")
  planned ←
      planned_writeback sanitize_id (repository_actor principal) request plan_id
        "Only accepted schedule plans can be written back to a calendar."
  throw_if (is_nonempty planned.1) (
      api_error 409 "CALENDAR_WRITEBACK_CONFLICT"
        "Calendar write-back has blocking conflicts. Preview conflicts before writing.")
  counts ← upsert_calendar_events (repository_actor principal) request.scope planned.0 (0, 0)
  return (planned.0, counts)
