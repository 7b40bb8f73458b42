-- ===== src/Repositories/Tasks.antt =====
-- src/repositories.ts: the repositories of tasks and of calendar events.
pub mod Lookup
pub mod Refines
use scheduleos.Base.{
  Bool, ◌&&◌, not, List, [], ◌∷◌, ◌==◌, Result, ok, err, ◌>>=◌, if◌then◌else◌, filter, find, length,
  String, str_eq,
}
use scheduleos.Domain.{Scope, SchedulingTask, CalendarEvent}
use scheduleos.Repositories.{
  ApiStore, RepositoryActor, RepositoryError, forbidden, not_found, Outcome, matches_scope,
  assert_can_access,
}
use scheduleos.Repositories.Tables.{put, or_not_found}

abbrev pub is_task : Scope → String → SchedulingTask → Bool
is_task scope id task = matches_scope task.scope scope && str_eq task.id id

abbrev pub is_event : Scope → String → CalendarEvent → Bool
is_event scope id event = matches_scope event.scope scope && str_eq event.id id

unfoldable pub upsert_task : RepositoryActor → SchedulingTask → ApiStore → Outcome SchedulingTask
unfolding assert_can_access
upsert_task actor task state = do
  allowed ← assert_can_access actor task.scope
  ok (task, record state { tasks = put (is_task task.scope task.id) task state.tasks })

unfoldable pub get_task :
    RepositoryActor → Scope → String → ApiStore → Result RepositoryError SchedulingTask
unfolding assert_can_access
get_task actor scope task_id state = do
  allowed ← assert_can_access actor scope
  or_not_found "Task not found." (find (is_task scope task_id) state.tasks)

unfoldable pub list_tasks :
    RepositoryActor → Scope → ApiStore → Result RepositoryError (List SchedulingTask)
unfolding assert_can_access
list_tasks actor scope state = do
  allowed ← assert_can_access actor scope
  ok (filter (λ task. matches_scope task.scope scope) state.tasks)

unfoldable pub delete_task : RepositoryActor → Scope → String → ApiStore → Outcome (Unit {0})
unfolding assert_can_access
delete_task actor scope task_id state = do
  allowed ← assert_can_access actor scope
  let left = filter (λ task. not (is_task scope task_id task)) state.tasks
  if length left == length state.tasks
      then err (not_found "Task not found.")
      else ok (tt, record state { tasks = left })

unfoldable pub assert_calendar_event_scope :
    CalendarEvent → Scope → Result RepositoryError (Unit {0})
unfolding matches_scope
assert_calendar_event_scope event scope =
    if matches_scope event.scope scope
    then ok tt
    else err (forbidden "Calendar event does not match repository scope.")

unfoldable pub upsert_calendar_event :
    RepositoryActor → CalendarEvent → Scope → ApiStore → Outcome CalendarEvent
unfolding assert_can_access assert_calendar_event_scope
upsert_calendar_event actor event scope state = do
  allowed ← assert_can_access actor scope
  matching ← assert_calendar_event_scope event scope
  ok (
    event,
    record state {
      calendar_events = put (is_event event.scope event.id) event state.calendar_events;
    },
  )

unfoldable pub get_calendar_event :
    RepositoryActor → Scope → String → ApiStore → Result RepositoryError CalendarEvent
unfolding assert_can_access
get_calendar_event actor scope event_id state = do
  allowed ← assert_can_access actor scope
  or_not_found "Calendar event not found." (find (is_event scope event_id) state.calendar_events)

unfoldable pub list_for_schedule :
    RepositoryActor → Scope → ApiStore → Result RepositoryError (List CalendarEvent)
unfolding assert_can_access
list_for_schedule actor scope state = do
  allowed ← assert_can_access actor scope
  ok (filter (λ event. matches_scope event.scope scope) state.calendar_events)

unfoldable pub delete_calendar_event :
    RepositoryActor → Scope → String → ApiStore → Outcome (Unit {0})
unfolding assert_can_access
delete_calendar_event actor scope event_id state = do
  allowed ← assert_can_access actor scope
  let left = filter (λ event. not (is_event scope event_id event)) state.calendar_events
  if length left == length state.calendar_events
      then err (not_found "Calendar event not found.")
      else ok (tt, record state { calendar_events = left })
