-- ===== src/Api/Witnesses.antt =====
-- Plans, calendars and old records at which the theorems on the API apply.
use scheduleos.Base.{
  ◌≡◌, refl, ◌≢◌, ap, ◌-◌, ◌*◌, Bool, true, false, List, [], ◌∷◌, Option, none, some, Result, ok,
  err, String, join, eq_iff, ◌↔◌, ◌⊎◌,
}
use scheduleos.Domain.{iso, Scope, SchedulePlan, PlanStatus, TimeBlock, BlockStatus, CalendarEvent}
use scheduleos.Records.{AuditEvent}
use scheduleos.Policies.{
  calculate_retention_cutoffs, schedule_os_retention_policy, timed_scoped_confirmation,
  require_destructive_confirmation, RetentionError,
}
use scheduleos.Repositories.{ApiStore, empty_store, matches_scope}
use scheduleos.Repositories.Keyed.{append_audit_event}
use scheduleos.Repositories.Plans.{get_plan}
use scheduleos.Repositories.Tasks.{
  list_tasks, list_for_schedule, get_calendar_event, upsert_calendar_event,
}
use scheduleos.Api.{ApiError, Response}
use scheduleos.Api.Access.{
  AuthPrincipal, require_auth_admin, require_authenticated_principal, workspace_of,
  assert_authorized, repository_actor,
}
use scheduleos.Api.Access.Roles.{Manages}
use scheduleos.Api.Plans.{replan_schedule}
use scheduleos.Api.Overlap.{
  overlap_of, event_overlap, conflicts_with, calendar_writeback_conflicts,
  is_blocking_calendar_event,
}
use scheduleos.Api.Overlap.Clear.{Within, WithinOverlap, overlap_of-Within}
use scheduleos.Api.Writeback.{
  CalendarWritebackRequest, UpsertCounts, task_title, block_event,
  accepted_plan_blocks_to_calendar_events, existing_events, planned_writeback,
  upsert_calendar_events, write_back,
}
use scheduleos.Api.Writeback.Written.{Written, write_back-Written}
use scheduleos.Api.Retention.{LocalRetentionCleanupResult}
use scheduleos.Api.Retention.Cleanup.{
  RetentionCleanupRequest, clean_up, prune_store, cleanup_local_store_retention, confirm_cleanup,
  append_cleanup_event, retention_cleanup,
}
use scheduleos.Api.Retention.Cleanup.Safe.{cleanup-preview, cleanup-cleanup}
use scheduleos.Api.Retention.Cleanup.Others.{SameFor, cleanup-SameFor}
use scheduleos.Api.Retention.Cleanup.Confirmed.{Confirmed, retention_cleanup-Confirmed}
use scheduleos.Api.Samples.{demo_platform, demo_principal, value_of}
use scheduleos.Scheduler.Samples.{
  midnight, at_hour, demo_scope, fixed_event, demo_hours, utc_zone, first_task, second_task,
}

abbrev done_block : TimeBlock
done_block = record {
  id = "done";
  task_id = "first";
  scope = demo_scope;
  start = iso (at_hour 9);
  end = iso (at_hour 10);
  status = BlockStatus.completed;
  locked = false;
}

abbrev demo_plan : SchedulePlan
demo_plan = record {
  id = "plan_demo";
  scope = demo_scope;
  range_start = iso (at_hour 9);
  range_end = iso (at_hour 17);
  timezone = "UTC";
  status = PlanStatus.proposed;
  blocks = done_block ∷ [];
  unscheduled_tasks = [];
  capacity_warnings = [];
  explanations = [];
}

abbrev planning_store : ApiStore
planning_store = record empty_store {
  tasks = first_task ∷ second_task ∷ [];
  working_hours = (demo_scope.user_id, demo_hours) ∷ [];
  plans = demo_plan ∷ [];
}

abbrev replan_run : Response SchedulePlan
replan_run = replan_schedule utc_zone "plan_demo" planning_store

overlap_of-Within_example :
    WithinOverlap (overlap_of (at_hour 9) (at_hour 11) (at_hour 10) (at_hour 12)) (at_hour 10)
    ↔ (Within (at_hour 9) (at_hour 11) (at_hour 10) × Within (at_hour 10) (at_hour 12) (at_hour 10))
overlap_of-Within_example =
    overlap_of-Within (at_hour 9) (at_hour 11) (at_hour 10) (at_hour 12) (at_hour 10)

abbrev accepted_plan : SchedulePlan
accepted_plan = record demo_plan {
  status = PlanStatus.accepted;
  blocks = record done_block { status = BlockStatus.accepted } ∷ [];
}

abbrev calendar_store : ApiStore
calendar_store = record planning_store {
  plans = accepted_plan ∷ [];
  calendar_events = fixed_event (at_hour 11) (at_hour 12) ∷ [];
}

abbrev demo_writeback : CalendarWritebackRequest
demo_writeback = record { scope = demo_scope; calendar_id = "calendar_work"; read_only = false }

abbrev write_run : Response (List CalendarEvent × UpsertCounts)
write_run = write_back (λ id. id) (some demo_principal) demo_writeback "plan_demo" calendar_store

write_runs : write_run ≡ (ok (value_of ([], (0, 0)) write_run), write_run.1)
unfolding write_back planned_writeback upsert_calendar_events get_plan list_tasks list_for_schedule
    get_calendar_event upsert_calendar_event accepted_plan_blocks_to_calendar_events block_event
    task_title existing_events is_blocking_calendar_event calendar_writeback_conflicts
    conflicts_with event_overlap overlap_of assert_authorized repository_actor matches_scope join
write_runs = refl

write_back-Written_example :
    Written
      (some demo_principal)
      demo_writeback
      "plan_demo"
      calendar_store
      write_run.1
      (value_of ([], (0, 0)) write_run).0
write_back-Written_example =
    write_back-Written (λ id. id) (some demo_principal) demo_writeback "plan_demo" calendar_store
      write_run.1 (value_of ([], (0, 0)) write_run).0 (value_of ([], (0, 0)) write_run).1 write_runs

-- A plan that ended 200 days ago, beside the plan of today.
abbrev old_store : ApiStore
old_store = record empty_store {
  plans =
      record demo_plan { id = "old"; range_end = iso (midnight - 200 * 86400000) } ∷ demo_plan ∷ [];
}

abbrev Cleaned : Type 0
Cleaned = LocalRetentionCleanupResult × ApiStore

abbrev cleaned_or : Cleaned → Result RetentionError Cleaned → Cleaned
cleaned_or other (ok cleaned) = cleaned
cleaned_or other (err e) = other

abbrev nothing_cleaned : Cleaned
nothing_cleaned = (
  record {
    as_of = midnight;
    dry_run = true;
    required_confirmation = "";
    eligible = [];
    deleted = [];
    review_due = [];
  },
  empty_store,
)

abbrev clean : Bool → ApiStore → Cleaned
clean dry_run store =
    cleaned_or nothing_cleaned
      (cleanup_local_store_retention demo_scope midnight dry_run "confirm" store)

module _ (dry_run : Bool) (store : ApiStore) where
  clean_runs :
      cleanup_local_store_retention demo_scope midnight dry_run "confirm" store
      ≡ ok (clean dry_run store)
  unfolding cleanup_local_store_retention calculate_retention_cutoffs schedule_os_retention_policy
  clean_runs = refl

cleanup-preview_example :
    ((clean true old_store).1 ≡ old_store)
    × (((clean true old_store).0).deleted ≡ [])
    × (((clean true old_store).0).eligible ≡ ((clean false old_store).0).deleted)
cleanup-preview_example =
    cleanup-preview demo_scope midnight "confirm" "confirm" old_store (clean true old_store).1
      (clean false old_store).1 (clean true old_store).0 (clean false old_store).0
      (clean_runs true old_store) (clean_runs false old_store)

abbrev cleaned_store : ApiStore
cleaned_store = (clean false old_store).1

cleanup-cleanup_example :
    ((clean false cleaned_store).1 ≡ cleaned_store) × (((clean false cleaned_store).0).deleted ≡ [])
cleanup-cleanup_example =
    cleanup-cleanup demo_scope midnight "confirm" "confirm" old_store cleaned_store
      (clean false cleaned_store).1 (clean false old_store).0 (clean false cleaned_store).0
      (clean_runs false old_store) (clean_runs false cleaned_store)

abbrev other_scope : Scope
other_scope = record demo_scope { tenant_id = "other" }

tenants_differ : demo_scope ≢ other_scope
tenants_differ h = cc_text (ap (λ (s : Scope). s.tenant_id) h)
  where
    false-true : ◌≡◌ {A = Bool} false true → ⊥
    false-true k = cc

    cc_text : ◌≢◌ {A = String} "tenant_demo" "other"
    cc_text e = false-true ((eq_iff "tenant_demo" "other").1 e)

cleanup-SameFor_example : SameFor other_scope old_store cleaned_store
cleanup-SameFor_example =
    cleanup-SameFor demo_scope other_scope midnight "confirm" old_store cleaned_store
      (clean false old_store).0 tenants_differ (clean_runs false old_store)

abbrev demo_request : RetentionCleanupRequest
demo_request = record {
  scope = demo_scope;
  as_of = iso midnight;
  apply = some true;
  confirm = some (
      join (
        "tenant_demo" ∷ "/" ∷ "workspace_demo" ∷ "/" ∷ "user_jordan" ∷ "/"
        ∷ "2026-01-05T00:00:00.000Z" ∷ []));
}

abbrev Cleanup : Type 0
Cleanup = (LocalRetentionCleanupResult × Option AuditEvent) × ApiStore

abbrev cleanup_or : Cleanup → Result ApiError Cleanup → Cleanup
cleanup_or other (ok done) = done
cleanup_or other (err e) = other

abbrev cleanup_done : Cleanup
cleanup_done =
    cleanup_or ((nothing_cleaned.0, none), empty_store)
      (retention_cleanup demo_platform midnight (some demo_principal) demo_request old_store)

cleanup_runs :
    retention_cleanup demo_platform midnight (some demo_principal) demo_request old_store
    ≡ ok cleanup_done
unfolding retention_cleanup require_auth_admin require_authenticated_principal
    timed_scoped_confirmation confirm_cleanup require_destructive_confirmation
    cleanup_local_store_retention calculate_retention_cutoffs schedule_os_retention_policy clean_up
    prune_store append_cleanup_event append_audit_event join
cleanup_runs = refl

retention_cleanup-Confirmed_example :
    ((p : AuthPrincipal) × Manages (some demo_principal) (workspace_of demo_scope) p)
    × ((cleanup_done.1 ≡ old_store) ⊎ Confirmed demo_platform demo_request)
retention_cleanup-Confirmed_example =
    retention_cleanup-Confirmed demo_platform midnight (some demo_principal) demo_request old_store
      cleanup_done.1 (cleanup_done.0).0 (cleanup_done.0).1 cleanup_runs
