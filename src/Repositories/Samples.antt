-- ===== src/Repositories/Samples.antt =====
-- Small stores, and inputs at which the theorems on the repositories apply.
use scheduleos.Base.{◌+◌, All, join, ◌≡◌, refl, true, false, [], ◌∷◌, none, some, ok, err}
use scheduleos.Domain.{SchedulingTask, iso, TimeBlock, BlockStatus}
use scheduleos.Records.{
  IdempotencyRecord, IdempotencyStatus, AuthSession, ImportThrottleRecord, json_task_import,
}
use scheduleos.Repositories.{ApiStore, empty_store, RepositoryActor, user, system, not_found}
use scheduleos.Repositories.Tasks.{upsert_task, get_task, list_tasks, delete_task}
use scheduleos.Repositories.Tasks.Lookup.{
  list_tasks_own, get_task-upsert_task, get_task-upsert_task_other, get_task-delete_task,
}
use scheduleos.Repositories.Tasks.Refines.{
  upsert, remove, apply_all, map_all, map_of, get_task-apply_all,
}
use scheduleos.Repositories.Tables.{or_not_found}
use scheduleos.Repositories.Keyed.{reserve}
use scheduleos.Repositories.Keyed.Once.{reserve-reserve}
use scheduleos.Repositories.Plans.{TimePatch, apply_block_time_patch}
use scheduleos.Repositories.Plans.Blocks.{Moved, apply_block_time_patch-Moved}
use scheduleos.Repositories.Throttles.{
  pos, ImportThrottleConsumeInput, ConsumeResult, consume_import,
}
use scheduleos.Repositories.Throttles.Limit.{Consumed, consume_import-Consumed}
use scheduleos.Repositories.Auth.{revoke_session}
use scheduleos.Repositories.Auth.Sessions.{Revoked, revoke_session-Revoked}
use scheduleos.Scheduler.Samples.{midnight, at_hour, demo_scope, first_task, second_task}

abbrev actor : RepositoryActor
actor = user demo_scope

abbrev one_task : ApiStore
one_task = record empty_store { tasks = first_task ∷ [] }

abbrev two_tasks : ApiStore
two_tasks = record empty_store { tasks = first_task ∷ second_task ∷ [] }

upsert_runs : upsert_task actor second_task one_task ≡ ok (second_task, two_tasks)
unfolding upsert_task
upsert_runs = refl

get_task-upsert_task_example : get_task actor demo_scope "second" two_tasks ≡ ok second_task
get_task-upsert_task_example =
    get_task-upsert_task actor second_task second_task one_task two_tasks upsert_runs

get_task-upsert_task_other_example :
    get_task system demo_scope "first" two_tasks ≡ get_task system demo_scope "first" one_task
unfolding upsert_task
get_task-upsert_task_other_example =
    get_task-upsert_task_other actor system second_task second_task demo_scope "first" one_task
      two_tasks upsert_runs refl

delete_runs : delete_task actor demo_scope "second" two_tasks ≡ ok (tt, one_task)
unfolding delete_task
delete_runs = refl

get_task-delete_task_example :
    get_task actor demo_scope "second" one_task ≡ err (not_found "Task not found.")
get_task-delete_task_example =
    get_task-delete_task actor demo_scope "second" two_tasks one_task delete_runs

abbrev reservation : IdempotencyRecord
reservation = record {
  key = "key";
  scope = demo_scope;
  request_hash = "hash";
  status = IdempotencyStatus.in_progress;
  created_at = iso midnight;
  completed_at = none;
  response_resource_id = none;
  expires_at = none;
}

abbrev retry : IdempotencyRecord
retry = record reservation { request_hash = "other" }

abbrev reserved : ApiStore
reserved = record empty_store { idempotency_records = reservation ∷ [] }

reserve_runs : reserve actor reservation empty_store ≡ ok ((reservation, true), reserved)
unfolding reserve
reserve_runs = refl

reserve-reserve_example : reserve actor retry reserved ≡ ok ((reservation, false), reserved)
reserve-reserve_example =
    reserve-reserve actor reservation retry reservation true empty_store reserved reserve_runs refl
      refl

abbrev demo_block : TimeBlock
demo_block = record {
  id = "block";
  task_id = "task";
  scope = demo_scope;
  start = iso (at_hour 9);
  end = iso (at_hour 10);
  status = BlockStatus.proposed;
  locked = false;
}

abbrev later_end : TimePatch
later_end = record { start = none; end = some (iso (at_hour 11)) }

abbrev moved_block : TimeBlock
moved_block = record demo_block { end = iso (at_hour 11) }

patch_runs : apply_block_time_patch later_end demo_block ≡ ok moved_block
unfolding apply_block_time_patch
patch_runs = refl

apply_block_time_patch-Moved_example : Moved demo_block moved_block
apply_block_time_patch-Moved_example =
    apply_block_time_patch-Moved later_end demo_block moved_block patch_runs

abbrev demo_import : ImportThrottleConsumeInput
demo_import = record {
  source_system = "json";
  operation = json_task_import;
  count = pos 2;
  limit = pos 5;
  window_ms = pos 60000;
  now = iso midnight;
}

abbrev counted : ImportThrottleRecord
counted = record {
  id = "JSON_TASK_IMPORT:json";
  scope = demo_scope;
  source_system = "json";
  operation = json_task_import;
  window_started_at = iso midnight;
  window_ms = 60000;
  limit = 5;
  count = 2;
  updated_at = iso midnight;
}

abbrev allowed_result : ConsumeResult ImportThrottleRecord
allowed_result = record { allowed = true; retry_after_ms = 0; kept = counted }

abbrev throttled : ApiStore
throttled = record empty_store { import_throttle_records = counted ∷ [] }

consume_runs :
    consume_import actor demo_scope demo_import empty_store ≡ ok (allowed_result, throttled)
unfolding consume_import join
consume_runs = refl

-- A second import, while the window of the first goes on.
abbrev next_import : ImportThrottleConsumeInput
next_import = record demo_import { now = iso (midnight + 1000) }

abbrev counted_twice : ImportThrottleRecord
counted_twice = record counted { count = 4; updated_at = iso (midnight + 1000) }

abbrev throttled_twice : ApiStore
throttled_twice = record empty_store { import_throttle_records = counted_twice ∷ [] }

abbrev second_result : ConsumeResult ImportThrottleRecord
second_result = record { allowed = true; retry_after_ms = 0; kept = counted_twice }

next_runs :
    consume_import actor demo_scope next_import throttled ≡ ok (second_result, throttled_twice)
unfolding consume_import join
next_runs = refl

consume_import-Consumed_example :
    Consumed demo_scope next_import throttled throttled_twice second_result
consume_import-Consumed_example =
    consume_import-Consumed actor demo_scope next_import throttled throttled_twice second_result
      next_runs

abbrev demo_session : AuthSession
demo_session = record {
  id = "session";
  scope = demo_scope;
  session_token_hash = "hash";
  created_at = iso midnight;
  expires_at = iso (at_hour 12);
  revoked_at = none;
  last_seen_at = none;
}

abbrev revoked_session : AuthSession
revoked_session = record demo_session { revoked_at = some (iso (at_hour 9)) }

abbrev signed_in : ApiStore
signed_in = record empty_store { auth_sessions = demo_session ∷ [] }

abbrev signed_out : ApiStore
signed_out = record empty_store { auth_sessions = revoked_session ∷ [] }

revoke_runs :
    revoke_session actor "session" (iso (at_hour 9)) signed_in ≡ ok (revoked_session, signed_out)
unfolding revoke_session
revoke_runs = refl

revoke_session-Revoked_example :
    Revoked actor "session" (iso (at_hour 9)) signed_in signed_out revoked_session
revoke_session-Revoked_example =
    revoke_session-Revoked actor "session" (iso (at_hour 9)) signed_in signed_out revoked_session
      revoke_runs

list_runs : list_tasks actor demo_scope two_tasks ≡ ok (first_task ∷ second_task ∷ [])
unfolding list_tasks
list_runs = refl

list_tasks_own_example :
    All (λ (t : SchedulingTask). demo_scope ≡ t.scope) (first_task ∷ second_task ∷ [])
list_tasks_own_example =
    list_tasks_own demo_scope demo_scope two_tasks (first_task ∷ second_task ∷ []) list_runs

get_task-apply_all_example :
    get_task system demo_scope "first" (
      apply_all
        (upsert second_task
          ∷ remove demo_scope "first"
          ∷ upsert first_task
          ∷ remove demo_scope "first"
          ∷ [])
        one_task)
    ≡ or_not_found "Task not found." (
        map_all
          (upsert second_task
            ∷ remove demo_scope "first"
            ∷ upsert first_task
            ∷ remove demo_scope "first"
            ∷ [])
          (map_of one_task)
          demo_scope
          "first")
get_task-apply_all_example =
    get_task-apply_all
      (upsert second_task
        ∷ remove demo_scope "first"
        ∷ upsert first_task
        ∷ remove demo_scope "first"
        ∷ [])
      one_task demo_scope "first"
