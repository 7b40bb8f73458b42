-- ===== src/Repositories/Keyed.antt =====
-- src/repositories.ts: working hours, audit events, idempotency records and integration states.
pub mod Once
use scheduleos.Base.{
  Bool, true, false, ◌&&◌, ◌||◌, not, List, [], ◌∷◌, ◌++◌, Option, none, some, Result, ok, err,
  ◌>>=◌, if◌then◌else◌, filter, find, any, map, String, str_eq, join,
}
use scheduleos.Domain.{Timestamp, Scope, WorkingHours}
use scheduleos.Records.{AuditEvent, IdempotencyRecord, IdempotencyStatus, IntegrationState}
use scheduleos.Repositories.{
  ApiStore, RepositoryActor, RepositoryError, forbidden, not_found, Outcome, matches_scope,
  assert_can_access,
}
use scheduleos.Repositories.Tables.{put, or_not_found}

unfoldable pub working_hours_key : Scope → String
working_hours_key scope =
    join (scope.tenant_id ∷ ":" ∷ scope.workspace_id ∷ ":" ∷ scope.user_id ∷ [])

-- `map.set(key, value)`: a key that is there keeps its place.
unfoldable pub set_entry :
    String → WorkingHours → List (String × WorkingHours) → List (String × WorkingHours)
set_entry key value [] = (key, value) ∷ []
set_entry key value (entry ∷ entries) =
    let rest = set_entry key value entries in
    if str_eq entry.0 key then (key, value) ∷ entries else entry ∷ rest

unfoldable pub entry_of : String → List (String × WorkingHours) → Option WorkingHours
entry_of key [] = none
entry_of key (entry ∷ entries) =
    let rest = entry_of key entries in if str_eq entry.0 key then some entry.1 else rest

unfoldable pub assert_working_hours_scope : WorkingHours → Scope → Result RepositoryError (Unit {0})
assert_working_hours_scope working_hours scope =
    if str_eq working_hours.user_id scope.user_id
    then ok tt
    else err (forbidden "Working hours do not match repository scope.")

-- The hours are stored under the scope's key and under the user alone.
unfoldable pub put_working_hours :
    RepositoryActor → Scope → WorkingHours → ApiStore → Outcome WorkingHours
unfolding assert_can_access assert_working_hours_scope set_entry working_hours_key
put_working_hours actor scope value state = do
  allowed ← assert_can_access actor scope
  matching ← assert_working_hours_scope value scope
  ok (
    value,
    record state {
      working_hours =
          set_entry value.user_id value
            (set_entry (working_hours_key scope) value state.working_hours);
    },
  )

-- `a ?? b`
abbrev or_other {ℓ} : {A : Type ℓ} → Option A → Option A → Option A
or_other none b = b
or_other (some a) b = some a

unfoldable pub get_working_hours :
    RepositoryActor → Scope → ApiStore → Result RepositoryError (Option WorkingHours)
unfolding assert_can_access entry_of working_hours_key
get_working_hours actor scope state = do
  allowed ← assert_can_access actor scope
  ok (
      or_other (entry_of (working_hours_key scope) state.working_hours)
        (entry_of scope.user_id state.working_hours))

unfoldable pub append_audit_event : RepositoryActor → AuditEvent → ApiStore → Outcome AuditEvent
unfolding assert_can_access
append_audit_event actor event state = do
  allowed ← assert_can_access actor event.scope
  ok (
    event,
    record state {
      audit_events = put (λ existing. str_eq existing.id event.id) event state.audit_events;
    },
  )

unfoldable pub list_audit_events :
    RepositoryActor → Scope → ApiStore → Result RepositoryError (List AuditEvent)
unfolding assert_can_access
list_audit_events actor scope state = do
  allowed ← assert_can_access actor scope
  ok (filter (λ event. matches_scope event.scope scope) state.audit_events)

abbrev pub is_reserved : Scope → String → IdempotencyRecord → Bool
is_reserved scope key record_ = str_eq record_.key key && matches_scope record_.scope scope

-- The record that holds the key, and whether it is the one given.
unfoldable pub reserve :
    RepositoryActor → IdempotencyRecord → ApiStore → Outcome (IdempotencyRecord × Bool)
unfolding assert_can_access
reserve actor record_ state = do
  allowed ← assert_can_access actor record_.scope
  elim (find (is_reserved record_.scope record_.key) state.idempotency_records) [
    | some existing ↦ ok ((existing, false), state)
    | none ↦ ok (
      (record_, true),
      record state { idempotency_records = state.idempotency_records ++ record_ ∷ [] },
    )
  ]

unfoldable pub get_reserved :
    RepositoryActor → Scope → String → ApiStore → Result RepositoryError (Option IdempotencyRecord)
unfolding assert_can_access
get_reserved actor scope key state = do
  allowed ← assert_can_access actor scope
  ok (find (is_reserved scope key) state.idempotency_records)

-- A field of the update that is not there is not spread over the record's.
pub record IdempotencyUpdate : Type 0 where
  pub status : IdempotencyStatus
  pub completed_at : Option Timestamp
  pub response_resource_id : Option String

abbrev pub apply_update : IdempotencyUpdate → IdempotencyRecord → IdempotencyRecord
apply_update update record_ = record record_ {
  status = update.status;
  completed_at = or_other update.completed_at record_.completed_at;
  response_resource_id = or_other update.response_resource_id record_.response_resource_id;
}

-- `updatedRecord` is the last record that is updated.
abbrev last {ℓ} : {A : Type ℓ} → List A → Option A
last [] = none
last (x ∷ xs) = or_other (last xs) (some x)

unfoldable pub complete_reserved :
    RepositoryActor → Scope → String → IdempotencyUpdate → ApiStore → Outcome IdempotencyRecord
unfolding assert_can_access
complete_reserved actor scope key update state = do
  allowed ← assert_can_access actor scope
  let updated = map (apply_update update) (filter (is_reserved scope key) state.idempotency_records)
  let records =
      map (λ r. if is_reserved scope key r then apply_update update r else r)
        state.idempotency_records
  updated_record ← or_not_found "Idempotency record not found." (last updated)
  ok (updated_record, record state { idempotency_records = records })

abbrev pub is_integration : Scope → String → IntegrationState → Bool
is_integration scope id item = str_eq item.id id && matches_scope item.scope scope

unfoldable pub upsert_integration :
    RepositoryActor → IntegrationState → ApiStore → Outcome IntegrationState
unfolding assert_can_access
upsert_integration actor item state = do
  allowed ← assert_can_access actor item.scope
  ok (
    item,
    record state {
      integration_states = put (is_integration item.scope item.id) item state.integration_states;
    },
  )

unfoldable pub get_integration :
    RepositoryActor → Scope → String → ApiStore → Result RepositoryError IntegrationState
unfolding assert_can_access
get_integration actor scope id state = do
  allowed ← assert_can_access actor scope
  or_not_found "Integration state not found."
      (find (is_integration scope id) state.integration_states)

unfoldable pub list_integrations :
    RepositoryActor → Scope → ApiStore → Result RepositoryError (List IntegrationState)
unfolding assert_can_access
list_integrations actor scope state = do
  allowed ← assert_can_access actor scope
  ok (filter (λ item. matches_scope item.scope scope) state.integration_states)
