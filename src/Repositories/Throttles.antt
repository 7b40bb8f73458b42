-- ===== src/Repositories/Throttles.antt =====
-- src/repositories.ts: the throttles of imports and of requests, which count what happens in a window
-- of time and refuse what goes over a limit. Numbers are whole; `list` of the requests, which sorts by
-- the order of a locale, is left out.
pub mod Window
pub mod Limit
use scheduleos.Base.{
  ◌+◌, ◌-◌, ◌≤◌, ℕ, zero, suc, Bool, true, false, ◌&&◌, ◌||◌, not, List, [], ◌∷◌, ◌++◌, Option,
  none, some, Result, ok, err, ◌>>=◌, if◌then◌else◌, filter, find, String, str_eq, join, leb, ltb,
}
use scheduleos.Domain.{Instant, Timestamp, iso, Scope}
use scheduleos.Records.{
  ImportThrottleOperation, webhook_task_import, json_task_import, csv_task_import,
  ownerops_task_import, connectos_calendar_import, ics_calendar_import, ImportThrottleRecord,
  RequestThrottleRecord,
}
use scheduleos.Repositories.{
  ApiStore, RepositoryActor, RepositoryError, validation_error, Outcome, matches_scope,
  assert_can_access,
}
use scheduleos.Repositories.Tables.{put}

-- A whole number: `negsuc n` is `-(n + 1)`.
pub data ℤ : Type 0 where
  pos negsuc : ℕ → ℤ

pub record ImportThrottleConsumeInput : Type 0 where
  pub source_system : String
  pub operation : ImportThrottleOperation
  pub count : ℤ
  pub limit : ℤ
  pub window_ms : ℤ
  pub now : Timestamp

pub record RequestThrottleConsumeInput : Type 0 where
  pub key_hash : String
  pub count : ℤ
  pub limit : ℤ
  pub window_ms : ℤ
  pub now : Timestamp

pub record ConsumeResult {ℓ} (R : Type ℓ) : Type ℓ where
  pub allowed : Bool
  pub retry_after_ms : ℕ
  pub kept : R

-- `x < 0` is refused.
unfoldable pub non_negative : String → ℤ → Result RepositoryError ℕ
non_negative message (pos n) = ok n
non_negative message (negsuc n) = err (validation_error message)

-- `x <= 0` is refused.
unfoldable pub positive : String → ℤ → Result RepositoryError ℕ
positive message (pos zero) = err (validation_error message)
positive message (pos (suc n)) = ok (suc n)
positive message (negsuc n) = err (validation_error message)

unfoldable pub finite : String → Timestamp → Result RepositoryError Instant
finite message (iso t) = ok t
finite message Timestamp.malformed = err (validation_error message)

operation_name : ImportThrottleOperation → String
operation_name webhook_task_import = "WEBHOOK_TASK_IMPORT"
operation_name json_task_import = "JSON_TASK_IMPORT"
operation_name csv_task_import = "CSV_TASK_IMPORT"
operation_name ownerops_task_import = "OWNEROPS_TASK_IMPORT"
operation_name connectos_calendar_import = "CONNECTOS_CALENDAR_IMPORT"
operation_name ics_calendar_import = "ICS_CALENDAR_IMPORT"

unfoldable pub import_throttle_id : ImportThrottleOperation → String → String
unfolding operation_name
import_throttle_id operation source_system =
    join (operation_name operation ∷ ":" ∷ source_system ∷ [])

unfoldable pub request_throttle_id : String → String
request_throttle_id key_hash = join ("REQUEST:" ∷ key_hash ∷ [])

-- The window that started is over: `nowMs - startedAt >= windowMs`, or its start cannot be read.
unfoldable pub is_over : Timestamp → Instant → ℕ → Bool
is_over (iso started) now window_ms = leb (started + window_ms) now
is_over Timestamp.malformed now window_ms = true

-- `Math.max(0, windowMs - (nowMs - Date.parse(startedAt)))`
unfoldable pub retry_after : Timestamp → Instant → ℕ → ℕ
retry_after (iso started) now window_ms = (started + window_ms) - now
retry_after Timestamp.malformed now window_ms = 0

abbrev pub is_import_throttle : Scope → String → ImportThrottleRecord → Bool
is_import_throttle scope id r = str_eq r.id id && matches_scope r.scope scope

abbrev pub is_request_throttle : Scope → String → RequestThrottleRecord → Bool
is_request_throttle scope id r = str_eq r.id id && matches_scope r.scope scope

module _ (scope : Scope) (now : Timestamp) (now_ms : Instant) (window_ms limit : ℕ) where
  -- `baseRecord` of an import.
  unfoldable pub import_base :
      String → ImportThrottleOperation → Option ImportThrottleRecord → ImportThrottleRecord
  unfolding is_over import_throttle_id
  import_base source_system operation existing =
      let started : ImportThrottleRecord = record {
        id = import_throttle_id operation source_system;
        scope = scope;
        source_system = source_system;
        operation = operation;
        window_started_at = now;
        window_ms = window_ms;
        limit = limit;
        count = 0;
        updated_at = now;
      } in
      elim existing [
        | none ↦ started
        | some r ↦
            if is_over r.window_started_at now_ms window_ms
            then started
            else record r { window_ms = window_ms; limit = limit }
      ]

  -- `baseRecord` of a request.
  unfoldable pub request_base : String → Option RequestThrottleRecord → RequestThrottleRecord
  unfolding is_over request_throttle_id
  request_base key_hash existing =
      let started : RequestThrottleRecord = record {
        id = request_throttle_id key_hash;
        scope = scope;
        key_hash = key_hash;
        window_started_at = now;
        window_ms = window_ms;
        limit = limit;
        count = 0;
        updated_at = now;
      } in
      elim existing [
        | none ↦ started
        | some r ↦
            if is_over r.window_started_at now_ms window_ms
            then started
            else record r { window_ms = window_ms; limit = limit }
      ]

-- What `consume` does once its numbers are read.
unfoldable pub record_import :
    Scope
    → ImportThrottleConsumeInput
    → ℕ
    → ℕ
    → ℕ
    → Instant
    → ApiStore
    → Outcome (ConsumeResult ImportThrottleRecord)
unfolding import_base retry_after
record_import scope input count limit window_ms now_ms state =
    let id = import_throttle_id input.operation input.source_system in
    let base =
      import_base scope input.now now_ms window_ms limit input.source_system input.operation
        (find (is_import_throttle scope id) state.import_throttle_records) in
    let updated : ImportThrottleRecord = record base {
      count = base.count + count;
      updated_at = input.now;
    } in
    if ltb limit (base.count + count)
    then ok (
      record {
        allowed = false;
        retry_after_ms = retry_after base.window_started_at now_ms window_ms;
        kept = base;
      },
      state,
    )
    else ok (
      record { allowed = true; retry_after_ms = 0; kept = updated },
      record state {
        import_throttle_records =
            put (is_import_throttle scope updated.id) updated state.import_throttle_records;
      },
    )

unfoldable pub consume_import :
    RepositoryActor
    → Scope
    → ImportThrottleConsumeInput
    → ApiStore
    → Outcome (ConsumeResult ImportThrottleRecord)
unfolding assert_can_access non_negative positive finite record_import
consume_import actor scope input state = do
  allowed ← assert_can_access actor scope
  count ← non_negative "Import throttle count must be non-negative." input.count
  limit ← positive "Import throttle limit and windowMs must be positive." input.limit
  window_ms ← positive "Import throttle limit and windowMs must be positive." input.window_ms
  now_ms ← finite "Import throttle now must be a valid timestamp." input.now
  record_import scope input count limit window_ms now_ms state

abbrev is_empty_text : String → Bool
is_empty_text text = str_eq text ""

-- What `consume` does once its numbers are read.
unfoldable pub record_request :
    Scope
    → RequestThrottleConsumeInput
    → String
    → ℕ
    → ℕ
    → ℕ
    → Instant
    → ApiStore
    → Outcome (ConsumeResult RequestThrottleRecord)
unfolding request_base retry_after
record_request scope input named count limit window_ms now_ms state =
    let id = request_throttle_id named in
    let base =
      request_base scope input.now now_ms window_ms limit named
        (find (is_request_throttle scope id) state.request_throttle_records) in
    let updated : RequestThrottleRecord = record base {
      count = base.count + count;
      updated_at = input.now;
    } in
    if ltb limit (base.count + count)
    then ok (
      record {
        allowed = false;
        retry_after_ms = retry_after base.window_started_at now_ms window_ms;
        kept = base;
      },
      state,
    )
    else ok (
      record { allowed = true; retry_after_ms = 0; kept = updated },
      record state {
        request_throttle_records =
            put (is_request_throttle scope updated.id) updated state.request_throttle_records;
      },
    )

unfoldable pub consume_request :
    RepositoryActor
    → Scope
    → RequestThrottleConsumeInput
    → ApiStore
    → Outcome (ConsumeResult RequestThrottleRecord)
unfolding assert_can_access non_negative positive finite record_request
consume_request actor scope input state = do
  allowed ← assert_can_access actor scope
  named ←
      (if is_empty_text input.key_hash
        then err (validation_error "Request throttle keyHash required.")
        else ok input.key_hash)
  count ← non_negative "Request throttle count must be non-negative." input.count
  limit ← positive "Request throttle limit and windowMs must be positive." input.limit
  window_ms ← positive "Request throttle limit and windowMs must be positive." input.window_ms
  now_ms ← finite "Request throttle now must be a valid timestamp." input.now
  record_request scope input named count limit window_ms now_ms state
