-- ===== src/Api/Retention/Cleanup.antt =====
-- src/api.ts: the cleanup of one scope's records, and the handler that asks for a confirmation first.
pub mod Prune
pub mod Safe
pub mod Others
pub mod Confirmed
use scheduleos.Base.{
  Bool, true, false, ◌||◌, List, [], ◌∷◌, Option, none, some, Result, ok, err, ◌>>=◌, if◌then◌else◌,
  String, join,
}
use scheduleos.Domain.{Instant, Timestamp, iso, Scope, SchedulePlan}
use scheduleos.Records.{
  AuditEvent, ActorType, IdempotencyRecord, IntegrationState, ImportThrottleRecord, AuthSession,
  AuthPasswordResetToken, AuthLoginAttemptWindow,
}
use scheduleos.Policies.{
  RetentionCutoff, RetentionError, schedule_os_retention_policy, calculate_retention_cutoffs,
  timed_scoped_confirmation, require_destructive_confirmation, scoped_confirmation,
  schedule_plan_history, idempotency_record, auth_session, auth_password_reset_token,
  auth_login_attempt_window, import_throttle_window, integration_sync_metadata, audit_event,
}
use scheduleos.Repositories.{ApiStore, system}
use scheduleos.Repositories.Keyed.{append_audit_event}
use scheduleos.Api.{ApiError, api_error, retention_error, calling, Platform, validation_failed}
use scheduleos.Api.Access.{
  AuthPrincipal, require_auth_admin, require_authenticated_principal, workspace_of,
}
use scheduleos.Api.Retention.{
  RetentionCountMap, LocalRetentionCleanupResult, count_matches, prune_eligible, cutoff_for,
  plan_eligible, idempotency_eligible, session_eligible, password_reset_token_eligible,
  login_attempt_window_eligible, throttle_eligible, integration_eligible, audit_review_due,
}

-- The predicates, each with the cutoff of its category.
module _ (scope : Scope) (as_of : Instant) (cutoffs : List RetentionCutoff) where
  abbrev pub old_plan : SchedulePlan → Bool
  old_plan = plan_eligible scope as_of (cutoff_for cutoffs schedule_plan_history)

  abbrev pub old_record : IdempotencyRecord → Bool
  old_record = idempotency_eligible scope as_of (cutoff_for cutoffs idempotency_record)

  abbrev pub old_session : AuthSession → Bool
  old_session = session_eligible scope as_of (cutoff_for cutoffs auth_session)

  abbrev pub old_token : AuthPasswordResetToken → Bool
  old_token =
      password_reset_token_eligible scope as_of (cutoff_for cutoffs auth_password_reset_token)

  abbrev pub old_window : AuthLoginAttemptWindow → Bool
  old_window =
      login_attempt_window_eligible scope as_of (cutoff_for cutoffs auth_login_attempt_window)

  abbrev pub old_throttle : ImportThrottleRecord → Bool
  old_throttle = throttle_eligible scope as_of (cutoff_for cutoffs import_throttle_window)

  abbrev pub old_integration : IntegrationState → Bool
  old_integration = integration_eligible scope as_of (cutoff_for cutoffs integration_sync_metadata)

  abbrev pub old_event : AuditEvent → Bool
  old_event = audit_review_due scope as_of (cutoff_for cutoffs audit_event)

  unfoldable pub count_eligible : ApiStore → RetentionCountMap
  unfolding count_matches
  count_eligible store =
      let plans = count_matches old_plan store.plans schedule_plan_history [] in
      let records = count_matches old_record store.idempotency_records idempotency_record plans in
      let sessions = count_matches old_session store.auth_sessions auth_session records in
      let tokens =
        count_matches old_token store.auth_password_reset_tokens auth_password_reset_token
          sessions in
      let windows =
        count_matches old_window store.auth_login_attempt_windows auth_login_attempt_window
          tokens in
      let throttles =
        count_matches old_throttle store.import_throttle_records import_throttle_window windows in
      count_matches old_integration store.integration_states integration_sync_metadata throttles

  unfoldable pub prune_store : ApiStore → ApiStore × RetentionCountMap
  unfolding prune_eligible
  prune_store store =
      let plans = prune_eligible old_plan store.plans schedule_plan_history [] in
      let records =
        prune_eligible old_record store.idempotency_records idempotency_record plans.1 in
      let sessions = prune_eligible old_session store.auth_sessions auth_session records.1 in
      let tokens =
        prune_eligible old_token store.auth_password_reset_tokens auth_password_reset_token
          sessions.1 in
      let windows =
        prune_eligible old_window store.auth_login_attempt_windows auth_login_attempt_window
          tokens.1 in
      let throttles =
        prune_eligible old_throttle store.import_throttle_records import_throttle_window
          windows.1 in
      let integrations =
        prune_eligible old_integration store.integration_states integration_sync_metadata
          throttles.1 in
      (
        record store {
          plans = plans.0;
          idempotency_records = records.0;
          auth_sessions = sessions.0;
          auth_password_reset_tokens = tokens.0;
          auth_login_attempt_windows = windows.0;
          import_throttle_records = throttles.0;
          integration_states = integrations.0;
        },
        integrations.1,
      )

-- What the cleanup does once its cutoffs are calculated.
unfoldable pub clean_up :
    Scope
    → Instant
    → Bool
    → String
    → List RetentionCutoff
    → ApiStore
    → LocalRetentionCleanupResult × ApiStore
unfolding count_eligible prune_store
clean_up scope as_of dry_run required cutoffs store =
    let eligible = count_eligible scope as_of cutoffs store in
    let review_due =
      count_matches (old_event scope as_of cutoffs) store.audit_events audit_event [] in
    let pruned = prune_store scope as_of cutoffs store in
    let cleaned = if dry_run then (store, []) else pruned in
    (
      record {
        as_of = as_of;
        dry_run = dry_run;
        required_confirmation = required;
        eligible = eligible;
        deleted = cleaned.1;
        review_due = review_due;
      },
      cleaned.0,
    )

unfoldable pub cleanup_local_store_retention :
    Scope
    → Instant
    → Bool
    → String
    → ApiStore
    → Result RetentionError (LocalRetentionCleanupResult × ApiStore)
unfolding calculate_retention_cutoffs clean_up
cleanup_local_store_retention scope as_of dry_run required store = do
  cutoffs ← calculate_retention_cutoffs (iso as_of) schedule_os_retention_policy
  ok (clean_up scope as_of dry_run required cutoffs store)

pub record RetentionCleanupRequest : Type 0 where
  pub scope : Scope
  pub as_of : Timestamp
  pub apply : Option Bool
  pub confirm : Option String

abbrev pub retention_cleanup_audit_event : Platform → Instant → AuthPrincipal → Scope → AuditEvent
retention_cleanup_audit_event platform now principal scope = record {
  id = join (
      "retention_cleanup_"
      ∷ scope.tenant_id
      ∷ "_"
      ∷ scope.workspace_id
      ∷ "_"
      ∷ scope.user_id
      ∷ "_"
      ∷ platform.epoch_ms now
      ∷ []);
  scope = scope;
  occurred_at = iso now;
  actor_type = ActorType.user;
  actor_id = principal.scope.user_id;
  action = "RETENTION_CLEANUP_APPLIED";
  resource_type = "RETENTION_CLEANUP";
  resource_id = scoped_confirmation scope;
}

-- `cleanupRequest.apply !== true`
abbrev pub is_dry_run : Option Bool → Bool
is_dry_run (some true) = false
is_dry_run _ = true

abbrev pub valid_as_of : Timestamp → Result ApiError Instant
valid_as_of (iso t) = ok t
valid_as_of Timestamp.malformed = err (validation_failed "asOf must be valid ISO datetime.")

abbrev pub of_retention {ℓ} : {A : Type ℓ} → Result RetentionError A → Result ApiError A
of_retention (ok value) = ok value
of_retention (err thrown) = err (retention_error thrown)

-- The confirmation, which only a cleanup that deletes needs.
unfoldable pub confirm_cleanup :
    RetentionCleanupRequest → Bool → String → Result ApiError (Unit {0})
unfolding require_destructive_confirmation
confirm_cleanup request dry_run required =
    let approval =
      require_destructive_confirmation request.confirm required "local JSON retention cleanup" in
    if dry_run || approval.approved
    then ok tt
    else err (api_error 400 "DESTRUCTIVE_CONFIRMATION_REQUIRED" approval.refusal)

-- The event that is appended, where something may have been deleted.
unfoldable pub append_cleanup_event :
    Platform
    → Instant
    → AuthPrincipal
    → Scope
    → Bool
    → ApiStore
    → Result ApiError (Option AuditEvent × ApiStore)
unfolding append_audit_event
append_cleanup_event platform now principal scope dry_run store =
    let appended = (do
      saved ← calling (
          append_audit_event system (retention_cleanup_audit_event platform now principal scope)
            store)
      ok (some saved.0, saved.1)) in
    if dry_run then ok (none, store) else appended

-- The handler of `POST /api/retention/cleanup`.
unfoldable pub retention_cleanup :
    Platform
    → Instant
    → Option AuthPrincipal
    → RetentionCleanupRequest
    → ApiStore
    → Result ApiError ((LocalRetentionCleanupResult × Option AuditEvent) × ApiStore)
unfolding require_auth_admin timed_scoped_confirmation confirm_cleanup cleanup_local_store_retention
    append_cleanup_event
retention_cleanup platform now principal request store = do
  authenticated ← require_auth_admin principal (some (workspace_of request.scope))
  as_of ← valid_as_of request.as_of
  let required = timed_scoped_confirmation request.scope (platform.to_iso_string as_of)
  let dry_run = is_dry_run request.apply
  confirmed ← confirm_cleanup request dry_run required
  cleaned ← of_retention (cleanup_local_store_retention request.scope as_of dry_run required store)
  appended ← append_cleanup_event platform now authenticated request.scope dry_run cleaned.1
  ok ((cleaned.0, appended.0), appended.1)
