-- ===== src/Api/Retention.antt =====
-- src/api.ts: the cleanup of records that are older than the policy keeps them.
pub mod Cleanup
use scheduleos.Base.{
  ◌+◌, ℕ, suc, Bool, true, false, ◌&&◌, ◌||◌, not, List, [], ◌∷◌, ◌++◌, Option, none, some, Result,
  ok, err, ◌>>=◌, if◌then◌else◌, filter, find, length, map, ltb, String, join,
}
use scheduleos.Domain.{Instant, Timestamp, iso, Scope, SchedulePlan}
use scheduleos.Records.{
  AuditEvent, ActorType, IdempotencyRecord, IdempotencyStatus, IntegrationState, IntegrationStatus,
  ImportThrottleRecord, AuthSession, AuthPasswordResetToken, AuthLoginAttemptWindow,
}
use scheduleos.Policies.{
  RetentionPolicyCategory, RetentionCutoff, RetentionError, schedule_os_retention_policy,
  calculate_retention_cutoffs, timed_scoped_confirmation, require_destructive_confirmation,
  schedule_plan_history, idempotency_record, auth_session, auth_password_reset_token,
  auth_login_attempt_window, import_throttle_window, integration_sync_metadata, audit_event,
  active_user_data, workspace_export, plaintext_backup, encrypted_backup, calendar_sync_state,
  deleted_workspace_operator_note,
}
use scheduleos.Repositories.{ApiStore, system, matches_scope}
use scheduleos.Repositories.Keyed.{append_audit_event}
use scheduleos.Api.{
  ApiError, api_error, retention_error, calling, Response, validation_failed, before_iso,
}
use scheduleos.Api.Access.{
  AuthPrincipal, require_auth_admin, require_authenticated_principal, workspace_of,
}

-- A number for each category that has one, in the order in which they are set.
abbrev pub RetentionCountMap : Type 0
RetentionCountMap = List (RetentionPolicyCategory × ℕ)

pub record LocalRetentionCleanupResult : Type 0 where
  pub as_of : Instant
  pub dry_run : Bool
  pub required_confirmation : String
  pub eligible : RetentionCountMap
  pub deleted : RetentionCountMap
  pub review_due : RetentionCountMap

-- `if (count > 0) counts[category] = count`
unfoldable pub set_count : RetentionPolicyCategory → ℕ → RetentionCountMap → RetentionCountMap
set_count category count counts = if ltb 0 count then counts ++ (category, count) ∷ [] else counts

module _ {A : Type 0} (predicate : A → Bool) where
  unfoldable pub count_matches :
      List A → RetentionPolicyCategory → RetentionCountMap → RetentionCountMap
  unfolding set_count
  count_matches items category counts = set_count category (length (filter predicate items)) counts

  -- The loop, with the items that it has retained and the number that it has deleted.
  unfoldable pub prune_loop : List A → List A → ℕ → List A × ℕ
  prune_loop [] retained deleted = (retained, deleted)
  prune_loop (item ∷ items) retained deleted =
      let if_deleted = prune_loop items retained (deleted + 1) in
      let if_retained = prune_loop items (retained ++ item ∷ []) deleted in
      if predicate item then if_deleted else if_retained

  unfoldable pub prune_eligible :
      List A → RetentionPolicyCategory → RetentionCountMap → List A × RetentionCountMap
  unfolding set_count prune_loop
  prune_eligible items category counts =
      let pruned = prune_loop items [] 0 in (pruned.0, set_count category pruned.1 counts)

abbrev is_category : RetentionPolicyCategory → RetentionPolicyCategory → Bool
is_category schedule_plan_history schedule_plan_history = true
is_category idempotency_record idempotency_record = true
is_category auth_session auth_session = true
is_category auth_password_reset_token auth_password_reset_token = true
is_category auth_login_attempt_window auth_login_attempt_window = true
is_category import_throttle_window import_throttle_window = true
is_category integration_sync_metadata integration_sync_metadata = true
is_category audit_event audit_event = true
is_category active_user_data active_user_data = true
is_category workspace_export workspace_export = true
is_category plaintext_backup plaintext_backup = true
is_category encrypted_backup encrypted_backup = true
is_category calendar_sync_state calendar_sync_state = true
is_category deleted_workspace_operator_note deleted_workspace_operator_note = true
is_category _ _ = false

abbrev delete_before_of : Option RetentionCutoff → Option Instant
delete_before_of none = none
delete_before_of (some cutoff) = cutoff.delete_before

unfoldable pub cutoff_for : List RetentionCutoff → RetentionPolicyCategory → Option Instant
cutoff_for cutoffs category =
    delete_before_of
      (find (λ (cutoff : RetentionCutoff). is_category cutoff.category category) cutoffs)

unfoldable pub before_cutoff : Timestamp → Option Instant → Bool
unfolding before_iso
before_cutoff value none = false
before_cutoff value (some cutoff) = before_iso value cutoff

-- `a ?? b`
abbrev pub or_else {ℓ} : {A : Type ℓ} → Option A → A → A
or_else none b = b
or_else (some a) b = a

abbrev pub is_there {ℓ} : {A : Type ℓ} → Option A → Bool
is_there none = false
is_there (some a) = true

abbrev pub expired : Option Timestamp → Instant → Bool
unfolding before_iso
expired none as_of = false
expired (some expires_at) as_of = before_iso expires_at as_of

abbrev pub is_finished : IdempotencyStatus → Bool
is_finished IdempotencyStatus.in_progress = false
is_finished _ = true

abbrev pub is_connected : IntegrationStatus → Bool
is_connected IntegrationStatus.connected = true
is_connected _ = false

-- A window ends before the latest date that there is.
unfoldable pub import_throttle_window_end : ImportThrottleRecord → Timestamp
import_throttle_window_end r = elim r.window_started_at [
  | iso started_at ↦ iso (started_at + r.window_ms)
  | Timestamp.malformed ↦ r.updated_at
]

-- Which records are eligible, by the cutoff of their category.
module _ (scope : Scope) (as_of : Instant) (cutoff : Option Instant) where
  unfoldable pub plan_eligible : SchedulePlan → Bool
  unfolding before_cutoff
  plan_eligible plan = matches_scope plan.scope scope && before_cutoff plan.range_end cutoff

  unfoldable pub idempotency_eligible : IdempotencyRecord → Bool
  unfolding before_cutoff
  idempotency_eligible r =
      matches_scope r.scope scope
      && ((is_finished r.status || expired r.expires_at as_of)
          && before_cutoff (or_else r.completed_at (or_else r.expires_at r.created_at)) cutoff)

  unfoldable pub session_eligible : AuthSession → Bool
  unfolding before_cutoff before_iso
  session_eligible session =
      matches_scope session.scope scope
      && ((is_there session.revoked_at || before_iso session.expires_at as_of)
          && before_cutoff (or_else session.revoked_at session.expires_at) cutoff)

  unfoldable pub password_reset_token_eligible : AuthPasswordResetToken → Bool
  unfolding before_cutoff before_iso
  password_reset_token_eligible token =
      matches_scope token.scope scope
      && ((is_there token.used_at || before_iso token.expires_at as_of)
          && before_cutoff (or_else token.used_at token.expires_at) cutoff)

  unfoldable pub login_attempt_window_eligible : AuthLoginAttemptWindow → Bool
  unfolding before_cutoff
  login_attempt_window_eligible window =
      matches_scope window.scope scope
      && before_cutoff (or_else window.locked_until window.updated_at) cutoff

  unfoldable pub throttle_eligible : ImportThrottleRecord → Bool
  unfolding before_cutoff import_throttle_window_end
  throttle_eligible r =
      matches_scope r.scope scope && before_cutoff (import_throttle_window_end r) cutoff

  unfoldable pub integration_eligible : IntegrationState → Bool
  unfolding before_cutoff
  integration_eligible integration =
      matches_scope integration.scope scope
      && (not (is_connected integration.status) && before_cutoff integration.updated_at cutoff)

  unfoldable pub audit_review_due : AuditEvent → Bool
  unfolding before_cutoff
  audit_review_due event = matches_scope event.scope scope && before_cutoff event.occurred_at cutoff
