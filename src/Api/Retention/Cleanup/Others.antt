-- ===== src/Api/Retention/Cleanup/Others.antt =====
-- src/api.ts: `cleanupLocalStoreRetention` and the records of other scopes.
use scheduleos.Base.{
  List, ◌≡◌, ◌≢◌, refl, sym, ◌∙◌, ap, subst, true, false, ok, String, filter, Bool-cases, inl, inr,
}
use scheduleos.Domain.{Instant, Scope, SchedulePlan}
use scheduleos.Records.{
  IdempotencyRecord, IntegrationState, AuthSession, AuthPasswordResetToken, ImportThrottleRecord,
  AuthLoginAttemptWindow,
}
use scheduleos.Policies.{RetentionCutoff}
use scheduleos.Repositories.{ApiStore, matches_scope}
use scheduleos.Repositories.Access.{matches_scope-eq}
use scheduleos.Api.Retention.{
  LocalRetentionCleanupResult, plan_eligible, idempotency_eligible, session_eligible,
  password_reset_token_eligible, login_attempt_window_eligible, throttle_eligible,
  integration_eligible,
}
use scheduleos.Api.Retention.Cleanup.{
  old_plan, old_record, old_session, old_token, old_window, old_throttle, old_integration,
  cleanup_local_store_retention,
}
use scheduleos.Api.Retention.Cleanup.Prune.{kept_store, filter-kept_other}
use scheduleos.Api.Retention.Cleanup.Safe.{cleanup-cutoffs, clean_up_store}

-- Two stores that hold the same for a scope, table by table, and the same tasks, calendar events,
-- working hours, users, memberships, audit events and request throttles.
pub record SameFor (other : Scope) (store store' : ApiStore) : Type 0 where
  pub plans :
      filter (λ (x : SchedulePlan). matches_scope x.scope other) store'.plans
      ≡ filter (λ (x : SchedulePlan). matches_scope x.scope other) store.plans
  pub idempotency_records :
      filter (λ (x : IdempotencyRecord). matches_scope x.scope other) store'.idempotency_records
      ≡ filter (λ (x : IdempotencyRecord). matches_scope x.scope other) store.idempotency_records
  pub auth_sessions :
      filter (λ (x : AuthSession). matches_scope x.scope other) store'.auth_sessions
      ≡ filter (λ (x : AuthSession). matches_scope x.scope other) store.auth_sessions
  pub auth_password_reset_tokens :
      filter
        (λ (x : AuthPasswordResetToken). matches_scope x.scope other)
        store'.auth_password_reset_tokens
      ≡ filter
          (λ (x : AuthPasswordResetToken). matches_scope x.scope other)
          store.auth_password_reset_tokens
  pub auth_login_attempt_windows :
      filter
        (λ (x : AuthLoginAttemptWindow). matches_scope x.scope other)
        store'.auth_login_attempt_windows
      ≡ filter
          (λ (x : AuthLoginAttemptWindow). matches_scope x.scope other)
          store.auth_login_attempt_windows
  pub import_throttle_records :
      filter
        (λ (x : ImportThrottleRecord). matches_scope x.scope other)
        store'.import_throttle_records
      ≡ filter
          (λ (x : ImportThrottleRecord). matches_scope x.scope other)
          store.import_throttle_records
  pub integration_states :
      filter (λ (x : IntegrationState). matches_scope x.scope other) store'.integration_states
      ≡ filter (λ (x : IntegrationState). matches_scope x.scope other) store.integration_states
  pub rest : store' ≡ record store {
    plans = store'.plans;
    idempotency_records = store'.idempotency_records;
    auth_sessions = store'.auth_sessions;
    auth_password_reset_tokens = store'.auth_password_reset_tokens;
    auth_login_attempt_windows = store'.auth_login_attempt_windows;
    import_throttle_records = store'.import_throttle_records;
    integration_states = store'.integration_states;
  }

-- What is of one scope is not of the other.
apart :
    (scope other x : Scope)
    → scope ≢ other
    → matches_scope x other ≡ true
    → matches_scope x scope ≡ false
apart scope other x different h = elim (Bool-cases (matches_scope x scope)) [
  | inr e ↦ e
  | inl e ↦ absurd (different (sym (matches_scope-eq x scope e) ∙ matches_scope-eq x other h))
]

module _ (scope other : Scope) (as_of : Instant) (cutoffs : List RetentionCutoff)
    (different : scope ≢ other) where
  kept_store-SameFor :
      (store : ApiStore) → SameFor other store (kept_store scope as_of cutoffs store)
  unfolding plan_eligible idempotency_eligible session_eligible password_reset_token_eligible
      login_attempt_window_eligible throttle_eligible integration_eligible
  kept_store-SameFor store = record {
    plans =
        filter-kept_other _ (old_plan scope as_of cutoffs) store.plans
          (λ x h. rw (apart scope other x.scope different h) refl);
    idempotency_records =
        filter-kept_other _ (old_record scope as_of cutoffs) store.idempotency_records
          (λ x h. rw (apart scope other x.scope different h) refl);
    auth_sessions =
        filter-kept_other _ (old_session scope as_of cutoffs) store.auth_sessions
          (λ x h. rw (apart scope other x.scope different h) refl);
    auth_password_reset_tokens =
        filter-kept_other _ (old_token scope as_of cutoffs) store.auth_password_reset_tokens
          (λ x h. rw (apart scope other x.scope different h) refl);
    auth_login_attempt_windows =
        filter-kept_other _ (old_window scope as_of cutoffs) store.auth_login_attempt_windows
          (λ x h. rw (apart scope other x.scope different h) refl);
    import_throttle_records =
        filter-kept_other _ (old_throttle scope as_of cutoffs) store.import_throttle_records
          (λ x h. rw (apart scope other x.scope different h) refl);
    integration_states =
        filter-kept_other _ (old_integration scope as_of cutoffs) store.integration_states
          (λ x h. rw (apart scope other x.scope different h) refl);
    rest = refl;
  }

-- The cleanup of a scope keeps every plan, idempotency record, session, reset token, login attempt
-- window, import throttle and integration of any other scope, and touches no other table.
pub cleanup-SameFor :
    (scope other : Scope) (as_of : Instant) (required : String) (store cleaned : ApiStore)
    (result : LocalRetentionCleanupResult)
    → scope ≢ other
    → cleanup_local_store_retention scope as_of false required store ≡ ok (result, cleaned)
    → SameFor other store cleaned
cleanup-SameFor scope other as_of required store cleaned result different h =
    let (c, calculated, e) = cleanup-cutoffs scope as_of false required store h in
    let left : kept_store scope as_of c store ≡ cleaned =
      sym (clean_up_store scope as_of c store required)
      ∙ ap (λ (x : LocalRetentionCleanupResult × ApiStore). x.1) e in
    subst (SameFor other store) left (kept_store-SameFor scope other as_of c different store)
