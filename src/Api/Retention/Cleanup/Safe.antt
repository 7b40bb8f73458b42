-- ===== src/Api/Retention/Cleanup/Safe.antt =====
-- src/api.ts: what `cleanupLocalStoreRetention` deletes and keeps.
use scheduleos.Base.{
  ◌≡◌, refl, sym, ◌∙◌, ap, Bool, true, false, List, [], ok, >>=-eq-ok, ok-injective, String,
}
use scheduleos.Domain.{Instant, iso, Scope}
use scheduleos.Policies.{RetentionCutoff, calculate_retention_cutoffs, schedule_os_retention_policy}
use scheduleos.Repositories.{ApiStore}
use scheduleos.Api.Retention.{RetentionCountMap, LocalRetentionCleanupResult, count_matches}
use scheduleos.Api.Retention.Cleanup.{
  old_plan, old_record, old_session, old_token, old_window, old_throttle, old_integration,
  count_eligible, clean_up, cleanup_local_store_retention,
}
use scheduleos.Api.Retention.Cleanup.Prune.{kept_store, prune_store_lem, filter-kept, kept-kept}

-- The cutoffs of a cleanup that returns, and what it did with them.
pub cleanup-cutoffs :
    (scope : Scope) (as_of : Instant) (dry_run : Bool) (required : String) (store : ApiStore)
    {r : LocalRetentionCleanupResult × ApiStore}
    → cleanup_local_store_retention scope as_of dry_run required store ≡ ok r
    → (cutoffs : List RetentionCutoff) × (calculate_retention_cutoffs
          (iso as_of)
          schedule_os_retention_policy
        ≡ ok cutoffs)
      × (clean_up scope as_of dry_run required cutoffs store ≡ r)
unfolding cleanup_local_store_retention
cleanup-cutoffs scope as_of dry_run required store h =
    let (cutoffs, calculated, h') =
      >>=-eq-ok (calculate_retention_cutoffs (iso as_of) schedule_os_retention_policy) _ h in
    (cutoffs, calculated, ok-injective h')

module _ (scope : Scope) (as_of : Instant) (cutoffs : List RetentionCutoff) (store : ApiStore) where
  pub clean_up_store :
      (required : String)
      → (clean_up scope as_of false required cutoffs store).1 ≡ kept_store scope as_of cutoffs store
  unfolding clean_up
  clean_up_store required =
      ap (λ (x : ApiStore × RetentionCountMap). x.0) (prune_store_lem scope as_of cutoffs store)

  clean_up_deleted :
      (required : String)
      → ((clean_up scope as_of false required cutoffs store).0).deleted
        ≡ count_eligible scope as_of cutoffs store
  unfolding clean_up
  clean_up_deleted required =
      ap (λ (x : ApiStore × RetentionCountMap). x.1) (prune_store_lem scope as_of cutoffs store)

  clean_up_eligible :
      (required : String) (dry_run : Bool)
      → ((clean_up scope as_of dry_run required cutoffs store).0).eligible
        ≡ count_eligible scope as_of cutoffs store
  unfolding clean_up
  clean_up_eligible required dry_run = refl

  clean_up_dry : (required : String) → (clean_up scope as_of true required cutoffs store).1 ≡ store
  unfolding clean_up
  clean_up_dry required = refl

  clean_up_dry_deleted :
      (required : String) → ((clean_up scope as_of true required cutoffs store).0).deleted ≡ []
  unfolding clean_up
  clean_up_dry_deleted required = refl

  -- What is kept has nothing to delete.
  count_eligible-kept_store :
      count_eligible scope as_of cutoffs (kept_store scope as_of cutoffs store) ≡ []
  unfolding count_eligible count_matches
  count_eligible-kept_store =
      rw
        (
          filter-kept (old_plan scope as_of cutoffs) store.plans,
          filter-kept (old_record scope as_of cutoffs) store.idempotency_records,
          filter-kept (old_session scope as_of cutoffs) store.auth_sessions,
          filter-kept (old_token scope as_of cutoffs) store.auth_password_reset_tokens,
          filter-kept (old_window scope as_of cutoffs) store.auth_login_attempt_windows,
          filter-kept (old_throttle scope as_of cutoffs) store.import_throttle_records,
          filter-kept (old_integration scope as_of cutoffs) store.integration_states,
        )
        refl

  kept_store-kept_store :
      kept_store scope as_of cutoffs (kept_store scope as_of cutoffs store)
      ≡ kept_store scope as_of cutoffs store
  kept_store-kept_store =
      rw
        (
          kept-kept (old_plan scope as_of cutoffs) store.plans,
          kept-kept (old_record scope as_of cutoffs) store.idempotency_records,
          kept-kept (old_session scope as_of cutoffs) store.auth_sessions,
          kept-kept (old_token scope as_of cutoffs) store.auth_password_reset_tokens,
          kept-kept (old_window scope as_of cutoffs) store.auth_login_attempt_windows,
          kept-kept (old_throttle scope as_of cutoffs) store.import_throttle_records,
          kept-kept (old_integration scope as_of cutoffs) store.integration_states,
        )
        refl

abbrev Run : Type 0
Run = LocalRetentionCleanupResult × ApiStore

same_cutoffs :
    (as_of : Instant) {a b : List RetentionCutoff}
    → calculate_retention_cutoffs (iso as_of) schedule_os_retention_policy ≡ ok a
    → calculate_retention_cutoffs (iso as_of) schedule_os_retention_policy ≡ ok b
    → a ≡ b
same_cutoffs as_of h k = ok-injective (sym h ∙ k)

-- A dry run of the cleanup leaves the store as it is and deletes nothing, and reports as eligible, for
-- every category, the numbers that the cleanup of the same scope, instant and store deletes.
pub cleanup-preview :
    (scope : Scope) (as_of : Instant) (required required' : String)
    (store unchanged cleaned : ApiStore) (preview result : LocalRetentionCleanupResult)
    → cleanup_local_store_retention scope as_of true required store ≡ ok (preview, unchanged)
    → cleanup_local_store_retention scope as_of false required' store ≡ ok (result, cleaned)
    → (unchanged ≡ store) × (preview.deleted ≡ []) × (preview.eligible ≡ result.deleted)
cleanup-preview scope as_of required required' store unchanged cleaned preview result h k =
    let (c, calculated, e) = cleanup-cutoffs scope as_of true required store h in
    let (c', calculated', e') = cleanup-cutoffs scope as_of false required' store k in
    let deleted =
      sym (clean_up_deleted scope as_of c' store required') ∙ ap (λ (x : Run). (x.0).deleted) e' in
    let eligible =
      sym (clean_up_eligible scope as_of c store required true)
      ∙ ap (λ (x : Run). (x.0).eligible) e in
    let same =
      ap (λ cutoffs. count_eligible scope as_of cutoffs store)
        (same_cutoffs as_of calculated calculated') in
    (
      sym (ap (λ (x : Run). x.1) e) ∙ clean_up_dry scope as_of c store required,
      sym (ap (λ (x : Run). (x.0).deleted) e) ∙ clean_up_dry_deleted scope as_of c store required,
      sym eligible ∙ same ∙ deleted,
    )

-- The cleanup of a store that the cleanup of the same scope and instant has left deletes nothing and
-- leaves the store as it is.
pub cleanup-cleanup :
    (scope : Scope) (as_of : Instant) (required required' : String) (store cleaned again : ApiStore)
    (result second : LocalRetentionCleanupResult)
    → cleanup_local_store_retention scope as_of false required store ≡ ok (result, cleaned)
    → cleanup_local_store_retention scope as_of false required' cleaned ≡ ok (second, again)
    → (again ≡ cleaned) × (second.deleted ≡ [])
cleanup-cleanup scope as_of required required' store cleaned again result second h k =
    let (c, calculated, e) = cleanup-cutoffs scope as_of false required store h in
    let (c', calculated', e') = cleanup-cutoffs scope as_of false required' cleaned k in
    let same = same_cutoffs as_of calculated' calculated in
    let left : cleaned ≡ kept_store scope as_of c store =
      sym (ap (λ (x : Run). x.1) e) ∙ clean_up_store scope as_of c store required in
    (
      sym (ap (λ (x : Run). x.1) e')
          ∙ clean_up_store scope as_of c' cleaned required'
          ∙ (rw (same, left) (kept_store-kept_store scope as_of c store)),
      sym (ap (λ (x : Run). (x.0).deleted) e')
          ∙ clean_up_deleted scope as_of c' cleaned required'
          ∙ (rw (same, left) (count_eligible-kept_store scope as_of c store)),
    )

pub cleanup-unchanged :
    (scope : Scope) (as_of : Instant) (required : String) (store unchanged : ApiStore)
    (preview : LocalRetentionCleanupResult)
    → cleanup_local_store_retention scope as_of true required store ≡ ok (preview, unchanged)
    → unchanged ≡ store
cleanup-unchanged scope as_of required store unchanged preview h =
    let (c, calculated, e) = cleanup-cutoffs scope as_of true required store h in
    sym (ap (λ (x : Run). x.1) e) ∙ clean_up_dry scope as_of c store required
