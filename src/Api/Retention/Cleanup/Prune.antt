-- ===== src/Api/Retention/Cleanup/Prune.antt =====
-- src/api.ts: `pruneEligible` against filters, and what a cleanup leaves of every table.
use scheduleos.Base.{
  ◌≡◌, refl, ◌∙◌, ap, ◌+◌, ℕ, Bool, true, false, not, List, [], ◌∷◌, ◌++◌, filter, length, arith,
  Bool-cases, inl, inr,
}
use scheduleos.Domain.{Instant, Scope}
use scheduleos.Policies.{RetentionCutoff}
use scheduleos.Repositories.{ApiStore}
use scheduleos.Api.Retention.{count_matches, prune_loop, prune_eligible}
use scheduleos.Api.Retention.Cleanup.{
  old_plan, old_record, old_session, old_token, old_window, old_throttle, old_integration,
  count_eligible, prune_store,
}

abbrev pub kept {ℓ} : {A : Type ℓ} → (A → Bool) → List A → List A
kept p items = filter (λ item. not (p item)) items

append_nil {ℓ} : {A : Type ℓ} (xs : List A) → xs ++ [] ≡ xs
append_nil [] = refl
append_nil (x ∷ xs) = ap (λ ys. x ∷ ys) (append_nil xs)

append_assoc_one {ℓ} :
    {A : Type ℓ} (xs : List A) (x : A) (ys : List A) → (xs ++ x ∷ []) ++ ys ≡ xs ++ x ∷ ys
append_assoc_one [] x ys = refl
append_assoc_one (z ∷ xs) x ys = ap (λ zs. z ∷ zs) (append_assoc_one xs x ys)

-- The loop goes on from what it has retained and counted.
prune_loop_lem :
    {A : Type 0} (p : A → Bool) (items retained : List A) (deleted : ℕ)
    → prune_loop p items retained deleted
      ≡ (retained ++ kept p items, deleted + length (filter p items))
unfolding prune_loop
prune_loop_lem p [] retained deleted =
    rw (append_nil retained) (ap (λ n. (retained, n)) (omega arith))
prune_loop_lem p (x ∷ xs) retained deleted = elim (Bool-cases (p x)) [
  | inl e ↦ rw e (
      prune_loop_lem p xs retained (deleted + 1)
      ∙ ap (λ n. (retained ++ kept p xs, n)) (omega arith))
  | inr e ↦ rw e (
      prune_loop_lem p xs (retained ++ x ∷ []) deleted
      ∙ ap (λ ys. (ys, deleted + length (filter p xs))) (append_assoc_one retained x (kept p xs)))
]

prune_loop_start :
    {A : Type 0} (p : A → Bool) (items : List A)
    → prune_loop p items [] 0 ≡ (kept p items, length (filter p items))
prune_loop_start p items = prune_loop_lem p items [] 0 ∙ ap (λ n. (kept p items, n)) (omega arith)

-- What is kept of every table.
abbrev pub kept_store : Scope → Instant → List RetentionCutoff → ApiStore → ApiStore
kept_store scope as_of cutoffs store = record store {
  plans = kept (old_plan scope as_of cutoffs) store.plans;
  idempotency_records = kept (old_record scope as_of cutoffs) store.idempotency_records;
  auth_sessions = kept (old_session scope as_of cutoffs) store.auth_sessions;
  auth_password_reset_tokens =
      kept (old_token scope as_of cutoffs) store.auth_password_reset_tokens;
  auth_login_attempt_windows =
      kept (old_window scope as_of cutoffs) store.auth_login_attempt_windows;
  import_throttle_records = kept (old_throttle scope as_of cutoffs) store.import_throttle_records;
  integration_states = kept (old_integration scope as_of cutoffs) store.integration_states;
}

pub prune_store_lem :
    (scope : Scope) (as_of : Instant) (cutoffs : List RetentionCutoff) (store : ApiStore)
    → prune_store scope as_of cutoffs store
      ≡ (kept_store scope as_of cutoffs store, count_eligible scope as_of cutoffs store)
unfolding prune_store prune_eligible count_eligible count_matches
prune_store_lem scope as_of cutoffs store =
    rw
      (
        prune_loop_start (old_plan scope as_of cutoffs) store.plans,
        prune_loop_start (old_record scope as_of cutoffs) store.idempotency_records,
        prune_loop_start (old_session scope as_of cutoffs) store.auth_sessions,
        prune_loop_start (old_token scope as_of cutoffs) store.auth_password_reset_tokens,
        prune_loop_start (old_window scope as_of cutoffs) store.auth_login_attempt_windows,
        prune_loop_start (old_throttle scope as_of cutoffs) store.import_throttle_records,
        prune_loop_start (old_integration scope as_of cutoffs) store.integration_states,
      )
      refl

-- Filtering twice is filtering once, and leaves nothing that the filter drops.
pub filter-kept : {A : Type 0} (p : A → Bool) (items : List A) → filter p (kept p items) ≡ []
filter-kept p [] = refl
filter-kept p (x ∷ xs) = elim (Bool-cases (p x)) [
  | inl e ↦ rw e (filter-kept p xs)
  | inr e ↦ rw (e, e) (filter-kept p xs)
]

pub kept-kept : {A : Type 0} (p : A → Bool) (items : List A) → kept p (kept p items) ≡ kept p items
kept-kept p [] = refl
kept-kept p (x ∷ xs) = elim (Bool-cases (p x)) [
  | inl e ↦ rw e (kept-kept p xs)
  | inr e ↦ rw (e, e) (ap (λ ys. x ∷ ys) (kept-kept p xs))
]

-- What no dropped item passes is filtered as before.
pub filter-kept_other :
    {A : Type 0} (q p : A → Bool) (items : List A)
    → ((x : A) → q x ≡ true → p x ≡ false)
    → filter q (kept p items) ≡ filter q items
filter-kept_other q p [] f = refl
filter-kept_other q p (x ∷ xs) f =
    let rest = filter-kept_other q p xs f in
    elim (Bool-cases (q x)) [
      | inl e ↦ rw (f x e, e) (ap (λ ys. x ∷ ys) rest)
      | inr e ↦ elim (Bool-cases (p x)) [ inl k ↦ rw (k, e) rest | inr k ↦ rw (k, e) rest ]
    ]
