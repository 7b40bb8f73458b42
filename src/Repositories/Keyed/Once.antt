-- ===== src/Repositories/Keyed/Once.antt =====
-- src/repositories.ts: reserving a key more than once.
use scheduleos.Base.{
  ◌≡◌, refl, sym, ◌∙◌, ap, subst, Bool, true, false, [], ◌∷◌, ◌++◌, some, ok, >>=-eq-ok,
  ok-injective, find, String, eq_iff, Option-cases, inl, inr,
}
use scheduleos.Domain.{Scope}
use scheduleos.Records.{IdempotencyRecord}
use scheduleos.Repositories.{ApiStore, RepositoryActor, Outcome, assert_can_access}
use scheduleos.Repositories.Access.{matches_scope_refl}
use scheduleos.Repositories.Tables.{find-append}
use scheduleos.Repositories.Keyed.{is_reserved, reserve}

is_reserved_refl : (r : IdempotencyRecord) → is_reserved r.scope r.key r ≡ true
is_reserved_refl r = rw (matches_scope_refl r.scope, (eq_iff r.key r.key).1 refl) refl

-- A reservation of a key that is found.
reserve_found :
    (actor : RepositoryActor) (r kept : IdempotencyRecord) (scope : Scope) (key : String)
    (state : ApiStore) {allowed : Unit {0}}
    → ◌≡◌ {A = Scope × String} (r.scope, r.key) (scope, key)
    → assert_can_access actor scope ≡ ok allowed
    → find (is_reserved scope key) state.idempotency_records ≡ some kept
    → reserve actor r state ≡ ok ((kept, false), state)
unfolding reserve
reserve_found actor r kept scope key state same access found =
    let access' =
      subst (λ (k : Scope × String). assert_can_access actor k.0 ≡ ok tt) (sym same) access in
    let found' =
      subst
        (λ (k : Scope × String). find (is_reserved k.0 k.1) state.idempotency_records ≡ some kept)
        (sym same) found in
    rw (access', found') refl

-- Once a key is reserved, a later reservation of it in the same scope, by whichever record, creates
-- nothing: it returns the record that was returned the first time and leaves the store as it is.
pub reserve-reserve :
    (actor : RepositoryActor) (first later kept : IdempotencyRecord) (created : Bool)
    (state state' : ApiStore)
    → reserve actor first state ≡ ok ((kept, created), state')
    → later.key ≡ first.key
    → later.scope ≡ first.scope
    → reserve actor later state' ≡ ok ((kept, false), state')
unfolding reserve
reserve-reserve actor first later kept created state state' h same_key same_scope =
    let same : ◌≡◌ {A = Scope × String} (later.scope, later.key) (first.scope, first.key) = cc in
    let (allowed, access, h') = >>=-eq-ok (assert_can_access actor first.scope) _ h in
    elim (Option-cases (find (is_reserved first.scope first.key) state.idempotency_records)) [
      | inl e ↦
          let k : ◌≡◌ {A = Outcome (IdempotencyRecord × Bool)}
              (ok (
                (first, true),
                record state { idempotency_records = state.idempotency_records ++ first ∷ [] },
              ))
              (ok ((kept, created), state')) =
            rw e at h' in
          let pair = ok-injective k in
          let kept_eq : first ≡ kept =
            ap (λ (r : (IdempotencyRecord × Bool) × ApiStore). (r.0).0) pair in
          let records_eq : state.idempotency_records ++ first ∷ [] ≡ state'.idempotency_records =
            ap (λ (r : (IdempotencyRecord × Bool) × ApiStore). (r.1).idempotency_records) pair in
          let found : find (is_reserved first.scope first.key)
                (state.idempotency_records ++ first ∷ [])
              ≡ some first =
            find-append (is_reserved first.scope first.key) state.idempotency_records (first ∷ []) e
            ∙ (rw (is_reserved_refl first) refl) in
          reserve_found actor later kept first.scope first.key state' same access
            (rw (sym records_eq, sym kept_eq) found)
      | inr (existing, e) ↦
          let k : ◌≡◌ {A = Outcome (IdempotencyRecord × Bool)} (ok ((existing, false), state))
              (ok ((kept, created), state')) =
            rw e at h' in
          let pair = ok-injective k in
          let kept_eq : existing ≡ kept =
            ap (λ (r : (IdempotencyRecord × Bool) × ApiStore). (r.0).0) pair in
          let state_eq : state ≡ state' =
            ap (λ (r : (IdempotencyRecord × Bool) × ApiStore). r.1) pair in
          reserve_found actor later kept first.scope first.key state' same access
            (rw (sym state_eq, sym kept_eq) e)
    ]
