-- ===== src/Repositories/Throttles/Limit.antt =====
-- src/repositories.ts: the throttle of imports and its limit.
use scheduleos.Base.{
  sym, ltb→le, ◌+◌, ◌≤◌, ◌<◌, ◌≡◌, refl, ap, subst, ℕ, zero, suc, true, false, some, ok, >>=-eq-ok,
  ok-injective, String, eq_iff, Bool-cases, inl, inr, ltb, ltb→lt, ◌⊎◌,
}
use scheduleos.Domain.{Instant, Timestamp, iso, Scope}
use scheduleos.Records.{ImportThrottleRecord}
use scheduleos.Repositories.{ApiStore, RepositoryActor, assert_can_access}
use scheduleos.Repositories.Tables.{find-put}
use scheduleos.Repositories.Throttles.Window.{
  base_of, throttle_of, WindowAt, and-left, base_of-is_it, base_of-WindowAt,
}
use scheduleos.Repositories.Throttles.{
  ℤ, pos, negsuc, ImportThrottleConsumeInput, ConsumeResult, non_negative, positive, finite,
  import_throttle_id, is_import_throttle, record_import, consume_import,
}

non_negative-eq : (m : String) (z : ℤ) (n : ℕ) → non_negative m z ≡ ok n → z ≡ pos n
unfolding non_negative
non_negative-eq m (pos k) n h = ap pos (ok-injective h)
non_negative-eq m (negsuc k) n h = cc

positive-eq : (m : String) (z : ℤ) (n : ℕ) → positive m z ≡ ok n → z ≡ pos n
unfolding positive
positive-eq m (pos zero) n h = cc
positive-eq m (pos (suc k)) n h = ap pos (ok-injective h)
positive-eq m (negsuc k) n h = cc

finite-eq : (m : String) (t : Timestamp) (n : Instant) → finite m t ≡ ok n → t ≡ iso n
unfolding finite
finite-eq m (iso t) n h = ap iso (ok-injective h)
finite-eq m Timestamp.malformed n h = cc

-- The import is counted on top of what the window has counted, within the limit, and stored.
pub record Allowed (scope : Scope) (input : ImportThrottleConsumeInput) (count limit used : ℕ)
    (start : Timestamp) (state' : ApiStore) (r : ConsumeResult ImportThrottleRecord) : Type 0 where
  pub allowed : r.allowed ≡ true
  pub counted : r.kept.count ≡ used + count
  pub within : used + count ≤ limit
  pub started : r.kept.window_started_at ≡ start
  pub stored : throttle_of scope input state' ≡ some r.kept

-- The import would go over the limit, and nothing is stored.
pub record Refused (count limit used : ℕ) (state state' : ApiStore)
    (r : ConsumeResult ImportThrottleRecord) : Type 0 where
  pub refused : r.allowed ≡ false
  pub past : limit < used + count
  pub same : state' ≡ state

record_import-cases :
    (scope : Scope) (input : ImportThrottleConsumeInput) (count limit window_ms : ℕ)
    (now_ms : Instant) (state state' : ApiStore) (r : ConsumeResult ImportThrottleRecord)
    → record_import scope input count limit window_ms now_ms state ≡ ok (r, state')
    → let base = base_of scope input limit window_ms now_ms state in
      Allowed scope input count limit base.count base.window_started_at state' r
      ⊎ Refused count limit base.count state state' r
unfolding record_import
record_import-cases scope input count limit window_ms now_ms state state' r h =
    let base = base_of scope input limit window_ms now_ms state in
    let updated : ImportThrottleRecord = record base {
      count = base.count + count;
      updated_at = input.now;
    } in
    let p = is_import_throttle scope (import_throttle_id input.operation input.source_system) in
    let is_it = base_of-is_it scope input limit window_ms now_ms state in
    let same_id : updated.id ≡ import_throttle_id input.operation input.source_system =
      (eq_iff _ _).0 (and-left _ _ is_it) in
    elim (Bool-cases (ltb limit (base.count + count))) [
      | inl e ↦ inr (
          subst
            (λ (x : ConsumeResult ImportThrottleRecord × ApiStore).
              Refused count limit base.count state x.1 x.0)
            (ok-injective (rw e at h))
            (record { refused = refl; past = ltb→lt _ _ e; same = refl }))
      | inr e ↦ inl (
          subst
            (λ (x : ConsumeResult ImportThrottleRecord × ApiStore).
              Allowed scope input count limit base.count base.window_started_at x.1 x.0)
            (ok-injective (rw e at h))
            (record {
              allowed = refl;
              counted = refl;
              within = ltb→le _ _ e;
              started = refl;
              stored =
                  find-put p (is_import_throttle scope updated.id) updated
                    state.import_throttle_records is_it
                    (λ x k. subst (λ i. is_import_throttle scope i x ≡ true) (sym same_id) k);
            }))
    ]

-- The numbers of the input, read, and the window that the import falls in.
pub record Consumed (scope : Scope) (input : ImportThrottleConsumeInput) (state state' : ApiStore)
    (r : ConsumeResult ImportThrottleRecord) : Type 0 where
  pub count : ℕ
  pub limit : ℕ
  pub window_ms : ℕ
  pub now_ms : Instant
  pub count_read : input.count ≡ pos count
  pub limit_read : input.limit ≡ pos limit
  pub window_read : input.window_ms ≡ pos window_ms
  pub now_read : input.now ≡ iso now_ms
  pub used : ℕ
  pub start : Timestamp
  pub window : WindowAt scope input window_ms now_ms state used start
  pub outcome :
      Allowed scope input count limit used start state' r ⊎ Refused count limit used state state' r

-- A call of the import throttle that returns has read its numbers. The window that it counts in is the
-- stored one of the scope, source and operation where that has a readable start and is not over, with
-- its count, and otherwise one that starts at the call with a count of 0. Either the call allows the
-- import, and the record it returns adds the import to that count, at most the limit, keeps the start
-- of that window and is what the store holds; or it refuses, the two together are over the limit, and
-- the store is as it was.
pub consume_import-Consumed :
    (actor : RepositoryActor) (scope : Scope) (input : ImportThrottleConsumeInput)
    (state state' : ApiStore) (r : ConsumeResult ImportThrottleRecord)
    → consume_import actor scope input state ≡ ok (r, state')
    → Consumed scope input state state' r
unfolding consume_import
consume_import-Consumed actor scope input state state' r h =
    let (allowed, access, h₁) = >>=-eq-ok (assert_can_access actor scope) _ h in
    let (count, count_ok, h₂) = >>=-eq-ok (non_negative _ input.count) _ h₁ in
    let (limit, limit_ok, h₃) = >>=-eq-ok (positive _ input.limit) _ h₂ in
    let (window_ms, window_ok, h₄) = >>=-eq-ok (positive _ input.window_ms) _ h₃ in
    let (now_ms, now_ok, h₅) = >>=-eq-ok (finite _ input.now) _ h₄ in
    record {
      count = count;
      limit = limit;
      window_ms = window_ms;
      now_ms = now_ms;
      count_read = non_negative-eq _ _ _ count_ok;
      limit_read = positive-eq _ _ _ limit_ok;
      window_read = positive-eq _ _ _ window_ok;
      now_read = finite-eq _ _ _ now_ok;
      used = (base_of scope input limit window_ms now_ms state).count;
      start = (base_of scope input limit window_ms now_ms state).window_started_at;
      window = base_of-WindowAt scope input limit window_ms now_ms state;
      outcome = record_import-cases scope input count limit window_ms now_ms state state' r h₅;
    }
