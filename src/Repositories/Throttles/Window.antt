-- ===== src/Repositories/Throttles/Window.antt =====
-- src/repositories.ts: the window of time that an import falls in.
use scheduleos.Base.{
  none, Option, str_eq, leb→le, leb→lt, ◌+◌, ◌≤◌, ◌<◌, ◌≡◌, refl, subst, ℕ, Bool, true, false, ◌&&◌,
  List, [], ◌∷◌, some, find, eq_iff, Bool-cases, Option-cases, inl, inr,
}
use mathlib.Core.Option.{some-injective}
use scheduleos.Domain.{Instant, Timestamp, iso, Scope}
use scheduleos.Records.{ImportThrottleRecord}
use scheduleos.Repositories.{ApiStore, matches_scope}
use scheduleos.Repositories.Access.{matches_scope_refl}
use scheduleos.Repositories.Throttles.{
  ImportThrottleConsumeInput, import_throttle_id, is_import_throttle, import_base, is_over,
}

-- The record of the window that holds at the time of a call.
abbrev pub base_of :
    Scope → ImportThrottleConsumeInput → ℕ → ℕ → Instant → ApiStore → ImportThrottleRecord
base_of scope input limit window_ms now_ms state =
    import_base scope input.now now_ms window_ms limit input.source_system input.operation (
      find (is_import_throttle scope (import_throttle_id input.operation input.source_system))
        state.import_throttle_records)

-- The throttle that a store holds for a source and an operation of a scope.
abbrev pub throttle_of : Scope → ImportThrottleConsumeInput → ApiStore → Option ImportThrottleRecord
throttle_of scope input state =
    find (is_import_throttle scope (import_throttle_id input.operation input.source_system))
      state.import_throttle_records

-- What the window that an import falls in has counted before it, and when that window started: the
-- stored window goes on until its time is over, and otherwise a window starts with the import.
pub data WindowAt (scope : Scope) (input : ImportThrottleConsumeInput) (window_ms : ℕ)
    (now_ms : Instant) (state : ApiStore) : ℕ → Timestamp → Type 0 where
  fresh :
      throttle_of scope input state ≡ none → WindowAt scope input window_ms now_ms state 0 input.now
  over :
      (r : ImportThrottleRecord) (started : Instant)
      → throttle_of scope input state ≡ some r
      → r.window_started_at ≡ iso started
      → started + window_ms ≤ now_ms
      → WindowAt scope input window_ms now_ms state 0 input.now
  unreadable :
      (r : ImportThrottleRecord)
      → throttle_of scope input state ≡ some r
      → r.window_started_at ≡ Timestamp.malformed
      → WindowAt scope input window_ms now_ms state 0 input.now
  running :
      (r : ImportThrottleRecord) (started : Instant)
      → throttle_of scope input state ≡ some r
      → r.window_started_at ≡ iso started
      → now_ms < started + window_ms
      → WindowAt scope input window_ms now_ms state r.count r.window_started_at

find-holds :
    (p : ImportThrottleRecord → Bool) (xs : List ImportThrottleRecord) {x : ImportThrottleRecord}
    → find p xs ≡ some x
    → p x ≡ true
find-holds p [] h = cc
find-holds p (y ∷ ys) h = elim (Bool-cases (p y)) [
  | inl e ↦ subst (λ z. p z ≡ true) (some-injective _ _ (rw e at h)) e
  | inr e ↦ find-holds p ys (rw e at h)
]

pub and-left : (a b : Bool) → (a && b) ≡ true → a ≡ true
and-left true b h = refl
and-left false b h = cc

module _ (scope : Scope) (input : ImportThrottleConsumeInput) (limit window_ms : ℕ)
    (now_ms : Instant) (state : ApiStore) where
  -- The record that the code counts from is found again, and is of the window of the import.
  pub base_of-is_it :
      is_import_throttle scope
        (import_throttle_id input.operation input.source_system)
        (base_of scope input limit window_ms now_ms state)
      ≡ true
  unfolding import_base
  base_of-is_it =
      let id = import_throttle_id input.operation input.source_system in
      let own : (str_eq id id && matches_scope scope scope) ≡ true =
        rw ((eq_iff id id).1 refl, matches_scope_refl scope) refl in
      elim (Option-cases (throttle_of scope input state)) [
        | inl e ↦ rw e own
        | inr (r, e) ↦ elim (Bool-cases (is_over r.window_started_at now_ms window_ms)) [
          | inl k ↦ rw (e, k) own
          | inr k ↦
              rw (e, k) (find-holds (is_import_throttle scope id) state.import_throttle_records e)
        ]
      ]

  WindowAt-found :
      (r : ImportThrottleRecord) (at : Timestamp)
      → throttle_of scope input state ≡ some r
      → r.window_started_at ≡ at
      → (is_over at now_ms window_ms ≡ true
          → WindowAt scope input window_ms now_ms state 0 input.now)
        × (is_over at now_ms window_ms ≡ false
            → WindowAt scope input window_ms now_ms state r.count r.window_started_at)
  unfolding is_over
  WindowAt-found r (iso started) e k =
      (λ h. over r started e k (leb→le _ _ h), λ h. running r started e k (leb→lt _ _ h))
  WindowAt-found r Timestamp.malformed e k = (λ h. unreadable r e k, λ h. cc)

  pub base_of-WindowAt :
      WindowAt scope input window_ms now_ms state
        (base_of scope input limit window_ms now_ms state).count
        (base_of scope input limit window_ms now_ms state).window_started_at
  unfolding import_base
  base_of-WindowAt = elim (Option-cases (throttle_of scope input state)) [
    | inl e ↦ rw e (fresh e)
    | inr (r, e) ↦
        let known = WindowAt-found r r.window_started_at e refl in
        elim (Bool-cases (is_over r.window_started_at now_ms window_ms)) [
          | inl k ↦ rw (e, k) (known.0 k)
          | inr k ↦ rw (e, k) (known.1 k)
        ]
  ]
