-- ===== src/Api/RateLimits/Limit.antt =====
-- src/api.ts: how many requests of one key are let through in one window of time.
use scheduleos.Base.{
  ◌≡◌, ◌⊎◌, refl, sym, ◌∙◌, ap, subst, ◌≤◌, ◌<◌, ◌+◌, ◌-◌, ℕ, suc, Bool, true, false, List, [], ◌∷◌,
  Option, none, some, Result, ok, err, leb, lt→leb, leb→le, leb→lt, if◌then◌else◌, String, str_eq,
  eq_iff, arith, Bool-cases, inl, inr, All,
}
use scheduleos.Domain.{Instant}
use scheduleos.Repositories.{ApiStore}
use scheduleos.Repositories.Throttles.{pos}
use scheduleos.Api.{ApiError}
use scheduleos.Api.RateLimits.{
  RateLimitConfig, RateLimitBucket, Buckets, Limits, count_with, count_in_bucket,
  enforce_rate_limit,
}

-- A request: the key that it counts under, and when it comes.
abbrev pub Request : Type 0
Request = String × Instant

abbrev pub is_let_through : Result ApiError (Unit {0}) → Bool
is_let_through (ok done) = true
is_let_through (err thrown) = false

abbrev pub in_memory : ℕ → ℕ → RateLimitConfig
in_memory max_requests window_ms = record {
  max_requests = pos max_requests;
  window_ms = pos window_ms;
  persisted = false;
}

-- How many requests of a key are let through, of a run of requests.
unfoldable pub let_through : RateLimitConfig → String → List Request → Limits → ℕ
let_through config key [] limits = 0
let_through config key ((key', now) ∷ requests) limits =
    let answer = enforce_rate_limit (some config) none "" key' now limits in
    let rest = let_through config key requests answer.1 in
    if str_eq key' key then (if is_let_through answer.0 then suc rest else rest) else rest

-- How many requests of a run are of a key.
unfoldable pub asked : String → List Request → ℕ
asked key [] = 0
asked key ((key', now) ∷ requests) =
    let rest = asked key requests in if str_eq key' key then suc rest else rest

-- A request of the key comes within the time from a start to an end.
abbrev pub ComesWithin : String → Instant → Instant → Request → Type 0
ComesWithin key start end (key', now) = str_eq key' key ≡ true → (start ≤ now) × (now < end)

abbrev pub min : ℕ → ℕ → ℕ
min a b = if leb a b then a else b

abbrev count_of : Option RateLimitBucket → ℕ
count_of none = 0
count_of (some bucket) = bucket.count

-- The bucket of a key, if any, has started since a start, and is not over its limit.
abbrev IsHeld : Instant → ℕ → Option RateLimitBucket → Type 0
IsHeld start max none = Unit {0}
IsHeld start max (some bucket) = (start ≤ bucket.window_started_at) × (bucket.count ≤ max)

-- What becomes of a request within the window: it is let through and counted, or it goes over.
abbrev Counted :
    ℕ → Instant → String → Option RateLimitBucket → Result ApiError (Unit {0}) × Buckets → Type 0
Counted limit start key bucket (answer, buckets) =
    IsHeld start limit (buckets key)
    × (((is_let_through answer ≡ true) × (count_of (buckets key) ≡ suc (count_of bucket)))
        ⊎ ((is_let_through answer ≡ false)
            × (count_of (buckets key) ≡ count_of bucket)
            × (count_of bucket ≡ limit)))

module _ (max window : ℕ) (start now : Instant) (key : String) (buckets : Buckets)
    (from : start ≤ now) (until : now < start + suc window) where
  count_with-Counted :
      (bucket : Option RateLimitBucket)
      → buckets key ≡ bucket
      → IsHeld start (suc max) bucket
      → Counted
          (suc max)
          start
          key
          bucket
          (count_with (suc max) (suc window) key now bucket buckets)
  unfolding count_with
  count_with-Counted none e h = rw same ((from, omega arith), inl (refl, refl))
    where
      same : str_eq key key ≡ true
      same = (eq_iff key key).1 refl
  count_with-Counted (some bucket) e h =
      let going_on : leb (bucket.window_started_at + suc window) now ≡ false =
        lt→leb _ _ (omega (arith, h.0, until)) in
      elim (Bool-cases (leb (suc max) bucket.count)) [
        | inl k ↦ rw (going_on, k, e) (h, inr (refl, refl, omega (arith, h.1, leb→le _ _ k)))
        | inr k ↦
            rw (going_on, k, same) ((h.0, omega (arith, leb→lt _ _ k)), inl (refl, omega arith))
      ]
    where
      same : str_eq key key ≡ true
      same = (eq_iff key key).1 refl

-- A request of another key leaves the bucket of a key.
count_with_other :
    (max window : ℕ) (now : Instant) (key key' : String) (bucket : Option RateLimitBucket)
    (buckets : Buckets)
    → str_eq key' key ≡ false
    → (count_with max window key' now bucket buckets).1 key ≡ buckets key
unfolding count_with
count_with_other max window now key key' none buckets other = rw other refl
count_with_other max window now key key' (some bucket) buckets other =
    elim (Bool-cases (leb (bucket.window_started_at + window) now)) [
      | inl k ↦ rw (k, other) refl
      | inr k ↦ elim (Bool-cases (leb max bucket.count)) [
        | inl l ↦ rw (k, l) refl
        | inr l ↦ rw (k, l, other) refl
      ]
    ]

held-le :
    (start max : ℕ) (bucket : Option RateLimitBucket)
    → IsHeld start max bucket
    → count_of bucket ≤ max
held-le start max none h = omega arith
held-le start max (some bucket) h = h.1

min-zero : (n : ℕ) → 0 ≡ min 0 n
min-zero n = ground arith

-- One more that is let through, and one that is not for want of room.
min-through : (a n c c' : ℕ) → c' ≡ suc c → c' ≤ n → suc (min a (n - c')) ≡ min (suc a) (n - c)
min-through a n c c' e h = ground arith

min-over : (a n c c' : ℕ) → c' ≡ c → c ≡ n → min a (n - c') ≡ min (suc a) (n - c)
min-over a n c c' e k = ground arith

let_through-room :
    (max window : ℕ) (start : Instant) (key : String) (requests : List Request) (buckets : Buckets)
    (store : ApiStore)
    → All (ComesWithin key start (start + suc window)) requests
    → IsHeld start (suc max) (buckets key)
    → let_through (in_memory (suc max) (suc window)) key requests (buckets, store)
      ≡ min (asked key requests) (suc max - count_of (buckets key))
unfolding let_through asked enforce_rate_limit
let_through-room max window start key [] buckets store h held =
    min-zero (suc max - count_of (buckets key))
let_through-room max window start key ((key', now) ∷ requests) buckets store h held =
    elim (Bool-cases (str_eq key' key)) [
      | inl e ↦
          let answer = count_in_bucket (suc max) (suc window) key' now buckets in
          let within = h.0 e in
          let counted : Counted (suc max) start key (buckets key) answer =
            subst
              (λ k.
                Counted (suc max) start key (buckets key)
                  (count_with (suc max) (suc window) k now (buckets k) buckets))
              (sym ((eq_iff key' key).0 e))
              (count_with-Counted max window start now key buckets within.0 within.1 (buckets key)
                refl held) in
          let rest = let_through-room max window start key requests answer.1 store h.1 counted.0 in
          let a = asked key requests in
          let c = count_of (buckets key) in
          let c' = count_of (answer.1 key) in
          elim counted.1 [
            | inl (through, more) ↦
                rw (e, through)
                  (ap suc rest
                    ∙ min-through a (suc max) c c' more
                        (held-le start (suc max) (answer.1 key) counted.0))
            | inr (over, same, full) ↦ rw (e, over) (rest ∙ min-over a (suc max) c c' same full)
          ]
      | inr e ↦
          let kept =
            count_with_other (suc max) (suc window) now key key' (buckets key') buckets e in
          let rest =
            let_through-room max window start key requests
              (count_in_bucket (suc max) (suc window) key' now buckets).1 store h.1
              (rw kept held) in
          rw e (rest ∙ ap (λ o. min (asked key requests) (suc max - count_of o)) kept)
    ]

-- Of a run of requests that are counted in memory, those of a key that has no bucket yet and that all
-- come within one window of time are let through as long as the configured number, which is not 0, is
-- not reached: as many as there are, and at most that number. Requests of other keys do not count.
pub let_through-limit :
    (max window : ℕ) (start : Instant) (key : String) (requests : List Request) (buckets : Buckets)
    (store : ApiStore)
    → All (ComesWithin key start (start + suc window)) requests
    → buckets key ≡ none
    → let_through (in_memory (suc max) (suc window)) key requests (buckets, store)
      ≡ min (asked key requests) (suc max)
let_through-limit max window start key requests buckets store h fresh =
    let_through-room max window start key requests buckets store h (rw fresh tt)
    ∙ ap (λ o. min (asked key requests) (suc max - count_of o)) fresh
    ∙ ap (min (asked key requests)) (room (suc max))
  where
    room : (n : ℕ) → n - 0 ≡ n
    room n = omega arith
