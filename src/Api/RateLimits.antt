-- ===== src/Api/RateLimits.antt =====
-- src/api.ts: the limit on the rate of requests. What is read from a request, the key that it counts
-- under, the principal and the hash of both, are arguments.
pub mod Limit
pub mod Retry
mod Samples
use scheduleos.Base.{
  ◌+◌, ◌-◌, ℕ, zero, suc, Bool, true, false, ◌&&◌, Option, none, some, Result, ok, err, leb, String,
  str_eq, if◌then◌else◌,
}
use scheduleos.Domain.{Instant, iso, Scope}
use scheduleos.Repositories.{ApiStore, system, Outcome}
use scheduleos.Repositories.Throttles.{
  ℤ, pos, negsuc, RequestThrottleConsumeInput, ConsumeResult, consume_request,
}
use scheduleos.Records.{RequestThrottleRecord}
use scheduleos.Api.{ApiError, repository_error, validation_failed, rate_limited_error}

pub record RateLimitConfig : Type 0 where
  pub max_requests : ℤ
  pub window_ms : ℤ
  pub persisted : Bool

pub record RateLimitBucket : Type 0 where
  pub window_started_at : Instant
  pub count : ℕ

abbrev pub Buckets : Type 0
Buckets = String → Option RateLimitBucket

-- `buckets.set(key, bucket)`
abbrev pub set : String → RateLimitBucket → Buckets → Buckets
set key bucket buckets other = if str_eq key other then some bucket else buckets other

-- The answer to a request, with the buckets and the store that it leaves.
abbrev pub Limits : Type 0
Limits = Buckets × ApiStore

module _ (max_requests window_ms : ℕ) (key : String) (now : Instant) where
  -- The window of a key that starts, or goes on, with the bucket that is kept for the key.
  unfoldable pub count_with :
      Option RateLimitBucket → Buckets → Result ApiError (Unit {0}) × Buckets
  count_with none buckets = (ok tt, set key (record { window_started_at = now; count = 1 }) buckets)
  count_with (some bucket) buckets =
      if leb (bucket.window_started_at + window_ms) now
      then (ok tt, set key (record { window_started_at = now; count = 1 }) buckets)
      else (if leb max_requests bucket.count
          then (err (rate_limited_error ((bucket.window_started_at + window_ms) - now)), buckets)
          else (ok tt, set key (record bucket { count = bucket.count + 1 }) buckets))

  abbrev pub count_in_bucket : Buckets → Result ApiError (Unit {0}) × Buckets
  count_in_bucket buckets = count_with (buckets key) buckets

-- What the handler makes of the answer of the stored throttle.
abbrev pub answer_of_throttle :
    Outcome (ConsumeResult RequestThrottleRecord) → ApiStore → Result ApiError (Unit {0}) × ApiStore
answer_of_throttle (err thrown) store = (err (repository_error thrown), store)
answer_of_throttle (ok (result, store')) store =
    if result.allowed
    then (ok tt, store')
    else (err (rate_limited_error result.retry_after_ms), store')

abbrev pub throttle_input : RateLimitConfig → String → Instant → RequestThrottleConsumeInput
throttle_input config key_hash now = record {
  key_hash = key_hash;
  count = pos 1;
  limit = config.max_requests;
  window_ms = config.window_ms;
  now = iso now;
}

abbrev pub invalid_rate_limit : ApiError
invalid_rate_limit = validation_failed "rateLimit maxRequests and windowMs must be positive."

-- A number that has passed `is_positive`.
abbrev pub magnitude : ℤ → ℕ
magnitude (pos n) = n
magnitude (negsuc n) = 0

abbrev pub count_in_memory :
    RateLimitConfig → String → Instant → Limits → Result ApiError (Unit {0}) × Limits
count_in_memory config key now (buckets, store) =
    let counted =
      count_in_bucket (magnitude config.max_requests) (magnitude config.window_ms) key now
        buckets in
    (counted.0, (counted.1, store))

-- `x > 0`
abbrev pub is_positive : ℤ → Bool
is_positive (pos (suc n)) = true
is_positive _ = false

unfoldable pub enforce_rate_limit :
    Option RateLimitConfig
    → Option Scope
    → String
    → String
    → Instant
    → Limits
    → Result ApiError (Unit {0}) × Limits
enforce_rate_limit none principal key_hash key now limits = (ok tt, limits)
enforce_rate_limit (some config) principal key_hash key now (buckets, store) =
    let in_memory = count_in_memory config key now (buckets, store) in
    let in_store : Result ApiError (Unit {0}) × Limits = elim principal [
      | none ↦ in_memory
      | some scope ↦
          let answer =
            answer_of_throttle
              (consume_request system scope (throttle_input config key_hash now) store) store in
          (answer.0, (buckets, answer.1))
    ] in
    if is_positive config.max_requests && is_positive config.window_ms
    then (if config.persisted then in_store else in_memory)
    else (err invalid_rate_limit, (buckets, store))
