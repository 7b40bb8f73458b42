-- ===== src/Api.antt =====
-- src/api.ts: what the handlers of the HTTP API do with the store once a request is read. Reading
-- requests and writing responses is left out, and so is the free-form metadata of audit events.
pub mod Access
mod Samples
mod Witnesses
pub mod Retention
pub mod Sessions
pub mod Login
pub mod Handlers
pub mod Passwords
pub mod Plans
pub mod Overlap
pub mod Writeback
pub mod RateLimits
use scheduleos.Base.{
  ◌+◌, ◌/◌, ℕ, Bool, true, false, List, [], ◌∷◌, Result, ok, err, String, ltb, join, decimal,
}
use scheduleos.Domain.{Instant, Timestamp, iso}
use scheduleos.Policies.{RetentionError}
use scheduleos.Repositories.{ApiStore, RepositoryError}
use scheduleos.Scheduler.Dates.{Error}

-- What a handler throws: an error of its own with its status and code, or one of what it calls.
pub data ApiError : Type 0 where
  api_error : (status : ℕ) (code message : String) → ApiError
  repository_error : RepositoryError → ApiError
  retention_error : RetentionError → ApiError
  scheduler_error : Error → ApiError

-- A call of a repository in a handler.
abbrev pub calling {ℓ} : {A : Type ℓ} → Result RepositoryError A → Result ApiError A
calling (ok value) = ok value
calling (err thrown) = err (repository_error thrown)

-- What a handler gives: a value or an error, and the store that it leaves, which an error need not
-- leave as it was.
abbrev pub Response {ℓ} : Type ℓ → Type ℓ
Response A = Result ApiError A × ApiStore

abbrev pub validation_failed : String → ApiError
validation_failed message = api_error 422 "VALIDATION_ERROR" message

-- `Math.ceil(retryAfterMs / 1000)`
abbrev pub seconds : ℕ → String
unfolding decimal
seconds retry_after_ms = decimal ((retry_after_ms + 999) / 1000)

unfoldable pub rate_limited_error : ℕ → ApiError
rate_limited_error retry_after_ms =
    api_error 429 "RATE_LIMITED"
      (join ("Too many requests. Retry after " ∷ seconds retry_after_ms ∷ " seconds." ∷ []))

unfoldable pub auth_attempt_limited_error : ℕ → ApiError
auth_attempt_limited_error retry_after_ms = api_error 429 "AUTH_ATTEMPT_LIMITED" (
    join ("Too many credential attempts. Retry after " ∷ seconds retry_after_ms ∷ " seconds." ∷ []))

-- `new Date(value).getTime() > now`, which is false where the value cannot be read.
unfoldable pub is_after : Timestamp → Instant → Bool
is_after (iso t) now = ltb now t
is_after Timestamp.malformed now = false

-- `beforeIso`
unfoldable pub before_iso : Timestamp → Instant → Bool
before_iso (iso t) date = ltb t date
before_iso Timestamp.malformed date = false

-- The texts and the ids that the platform makes: `toISOString` and `Date.now()` of an instant, and
-- the hashes of node:crypto. A stored credential is read and compared by `scrypt_matches`.
pub record Platform : Type 0 where
  pub to_iso_string : Instant → String
  pub epoch_ms : Instant → String
  pub sha256_hex : String → String
  pub scrypt_matches : (password credential_hash : String) → Bool
