-- ===== src/Api/Login.antt =====
-- src/api.ts: logging in, and the window of attempts that holds off guesses of a password.
pub mod Window
pub mod Guesses
pub mod LockedOut
use scheduleos.Base.{
  ◌+◌, ◌-◌, ℕ, suc, Bool, true, false, ◌&&◌, ◌||◌, not, List, [], ◌∷◌, Option, none, some, Result,
  ok, err, ◌>>=◌, if◌then◌else◌, find, leb, ltb, String, str_eq, join,
}
use scheduleos.Domain.{Instant, Timestamp, iso, Scope}
use scheduleos.Records.{
  AuthUser, WorkspaceMembership, AuthSession, AuditEvent, AuthLoginAttemptWindow,
}
use scheduleos.Repositories.{ApiStore, system, matches_scope}
use scheduleos.Repositories.Auth.{
  is_user, get_login_attempt_window, upsert_login_attempt_window, clear_login_attempt_window,
  upsert_session,
}
use scheduleos.Repositories.Keyed.{append_audit_event}
use scheduleos.Api.{ApiError, api_error, auth_attempt_limited_error, calling, Response, Platform}
use scheduleos.Api.Access.{is_active_user, is_active_membership}
use scheduleos.Api.Sessions.{SessionSecrets, create_auth_session, auth_session_audit_event}

pub record LoginBackoffConfig : Type 0 where
  pub window_ms : ℕ
  pub max_failed_attempts : ℕ

unfoldable pub resolved_login_backoff_config : Option LoginBackoffConfig → LoginBackoffConfig
resolved_login_backoff_config none = record { window_ms = 900000; max_failed_attempts = 5 }
resolved_login_backoff_config (some config) = config

pub record AuthSessionLoginRequest : Type 0 where
  pub scope : Scope
  pub expires_at : Option Timestamp
  pub password : String

-- `now - new Date(startedAt).getTime() >= windowMs`, which is false where the start cannot be read.
unfoldable pub is_window_over : Timestamp → Instant → ℕ → Bool
is_window_over (iso started) now window_ms = leb (started + window_ms) now
is_window_over Timestamp.malformed now window_ms = false

-- The time for which a lock still holds.
unfoldable pub locked_for : Option Timestamp → Instant → Option ℕ
locked_for (some (iso until)) now = if ltb now until then some (until - now) else none
locked_for _ now = none

-- A window that holds no lock is taken out once it is over.
unfoldable pub enforce_on :
    LoginBackoffConfig
    → Scope
    → Instant
    → ApiStore
    → Option AuthLoginAttemptWindow
    → Result ApiError ApiStore
enforce_on config scope now store none = ok store
enforce_on config scope now store (some window) =
    let cleared = (do done ← calling (clear_login_attempt_window system scope store); ok done.1) in
    elim (locked_for window.locked_until now) [
      | some ms ↦ err (auth_attempt_limited_error ms)
      | none ↦
          if is_window_over window.window_started_at now config.window_ms then cleared else ok store
    ]

unfoldable pub enforce_login_attempt_backoff :
    LoginBackoffConfig → Scope → Instant → ApiStore → Result ApiError ApiStore
enforce_login_attempt_backoff config scope now store = do
  found ← calling (get_login_attempt_window system scope store)
  enforce_on config scope now store found

unfoldable pub login_attempt_window_id : Scope → String
login_attempt_window_id scope =
    join (scope.tenant_id ∷ "\0" ∷ scope.workspace_id ∷ "\0" ∷ scope.user_id ∷ [])

-- The start and the count of the window that a failure falls in.
unfoldable pub failure_in :
    LoginBackoffConfig → Instant → Option AuthLoginAttemptWindow → Timestamp × ℕ
failure_in config now none = (iso now, 1)
failure_in config now (some existing) =
    if is_window_over existing.window_started_at now config.window_ms
    then (iso now, 1)
    else (existing.window_started_at, existing.failed_count + 1)

unfoldable pub failed_window :
    LoginBackoffConfig → Scope → Instant → Option AuthLoginAttemptWindow → AuthLoginAttemptWindow
failed_window config scope now existing =
    let failure = failure_in config now existing in
    record {
      id = login_attempt_window_id scope;
      scope = scope;
      window_started_at = failure.0;
      window_ms = config.window_ms;
      max_failed_attempts = config.max_failed_attempts;
      failed_count = failure.1;
      locked_until =
          if leb config.max_failed_attempts failure.1
          then some (iso (now + config.window_ms))
          else none;
      updated_at = iso now;
    }

unfoldable pub record_failed_login_attempt :
    LoginBackoffConfig → Scope → Instant → ApiStore → Result ApiError ApiStore
record_failed_login_attempt config scope now store = do
  existing ← calling (get_login_attempt_window system scope store)
  saved ←
      calling (upsert_login_attempt_window system (failed_window config scope now existing) store)
  ok saved.1

unfoldable pub reset_login_attempt_backoff : Scope → ApiStore → Result ApiError ApiStore
reset_login_attempt_backoff scope store = do
  done ← calling (clear_login_attempt_window system scope store)
  ok done.1

-- A credential is compared where there is one.
unfoldable pub verify_credential : Platform → String → Option String → Bool
verify_credential platform password none = false
verify_credential platform password (some credential_hash) =
    not (str_eq credential_hash "") && platform.scrypt_matches password credential_hash

abbrev pub is_active_member : Scope → WorkspaceMembership → Bool
is_active_member scope membership =
    matches_scope membership.scope scope && is_active_membership membership.status

abbrev pub may_log_in : Platform → String → Option AuthUser → Option WorkspaceMembership → Bool
may_log_in platform password (some user) (some membership) =
    is_active_user user.status && verify_credential platform password user.credential_hash
may_log_in platform password _ _ = false

-- The user and the membership are there and active, and the password is the user's.
unfoldable pub has_valid_credentials : Platform → AuthSessionLoginRequest → ApiStore → Bool
has_valid_credentials platform request store =
    may_log_in platform request.password
      (find (is_user request.scope.tenant_id request.scope.user_id) store.auth_users)
      (find (is_active_member request.scope) store.workspace_memberships)

abbrev pub invalid_credentials : ApiError
invalid_credentials = api_error 401 "INVALID_CREDENTIALS" "Credentials invalid."

-- A failure is recorded before the error is thrown.
unfoldable pub refuse_login :
    LoginBackoffConfig → Scope → Instant → ApiStore → Response (AuthSession × String × AuditEvent)
refuse_login config scope now store = elim (record_failed_login_attempt config scope now store) [
  | err thrown ↦ (err thrown, store)
  | ok recorded ↦ (err invalid_credentials, recorded)
]

-- The session that a login creates, once the window is reset.
unfoldable pub open_session :
    Platform
    → SessionSecrets
    → AuthSessionLoginRequest
    → Instant
    → ApiStore
    → Result ApiError ((AuthSession × String × AuditEvent) × ApiStore)
open_session platform secrets request now store = do
  created ← create_auth_session platform secrets request.scope request.expires_at now
  saved ← calling (upsert_session system created.0 store)
  appended ← calling (
      append_audit_event system
        (auth_session_audit_event platform now saved.0 "auth_session_created"
          "AUTH_SESSION_CREATED")
        saved.1)
  ok ((saved.0, created.1, appended.0), appended.1)

-- An error leaves the store that was reached.
abbrev pub responding {ℓ} : {A : Type ℓ} → ApiStore → Result ApiError (A × ApiStore) → Response A
responding store (ok done) = (ok done.0, done.1)
responding store (err thrown) = (err thrown, store)

unfoldable pub accept_login :
    Platform
    → SessionSecrets
    → AuthSessionLoginRequest
    → Instant
    → ApiStore
    → Response (AuthSession × String × AuditEvent)
accept_login platform secrets request now store =
    elim (reset_login_attempt_backoff request.scope store) [
      | err thrown ↦ (err thrown, store)
      | ok reset ↦ responding reset (open_session platform secrets request now reset)
    ]

-- The handler of `POST /api/auth/login`, at one instant: the code asks for the time again in each step.
unfoldable pub log_in :
    Platform
    → LoginBackoffConfig
    → SessionSecrets
    → AuthSessionLoginRequest
    → Instant
    → ApiStore
    → Response (AuthSession × String × AuditEvent)
log_in platform config secrets request now store =
    elim (enforce_login_attempt_backoff config request.scope now store) [
      | err thrown ↦ (err thrown, store)
      | ok enforced ↦
          if has_valid_credentials platform request enforced
          then accept_login platform secrets request now enforced
          else refuse_login config request.scope now enforced
    ]
