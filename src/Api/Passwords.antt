-- ===== src/Api/Passwords.antt =====
-- src/api.ts: the handlers that change a password: by a reset token, by the user, and by an admin.
pub mod SignedOut
pub mod Token
pub mod Changed
use scheduleos.Base.{
  ◌+◌, ℕ, Bool, true, false, ◌&&◌, not, List, [], ◌∷◌, Option, none, some, Result, ok, err,
  if◌then◌else◌, find, filter, ltb, length, String, str_eq, join,
}
use scheduleos.Domain.{Instant, Timestamp, iso, Scope}
use scheduleos.Records.{
  AuthUser, WorkspaceMembership, WorkspaceRole, AuthSession, AuthPasswordResetToken, AuditEvent,
  ActorType,
}
use scheduleos.Repositories.{ApiStore, RepositoryActor, RepositoryError, not_found, system, user}
use scheduleos.Repositories.Auth.{
  get_user, get_membership, upsert_user, list_sessions, revoke_session, upsert_password_reset_token,
  list_password_reset_tokens, mark_password_reset_token_used,
}
use scheduleos.Repositories.Keyed.{append_audit_event}
use scheduleos.Api.{ApiError, api_error, repository_error, validation_failed, Platform, is_after}
use scheduleos.Api.Handlers.{
  Handler, ◌>>=◌, ◌>>◌, return, check, throw_if, required, look, perform, query,
}
use scheduleos.Api.Access.{
  AuthPrincipal, workspace_of, repository_actor, require_session_principal, require_auth_admin,
  require_auth_owner, require_authenticated_principal, assert_active_auth_subject, is_active_user,
  is_active_membership,
}
use scheduleos.Api.Sessions.{is_live, is_unset}
use scheduleos.Api.Login.{verify_credential}

pub record PasswordResetConfig : Type 0 where
  pub ttl_ms : Option ℕ

unfoldable pub reset_ttl_ms : Option PasswordResetConfig → ℕ
reset_ttl_ms none = 1800000
reset_ttl_ms (some config) = elim config.ttl_ms [ none ↦ 1800000 | some ms ↦ ms ]

-- The random texts of a reset token and its id, and the hash of a new password.
pub record ResetSecrets : Type 0 where
  pub token_random : String
  pub id_random : String

-- A subject that is not there gives none; any other error is thrown again.
unfoldable pub none_if_not_found {ℓ} :
    {A : Type ℓ} → Result RepositoryError A → Result ApiError (Option A)
none_if_not_found (ok value) = ok (some value)
none_if_not_found (err (not_found message)) = ok none
none_if_not_found (err thrown) = err (repository_error thrown)

abbrev pub has_credential : AuthUser → Bool
has_credential subject = not (is_unset subject.credential_hash)

abbrev pub new_token :
    Platform → ResetSecrets → Scope → ℕ → Instant → AuthPasswordResetToken × String
new_token platform secrets scope ttl_ms now =
    let token = join ("sos_reset_" ∷ secrets.token_random ∷ []) in
    (
      record {
        id = join ("reset_" ∷ secrets.id_random ∷ []);
        scope = scope;
        token_hash = platform.sha256_hex token;
        created_at = iso now;
        expires_at = iso (now + ttl_ms);
        used_at = none;
      },
      token,
    )

-- The record of the token with the token, where the subject may reset its password.
unfoldable pub create_password_reset_token_if_eligible :
    Platform
    → ResetSecrets
    → Scope
    → ℕ
    → Instant
    → Handler (Option (AuthPasswordResetToken × String))
create_password_reset_token_if_eligible platform secrets scope ttl_ms now = do
  store ← look
  subject ← check (none_if_not_found (get_user system scope.tenant_id scope.user_id store))
  elim subject [
    | none ↦ return none
    | some subject ↦ do
      membership ← check (none_if_not_found (get_membership system scope store))
      elim membership [
        | none ↦ return none
        | some membership ↦ return (
            if is_active_user subject.status
              && (has_credential subject && is_active_membership membership.status)
            then some (new_token platform secrets scope ttl_ms now)
            else none)
      ]
  ]

abbrev pub is_usable_token : String → Instant → AuthPasswordResetToken → Bool
is_usable_token token_hash now token =
    str_eq token.token_hash token_hash && (is_unset token.used_at && is_after token.expires_at now)

-- A token that is found is marked as used.
unfoldable pub mark_found :
    Instant → Option AuthPasswordResetToken → Handler (Option AuthPasswordResetToken)
mark_found now none = return none
mark_found now (some token) = do
  used ← perform (mark_password_reset_token_used system token.id (iso now))
  return (some used)

unfoldable pub consume_valid_password_reset_token :
    Platform → Scope → String → Instant → Handler (Option AuthPasswordResetToken)
consume_valid_password_reset_token platform scope reset_token now = do
  tokens ← query (list_password_reset_tokens system scope)
  mark_found now (find (is_usable_token (platform.sha256_hex reset_token) now) tokens)

-- An event of a password, which names its user.
abbrev pub password_event :
    Platform
    → Instant
    → (prefix action : String) → Scope
    → (actor_type : ActorType) → (actor_id resource_type resource_id : String) → AuditEvent
password_event platform now prefix action scope actor_type actor_id resource_type resource_id =
    record {
      id = join (prefix ∷ "_" ∷ resource_id ∷ "_" ∷ platform.epoch_ms now ∷ []);
      scope = scope;
      occurred_at = iso now;
      actor_type = actor_type;
      actor_id = actor_id;
      action = action;
      resource_type = resource_type;
      resource_id = resource_id;
    }

-- The handler of `POST /api/auth/password-reset-requests`: the token that it has stored.
unfoldable pub request_password_reset :
    Platform
    → Option PasswordResetConfig
    → ResetSecrets
    → Scope
    → Instant
    → Handler (Option (AuthPasswordResetToken × String × AuditEvent))
request_password_reset platform config secrets scope now = do
  maybe_reset ←
      create_password_reset_token_if_eligible platform secrets scope (reset_ttl_ms config) now
  elim maybe_reset [
    | none ↦ return none
    | some reset ↦ do
      saved ← perform (upsert_password_reset_token system reset.0)
      event ← perform (
          append_audit_event system (
            password_event platform now "auth_password_reset_requested"
              "AUTH_PASSWORD_RESET_REQUESTED" saved.scope ActorType.system "password_reset"
              "auth_password_reset_token" saved.id))
      return (some (saved, reset.1, event))
  ]

-- The sessions that are revoked one after the other.
unfoldable pub revoke_each :
    RepositoryActor → Instant → List AuthSession → Handler (List AuthSession)
revoke_each actor now [] = return []
revoke_each actor now (session ∷ sessions) = do
  revoked ← perform (revoke_session actor session.id (iso now))
  rest ← revoke_each actor now sessions
  return (revoked ∷ rest)

unfoldable pub revoke_live_sessions : RepositoryActor → Scope → Instant → Handler (List AuthSession)
revoke_live_sessions actor scope now = do
  sessions ← query (list_sessions actor scope)
  revoke_each actor now (filter (is_live now) sessions)

abbrev pub with_credential : AuthUser → String → Instant → AuthUser
with_credential subject credential_hash now = record subject {
  credential_hash = some credential_hash;
  updated_at = iso now;
}

abbrev pub invalid_reset_token : ApiError
invalid_reset_token = api_error 401 "INVALID_RESET_TOKEN" "Reset token invalid."

abbrev pub PasswordChange : Type 0
PasswordChange = AuthUser × List AuthSession × AuditEvent

-- The handler of `POST /api/auth/password-reset`. `length` is that of the new password and
-- `credential_hash` what the platform makes of it.
unfoldable pub reset_password :
    Platform → Scope → String → ℕ → String → Instant → Handler PasswordChange
reset_password platform scope reset_token password_length credential_hash now = do
  throw_if (ltb password_length 12)
      (validation_failed "newPassword must be at least 12 characters.")
  reset_record ← consume_valid_password_reset_token platform scope reset_token now
  consumed ← required invalid_reset_token reset_record
  subject ← query (get_user system scope.tenant_id scope.user_id)
  throw_if (not (is_active_user subject.status)) invalid_reset_token
  store ← look
  active ← check (assert_active_auth_subject system scope store)
  saved ← perform (upsert_user system (with_credential subject credential_hash now))
  revoked ← revoke_live_sessions system scope now
  event ← perform (
      append_audit_event system (
        password_event platform now "auth_password_reset_completed" "AUTH_PASSWORD_RESET_COMPLETED"
          (record scope {
            tenant_id = saved.tenant_id;
            workspace_id = consumed.scope.workspace_id;
            user_id = saved.id;
          })
          ActorType.user saved.id "auth_user" saved.id))
  return (saved, revoked, event)

-- The handler of `POST /api/auth/password`.
unfoldable pub change_password :
    Platform
    → Option AuthPrincipal
    → (current_password credential_hash : String) → Instant
    → Handler PasswordChange
change_password platform principal current_password credential_hash now = do
  (signed_in, session_id) ← check (
      require_session_principal principal
        "Current-session password change requires session authentication.")
  let actor = repository_actor principal
  subject ← query (get_user actor signed_in.scope.tenant_id signed_in.scope.user_id)
  throw_if
      (not (
        is_active_user subject.status
        && verify_credential platform current_password subject.credential_hash))
      (api_error 401 "INVALID_CREDENTIALS" "Credentials invalid.")
  saved ← perform (upsert_user actor (with_credential subject credential_hash now))
  revoked ← revoke_live_sessions actor signed_in.scope now
  event ← perform (
      append_audit_event actor (
        password_event platform now "auth_credential_rotated" "AUTH_CREDENTIAL_ROTATED"
          (record signed_in.scope { tenant_id = saved.tenant_id }) ActorType.user
          signed_in.scope.user_id "auth_user" saved.id))
  return (saved, revoked, event)

abbrev pub is_privileged : WorkspaceRole → Bool
is_privileged WorkspaceRole.owner = true
is_privileged WorkspaceRole.admin = true
is_privileged _ = false

-- The handler of `POST /api/auth/users/:id/password`, which names the workspace and the user.
unfoldable pub admin_reset_password :
    Platform
    → Option AuthPrincipal
    → (target : Scope) → (credential_hash : String) → Instant
    → Handler PasswordChange
admin_reset_password platform principal target credential_hash now = do
  admin ← check (require_auth_admin principal (some (workspace_of target)))
  subject ← query (get_user system target.tenant_id target.user_id)
  membership ← query (get_membership system target)
  if is_privileged membership.role
      then check (require_auth_owner principal (workspace_of target))
      else return admin
  saved ← perform (upsert_user system (with_credential subject credential_hash now))
  revoked ← revoke_live_sessions system target now
  authenticated ← check (require_authenticated_principal principal)
  event ← perform (
      append_audit_event system (
        password_event platform now "auth_credential_reset" "AUTH_CREDENTIAL_RESET"
          (record target { tenant_id = saved.tenant_id; user_id = authenticated.scope.user_id })
          ActorType.user authenticated.scope.user_id "auth_user" saved.id))
  return (saved, revoked, event)
