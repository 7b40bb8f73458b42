-- ===== src/Api/Sessions.antt =====
-- src/api.ts: sessions, how long they last, and the principal that a session's token stands for.
pub mod Created
pub mod Principal
use scheduleos.Base.{
  ◌+◌, ◌-◌, ◌*◌, ℕ, Bool, true, false, ◌&&◌, not, List, [], ◌∷◌, Option, none, some, Result, ok,
  err, ◌>>=◌, if◌then◌else◌, find, leb, ltb, String, str_eq, join,
}
use scheduleos.Domain.{Instant, Timestamp, iso, Scope}
use scheduleos.Records.{AuditEvent, ActorType, AuthSession}
use scheduleos.Repositories.{ApiStore, system}
use scheduleos.Repositories.Auth.{get_membership, upsert_session}
use scheduleos.Api.{ApiError, validation_failed, calling, Platform, is_after}
use scheduleos.Api.Access.{
  AuthPrincipal, AuthMethod, is_active_auth_subject, static_role_for_membership,
}

abbrev pub default_auth_session_ttl_ms : ℕ
default_auth_session_ttl_ms = 604800000

abbrev pub max_auth_session_ttl_ms : ℕ
max_auth_session_ttl_ms = 2592000000

-- An empty text asks for no expiry, as none does.
unfoldable pub requested_auth_session_expiry : Option Timestamp → Instant → Result ApiError Instant
requested_auth_session_expiry none now = ok (now + default_auth_session_ttl_ms)
requested_auth_session_expiry (some Timestamp.malformed) now =
    err (validation_failed "expiresAt must be an ISO date.")
requested_auth_session_expiry (some (iso expires_at)) now =
    if leb expires_at now
    then err (validation_failed "expiresAt must be in the future.")
    else (if ltb max_auth_session_ttl_ms (expires_at - now)
        then err (validation_failed "expiresAt must be within 30 days.")
        else ok expires_at)

-- The random texts of a session's token and id.
pub record SessionSecrets : Type 0 where
  pub token_random : String
  pub id_random : String

-- The session with its token.
unfoldable pub create_auth_session :
    Platform
    → SessionSecrets
    → Scope
    → Option Timestamp
    → Instant
    → Result ApiError (AuthSession × String)
create_auth_session platform secrets scope requested now = do
  expires_at ← requested_auth_session_expiry requested now
  let token = join ("sos_session_" ∷ secrets.token_random ∷ [])
  let session : AuthSession = record {
    id = join ("session_" ∷ secrets.id_random ∷ []);
    scope = scope;
    session_token_hash = platform.sha256_hex token;
    created_at = iso now;
    expires_at = iso expires_at;
    revoked_at = none;
    last_seen_at = none;
  }
  ok (session, token)

abbrev pub is_unset {ℓ} : {A : Type ℓ} → Option A → Bool
is_unset none = true
is_unset (some a) = false

-- A session that is neither revoked nor expired.
unfoldable pub is_live : Instant → AuthSession → Bool
is_live now session = is_unset session.revoked_at && is_after session.expires_at now

abbrev pub has_token_hash : String → Instant → AuthSession → Bool
has_token_hash token_hash now session =
    str_eq session.session_token_hash token_hash && is_live now session

unfoldable pub principal_of_session :
    AuthMethod
    → AuthSession
    → Instant
    → ApiStore
    → Result ApiError (Option AuthPrincipal × ApiStore)
principal_of_session auth_method session now store = do
  active ← is_active_auth_subject system session.scope store
  let signed_in = (do
    membership ← calling (get_membership system session.scope store)
    seen ← calling (upsert_session system (record session { last_seen_at = some (iso now) }) store)
    ok (
      some (record {
        scope = session.scope;
        role = some (static_role_for_membership membership.role);
        session_id = some session.id;
        auth_method = some auth_method;
      }),
      seen.1,
    ))
  if not active then ok (none, store) else signed_in

abbrev pub principal_of_found :
    AuthMethod
    → Option AuthSession
    → Instant
    → ApiStore
    → Result ApiError (Option AuthPrincipal × ApiStore)
principal_of_found auth_method none now store = ok (none, store)
principal_of_found auth_method (some session) now store =
    principal_of_session auth_method session now store

unfoldable pub session_principal_from_token :
    Platform
    → AuthMethod
    → String
    → Instant
    → ApiStore
    → Result ApiError (Option AuthPrincipal × ApiStore)
session_principal_from_token platform auth_method token now store =
    principal_of_found auth_method
      (find (has_token_hash (platform.sha256_hex token) now) store.auth_sessions) now store

abbrev pub auth_session_audit_event :
    Platform → Instant → AuthSession → (prefix action : String) → AuditEvent
auth_session_audit_event platform now session prefix action = record {
  id = join (prefix ∷ "_" ∷ session.id ∷ "_" ∷ platform.epoch_ms now ∷ []);
  scope = session.scope;
  occurred_at = iso now;
  actor_type = ActorType.user;
  actor_id = session.scope.user_id;
  action = action;
  resource_type = "auth_session";
  resource_id = session.id;
}
