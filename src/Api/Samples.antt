-- ===== src/Api/Samples.antt =====
-- Small stores and requests at which the theorems on the API apply.
use scheduleos.Base.{
  ℕ, ◌≡◌, refl, ◌+◌, List, [], ◌∷◌, none, some, ok, err, String, str_eq, join, arith,
}
use scheduleos.Domain.{Instant, iso}
use scheduleos.Records.{
  AuthUser, UserStatus, WorkspaceMembership, MembershipStatus, WorkspaceRole, AuthSession,
  AuthPasswordResetToken, AuditEvent,
}
use scheduleos.Repositories.{ApiStore, empty_store, matches_scope}
use scheduleos.Repositories.Auth.{
  get_user, get_membership, upsert_user, get_session, revoke_session, list_sessions, upsert_session,
  get_password_reset_token, list_password_reset_tokens, mark_password_reset_token_used,
}
use scheduleos.Repositories.Keyed.{append_audit_event}
use scheduleos.Api.{Platform, Response, is_after, auth_attempt_limited_error}
use scheduleos.Api.Access.{
  AuthPrincipal, AuthMethod, StaticAuthRole, is_active_auth_subject, assert_active_auth_subject,
  static_role_for_membership,
}
use scheduleos.Api.Sessions.{
  SessionSecrets, create_auth_session, requested_auth_session_expiry, is_live, principal_of_session,
  session_principal_from_token, auth_session_audit_event,
}
use scheduleos.Api.Sessions.Created.{Created, create_auth_session-Created}
use scheduleos.Api.Sessions.Principal.{SignedIn, session_principal_from_token-SignedIn}
use scheduleos.Api.Login.{LoginBackoffConfig, log_in, verify_credential, has_valid_credentials}
use scheduleos.Api.Login.Guesses.{Guess, answers, request_of}
use scheduleos.Api.Login.LockedOut.{after_guesses, not_held_off, log_in-locked_out}
use scheduleos.Api.Passwords.{
  PasswordChange, reset_password, mark_found, consume_valid_password_reset_token, revoke_each,
  revoke_live_sessions,
}
use scheduleos.Api.Passwords.Changed.{PasswordReset, reset_password-PasswordReset}
use scheduleos.Scheduler.Samples.{midnight, at_hour, demo_scope}

-- A platform whose hashes are the texts themselves.
abbrev pub demo_platform : Platform
demo_platform = record {
  to_iso_string = λ t. "2026-01-05T00:00:00.000Z";
  epoch_ms = λ t. "0";
  sha256_hex = λ text. text;
  scrypt_matches = λ password credential_hash. str_eq password credential_hash;
}

abbrev demo_user : AuthUser
demo_user = record {
  id = demo_scope.user_id;
  tenant_id = demo_scope.tenant_id;
  email = "user@example.test";
  display_name = "User";
  status = UserStatus.active;
  credential_hash = some "right";
  created_at = iso midnight;
  updated_at = iso midnight;
}

abbrev demo_membership : WorkspaceMembership
demo_membership = record {
  scope = demo_scope;
  role = WorkspaceRole.admin;
  status = MembershipStatus.active;
  created_at = iso midnight;
  updated_at = iso midnight;
}

abbrev pub session_at : String → String → AuthSession
session_at id token_hash = record {
  id = id;
  scope = demo_scope;
  session_token_hash = token_hash;
  created_at = iso midnight;
  expires_at = iso (at_hour 12);
  revoked_at = none;
  last_seen_at = none;
}

abbrev demo_token : AuthPasswordResetToken
demo_token = record {
  id = "reset";
  scope = demo_scope;
  token_hash = "reset-token";
  created_at = iso midnight;
  expires_at = iso (at_hour 2);
  used_at = none;
}

abbrev demo_store : ApiStore
demo_store = record empty_store {
  auth_users = demo_user ∷ [];
  workspace_memberships = demo_membership ∷ [];
  auth_sessions = session_at "one" "first" ∷ session_at "two" "second" ∷ [];
  auth_password_reset_tokens = demo_token ∷ [];
}

abbrev demo_backoff : LoginBackoffConfig
demo_backoff = record { window_ms = 900000; max_failed_attempts = 2 }

abbrev guess_at : String → Instant → Guess
guess_at password at = record {
  expires_at = none;
  password = password;
  secrets = record { token_random = "r"; id_random = "r" };
  at = at;
}

abbrev three_guesses : List Guess
three_guesses =
    guess_at "a" midnight ∷ guess_at "b" (midnight + 1000) ∷ guess_at "c" (midnight + 2000) ∷ []

-- The right password, once the account is locked.
abbrev right_guess : Guess
right_guess = guess_at "right" (midnight + 3000)

log_in-locked_out_example :
    let left = after_guesses demo_platform demo_backoff demo_scope three_guesses demo_store in
    (not_held_off (answers demo_platform demo_backoff demo_scope three_guesses demo_store) ≡ 2)
    × ((ms : ℕ) × (log_in demo_platform demo_backoff right_guess.secrets
            (request_of demo_scope right_guess)
            (midnight + 3000)
            left
          ≡ (err (auth_attempt_limited_error ms), left)))
unfolding has_valid_credentials verify_credential matches_scope
log_in-locked_out_example =
    log_in-locked_out demo_platform demo_backoff demo_scope midnight three_guesses demo_store
      right_guess 1 refl (omega arith) tt refl
      (
        (omega arith, omega arith, refl),
        ((omega arith, omega arith, refl), ((omega arith, omega arith, refl), tt)),
      )
      (omega arith)

abbrev demo_secrets : SessionSecrets
demo_secrets = record { token_random = "r"; id_random = "r" }

abbrev created_session : AuthSession
created_session = record {
  id = "session_r";
  scope = demo_scope;
  session_token_hash = "sos_session_r";
  created_at = iso midnight;
  expires_at = iso (at_hour 5);
  revoked_at = none;
  last_seen_at = none;
}

create_runs :
    create_auth_session demo_platform demo_secrets demo_scope (some (iso (at_hour 5))) midnight
    ≡ ok (created_session, "sos_session_r")
unfolding create_auth_session requested_auth_session_expiry join
create_runs = refl

create_auth_session-Created_example :
    Created demo_platform demo_scope midnight created_session "sos_session_r"
create_auth_session-Created_example =
    create_auth_session-Created demo_platform demo_secrets demo_scope (some (iso (at_hour 5)))
      midnight created_session "sos_session_r" create_runs

abbrev seen_store : ApiStore
seen_store = record demo_store {
  auth_sessions =
      session_at "two" "second"
      ∷ record (session_at "one" "first") { last_seen_at = some (iso (at_hour 1)) }
      ∷ [];
}

abbrev pub demo_principal : AuthPrincipal
demo_principal = record {
  scope = demo_scope;
  role = some StaticAuthRole.admin;
  session_id = some "one";
  auth_method = some AuthMethod.bearer_session;
}

sign_in_runs :
    session_principal_from_token demo_platform AuthMethod.bearer_session "first"
      (at_hour 1)
      demo_store
    ≡ ok (some demo_principal, seen_store)
unfolding session_principal_from_token principal_of_session is_active_auth_subject get_user
    get_membership upsert_session static_role_for_membership is_live is_after matches_scope
sign_in_runs = refl

session_principal_from_token-SignedIn_example :
    SignedIn demo_platform "first" (at_hour 1) demo_store demo_principal
session_principal_from_token-SignedIn_example =
    session_principal_from_token-SignedIn demo_platform AuthMethod.bearer_session "first"
      (at_hour 1) demo_store seen_store demo_principal sign_in_runs

abbrev pub value_of {ℓ} : {A : Type ℓ} → A → Response A → A
value_of other (ok value, store) = value
value_of other (err thrown, store) = other

abbrev reset_run : Response PasswordChange
reset_run = reset_password demo_platform demo_scope "reset-token" 14 "new" (at_hour 1) demo_store

abbrev no_event : AuditEvent
no_event = auth_session_audit_event demo_platform midnight (session_at "" "") "" ""

reset_runs : reset_run ≡ (ok (value_of (demo_user, [], no_event) reset_run), reset_run.1)
unfolding reset_password consume_valid_password_reset_token mark_found revoke_live_sessions
    revoke_each get_user get_membership is_active_auth_subject assert_active_auth_subject
    upsert_user list_sessions get_session revoke_session list_password_reset_tokens
    get_password_reset_token mark_password_reset_token_used append_audit_event is_live is_after
    matches_scope join
reset_runs = refl

reset_password-PasswordReset_example :
    PasswordReset demo_platform demo_scope "reset-token" 14 "new"
      (at_hour 1)
      demo_store
      reset_run.1
      (value_of (demo_user, [], no_event) reset_run).0
reset_password-PasswordReset_example =
    reset_password-PasswordReset (λ id. demo_scope.tenant_id) demo_platform demo_scope "reset-token"
      14 "new" (at_hour 1) demo_store reset_run.1 (value_of (demo_user, [], no_event) reset_run).0
      (value_of (demo_user, [], no_event) reset_run).1
      (value_of (demo_user, [], no_event) reset_run).2 (refl, (refl, tt)) reset_runs
