-- ===== src/Repositories/Auth.antt =====
-- src/repositories.ts: users, memberships, sessions, password reset tokens and windows of login
-- attempts.
pub mod Sessions
use scheduleos.Base.{
  Bool, ◌&&◌, not, List, [], ◌∷◌, ◌++◌, Option, none, some, Result, ok, err, ◌>>=◌, if◌then◌else◌,
  filter, find, String, str_eq,
}
use scheduleos.Domain.{Timestamp, Scope}
use scheduleos.Records.{
  AuthUser, WorkspaceMembership, AuthSession, AuthPasswordResetToken, AuthLoginAttemptWindow,
}
use scheduleos.Repositories.{
  ApiStore, RepositoryActor, RepositoryError, not_found, Outcome, matches_scope, assert_can_access,
  assert_auth_tenant_access,
}
use scheduleos.Repositories.Tables.{put, or_not_found}

abbrev pub is_user : String → String → AuthUser → Bool
is_user tenant_id id user = str_eq user.tenant_id tenant_id && str_eq user.id id

unfoldable pub upsert_user : RepositoryActor → AuthUser → ApiStore → Outcome AuthUser
unfolding assert_auth_tenant_access
upsert_user actor user state = do
  allowed ← assert_auth_tenant_access actor user.tenant_id user.id
  ok (
    user,
    record state { auth_users = put (is_user user.tenant_id user.id) user state.auth_users },
  )

unfoldable pub get_user :
    RepositoryActor → String → String → ApiStore → Result RepositoryError AuthUser
unfolding assert_auth_tenant_access
get_user actor tenant_id user_id state = do
  allowed ← assert_auth_tenant_access actor tenant_id user_id
  or_not_found "Auth user not found." (find (is_user tenant_id user_id) state.auth_users)

abbrev pub is_membership : Scope → WorkspaceMembership → Bool
is_membership scope membership = matches_scope membership.scope scope

unfoldable pub upsert_membership :
    RepositoryActor → WorkspaceMembership → ApiStore → Outcome WorkspaceMembership
unfolding assert_can_access
upsert_membership actor membership state = do
  allowed ← assert_can_access actor membership.scope
  ok (
    membership,
    record state {
      workspace_memberships =
          put (is_membership membership.scope) membership state.workspace_memberships;
    },
  )

unfoldable pub get_membership :
    RepositoryActor → Scope → ApiStore → Result RepositoryError WorkspaceMembership
unfolding assert_can_access
get_membership actor scope state = do
  allowed ← assert_can_access actor scope
  or_not_found "Workspace membership not found."
      (find (is_membership scope) state.workspace_memberships)

unfoldable pub list_memberships :
    RepositoryActor → String → String → ApiStore → Result RepositoryError (List WorkspaceMembership)
unfolding assert_auth_tenant_access
list_memberships actor tenant_id user_id state = do
  allowed ← assert_auth_tenant_access actor tenant_id user_id
  ok (
      filter
        (λ (membership : WorkspaceMembership).
          str_eq membership.scope.tenant_id tenant_id && str_eq membership.scope.user_id user_id)
        state.workspace_memberships)

-- Sessions are told apart by tenant and id.
abbrev pub is_session : String → String → AuthSession → Bool
is_session tenant_id id session = str_eq session.scope.tenant_id tenant_id && str_eq session.id id

abbrev pub store_session : AuthSession → ApiStore → ApiStore
store_session session state = record state {
  auth_sessions = put (is_session session.scope.tenant_id session.id) session state.auth_sessions;
}

unfoldable pub upsert_session : RepositoryActor → AuthSession → ApiStore → Outcome AuthSession
unfolding assert_can_access
upsert_session actor session state = do
  allowed ← assert_can_access actor session.scope
  ok (session, store_session session state)

-- The first session of that id, of whichever tenant.
unfoldable pub get_session :
    RepositoryActor → String → ApiStore → Result RepositoryError AuthSession
unfolding assert_can_access
get_session actor session_id state = do
  session ←
      or_not_found "Auth session not found."
        (find (λ (session : AuthSession). str_eq session.id session_id) state.auth_sessions)
  allowed ← assert_can_access actor session.scope
  ok session

unfoldable pub list_sessions :
    RepositoryActor → Scope → ApiStore → Result RepositoryError (List AuthSession)
unfolding assert_can_access
list_sessions actor scope state = do
  allowed ← assert_can_access actor scope
  ok (filter (λ session. matches_scope session.scope scope) state.auth_sessions)

unfoldable pub revoke_session :
    RepositoryActor → String → Timestamp → ApiStore → Outcome AuthSession
unfolding get_session
revoke_session actor session_id revoked_at state = do
  session ← get_session actor session_id state
  let revoked : AuthSession = record session { revoked_at = some revoked_at }
  ok (revoked, store_session revoked state)

abbrev pub is_token : Scope → String → AuthPasswordResetToken → Bool
is_token scope id token = matches_scope token.scope scope && str_eq token.id id

abbrev pub store_token : AuthPasswordResetToken → ApiStore → ApiStore
store_token token state = record state {
  auth_password_reset_tokens =
      put (is_token token.scope token.id) token state.auth_password_reset_tokens;
}

unfoldable pub upsert_password_reset_token :
    RepositoryActor → AuthPasswordResetToken → ApiStore → Outcome AuthPasswordResetToken
unfolding assert_can_access
upsert_password_reset_token actor token state = do
  allowed ← assert_can_access actor token.scope
  ok (token, store_token token state)

unfoldable pub get_password_reset_token :
    RepositoryActor → String → ApiStore → Result RepositoryError AuthPasswordResetToken
unfolding assert_can_access
get_password_reset_token actor token_id state = do
  token ← or_not_found "Password reset token not found." (
      find (λ (token : AuthPasswordResetToken). str_eq token.id token_id)
        state.auth_password_reset_tokens)
  allowed ← assert_can_access actor token.scope
  ok token

unfoldable pub list_password_reset_tokens :
    RepositoryActor → Scope → ApiStore → Result RepositoryError (List AuthPasswordResetToken)
unfolding assert_can_access
list_password_reset_tokens actor scope state = do
  allowed ← assert_can_access actor scope
  ok (filter (λ token. matches_scope token.scope scope) state.auth_password_reset_tokens)

unfoldable pub mark_password_reset_token_used :
    RepositoryActor → String → Timestamp → ApiStore → Outcome AuthPasswordResetToken
unfolding get_password_reset_token
mark_password_reset_token_used actor token_id used_at state = do
  token ← get_password_reset_token actor token_id state
  let used : AuthPasswordResetToken = record token { used_at = some used_at }
  ok (used, store_token used state)

abbrev pub is_window : Scope → String → AuthLoginAttemptWindow → Bool
is_window scope id window = matches_scope window.scope scope && str_eq window.id id

unfoldable pub get_login_attempt_window :
    RepositoryActor → Scope → ApiStore → Result RepositoryError (Option AuthLoginAttemptWindow)
unfolding assert_can_access
get_login_attempt_window actor scope state = do
  allowed ← assert_can_access actor scope
  ok (
      find (λ (window : AuthLoginAttemptWindow). matches_scope window.scope scope)
        state.auth_login_attempt_windows)

unfoldable pub upsert_login_attempt_window :
    RepositoryActor → AuthLoginAttemptWindow → ApiStore → Outcome AuthLoginAttemptWindow
unfolding assert_can_access
upsert_login_attempt_window actor window state = do
  allowed ← assert_can_access actor window.scope
  ok (
    window,
    record state {
      auth_login_attempt_windows =
          put (is_window window.scope window.id) window state.auth_login_attempt_windows;
    },
  )

unfoldable pub clear_login_attempt_window : RepositoryActor → Scope → ApiStore → Outcome (Unit {0})
unfolding assert_can_access
clear_login_attempt_window actor scope state = do
  allowed ← assert_can_access actor scope
  ok (
    tt,
    record state {
      auth_login_attempt_windows =
          filter (λ (window : AuthLoginAttemptWindow). not (matches_scope window.scope scope))
            state.auth_login_attempt_windows;
    },
  )
