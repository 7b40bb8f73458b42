-- ===== src/Api/Access.antt =====
-- src/api.ts: who makes a request, and the checks of what they may do.
pub mod Roles
use scheduleos.Base.{
  Bool, true, false, ◌&&◌, ◌||◌, not, Option, none, some, Result, ok, err, ◌>>=◌, if◌then◌else◌,
  String, str_eq,
}
use scheduleos.Domain.{Scope}
use scheduleos.Records.{WorkspaceRole, UserStatus, MembershipStatus}
use scheduleos.Repositories.{ApiStore, RepositoryActor, system, user, matches_scope}
use scheduleos.Repositories.Auth.{get_user, get_membership}
use scheduleos.Api.{ApiError, api_error, calling}

pub data StaticAuthRole : Type 0 where
  owner admin editor viewer : StaticAuthRole

pub data AuthMethod : Type 0 where
  static bearer_session cookie_session : AuthMethod

-- The CSRF token, which only the reading of cookies uses, is left out.
pub record AuthPrincipal : Type 0 where
  pub scope : Scope
  pub role : Option StaticAuthRole
  pub session_id : Option String
  pub auth_method : Option AuthMethod

unfoldable pub repository_actor : Option AuthPrincipal → RepositoryActor
repository_actor none = system
repository_actor (some principal) = user principal.scope

abbrev pub forbidden_error : String → ApiError
forbidden_error message = api_error 403 "FORBIDDEN" message

abbrev pub is_viewer : Option StaticAuthRole → Bool
is_viewer (some viewer) = true
is_viewer _ = false

unfoldable pub assert_method_allowed : Option AuthPrincipal → String → Result ApiError (Unit {0})
assert_method_allowed none method = ok tt
assert_method_allowed (some principal) method =
    if str_eq method "GET"
    then ok tt
    else (if is_viewer principal.role
        then err (forbidden_error "Authenticated principal is read-only.")
        else ok tt)

unfoldable pub require_authenticated_principal :
    Option AuthPrincipal → Result ApiError AuthPrincipal
require_authenticated_principal none =
    err (api_error 401 "UNAUTHENTICATED" "Authenticated principal required.")
require_authenticated_principal (some principal) = ok principal

-- The principal with the id of its session, which is not empty.
unfoldable pub require_session_principal :
    Option AuthPrincipal → String → Result ApiError (AuthPrincipal × String)
unfolding require_authenticated_principal
require_session_principal principal message = do
  authenticated ← require_authenticated_principal principal
  elim authenticated.session_id [
    | none ↦ err (api_error 400 "SESSION_REQUIRED" message)
    | some session_id ↦
        if str_eq session_id ""
        then err (api_error 400 "SESSION_REQUIRED" message)
        else ok (authenticated, session_id)
  ]

unfoldable pub require_same_tenant_principal :
    Option AuthPrincipal → String → Result ApiError (Unit {0})
unfolding require_authenticated_principal
require_same_tenant_principal principal tenant_id = do
  authenticated ← require_authenticated_principal principal
  if not (str_eq authenticated.scope.tenant_id tenant_id)
      then err (forbidden_error "Authenticated principal cannot access tenant.")
      else ok tt

unfoldable pub assert_authorized : Option AuthPrincipal → Scope → Result ApiError (Unit {0})
unfolding matches_scope
assert_authorized none scope = ok tt
assert_authorized (some principal) scope =
    if not (matches_scope principal.scope scope)
    then err (forbidden_error "Authenticated principal cannot access this scope.")
    else ok tt

unfoldable pub assert_authorized_user : Option AuthPrincipal → String → Result ApiError (Unit {0})
assert_authorized_user none user_id = ok tt
assert_authorized_user (some principal) user_id =
    if not (str_eq principal.scope.user_id user_id)
    then err (forbidden_error "Authenticated principal cannot access this user.")
    else ok tt

unfoldable pub assert_authorized_tenant_user :
    Option AuthPrincipal → String → String → Result ApiError (Unit {0})
assert_authorized_tenant_user none tenant_id user_id = ok tt
assert_authorized_tenant_user (some principal) tenant_id user_id =
    if not (str_eq principal.scope.tenant_id tenant_id)
      || not (str_eq principal.scope.user_id user_id)
    then err (forbidden_error "Authenticated principal cannot access this scope.")
    else ok tt

abbrev pub is_owner : Option StaticAuthRole → Bool
is_owner (some owner) = true
is_owner _ = false

abbrev pub is_admin : Option StaticAuthRole → Bool
is_admin (some owner) = true
is_admin (some admin) = true
is_admin _ = false

-- The tenant and the workspace that an admin is asked to manage, where the code names them.
abbrev pub Workspace : Type 0
Workspace = String × String

abbrev pub workspace_of : Scope → Workspace
workspace_of scope = (scope.tenant_id, scope.workspace_id)

abbrev pub outside : Scope → Option Workspace → Bool
outside scope none = false
outside scope (some (tenant_id, workspace_id)) =
    not (str_eq scope.tenant_id tenant_id) || not (str_eq scope.workspace_id workspace_id)

unfoldable pub require_auth_admin :
    Option AuthPrincipal → Option Workspace → Result ApiError AuthPrincipal
unfolding require_authenticated_principal
require_auth_admin principal workspace = do
  authenticated ← require_authenticated_principal principal
  if outside authenticated.scope workspace
      then err (forbidden_error "Authenticated principal cannot manage this workspace.")
      else (if not (is_admin authenticated.role)
          then err (forbidden_error "Authenticated principal cannot manage auth records.")
          else ok authenticated)

unfoldable pub require_auth_owner : Option AuthPrincipal → Workspace → Result ApiError AuthPrincipal
unfolding require_auth_admin
require_auth_owner principal workspace = do
  authenticated ← require_auth_admin principal (some workspace)
  if not (is_owner authenticated.role)
      then err (forbidden_error "Only workspace owners can grant owner or admin roles.")
      else ok authenticated

abbrev pub is_active_user : UserStatus → Bool
is_active_user UserStatus.active = true
is_active_user UserStatus.disabled = false

abbrev pub is_active_membership : MembershipStatus → Bool
is_active_membership MembershipStatus.active = true
is_active_membership MembershipStatus.suspended = false

unfoldable pub is_active_auth_subject : RepositoryActor → Scope → ApiStore → Result ApiError Bool
is_active_auth_subject actor scope state = do
  subject ← calling (get_user actor scope.tenant_id scope.user_id state)
  let membership_is_active = (do
    membership ← calling (get_membership actor scope state)
    ok (is_active_membership membership.status))
  if not (is_active_user subject.status) then ok false else membership_is_active

unfoldable pub assert_active_auth_subject :
    RepositoryActor → Scope → ApiStore → Result ApiError (Unit {0})
unfolding is_active_auth_subject
assert_active_auth_subject actor scope state = do
  active ← is_active_auth_subject actor scope state
  if not active then err (forbidden_error "Auth subject is not active.") else ok tt

unfoldable pub static_role_for_membership : WorkspaceRole → StaticAuthRole
static_role_for_membership WorkspaceRole.viewer = viewer
static_role_for_membership WorkspaceRole.admin = admin
static_role_for_membership WorkspaceRole.owner = owner
static_role_for_membership _ = editor
