-- ===== src/Repositories.antt =====
-- src/repositories.ts and src/store.ts: the store of the API, the actors that use it, and the
-- checks of access that every repository makes first. Writing the store to its file is left out.
pub mod Access
pub mod Tables
pub mod Tasks
pub mod Plans
pub mod Keyed
pub mod Throttles
pub mod Auth
mod Samples
use scheduleos.Base.{
  Bool, true, false, ◌&&◌, not, List, [], ◌∷◌, Result, ok, err, if◌then◌else◌, String, str_eq,
}
use scheduleos.Domain.{Scope, SchedulingTask, CalendarEvent, WorkingHours, SchedulePlan}
use scheduleos.Records.{
  AuditEvent, IdempotencyRecord, IntegrationState, ImportThrottleRecord, RequestThrottleRecord,
  AuthUser, WorkspaceMembership, AuthSession, AuthPasswordResetToken, AuthLoginAttemptWindow,
}

-- The map of working hours is a list of its entries.
pub record ApiStore : Type 0 where
  pub tasks : List SchedulingTask
  pub calendar_events : List CalendarEvent
  pub working_hours : List (String × WorkingHours)
  pub plans : List SchedulePlan
  pub audit_events : List AuditEvent
  pub idempotency_records : List IdempotencyRecord
  pub integration_states : List IntegrationState
  pub import_throttle_records : List ImportThrottleRecord
  pub request_throttle_records : List RequestThrottleRecord
  pub auth_users : List AuthUser
  pub workspace_memberships : List WorkspaceMembership
  pub auth_sessions : List AuthSession
  pub auth_password_reset_tokens : List AuthPasswordResetToken
  pub auth_login_attempt_windows : List AuthLoginAttemptWindow

abbrev pub empty_store : ApiStore
empty_store = record {
  tasks = [];
  calendar_events = [];
  working_hours = [];
  plans = [];
  audit_events = [];
  idempotency_records = [];
  integration_states = [];
  import_throttle_records = [];
  request_throttle_records = [];
  auth_users = [];
  workspace_memberships = [];
  auth_sessions = [];
  auth_password_reset_tokens = [];
  auth_login_attempt_windows = [];
}

pub data RepositoryActor : Type 0 where
  system : RepositoryActor
  user : Scope → RepositoryActor

pub data RepositoryError : Type 0 where
  forbidden not_found validation_error : (message : String) → RepositoryError

-- What an operation on the store returns: a value with the store that it leaves, or an error, which
-- leaves the store as it was.
abbrev pub Outcome {ℓ} : Type ℓ → Type ℓ
Outcome A = Result RepositoryError (A × ApiStore)

unfoldable pub matches_scope : Scope → Scope → Bool
matches_scope item scope =
    str_eq item.tenant_id scope.tenant_id
    && (str_eq item.workspace_id scope.workspace_id && str_eq item.user_id scope.user_id)

abbrev pub no_access : RepositoryError
no_access = forbidden "Actor cannot access this repository scope."

unfoldable pub assert_can_access : RepositoryActor → Scope → Result RepositoryError (Unit {0})
unfolding matches_scope
assert_can_access system scope = ok tt
assert_can_access (user actor) scope = if matches_scope actor scope then ok tt else err no_access

unfoldable pub assert_auth_tenant_access :
    RepositoryActor → String → String → Result RepositoryError (Unit {0})
assert_auth_tenant_access system tenant_id user_id = ok tt
assert_auth_tenant_access (user actor) tenant_id user_id =
    if str_eq actor.tenant_id tenant_id && str_eq actor.user_id user_id
    then ok tt
    else err no_access
