-- ===== src/Policies.antt =====
-- src/retention-policy.ts and src/destructive-approval.ts: how long the records are kept, and what
-- must be typed to destroy them. The texts that explain a policy are left out.
use scheduleos.Base.{
  ◌-◌, ◌*◌, ℕ, Bool, Option, none, some, List, [], ◌∷◌, Result, ok, err, ◌>>=◌, traverse,
  if◌then◌else◌, ltb, String, str_eq, join,
}
use scheduleos.Domain.{Instant, Timestamp, iso, Scope}

pub data RetentionPolicyCategory : Type 0 where
  active_user_data workspace_export plaintext_backup encrypted_backup audit_event idempotency_record
        auth_session auth_password_reset_token auth_login_attempt_window import_throttle_window
        calendar_sync_state integration_sync_metadata schedule_plan_history
        deleted_workspace_operator_note :
      RetentionPolicyCategory

pub data RetentionAction : Type 0 where
  keep_until_deletion delete_after_retention review_after_retention : RetentionAction

pub record RetentionPolicyEntry : Type 0 where
  pub category : RetentionPolicyCategory
  pub retention_days : Option ℕ
  pub action : RetentionAction

pub record RetentionCutoff : Type 0 where
  pub category : RetentionPolicyCategory
  pub delete_before : Option Instant
  pub action : RetentionAction

entry : RetentionPolicyCategory → Option ℕ → RetentionAction → RetentionPolicyEntry
entry category days action = record { category = category; retention_days = days; action = action }

unfoldable pub schedule_os_retention_policy : List RetentionPolicyEntry
unfolding entry
schedule_os_retention_policy =
    entry active_user_data none keep_until_deletion
    ∷ entry workspace_export (some 7) delete_after_retention
    ∷ entry plaintext_backup (some 7) delete_after_retention
    ∷ entry encrypted_backup (some 30) delete_after_retention
    ∷ entry audit_event (some 365) review_after_retention
    ∷ entry idempotency_record (some 30) delete_after_retention
    ∷ entry auth_session (some 30) delete_after_retention
    ∷ entry auth_password_reset_token (some 7) delete_after_retention
    ∷ entry auth_login_attempt_window (some 14) delete_after_retention
    ∷ entry import_throttle_window (some 14) delete_after_retention
    ∷ entry calendar_sync_state (some 90) delete_after_retention
    ∷ entry integration_sync_metadata (some 90) delete_after_retention
    ∷ entry schedule_plan_history (some 180) delete_after_retention
    ∷ entry deleted_workspace_operator_note (some 365) review_after_retention
    ∷ []

-- `toISOString` throws on a date that is before the earliest one.
pub data RetentionError : Type 0 where
  cutoff_date_invalid invalid_time_value : RetentionError

unfoldable pub days_before : Instant → ℕ → Result RetentionError Instant
days_before date days =
    let ms = days * 86400000 in if ltb date ms then err invalid_time_value else ok (date - ms)

unfoldable pub cutoff_of : Instant → RetentionPolicyEntry → Result RetentionError RetentionCutoff
unfolding days_before
cutoff_of as_of e = elim e.retention_days [
  | none ↦ ok (record { category = e.category; delete_before = none; action = e.action })
  | some days ↦ do
    before ← days_before as_of days
    ok (record { category = e.category; delete_before = some before; action = e.action })
]

unfoldable pub calculate_retention_cutoffs :
    Timestamp → List RetentionPolicyEntry → Result RetentionError (List RetentionCutoff)
unfolding cutoff_of
calculate_retention_cutoffs (iso as_of) policy = traverse (cutoff_of as_of) policy
calculate_retention_cutoffs Timestamp.malformed policy = err cutoff_date_invalid

unfoldable pub scoped_confirmation : Scope → String
scoped_confirmation scope =
    join (scope.tenant_id ∷ "/" ∷ scope.workspace_id ∷ "/" ∷ scope.user_id ∷ [])

-- `isoString` is `toISOString` of the date.
unfoldable pub timed_scoped_confirmation : Scope → String → String
unfolding scoped_confirmation
timed_scoped_confirmation scope iso_string =
    join (scoped_confirmation scope ∷ "/" ∷ iso_string ∷ [])

unfoldable pub restore_overwrite_confirmation : Scope → String → String
unfolding scoped_confirmation
restore_overwrite_confirmation scope restore_path =
    join (scoped_confirmation scope ∷ "/overwrite/" ∷ restore_path ∷ [])

pub record DestructiveApproval : Type 0 where
  pub required_confirmation : String
  pub approved : Bool
  pub refusal : String

-- `provided === required`, where nothing may be provided.
abbrev pub is_provided : Option String → String → Bool
is_provided none required = Bool.false
is_provided (some provided) required = str_eq provided required

unfoldable pub require_destructive_confirmation :
    Option String → String → String → DestructiveApproval
require_destructive_confirmation provided required operation = record {
  required_confirmation = required;
  approved = is_provided provided required;
  refusal = join ("Refusing " ∷ operation ∷ ". Re-run --confirm " ∷ required ∷ []);
}
