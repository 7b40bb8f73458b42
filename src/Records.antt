-- ===== src/Records.antt =====
-- src/domain.ts: the records that only the repositories keep. The free-form metadata of audit events
-- and integrations is left out.
use scheduleos.Base.{ℕ, Option, String}
use scheduleos.Domain.{Timestamp, Scope}

pub data ActorType : Type 0 where
  user system integration : ActorType

pub record AuditEvent : Type 0 where
  pub id : String
  pub scope : Scope
  pub occurred_at : Timestamp
  pub actor_type : ActorType
  pub actor_id : String
  pub action : String
  pub resource_type : String
  pub resource_id : String

pub data IdempotencyStatus : Type 0 where
  in_progress completed failed : IdempotencyStatus

pub record IdempotencyRecord : Type 0 where
  pub key : String
  pub scope : Scope
  pub request_hash : String
  pub status : IdempotencyStatus
  pub created_at : Timestamp
  pub completed_at : Option Timestamp
  pub response_resource_id : Option String
  pub expires_at : Option Timestamp

pub data IntegrationStatus : Type 0 where
  connected disconnected error : IntegrationStatus

pub record IntegrationState : Type 0 where
  pub id : String
  pub scope : Scope
  pub source_system : String
  pub external_account_id : Option String
  pub status : IntegrationStatus
  pub sync_cursor : Option String
  pub last_synced_at : Option Timestamp
  pub updated_at : Timestamp

pub data WorkspaceRole : Type 0 where
  owner admin editor member viewer : WorkspaceRole

pub data UserStatus : Type 0 where
  active disabled : UserStatus

pub record AuthUser : Type 0 where
  pub id : String
  pub tenant_id : String
  pub email : String
  pub display_name : String
  pub status : UserStatus
  pub credential_hash : Option String
  pub created_at : Timestamp
  pub updated_at : Timestamp

pub data MembershipStatus : Type 0 where
  active suspended : MembershipStatus

pub record WorkspaceMembership : Type 0 where
  pub scope : Scope
  pub role : WorkspaceRole
  pub status : MembershipStatus
  pub created_at : Timestamp
  pub updated_at : Timestamp

pub record AuthSession : Type 0 where
  pub id : String
  pub scope : Scope
  pub session_token_hash : String
  pub created_at : Timestamp
  pub expires_at : Timestamp
  pub revoked_at : Option Timestamp
  pub last_seen_at : Option Timestamp

pub record AuthPasswordResetToken : Type 0 where
  pub id : String
  pub scope : Scope
  pub token_hash : String
  pub created_at : Timestamp
  pub expires_at : Timestamp
  pub used_at : Option Timestamp

pub record AuthLoginAttemptWindow : Type 0 where
  pub id : String
  pub scope : Scope
  pub window_started_at : Timestamp
  pub window_ms : ℕ
  pub max_failed_attempts : ℕ
  pub failed_count : ℕ
  pub locked_until : Option Timestamp
  pub updated_at : Timestamp

pub data ImportThrottleOperation : Type 0 where
  webhook_task_import json_task_import csv_task_import ownerops_task_import
        connectos_calendar_import ics_calendar_import :
      ImportThrottleOperation

pub record ImportThrottleRecord : Type 0 where
  pub id : String
  pub scope : Scope
  pub source_system : String
  pub operation : ImportThrottleOperation
  pub window_started_at : Timestamp
  pub window_ms : ℕ
  pub limit : ℕ
  pub count : ℕ
  pub updated_at : Timestamp

pub record RequestThrottleRecord : Type 0 where
  pub id : String
  pub scope : Scope
  pub key_hash : String
  pub window_started_at : Timestamp
  pub window_ms : ℕ
  pub limit : ℕ
  pub count : ℕ
  pub updated_at : Timestamp
