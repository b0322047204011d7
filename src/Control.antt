-- ===== src/Control.antt =====
-- controlplane/types.go and the state of controlplane/operation.go and controlplane/service.go, for
-- a running service in memory: no operation file and no SQLite store, so `persistOperationsLocked`
-- does nothing. A time in milliseconds is a natural number; `a > b - ttl` is written
-- `b < a + ttl`. A pointer that may be nil is an `Option`. The counters and flags that only the
-- durable store reads (`persistenceRevision`, `operationDirty`, the change log) are left out.
pub mod Status
pub mod Timeline
pub mod Settle
pub mod Reports
pub mod Cancel
pub mod Expiry
pub mod Fence
pub mod Delivery
pub mod Submit
pub mod Confirm
pub mod Invariant
pub mod Outcome
pub mod Controllers
use rin.Common.{ℕ, String, Bool, List, Option}
use rin.Common.Maps.{Map}
use rin.Host.{Epoch, Principal, BoundAction, ActionRun, ActionOutcome}
use rin.Policy.{Decision, Engine}

pub data OperationStatus : Type 0 where
  queued awaiting_confirmation delivered accepted running succeeded failed cancelled interrupted
        stale outcome_unknown rejected :
      OperationStatus

pub record ControlBinding : Type 0 where
  pub epoch : Epoch
  pub observation_seq : ℕ
  pub authority_revision : ℕ
  pub controller_lease_id : String

-- Of the `ActionRequest` only the task is read here.
pub record ActionRequest : Type 0 where
  pub task_id : String

pub record HostControlRequest : Type 0 where
  pub operation_id : String
  pub request_id : String
  pub principal : Principal
  pub host_id : String
  pub world_id : String
  pub actor_id : String
  pub binding : Option ControlBinding
  pub action_request : Option ActionRequest
  pub bound_action : Option BoundAction
  pub policy_decision : Option Decision
  pub parent_operation_id : String
  pub submitted_at : ℕ

pub record HostAcknowledgement : Type 0 where
  pub operation_id : String
  pub accepted : Bool
  pub code : String
  pub message : String

pub record TimelineEvent : Type 0 where
  pub sequence : ℕ
  pub kind : String
  pub status : OperationStatus
  pub reason_code : String
  pub summary : String
  pub at : ℕ
  pub terminal : Bool
  pub execution_confirmed : Bool
  pub reconciliation_pending : Bool
  pub delivery_attempts : ℕ
  pub progress_sequence : ℕ
  pub progress : ℕ
  pub cancel_requested : Bool
  pub outcome_code : String
  pub policy_disposition : String
  pub policy_reason_code : String
  pub policy_summary : String
  pub matched_rule_ids : List String
  pub confirmation_pending : Bool
  pub effect_count : ℕ

pub record Operation : Type 0 where
  pub request : HostControlRequest
  pub status : OperationStatus
  pub attempts : ℕ
  pub cancel : Bool
  pub ack : Option HostAcknowledgement
  pub run : Option ActionRun
  pub outcome : Option ActionOutcome
  pub outcome_delivery : Map Bool
  pub output : String
  pub rejection : HostAcknowledgement
  pub idempotency : String
  pub created_at : ℕ
  pub updated_at : ℕ
  pub children : List String
  pub timeline : List TimelineEvent
  pub timeline_truncated_before : ℕ

-- What one step of an operation touches beside the operation.
pub record Desk : Type 0 where
  pub engine : Option Engine
  pub confirming : Map (Unit {0})
  pub sequence : ℕ

pub record HostLease : Type 0 where
  pub host_id : String
  pub instance_id : String
  pub lease_id : String
  pub expires_at : ℕ

pub record Service : Type 0 where
  pub leases : Map HostLease
  pub operations : Map Operation
  pub requests : Map String
  pub outcome_sinks : List String
  pub max_operations : ℕ
  pub operation_ttl : ℕ
  pub desk : Desk

pub data ControlError : Type 0 where
  conflict lease_expired forbidden not_found not_accepted stale_progress invalid_outcome capacity
        entropy_failed stale_submission :
      ControlError

pub data Reply {ℓ} (A : Type ℓ) : Type ℓ where
  done : A → Reply A
  refused : ControlError → Reply A
