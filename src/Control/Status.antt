-- ===== src/Control/Status.antt =====
-- controlplane/operation.go: the predicates on the state of one operation.
use rin.Common.{ℕ, String, Bool, true, false, not, ◌&&◌, ◌||◌, Option, none, some, ◌==◌}
use rin.Host.{RunStatus}
use rin.Control.{
  OperationStatus, queued, awaiting_confirmation, delivered, accepted, running, succeeded, failed,
  cancelled, interrupted, stale, outcome_unknown, rejected, HostAcknowledgement, Operation,
}

unfoldable pub status_eq : OperationStatus → OperationStatus → Bool
status_eq queued queued = true
status_eq awaiting_confirmation awaiting_confirmation = true
status_eq delivered delivered = true
status_eq accepted accepted = true
status_eq running running = true
status_eq succeeded succeeded = true
status_eq failed failed = true
status_eq cancelled cancelled = true
status_eq interrupted interrupted = true
status_eq stale stale = true
status_eq outcome_unknown outcome_unknown = true
status_eq rejected rejected = true
status_eq _ _ = false

-- The text of a status.
unfoldable pub status_name : OperationStatus → String
status_name queued = "queued"
status_name awaiting_confirmation = "awaiting-confirmation"
status_name delivered = "delivered"
status_name accepted = "accepted"
status_name running = "running"
status_name succeeded = "succeeded"
status_name failed = "failed"
status_name cancelled = "cancelled"
status_name interrupted = "interrupted"
status_name stale = "stale"
status_name outcome_unknown = "outcome-unknown"
status_name rejected = "rejected"

unfoldable pub run_status_name : RunStatus → String
run_status_name RunStatus.queued = "queued"
run_status_name RunStatus.running = "running"
run_status_name RunStatus.succeeded = "succeeded"
run_status_name RunStatus.failed = "failed"
run_status_name RunStatus.cancelled = "cancelled"
run_status_name RunStatus.interrupted = "interrupted"
run_status_name RunStatus.stale = "stale"
run_status_name RunStatus.outcome_unknown = "outcome-unknown"

abbrev pub is_none {ℓ} : {A : Type ℓ} → Option A → Bool
is_none none = true
is_none (some a) = false

-- `operation.ack != nil && operation.ack.Accepted`
unfoldable pub is_accepted : Option HostAcknowledgement → Bool
is_accepted none = false
is_accepted (some ack) = ack.accepted

unfoldable pub valid_initial_run_status : RunStatus → Bool
valid_initial_run_status RunStatus.queued = true
valid_initial_run_status RunStatus.running = true
valid_initial_run_status RunStatus.succeeded = true
valid_initial_run_status RunStatus.failed = true
valid_initial_run_status RunStatus.cancelled = true
valid_initial_run_status RunStatus.interrupted = true
valid_initial_run_status RunStatus.stale = true
valid_initial_run_status RunStatus.outcome_unknown = true

-- `operationStatusFromRun`
unfoldable pub status_from_run : RunStatus → OperationStatus
status_from_run RunStatus.queued = accepted
status_from_run RunStatus.running = running
status_from_run RunStatus.succeeded = succeeded
status_from_run RunStatus.failed = failed
status_from_run RunStatus.cancelled = cancelled
status_from_run RunStatus.interrupted = interrupted
status_from_run RunStatus.stale = stale
status_from_run RunStatus.outcome_unknown = outcome_unknown

-- `terminalOperationStatus`
unfoldable pub terminal_status : OperationStatus → Bool
terminal_status succeeded = true
terminal_status failed = true
terminal_status cancelled = true
terminal_status interrupted = true
terminal_status stale = true
terminal_status rejected = true
terminal_status _ = false

-- `completeOperation`
unfoldable pub is_complete : Operation → Bool
is_complete o =
    status_eq o.status outcome_unknown
    || (status_eq o.status rejected
        || ((status_eq o.status stale && not (is_accepted o.ack))
            || ((status_eq o.status cancelled && ((o.attempts == 0) && is_none o.outcome))
                || not (is_none o.outcome))))

unfoldable pub reconciliation_pending : Operation → Bool
reconciliation_pending o = status_eq o.status outcome_unknown && is_none o.outcome

-- `settledOperation`
unfoldable pub is_settled : Operation → Bool
is_settled o = is_complete o && not (reconciliation_pending o)

unfoldable pub delivery_priority : OperationStatus → ℕ
delivery_priority queued = 0
delivery_priority delivered = 1
delivery_priority accepted = 2
delivery_priority _ = 3

-- `ExecutionConfirmed` of `operationView` and of the timeline.
unfoldable pub execution_confirmed : Operation → Bool
execution_confirmed o = status_eq o.status succeeded && not (is_none o.outcome)
