-- ===== src/Tests/Operations.antt =====
-- The theorems on the control plane, at small inputs.
use rin.Common.{
  ℕ, ◌+◌, ◌≤◌, ◌≡◌, refl, String, Bool, true, false, List, [], ◌∷◌, Option, none, some, arith, All,
  length, decimal, join_nul,
}
use rin.Common.Maps.{Map, lookup}
use rin.Host.{RunStatus, ActionOutcome, Principal}
use rin.Policy.{allow, require_confirmation, Decision}
use rin.Control.{
  HostControlRequest, HostAcknowledgement, HostLease, Operation, Desk, Service, OperationStatus,
  ControlBinding,
}
use rin.Control.Status.{execution_confirmed}
use rin.Control.Timeline.{record_timeline}
use rin.Control.Reports.{acknowledge_host, report_host_result}
use rin.Control.Cancel.{cancel_operation}
use rin.Control.Expiry.{expire_host_operations}
use rin.Control.Delivery.{collect_host_work}
use rin.Control.Delivery.Bounds.{IsOf, collect-le, collect-IsOf}
use rin.Control.Submit.{store_operation}
use rin.Control.Invariant.Calls.{IsSound}
use rin.Control.Invariant.Reachable.{
  IsExecuted, stored, collected, acknowledged, ended, Reachable, started, called, Reachable-IsSound,
  execution_confirmed-IsExecuted, confirm_queued,
}
use rin.Control.Confirm.{on_operation, give_back, queue_confirmed}
use rin.Policy.Decisions.{base_decision}
use rin.Control.Outcome.{AreComplete, expire_host-AreComplete}
use rin.Tests.{context, epoch, now, player, walk}

abbrev request : HostControlRequest
request = record {
  operation_id = "o";
  request_id = "r";
  principal = player;
  host_id = "h";
  world_id = "w";
  actor_id = "a";
  binding = some (record {
    epoch = epoch;
    observation_seq = 3;
    authority_revision = 1;
    controller_lease_id = "l";
  });
  action_request = some (record { task_id = "t" });
  bound_action = some walk;
  policy_decision = none;
  parent_operation_id = "";
  submitted_at = 5;
}

abbrev lease : HostLease
lease = record { host_id = "h"; instance_id = "i"; lease_id = "lease"; expires_at = 100 }

abbrev empty : Service
empty = record {
  leases = ("h", lease) ∷ [];
  operations = [];
  requests = [];
  outcome_sinks = "memory" ∷ [];
  max_operations = 8;
  operation_ttl = 1000;
  desk = record { engine = none; confirming = []; sequence = 0 };
}

abbrev yes : HostAcknowledgement
yes = record { operation_id = "o"; accepted = true; code = ""; message = "" }

abbrev success : ActionOutcome
success = record {
  operation_id = "o";
  status = RunStatus.succeeded;
  code = "";
  summary = "Walked.";
  epoch = epoch;
  evidence = [];
  world_seq = 4;
  occurred_at = now;
}

abbrev pub submitted : Service
submitted = (store_operation "k" request allow empty).1

abbrev polled : Service
polled = (collect_host_work "h" 4 0 10 submitted).1

abbrev accepted : Service
accepted = (acknowledge_host "h" "lease" yes 11 polled).1

abbrev executed : Service
executed = (report_host_result "h" "lease" success "{}" 12 accepted).1

executed-Reachable : Reachable executed
executed-Reachable =
    called
      (called
        (called (called (started empty refl) (stored "k" request allow)) (collected "h" 4 0 10))
        (acknowledged "h" "lease" yes 11))
      (ended "h" "lease" success "{}" 12)

-- A walk that waits for its confirmation, and the decision that the confirmation brings.
abbrev awaiting : Service
awaiting = (store_operation "k" request require_confirmation empty).1

abbrev granted : Decision
granted = record (base_decision "d" walk (context "d") 1) { result = allow }

abbrev confirmed : Service
confirmed = (on_operation "o" (give_back granted) (queue_confirmed granted none 8) awaiting).1

Reachable-IsSound_example : IsSound confirmed
Reachable-IsSound_example = Reachable-IsSound confirmed (
    called (called (started empty refl) (stored "k" request require_confirmation))
      (confirm_queued "o" granted none 8))

abbrev unknown : Operation
unknown = record {
  request = request;
  status = OperationStatus.queued;
  attempts = 0;
  cancel = false;
  ack = none;
  run = none;
  outcome = none;
  outcome_delivery = [];
  output = "";
  rejection = yes;
  idempotency = "";
  created_at = 0;
  updated_at = 0;
  children = [];
  timeline = [];
  timeline_truncated_before = 0;
}

abbrev or_unknown : Option Operation → Operation
or_unknown none = unknown
or_unknown (some o) = o

abbrev walking : Operation
walking = or_unknown (lookup "o" executed.operations)

test_there : lookup "o" executed.operations ≡ some walking
unfolding rin.Host.clock_eq rin.Host.epoch_eq rin.Host.risk_eq rin.Host.ownership_eq
    rin.Host.operation_eq rin.Host.run_status_eq rin.Host.can_transition_action_run rin.Host.run_eq
    rin.Host.outcome_eq join_nul decimal lookup rin.Common.Maps.delete rin.Common.Maps.insert
    rin.Common.Maps.drop_if rin.Common.Maps.member rin.Control.Cancel.has_scope
    rin.Control.Cancel.is_overdue rin.Control.Cancel.refresh_operation
    rin.Control.Cancel.get_operation cancel_operation rin.Control.Cancel.cancel_requested
    rin.Control.Delivery.comes_before rin.Control.Delivery.place rin.Control.Delivery.host_work
    rin.Control.Delivery.collect_cancellations rin.Control.Delivery.is_due
    rin.Control.Delivery.deliver rin.Control.Delivery.collect_requests collect_host_work
    rin.Control.Expiry.expire_host_operation expire_host_operations rin.Control.Expiry.expire_by_ttl
    rin.Control.Expiry.is_prunable rin.Control.Expiry.forget_child rin.Control.Expiry.prune_from
    rin.Control.Expiry.prune_operations rin.Control.Fence.withdraw
    rin.Control.Fence.fence_controller_operation rin.Control.Fence.fence_controller_operations
    rin.Control.Fence.cancel_actor_operation rin.Control.Fence.cancel_actor_operations
    rin.Control.Fence.fence_superseded_operation rin.Control.Fence.fence_superseded_authority
    rin.Control.Reports.has_lease rin.Control.Reports.on_host_operation rin.Control.Reports.ack_eq
    rin.Control.Reports.acknowledge acknowledge_host rin.Control.Reports.check_run
    rin.Control.Reports.report_run rin.Control.Reports.report_host_run
    rin.Control.Reports.queue_outcome_delivery rin.Control.Reports.fits_binding
    rin.Control.Reports.report_result report_host_result
    rin.Control.Settle.discard_operation_confirmation rin.Control.Settle.finalize_operation_policy
    rin.Control.Settle.settle rin.Control.Settle.request_cancel rin.Control.Settle.each
    rin.Control.Status.status_eq rin.Control.Status.status_name rin.Control.Status.run_status_name
    rin.Control.Status.is_accepted rin.Control.Status.valid_initial_run_status
    rin.Control.Status.status_from_run rin.Control.Status.terminal_status
    rin.Control.Status.is_complete rin.Control.Status.reconciliation_pending
    rin.Control.Status.is_settled rin.Control.Status.delivery_priority execution_confirmed
    rin.Control.Submit.status_of_verdict rin.Control.Submit.rejection_of
    rin.Control.Submit.new_operation rin.Control.Submit.file_operation
    rin.Control.Submit.refuse_child store_operation rin.Control.Timeline.timeline_kind
    rin.Control.Timeline.bare_snapshot rin.Control.Timeline.with_run
    rin.Control.Timeline.with_reason rin.Control.Timeline.with_policy
    rin.Control.Timeline.timeline_snapshot rin.Control.Timeline.events_equal
    rin.Control.Timeline.append_event rin.Control.Timeline.next_sequence record_timeline
test_there = refl

test_confirmed_execution : execution_confirmed walking ≡ true
unfolding rin.Host.clock_eq rin.Host.epoch_eq rin.Host.risk_eq rin.Host.ownership_eq
    rin.Host.operation_eq rin.Host.run_status_eq rin.Host.can_transition_action_run rin.Host.run_eq
    rin.Host.outcome_eq join_nul decimal lookup rin.Common.Maps.delete rin.Common.Maps.insert
    rin.Common.Maps.drop_if rin.Common.Maps.member rin.Control.Cancel.has_scope
    rin.Control.Cancel.is_overdue rin.Control.Cancel.refresh_operation
    rin.Control.Cancel.get_operation cancel_operation rin.Control.Cancel.cancel_requested
    rin.Control.Delivery.comes_before rin.Control.Delivery.place rin.Control.Delivery.host_work
    rin.Control.Delivery.collect_cancellations rin.Control.Delivery.is_due
    rin.Control.Delivery.deliver rin.Control.Delivery.collect_requests collect_host_work
    rin.Control.Expiry.expire_host_operation expire_host_operations rin.Control.Expiry.expire_by_ttl
    rin.Control.Expiry.is_prunable rin.Control.Expiry.forget_child rin.Control.Expiry.prune_from
    rin.Control.Expiry.prune_operations rin.Control.Fence.withdraw
    rin.Control.Fence.fence_controller_operation rin.Control.Fence.fence_controller_operations
    rin.Control.Fence.cancel_actor_operation rin.Control.Fence.cancel_actor_operations
    rin.Control.Fence.fence_superseded_operation rin.Control.Fence.fence_superseded_authority
    rin.Control.Reports.has_lease rin.Control.Reports.on_host_operation rin.Control.Reports.ack_eq
    rin.Control.Reports.acknowledge acknowledge_host rin.Control.Reports.check_run
    rin.Control.Reports.report_run rin.Control.Reports.report_host_run
    rin.Control.Reports.queue_outcome_delivery rin.Control.Reports.fits_binding
    rin.Control.Reports.report_result report_host_result
    rin.Control.Settle.discard_operation_confirmation rin.Control.Settle.finalize_operation_policy
    rin.Control.Settle.settle rin.Control.Settle.request_cancel rin.Control.Settle.each
    rin.Control.Status.status_eq rin.Control.Status.status_name rin.Control.Status.run_status_name
    rin.Control.Status.is_accepted rin.Control.Status.valid_initial_run_status
    rin.Control.Status.status_from_run rin.Control.Status.terminal_status
    rin.Control.Status.is_complete rin.Control.Status.reconciliation_pending
    rin.Control.Status.is_settled rin.Control.Status.delivery_priority execution_confirmed
    rin.Control.Submit.status_of_verdict rin.Control.Submit.rejection_of
    rin.Control.Submit.new_operation rin.Control.Submit.file_operation
    rin.Control.Submit.refuse_child store_operation rin.Control.Timeline.timeline_kind
    rin.Control.Timeline.bare_snapshot rin.Control.Timeline.with_run
    rin.Control.Timeline.with_reason rin.Control.Timeline.with_policy
    rin.Control.Timeline.timeline_snapshot rin.Control.Timeline.events_equal
    rin.Control.Timeline.append_event rin.Control.Timeline.next_sequence record_timeline
test_confirmed_execution = refl

execution_confirmed-IsExecuted_example : IsExecuted walking.outcome walking.ack
execution_confirmed-IsExecuted_example =
    execution_confirmed-IsExecuted executed "o" walking executed-Reachable test_there
      test_confirmed_execution

expire_host-AreComplete_example :
    AreComplete "h" (expire_host_operations "h" 100 accepted).operations
expire_host-AreComplete_example = expire_host-AreComplete "h" 100 accepted

collect-le_example :
    length (collect_host_work "h" 4 2 10 submitted).0.cancellations
      + (collect_host_work "h" 4 2 10 submitted).0.gateway
      + length (collect_host_work "h" 4 2 10 submitted).0.requests
    ≤ 4
collect-le_example = collect-le "h" 4 2 10 submitted

collect-IsOf_example :
    All (λ d. IsOf "h" d.request) (collect_host_work "h" 4 0 10 submitted).0.requests
collect-IsOf_example = collect-IsOf "h" 4 0 10 submitted

test_requeued : (or_unknown (lookup "o" confirmed.operations)).status ≡ OperationStatus.queued
unfolding lookup on_operation store_operation rin.Common.Maps.insert queue_confirmed
    rin.Control.Status.status_eq record_timeline rin.Control.Status.status_name
test_requeued = refl
