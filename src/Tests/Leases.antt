-- ===== src/Tests/Leases.antt =====
-- The theorems on controller leases, at small inputs.
use rin.Common.{
  ℕ, ◌+◌, ◌≡◌, ◌≢◌, eq_iff, refl, inl, String, Bool, true, false, List, [], ◌∷◌, Option, none, some,
  arith,
}
use rin.Host.{Principal}
use rin.Control.{Service, Reply, done, refused, HostControlRequest}
use rin.Control.Fence.{fence_controller_operations}
use rin.Control.Controllers.{
  DecisionSource, DecisionAuthority, ActorPublication, ActorControlTarget, ControllerLease,
  Controllers, find_lease, acquire_controller,
}
use rin.Control.Controllers.Exclusive.{
  IsRefused, Holds, acquire_controller-IsRefused, acquire_controller-Holds,
}
use rin.Control.Outcome.{AreFenced, fence_controller-AreFenced}
use rin.Tests.{epoch, player}
use rin.Tests.Operations.{submitted}

abbrev actor : ActorPublication
actor = record {
  actor_id = "a";
  owner_principal_id = "owner";
  epoch = epoch;
  authority = record {
    source = DecisionSource.external;
    controller_principal_id = "player";
    revision = 1;
    persona_mode = "plain";
  };
}

abbrev target : ActorControlTarget
target = record { host_id = "h"; world_id = "w"; actor_id = "a" }

abbrev free : Controllers
free = record { leases = []; service = submitted }

abbrev taken : Reply ControllerLease × Controllers
taken = acquire_controller (some "l") player actor target "c" 60 10 free

abbrev lease : ControllerLease
lease = record {
  lease_id = "l";
  controller_id = "c";
  principal_id = "player";
  target = target;
  source = DecisionSource.external;
  persona_mode = "plain";
  authority_revision = 1;
  epoch = epoch;
  acquired_at = 10;
  expires_at = 70;
}

test_taken : taken.0 ≡ done lease
unfolding rin.Host.clock_eq rin.Host.epoch_eq rin.Host.risk_eq rin.Host.ownership_eq
    rin.Host.operation_eq rin.Host.run_status_eq rin.Host.can_transition_action_run rin.Host.run_eq
    rin.Host.outcome_eq rin.Common.Maps.lookup rin.Common.Maps.delete rin.Common.Maps.insert
    rin.Common.Maps.drop_if rin.Common.Maps.member rin.Policy.Kernel.safety_kernel_reason
    rin.Policy.Kernel.forbidden_tag rin.Policy.Kernel.kernel_registration
    rin.Policy.Kernel.kernel_decision rin.Policy.Kernel.result_rank rin.Control.Cancel.has_scope
    rin.Control.Cancel.is_overdue rin.Control.Cancel.refresh_operation
    rin.Control.Cancel.get_operation rin.Control.Cancel.cancel_operation
    rin.Control.Cancel.cancel_requested rin.Control.Controllers.source_eq
    rin.Control.Controllers.target_eq find_lease rin.Control.Controllers.drop_lease
    rin.Control.Controllers.put_lease rin.Control.Controllers.principal_allowed
    rin.Control.Controllers.matches_actor rin.Control.Controllers.invalidate_controller
    rin.Control.Controllers.expire_controller rin.Control.Controllers.same_holder
    rin.Control.Controllers.take_lease acquire_controller rin.Control.Controllers.release_controller
    rin.Control.Controllers.renew_controller rin.Control.Delivery.comes_before
    rin.Control.Delivery.place rin.Control.Delivery.host_work
    rin.Control.Delivery.collect_cancellations rin.Control.Delivery.is_due
    rin.Control.Delivery.deliver rin.Control.Delivery.collect_requests
    rin.Control.Delivery.collect_host_work rin.Control.Expiry.expire_host_operation
    rin.Control.Expiry.expire_host_operations rin.Control.Expiry.expire_by_ttl
    rin.Control.Expiry.is_prunable rin.Control.Expiry.forget_child rin.Control.Expiry.prune_from
    rin.Control.Expiry.prune_operations rin.Control.Fence.withdraw
    rin.Control.Fence.fence_controller_operation fence_controller_operations
    rin.Control.Fence.cancel_actor_operation rin.Control.Fence.cancel_actor_operations
    rin.Control.Fence.fence_superseded_operation rin.Control.Fence.fence_superseded_authority
    rin.Control.Reports.has_lease rin.Control.Reports.on_host_operation rin.Control.Reports.ack_eq
    rin.Control.Reports.acknowledge rin.Control.Reports.acknowledge_host
    rin.Control.Reports.check_run rin.Control.Reports.report_run rin.Control.Reports.report_host_run
    rin.Control.Reports.queue_outcome_delivery rin.Control.Reports.fits_binding
    rin.Control.Reports.report_result rin.Control.Reports.report_host_result
    rin.Control.Settle.discard_operation_confirmation rin.Control.Settle.finalize_operation_policy
    rin.Control.Settle.settle rin.Control.Settle.request_cancel rin.Control.Settle.each
    rin.Control.Status.status_eq rin.Control.Status.status_name rin.Control.Status.run_status_name
    rin.Control.Status.is_accepted rin.Control.Status.valid_initial_run_status
    rin.Control.Status.status_from_run rin.Control.Status.terminal_status
    rin.Control.Status.is_complete rin.Control.Status.reconciliation_pending
    rin.Control.Status.is_settled rin.Control.Status.delivery_priority
    rin.Control.Status.execution_confirmed rin.Control.Submit.status_of_verdict
    rin.Control.Submit.rejection_of rin.Control.Submit.new_operation
    rin.Control.Submit.file_operation rin.Control.Submit.refuse_child
    rin.Control.Submit.store_operation rin.Control.Timeline.timeline_kind
    rin.Control.Timeline.bare_snapshot rin.Control.Timeline.with_run
    rin.Control.Timeline.with_reason rin.Control.Timeline.with_policy
    rin.Control.Timeline.timeline_snapshot rin.Control.Timeline.events_equal
    rin.Control.Timeline.append_event rin.Control.Timeline.next_sequence
    rin.Control.Timeline.record_timeline
test_taken = refl

test_held : find_lease target taken.1.leases ≡ some lease
unfolding rin.Host.clock_eq rin.Host.epoch_eq rin.Host.risk_eq rin.Host.ownership_eq
    rin.Host.operation_eq rin.Host.run_status_eq rin.Host.can_transition_action_run rin.Host.run_eq
    rin.Host.outcome_eq rin.Common.Maps.lookup rin.Common.Maps.delete rin.Common.Maps.insert
    rin.Common.Maps.drop_if rin.Common.Maps.member rin.Policy.Kernel.safety_kernel_reason
    rin.Policy.Kernel.forbidden_tag rin.Policy.Kernel.kernel_registration
    rin.Policy.Kernel.kernel_decision rin.Policy.Kernel.result_rank rin.Control.Cancel.has_scope
    rin.Control.Cancel.is_overdue rin.Control.Cancel.refresh_operation
    rin.Control.Cancel.get_operation rin.Control.Cancel.cancel_operation
    rin.Control.Cancel.cancel_requested rin.Control.Controllers.source_eq
    rin.Control.Controllers.target_eq find_lease rin.Control.Controllers.drop_lease
    rin.Control.Controllers.put_lease rin.Control.Controllers.principal_allowed
    rin.Control.Controllers.matches_actor rin.Control.Controllers.invalidate_controller
    rin.Control.Controllers.expire_controller rin.Control.Controllers.same_holder
    rin.Control.Controllers.take_lease acquire_controller rin.Control.Controllers.release_controller
    rin.Control.Controllers.renew_controller rin.Control.Delivery.comes_before
    rin.Control.Delivery.place rin.Control.Delivery.host_work
    rin.Control.Delivery.collect_cancellations rin.Control.Delivery.is_due
    rin.Control.Delivery.deliver rin.Control.Delivery.collect_requests
    rin.Control.Delivery.collect_host_work rin.Control.Expiry.expire_host_operation
    rin.Control.Expiry.expire_host_operations rin.Control.Expiry.expire_by_ttl
    rin.Control.Expiry.is_prunable rin.Control.Expiry.forget_child rin.Control.Expiry.prune_from
    rin.Control.Expiry.prune_operations rin.Control.Fence.withdraw
    rin.Control.Fence.fence_controller_operation fence_controller_operations
    rin.Control.Fence.cancel_actor_operation rin.Control.Fence.cancel_actor_operations
    rin.Control.Fence.fence_superseded_operation rin.Control.Fence.fence_superseded_authority
    rin.Control.Reports.has_lease rin.Control.Reports.on_host_operation rin.Control.Reports.ack_eq
    rin.Control.Reports.acknowledge rin.Control.Reports.acknowledge_host
    rin.Control.Reports.check_run rin.Control.Reports.report_run rin.Control.Reports.report_host_run
    rin.Control.Reports.queue_outcome_delivery rin.Control.Reports.fits_binding
    rin.Control.Reports.report_result rin.Control.Reports.report_host_result
    rin.Control.Settle.discard_operation_confirmation rin.Control.Settle.finalize_operation_policy
    rin.Control.Settle.settle rin.Control.Settle.request_cancel rin.Control.Settle.each
    rin.Control.Status.status_eq rin.Control.Status.status_name rin.Control.Status.run_status_name
    rin.Control.Status.is_accepted rin.Control.Status.valid_initial_run_status
    rin.Control.Status.status_from_run rin.Control.Status.terminal_status
    rin.Control.Status.is_complete rin.Control.Status.reconciliation_pending
    rin.Control.Status.is_settled rin.Control.Status.delivery_priority
    rin.Control.Status.execution_confirmed rin.Control.Submit.status_of_verdict
    rin.Control.Submit.rejection_of rin.Control.Submit.new_operation
    rin.Control.Submit.file_operation rin.Control.Submit.refuse_child
    rin.Control.Submit.store_operation rin.Control.Timeline.timeline_kind
    rin.Control.Timeline.bare_snapshot rin.Control.Timeline.with_run
    rin.Control.Timeline.with_reason rin.Control.Timeline.with_policy
    rin.Control.Timeline.timeline_snapshot rin.Control.Timeline.events_equal
    rin.Control.Timeline.append_event rin.Control.Timeline.next_sequence
    rin.Control.Timeline.record_timeline
test_held = refl

acquire_controller-Holds_example : Holds target "c" player 70 taken.1 lease
acquire_controller-Holds_example =
    acquire_controller-Holds (some "l") player actor target "c" 60 10 free lease test_taken

test_other : lease.controller_id ≢ "other"
test_other = λ e. ground (arith, (eq_iff lease.controller_id "other").1 e)

acquire_controller-IsRefused_example :
    IsRefused (acquire_controller (some "m") player actor target "other" 60 20 taken.1).0
    × ((acquire_controller (some "m") player actor target "other" 60 20 taken.1).1 ≡ taken.1)
acquire_controller-IsRefused_example =
    acquire_controller-IsRefused (some "m") player actor target "other" 60 20 taken.1 lease
      test_held (omega arith) (inl test_other)

fence_controller-AreFenced_example :
    AreFenced "l" (fence_controller_operations "l" 30 submitted).operations
fence_controller-AreFenced_example = fence_controller-AreFenced "l" 30 submitted
