-- ===== src/Control/Submit.antt =====
-- controlplane/action_gateway.go, `storeActionOperationLocked`: a decided action becomes an operation.
use rin.Common.{ℕ, String, false, [], ◌∷◌, ◌++◌, none, some, leb, length, ◌=ₛ◌, if◌then◌else◌}
use rin.Common.Maps.{Map, lookup, insert}
use rin.Policy.{Verdict, allow, deny, require_confirmation}
use rin.Control.{
  OperationStatus, queued, awaiting_confirmation, rejected, HostControlRequest, HostAcknowledgement,
  Operation, Service, conflict, Reply, done, refused,
}
use rin.Control.Settle.{finalize_operation_policy}
use rin.Control.Timeline.{record_timeline}

abbrev max_child_operations : ℕ
max_child_operations = 1024

unfoldable pub status_of_verdict : Verdict → OperationStatus
status_of_verdict allow = queued
status_of_verdict require_confirmation = awaiting_confirmation
status_of_verdict deny = rejected

abbrev no_acknowledgement : HostAcknowledgement
no_acknowledgement = record { operation_id = ""; accepted = false; code = ""; message = "" }

unfoldable pub rejection_of : Verdict → HostControlRequest → HostAcknowledgement
rejection_of allow request = no_acknowledgement
rejection_of require_confirmation request = no_acknowledgement
rejection_of deny request = elim request.policy_decision [
  | none ↦ no_acknowledgement
  | some decision ↦ record {
    operation_id = request.operation_id;
    accepted = false;
    code = decision.reason_code;
    message = decision.human_summary;
  }
]

unfoldable pub new_operation : String → HostControlRequest → Verdict → Operation
unfolding status_of_verdict rejection_of
new_operation key request verdict = record {
  request = request;
  status = status_of_verdict verdict;
  attempts = 0;
  cancel = false;
  ack = none;
  run = none;
  outcome = none;
  outcome_delivery = [];
  output = "";
  rejection = rejection_of verdict request;
  idempotency = key;
  created_at = request.submitted_at;
  updated_at = request.submitted_at;
  children = [];
  timeline = [];
  timeline_truncated_before = 0;
}

-- The operation and its idempotency key are filed; `operations` has the parent changed already.
unfoldable pub file_operation :
    String → Operation → Map Operation → Service → Reply Operation × Service
file_operation key o operations service =
    let out = record_timeline o service.desk in
    (
      done out.0,
      record service {
        operations = insert o.request.operation_id out.0 operations;
        requests = insert key o.request.operation_id service.requests;
        desk = out.1;
      },
    )

-- The parent takes no more children: the reservation is given back.
unfoldable pub refuse_child : Operation → Service → Reply Operation × Service
refuse_child o service =
    (refused conflict, record service { desk = finalize_operation_policy o false service.desk })

abbrev with_child : String → HostControlRequest → Operation → Map Operation → Map Operation
with_child parent_id request parent operations =
    insert parent_id
      (record parent {
        children = parent.children ++ request.operation_id ∷ [];
        updated_at = request.submitted_at;
      })
      operations

-- `storeActionOperationLocked`, in memory.
unfoldable pub store_operation :
    String → HostControlRequest → Verdict → Service → Reply Operation × Service
unfolding new_operation file_operation refuse_child
store_operation key request verdict service =
    let o = new_operation key request verdict in
    if request.parent_operation_id =ₛ ""
    then file_operation key o service.operations service
    else elim (lookup request.parent_operation_id service.operations) [
      | none ↦ refuse_child o service
      | some parent ↦
          if leb max_child_operations (length parent.children)
          then refuse_child o service
          else file_operation key o
              (with_child request.parent_operation_id request parent service.operations) service
    ]
