-- ===== src/Control/Settle.antt =====
-- controlplane/action_gateway.go, the policy side of an operation that ends, and the assignments
-- that the handlers share: a status, the time, the policy, the timeline.
use rin.Common.{ℕ, Bool, true, [], ◌∷◌, none, some, if◌then◌else◌}
use rin.Common.Maps.{Map, member}
use rin.Policy.{allow, deny, require_confirmation}
use rin.Policy.Challenges.{discard_confirmation}
use rin.Policy.Evaluation.{finalize}
use rin.Control.{OperationStatus, Operation, Desk}
use rin.Control.Timeline.{record_timeline}

-- `discardOperationConfirmationLocked`
unfoldable pub discard_operation_confirmation : Operation → Desk → Desk
discard_operation_confirmation o desk = elim desk.engine [
  | none ↦ desk
  | some engine ↦ elim o.request.policy_decision [
    | none ↦ desk
    | some decision ↦ elim decision.result [
      | allow ↦ desk
      | deny ↦ desk
      | require_confirmation ↦ elim decision.confirmation [
        | none ↦ desk
        | some challenge ↦
            if member o.request.operation_id desk.confirming
            then desk
            else record desk { engine = some (discard_confirmation challenge engine).1 }
      ]
    ]
  ]
]

-- `finalizeOperationPolicyLocked`
unfoldable pub finalize_operation_policy : Operation → Bool → Desk → Desk
unfolding discard_operation_confirmation
finalize_operation_policy o committed desk = elim desk.engine [
  | none ↦ desk
  | some engine ↦ elim o.request.policy_decision [
    | none ↦ desk
    | some decision ↦ elim decision.result [
      | allow ↦ record desk { engine = some (finalize decision.decision_id committed engine).1 }
      | deny ↦ if committed then desk else discard_operation_confirmation o desk
      | require_confirmation ↦ if committed then desk else discard_operation_confirmation o desk
    ]
  ]
]

-- The operation ends in a status at a time; the policy reservation is kept or given back.
unfoldable pub settle : OperationStatus → ℕ → Bool → Operation → Desk → Operation × Desk
settle status now committed o desk =
    record_timeline (record o { status = status; updated_at = now })
      (finalize_operation_policy o committed desk)

-- The operation is asked to stop.
unfoldable pub request_cancel : ℕ → Operation → Desk → Operation × Desk
request_cancel now o desk = record_timeline (record o { cancel = true; updated_at = now }) desk

-- A loop over `service.operations` whose body changes one operation; the order of the range is
-- that of the list.
unfoldable pub each :
    (Operation → Desk → Operation × Desk) → Map Operation → Desk → Map Operation × Desk
each body [] desk = ([], desk)
each body ((id, o) ∷ m) desk =
    let out = body o desk in let rest = each body m out.1 in ((id, out.0) ∷ rest.0, rest.1)
