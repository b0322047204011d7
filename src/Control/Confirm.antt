-- ===== src/Control/Confirm.antt =====
-- controlplane/action_gateway.go: `ConfirmAction` and its helpers, one function for each part that
-- runs under the service's lock. Between the parts the lock is free, so other calls may come in
-- between. The checks of the caller and of the current actor and controller come in as the error that
-- they end with, if any; the Host's snapshot and the engine's decision come in as arguments.
use rin.Common.{ℕ, String, Bool, false, not, ◌&&◌, Option, none, some, if◌then◌else◌}
use rin.Common.Maps.{lookup, insert, delete, member}
use rin.Policy.{allow, deny, require_confirmation, Decision}
use rin.Policy.Evaluation.{finalize}
use rin.Control.{
  queued, awaiting_confirmation, stale, rejected, HostControlRequest, Operation, Desk, Service,
  ControlError, conflict, not_found, stale_submission, Reply, done, refused,
}
use rin.Control.Status.{status_eq, is_none, is_complete}
use rin.Control.Timeline.{record_timeline}
use rin.Control.Settle.{discard_operation_confirmation, settle}

abbrev has_challenge : Option Decision → Bool
has_challenge none = false
has_challenge (some decision) = not (is_none decision.confirmation)

-- An operation that waits for the confirmation of its decision.
unfoldable pub is_confirmable : Operation → Bool
is_confirmable o =
    status_eq o.status awaiting_confirmation
    && (not (is_none o.request.action_request)
        && (not (is_none o.request.bound_action) && has_challenge o.request.policy_decision))

-- The assignments of a status and a time, on the timeline.
abbrev mark_stale : ℕ → Operation → Desk → Operation × Desk
mark_stale now o desk = record_timeline (record o { status = stale; updated_at = now }) desk

-- The first part of `ConfirmAction`, up to the mark in `confirming`: `denial` is the error of
-- `authorizeActorLocked`, and `obstacle` that of `prepareActionSubmissionLocked` or `ErrStale` where
-- the emergency stop or another lease is in the way.
unfoldable pub begin_confirmation :
    Option ControlError
    → Option ControlError
    → ℕ
    → Operation
    → Desk
    → Reply Operation × (Operation × Desk)
unfolding is_confirmable
begin_confirmation denial obstacle now o desk =
    if not (is_confirmable o)
    then (if is_complete o then (done o, (o, desk)) else (refused conflict, (o, desk)))
    else if member o.request.operation_id desk.confirming
    then (refused conflict, (o, desk))
    else elim denial [
      | some e ↦ (refused e, (o, desk))
      | none ↦ elim obstacle [
        | some e ↦ (refused e, settle stale now false o desk)
        | none ↦ (
          done o,
          (o, record desk { confirming = insert o.request.operation_id tt desk.confirming }),
        )
      ]
    ]

-- `stalePendingConfirmation`, of an operation that is there.
unfoldable pub stale_pending : ℕ → Operation → Desk → Reply Operation × (Operation × Desk)
stale_pending now o desk =
    if status_eq o.status awaiting_confirmation
    then (refused stale_submission, mark_stale now o desk)
    else (refused stale_submission, (o, desk))

abbrev with_decision : Decision → HostControlRequest → HostControlRequest
with_decision decision request = record request { policy_decision = some decision }

abbrev denied_by : Decision → Operation → Operation
denied_by decision o = record o {
  status = rejected;
  rejection = record {
    operation_id = o.request.operation_id;
    accepted = false;
    code = decision.reason_code;
    message = decision.human_summary;
  };
}

-- `recordConfirmationDecision`, of an operation that is there.
unfoldable pub record_decision :
    Decision → ℕ → Operation → Desk → Reply Operation × (Operation × Desk)
record_decision decision now o desk =
    if not (status_eq o.status awaiting_confirmation)
    then (done o, (o, desk))
    else let decided : Operation = record o {
      request = with_decision decision o.request;
      updated_at = now;
    } in
      elim decision.result [
        | deny ↦ let out = record_timeline (denied_by decision decided) desk in (done out.0, out)
        | require_confirmation ↦ let out = record_timeline decided desk in (done out.0, out)
        | allow ↦ (refused conflict, (decided, desk))
      ]

-- `policyEngine.Finalize(decision.DecisionID, false)`
abbrev pub give_back : Decision → Desk → Desk
give_back decision desk = elim desk.engine [
  | none ↦ desk
  | some engine ↦ record desk { engine = some (finalize decision.decision_id false engine).1 }
]

-- The last part of `ConfirmAction`, with a decision that allows the action, of an operation that is
-- there: `obstacle` is the error of the checks before it is queued.
unfoldable pub queue_confirmed :
    Decision → Option ControlError → ℕ → Operation → Desk → Reply Operation × (Operation × Desk)
queue_confirmed decision obstacle now o desk =
    if not (status_eq o.status awaiting_confirmation)
    then (done o, (o, give_back decision desk))
    else elim obstacle [
      | some e ↦ (refused e, mark_stale now o (give_back decision desk))
      | none ↦
          let out =
            record_timeline
              (record o {
                request = with_decision decision o.request;
                status = queued;
                updated_at = now;
              })
              desk in
          (done out.0, out)
    ]

-- A part of the call on the operation of an identifier; `missing` is what it does where there is none.
unfoldable pub on_operation :
    String
    → (Desk → Desk)
    → (Operation → Desk → Reply Operation × (Operation × Desk))
    → Service
    → Reply Operation × Service
on_operation id missing part service = elim (lookup id service.operations) [
  | none ↦ (refused not_found, record service { desk = missing service.desk })
  | some o ↦
      let out = part o service.desk in
      (out.0, record service { operations = insert id out.1.0 service.operations; desk = out.1.1 })
]

abbrev pub nothing : Desk → Desk
nothing desk = desk

-- `finishConfirmation`
unfoldable pub finish_confirmation : String → Service → Service
finish_confirmation id service =
    let desk : Desk = record service.desk { confirming = delete id service.desk.confirming } in
    elim (lookup id service.operations) [
      | none ↦ record service { desk = desk }
      | some o ↦
          if status_eq o.status awaiting_confirmation
          then record service { desk = desk }
          else record service { desk = discard_operation_confirmation o desk }
    ]
