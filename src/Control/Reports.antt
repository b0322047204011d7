-- ===== src/Control/Reports.antt =====
-- controlplane/operation.go: `AcknowledgeHost`, `ReportHostRun` and `ReportHostResult`, with what
-- they share. Their arguments are validated.
use rin.Common.{
  ℕ, String, Bool, true, false, not, ◌&&◌, ◌||◌, List, [], ◌∷◌, Option, none, some, ltb, leb, ◌==◌,
  ◌=ₛ◌, if◌then◌else◌,
}
use rin.Common.Maps.{Map, lookup, insert, member}
use rin.Host.{
  RunStatus, ActionRun, ActionOutcome, clock_eq, epoch_eq, run_status_eq, can_transition_action_run,
  run_eq, outcome_eq,
}
use rin.Control.{
  accepted, rejected, delivered, ControlBinding, HostAcknowledgement, Operation, Desk, HostLease,
  Service, conflict, lease_expired, forbidden, not_found, not_accepted, stale_progress,
  invalid_outcome, Reply, done, refused,
}
use rin.Control.Status.{
  status_eq, is_none, is_accepted, valid_initial_run_status, status_from_run, terminal_status,
}
use rin.Control.Timeline.{record_timeline}
use rin.Control.Settle.{settle}

-- `requireLeaseLocked`
unfoldable pub has_lease : String → String → ℕ → Map HostLease → Bool
has_lease host_id lease_id now leases = elim (lookup host_id leases) [
  | none ↦ false
  | some lease ↦ (lease.lease_id =ₛ lease_id) && ltb now lease.expires_at
]

abbrev Handler : Type 0
Handler = Operation → Desk → Reply (Unit {0}) × (Operation × Desk)

-- A reply and the changed operation, written back.
abbrev pub write_back :
    String → Service → Reply (Unit {0}) × (Operation × Desk) → Reply (Unit {0}) × Service
write_back id service out =
    (out.0, record service { operations = insert id out.1.0 service.operations; desk = out.1.1 })

-- `requireLeaseLocked`, then `hostOperationLocked`, then the rest of the call on that operation.
unfoldable pub on_host_operation :
    String → String → String → ℕ → Handler → Service → Reply (Unit {0}) × Service
unfolding has_lease
on_host_operation host_id lease_id id now handler service =
    if not (has_lease host_id lease_id now service.leases)
    then (refused lease_expired, service)
    else elim (lookup id service.operations) [
      | none ↦ (refused not_found, service)
      | some o ↦
          if not (o.request.host_id =ₛ host_id)
          then (refused forbidden, service)
          else write_back id service (handler o service.desk)
    ]

unfoldable pub ack_eq : HostAcknowledgement → HostAcknowledgement → Bool
ack_eq a b =
    (a.operation_id =ₛ b.operation_id)
    && ((if a.accepted then b.accepted else not b.accepted)
        && ((a.code =ₛ b.code) && (a.message =ₛ b.message)))

unfoldable pub acknowledge : HostAcknowledgement → ℕ → Handler
unfolding ack_eq
acknowledge ack now o desk = elim o.ack [
  | some old ↦ if ack_eq old ack then (done tt, (o, desk)) else (refused conflict, (o, desk))
  | none ↦
      if not (status_eq o.status delivered)
      then (refused conflict, (o, desk))
      else if ack.accepted
      then (
        done tt,
        record_timeline (record o { ack = some ack; updated_at = now; status = accepted }) desk,
      )
      else (done tt, settle rejected now false (record o { ack = some ack; rejection = ack }) desk)
]

-- `AcknowledgeHost`
unfoldable pub acknowledge_host :
    String → String → HostAcknowledgement → ℕ → Service → Reply (Unit {0}) × Service
acknowledge_host host_id lease_id ack now service =
    on_host_operation host_id lease_id ack.operation_id now (acknowledge ack now) service

-- The tests of `ReportHostRun` against the run before; `none` admits the new one. An equal report
-- is `some (done tt)`.
unfoldable pub check_run : Option ActionRun → ActionRun → Option (Reply (Unit {0}))
check_run none run = if valid_initial_run_status run.status then none else some (refused conflict)
check_run (some old) run =
    if ltb run.progress_seq old.progress_seq
    then some (refused stale_progress)
    else if run.progress_seq == old.progress_seq
    then (if run_eq old run then some (done tt) else some (refused stale_progress))
    else if ltb run.progress old.progress
    then some (refused stale_progress)
    else if not (clock_eq run.updated_at.clock old.updated_at.clock)
        || ltb run.updated_at.value old.updated_at.value
    then some (refused stale_progress)
    else if not (run_status_eq run.status old.status)
        && not (can_transition_action_run old.status run.status)
    then some (refused conflict)
    else none

unfoldable pub report_run : ActionRun → ℕ → Handler
unfolding check_run
report_run run now o desk =
    if not (is_none o.outcome)
    then (refused conflict, (o, desk))
    else if not (is_accepted o.ack)
    then (refused not_accepted, (o, desk))
    else elim (check_run o.run run) [
      | some reply ↦ (reply, (o, desk))
      | none ↦ (
        done tt,
        record_timeline
            (record o { run = some run; status = status_from_run run.status; updated_at = now })
            desk,
      )
    ]

-- `ReportHostRun`
unfoldable pub report_host_run :
    String → String → ActionRun → ℕ → Service → Reply (Unit {0}) × Service
report_host_run host_id lease_id run now service =
    on_host_operation host_id lease_id run.operation_id now (report_run run now) service

abbrev queue_sinks : List String → Map Bool → Map Bool
queue_sinks [] m = m
queue_sinks (id ∷ ids) m = queue_sinks ids (if member id m then m else insert id false m)

-- `queueOutcomeDeliveryLocked`
unfoldable pub queue_outcome_delivery : List String → Operation → Operation
queue_outcome_delivery sinks o =
    if is_none o.outcome || is_none o.request.action_request
    then o
    else record o { outcome_delivery = queue_sinks sinks o.outcome_delivery }

-- The tests of `ReportHostResult` on the binding of the request.
unfoldable pub fits_binding : Option ControlBinding → ActionOutcome → Bool
fits_binding none outcome = true
fits_binding (some binding) outcome =
    epoch_eq outcome.epoch binding.epoch && leb binding.observation_seq outcome.world_seq

unfoldable pub report_result : List String → ActionOutcome → String → ℕ → Handler
report_result sinks outcome output now o desk = elim o.outcome [
  | some old ↦
      if outcome_eq old outcome && (o.output =ₛ output)
      then (done tt, (queue_outcome_delivery sinks o, desk))
      else (refused conflict, (o, desk))
  | none ↦
      if not (is_accepted o.ack)
      then (refused not_accepted, (o, desk))
      else if terminal_status o.status && not (status_eq o.status (status_from_run outcome.status))
      then (refused conflict, (o, desk))
      else if not (fits_binding o.request.binding outcome)
      then (refused invalid_outcome, (o, desk))
      else (
        done tt,
        settle (status_from_run outcome.status) now
            (run_status_eq outcome.status RunStatus.succeeded)
            (record (queue_outcome_delivery sinks (record o { outcome = some outcome })) {
              output = output;
            })
            desk,
      )
]

-- `ReportHostResult`
unfoldable pub report_host_result :
    String → String → ActionOutcome → String → ℕ → Service → Reply (Unit {0}) × Service
report_host_result host_id lease_id outcome output now service =
    on_host_operation host_id lease_id outcome.operation_id now
      (report_result service.outcome_sinks outcome output now) service
