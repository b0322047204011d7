-- ===== src/Control/Invariant/Steps.antt =====
-- Every handler's step of one operation keeps the operation coherent.
use rin.Common.{ℕ, ◌≡◌, String, Bool, true, false, List, some, arith}
use rin.Common.Maps.{Map}
use rin.Host.{RunStatus, ActionRun, ActionOutcome, run_status_eq}
use rin.Control.{
  OperationStatus, accepted, cancelled, stale, outcome_unknown, rejected, HostAcknowledgement,
  Operation, Desk,
}
use rin.Control.Status.{is_accepted, status_from_run, status_eq, is_complete}
use rin.Control.Timeline.{record_timeline}
use rin.Control.Settle.{settle, request_cancel}
use rin.Control.Reports.{acknowledge, report_run, report_result, queue_outcome_delivery}
use rin.Control.Cancel.{cancel_operation}
use rin.Control.Expiry.{expire_host_operation, expire_by_ttl}
use rin.Control.Fence.{
  withdraw, fence_controller_operation, cancel_actor_operation, fence_superseded_operation,
}
use rin.Control.Delivery.{deliver, is_due}
use rin.Control.Invariant.{
  StatusFits, OutcomeFits, RunFits, IsCoherent, SameCore-IsCoherent, record_timeline-SameCore,
  settle-SameCore, request_cancel-SameCore,
}

settle-IsCoherent :
    (status : OperationStatus) (now : ℕ) (committed : Bool) (o : Operation) (desk : Desk)
    → IsCoherent (record o { status = status })
    → IsCoherent (settle status now committed o desk).0
settle-IsCoherent status now committed o desk h =
    SameCore-IsCoherent _ _ (settle-SameCore status now committed o desk) h

record-IsCoherent :
    (o : Operation) (desk : Desk) → IsCoherent o → IsCoherent (record_timeline o desk).0
record-IsCoherent o desk h = SameCore-IsCoherent _ _ (record_timeline-SameCore o desk) h

request_cancel-IsCoherent :
    (now : ℕ) (o : Operation) (desk : Desk)
    → IsCoherent o
    → IsCoherent (request_cancel now o desk).0
request_cancel-IsCoherent now o desk h =
    SameCore-IsCoherent _ _ (request_cancel-SameCore now o desk) (record {
      status_fits = h.status_fits;
      outcome_fits = h.outcome_fits;
      run_fits = h.run_fits;
      timeline_fits = h.timeline_fits;
    })

pub acknowledge-IsCoherent :
    (ack : HostAcknowledgement) (now : ℕ) (o : Operation) (desk : Desk)
    → IsCoherent o
    → IsCoherent (acknowledge ack now o desk).1.0
unfolding acknowledge StatusFits OutcomeFits RunFits is_accepted status_eq
acknowledge-IsCoherent ack now o desk h =
    let yes : Operation = record o { ack = some ack; updated_at = now; status = accepted } in
    let no : Operation = record o { ack = some ack; rejection = ack } in
    ground (arith, h, record_timeline-SameCore yes desk, settle-SameCore rejected now false no desk)

pub report_run-IsCoherent :
    (run : ActionRun) (now : ℕ) (o : Operation) (desk : Desk)
    → IsCoherent o
    → IsCoherent (report_run run now o desk).1.0
unfolding report_run StatusFits OutcomeFits RunFits status_from_run
report_run-IsCoherent run now o desk h =
    let reported : Operation = record o {
      run = some run;
      status = status_from_run run.status;
      updated_at = now;
    } in
    ground (arith, h, record_timeline-SameCore reported desk)

queue-same :
    (sinks : List String) (o : Operation)
    → ((queue_outcome_delivery sinks o).status ≡ o.status)
      × (((queue_outcome_delivery sinks o).ack ≡ o.ack)
          × (((queue_outcome_delivery sinks o).run ≡ o.run)
              × (((queue_outcome_delivery sinks o).outcome ≡ o.outcome)
                  × (((queue_outcome_delivery sinks o).timeline ≡ o.timeline)
                      × ((queue_outcome_delivery sinks o).attempts ≡ o.attempts)))))
unfolding queue_outcome_delivery
queue-same sinks o = ground arith

pub report_result-IsCoherent :
    (sinks : List String) (outcome : ActionOutcome) (output : String) (now : ℕ) (o : Operation)
    (desk : Desk)
    → IsCoherent o
    → IsCoherent (report_result sinks outcome output now o desk).1.0
unfolding report_result StatusFits OutcomeFits RunFits status_from_run
report_result-IsCoherent sinks outcome output now o desk h =
    let ended : Operation = queue_outcome_delivery sinks (record o { outcome = some outcome }) in
    ground (
      arith,
      h,
      queue-same sinks o,
      queue-same sinks (record o { outcome = some outcome }),
      settle-SameCore (status_from_run outcome.status) now
          (run_status_eq outcome.status RunStatus.succeeded) (record ended { output = output })
          desk,
    )

pub cancel_operation-IsCoherent :
    (now : ℕ) (o : Operation) (desk : Desk)
    → IsCoherent o
    → IsCoherent (cancel_operation now o desk).0
unfolding cancel_operation StatusFits OutcomeFits RunFits is_complete status_eq
cancel_operation-IsCoherent now o desk h =
    ground
      (arith, h, settle-SameCore cancelled now false o desk, request_cancel-SameCore now o desk)

pub expire_host_operation-IsCoherent :
    (host_id : String) (now : ℕ) (o : Operation) (desk : Desk)
    → IsCoherent o
    → IsCoherent (expire_host_operation host_id now o desk).0
unfolding expire_host_operation StatusFits OutcomeFits RunFits is_complete status_eq
expire_host_operation-IsCoherent host_id now o desk h = ground (
  arith,
  h,
  settle-SameCore outcome_unknown now true o desk,
  settle-SameCore stale now false o desk,
)

pub expire_by_ttl-IsCoherent :
    (ttl now : ℕ) (o : Operation) (desk : Desk)
    → IsCoherent o
    → IsCoherent (expire_by_ttl ttl now o desk).0
unfolding expire_by_ttl StatusFits OutcomeFits RunFits is_complete status_eq
expire_by_ttl-IsCoherent ttl now o desk h = ground (
  arith,
  h,
  settle-SameCore outcome_unknown now true o desk,
  settle-SameCore stale now false o desk,
)

pub fence_controller_operation-IsCoherent :
    (lease_id : String) (now : ℕ) (o : Operation) (desk : Desk)
    → IsCoherent o
    → IsCoherent (fence_controller_operation lease_id now o desk).0
unfolding fence_controller_operation withdraw StatusFits OutcomeFits RunFits is_complete
fence_controller_operation-IsCoherent lease_id now o desk h =
    ground (arith, h, settle-SameCore stale now false o desk, request_cancel-SameCore now o desk)

pub cancel_actor_operation-IsCoherent :
    (host_id world_id actor_id : String) (now : ℕ) (o : Operation) (desk : Desk)
    → IsCoherent o
    → IsCoherent (cancel_actor_operation host_id world_id actor_id now o desk).0
unfolding cancel_actor_operation withdraw StatusFits OutcomeFits RunFits is_complete
cancel_actor_operation-IsCoherent host_id world_id actor_id now o desk h =
    ground
      (arith, h, settle-SameCore cancelled now false o desk, request_cancel-SameCore now o desk)

pub fence_superseded_operation-IsCoherent :
    (host_id world_id : String) (revisions : Map ℕ) (now : ℕ) (o : Operation) (desk : Desk)
    → IsCoherent o
    → IsCoherent (fence_superseded_operation host_id world_id revisions now o desk).0
unfolding fence_superseded_operation StatusFits OutcomeFits RunFits is_complete
fence_superseded_operation-IsCoherent host_id world_id revisions now o desk h =
    ground (arith, h, settle-SameCore stale now false o desk, request_cancel-SameCore now o desk)

pub deliver-IsCoherent :
    (now : ℕ) (o : Operation) (desk : Desk)
    → is_due o ≡ true
    → IsCoherent o
    → IsCoherent (deliver now o desk).0
unfolding deliver is_due StatusFits OutcomeFits RunFits is_accepted
deliver-IsCoherent now o desk due h = record-IsCoherent _ desk (ground (arith, h, due))
