-- ===== src/Control/Invariant/Confirms.antt =====
-- The parts of a confirmation keep every operation coherent.
use rin.Common.{ℕ, inl, inr, String, false, Option, some, arith, Option-cases}
use rin.Common.Maps.{lookup}
use rin.Policy.{Decision}
use rin.Control.{
  queued, stale, rejected, HostControlRequest, Operation, Desk, Service, ControlError, Reply,
}
use rin.Control.Status.{is_accepted, status_eq}
use rin.Control.Confirm.{
  begin_confirmation, stale_pending, record_decision, queue_confirmed, give_back, on_operation,
  finish_confirmation,
}
use rin.Control.Invariant.{
  StatusFits, OutcomeFits, RunFits, IsCoherent, record_timeline-SameCore, settle-SameCore,
}
use rin.Control.Invariant.Calls.{IsSound, Every-insert, Every-lookup}

pub begin_confirmation-IsCoherent :
    (denial obstacle : Option ControlError) (now : ℕ) (o : Operation) (desk : Desk)
    → IsCoherent o
    → IsCoherent (begin_confirmation denial obstacle now o desk).1.0
unfolding begin_confirmation StatusFits OutcomeFits RunFits status_eq is_accepted
begin_confirmation-IsCoherent denial obstacle now o desk h =
    ground (arith, h, settle-SameCore stale now false o desk)

pub stale_pending-IsCoherent :
    (now : ℕ) (o : Operation) (desk : Desk)
    → IsCoherent o
    → IsCoherent (stale_pending now o desk).1.0
unfolding stale_pending StatusFits OutcomeFits RunFits status_eq is_accepted
stale_pending-IsCoherent now o desk h =
    let marked : Operation = record o { status = stale; updated_at = now } in
    ground (arith, h, record_timeline-SameCore marked desk)

-- A decision is recorded: the request and the time change, and the status as the verdict says.
pub record_decision-IsCoherent :
    (decision : Decision) (now : ℕ) (o : Operation) (desk : Desk)
    → IsCoherent o
    → IsCoherent (record_decision decision now o desk).1.0
unfolding record_decision StatusFits OutcomeFits RunFits status_eq is_accepted
record_decision-IsCoherent decision now o desk h =
    let request : HostControlRequest = record o.request { policy_decision = some decision } in
    let decided : Operation = record o { request = request; updated_at = now } in
    let denied : Operation = record decided {
      status = rejected;
      rejection = record {
        operation_id = request.operation_id;
        accepted = false;
        code = decision.reason_code;
        message = decision.human_summary;
      };
    } in
    ground (arith, h, record_timeline-SameCore decided desk, record_timeline-SameCore denied desk)

pub queue_confirmed-IsCoherent :
    (decision : Decision) (obstacle : Option ControlError) (now : ℕ) (o : Operation) (desk : Desk)
    → IsCoherent o
    → IsCoherent (queue_confirmed decision obstacle now o desk).1.0
unfolding queue_confirmed StatusFits OutcomeFits RunFits status_eq is_accepted
queue_confirmed-IsCoherent decision obstacle now o desk h =
    let marked : Operation = record o { status = stale; updated_at = now } in
    let confirmed : Operation = record o {
      request = record o.request { policy_decision = some decision };
      status = queued;
      updated_at = now;
    } in
    ground (
      arith,
      h,
      record_timeline-SameCore marked (give_back decision desk),
      record_timeline-SameCore confirmed desk,
    )

pub on_operation-IsSound :
    (id : String) (missing : Desk → Desk)
    (part : Operation → Desk → Reply Operation × (Operation × Desk)) (s : Service)
    → ((o : Operation) → IsCoherent o → IsCoherent (part o s.desk).1.0)
    → IsSound s
    → IsSound (on_operation id missing part s).1
unfolding on_operation
on_operation-IsSound id missing part s keep h = elim (Option-cases (lookup id s.operations)) [
  | inl eq ↦ rw (eq, on_operation) h
  | inr (o, eq) ↦
      rw (eq, on_operation)
        (Every-insert id (part o s.desk).1.0 s.operations
          (keep o (Every-lookup id s.operations o h eq)) h)
]

pub finish_confirmation-IsSound :
    (id : String) (s : Service) → IsSound s → IsSound (finish_confirmation id s)
unfolding finish_confirmation
finish_confirmation-IsSound id s h = elim (Option-cases (lookup id s.operations)) [
  | inl eq ↦ rw (eq, finish_confirmation) h
  | inr (o, eq) ↦ ground (arith, eq, h)
]
