-- ===== src/Control/Invariant.antt =====
-- What the fields of one operation say of one another, and that every handler keeps it.
pub mod Steps
pub mod Calls
pub mod Loops
pub mod Confirms
pub mod Reachable
use rin.Common.{
  ℕ, ◌≡◌, refl, String, Bool, true, false, not, ◌&&◌, ◌||◌, List, [], ◌∷◌, Option, none, some,
  arith, ◌≤◌, length, ◌==◌, ◌=ₛ◌, if◌then◌else◌,
}
use rin.Host.{ActionRun, ActionOutcome}
use rin.Control.{
  OperationStatus, queued, awaiting_confirmation, delivered, accepted, running, succeeded, failed,
  cancelled, interrupted, stale, outcome_unknown, rejected, HostAcknowledgement, Operation, Desk,
}
use rin.Control.Status.{is_none, is_accepted, status_from_run}
use rin.Control.Timeline.{record_timeline, append_event, timeline_snapshot, max_timeline_events}
use rin.Control.Timeline.Bounds.{record_timeline-le}
use rin.Control.Settle.{finalize_operation_policy, settle, request_cancel}

-- Before delivery the Host knows nothing; a delivered operation is unanswered; the states of a run
-- stand on an acceptance; a rejected one was not accepted.
unfoldable pub StatusFits : OperationStatus → Option HostAcknowledgement → ℕ → Type 0
StatusFits queued ack attempts = (is_none ack ≡ true) × (attempts ≡ 0)
StatusFits awaiting_confirmation ack attempts = (is_none ack ≡ true) × (attempts ≡ 0)
StatusFits delivered ack attempts = is_none ack ≡ true
StatusFits rejected ack attempts = is_accepted ack ≡ false
StatusFits cancelled ack attempts = Unit
StatusFits stale ack attempts = Unit
StatusFits _ ack attempts = is_accepted ack ≡ true

-- An outcome comes from a Host that accepted, and is what the status says.
unfoldable pub OutcomeFits :
    Option ActionOutcome → Option HostAcknowledgement → OperationStatus → Type 0
OutcomeFits none ack status = Unit
OutcomeFits (some outcome) ack status =
    (is_accepted ack ≡ true) × (status ≡ status_from_run outcome.status)

-- A run comes from a Host that accepted.
unfoldable pub RunFits : Option ActionRun → Option HostAcknowledgement → Type 0
RunFits none ack = Unit
RunFits (some run) ack = is_accepted ack ≡ true

pub record IsCoherent (o : Operation) : Type 0 where
  pub status_fits : StatusFits o.status o.ack o.attempts
  pub outcome_fits : OutcomeFits o.outcome o.ack o.status
  pub run_fits : RunFits o.run o.ack
  pub timeline_fits : length o.timeline ≤ max_timeline_events

-- The same operation but for its times and its timeline.
pub record SameCore (o o' : Operation) : Type 0 where
  pub request : o'.request ≡ o.request
  pub status : o'.status ≡ o.status
  pub attempts : o'.attempts ≡ o.attempts
  pub cancel : o'.cancel ≡ o.cancel
  pub ack : o'.ack ≡ o.ack
  pub run : o'.run ≡ o.run
  pub outcome : o'.outcome ≡ o.outcome
  pub timeline : length o.timeline ≤ max_timeline_events → length o'.timeline ≤ max_timeline_events

pub SameCore-IsCoherent : (o o' : Operation) → SameCore o o' → IsCoherent o → IsCoherent o'
SameCore-IsCoherent o o' s h = record {
  status_fits = rw (s.status, s.ack, s.attempts) h.status_fits;
  outcome_fits = rw (s.outcome, s.ack, s.status) h.outcome_fits;
  run_fits = rw (s.run, s.ack) h.run_fits;
  timeline_fits = s.timeline h.timeline_fits;
}

pub record_timeline-SameCore : (o : Operation) (desk : Desk) → SameCore o (record_timeline o desk).0
unfolding record_timeline append_event
record_timeline-SameCore o desk = ground (arith, record_timeline-le o desk)

pub settle-SameCore :
    (status : OperationStatus) (now : ℕ) (committed : Bool) (o : Operation) (desk : Desk)
    → SameCore (record o { status = status }) (settle status now committed o desk).0
unfolding settle record_timeline append_event
settle-SameCore status now committed o desk = ground (
  arith,
  record_timeline-le (record o { status = status; updated_at = now })
      (finalize_operation_policy o committed desk),
)

pub request_cancel-SameCore :
    (now : ℕ) (o : Operation) (desk : Desk)
    → SameCore (record o { cancel = true }) (request_cancel now o desk).0
unfolding request_cancel record_timeline append_event
request_cancel-SameCore now o desk =
    ground (arith, record_timeline-le (record o { cancel = true; updated_at = now }) desk)
