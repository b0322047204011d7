-- ===== src/Control/Invariant/Reachable.antt =====
-- The states of a service that starts empty, and what holds in all of them.
use rin.Common.{ℕ, ◌≡◌, sym, subst, String, true, [], Option, none, some, arith}
use rin.Common.Maps.{Map, lookup}
use rin.Host.{Principal, RunStatus, ActionRun, ActionOutcome}
use rin.Policy.{Verdict, Decision}
use rin.Control.{
  HostControlRequest, HostAcknowledgement, HostLease, Operation, Desk, Service, ControlError,
}
use rin.Control.Status.{is_accepted, execution_confirmed, status_eq, status_from_run}
use rin.Control.Reports.{
  acknowledge, acknowledge_host, report_run, report_host_run, report_result, report_host_result,
}
use rin.Control.Cancel.{get_operation, cancel_requested}
use rin.Control.Expiry.{expire_host_operation, expire_host_operations, prune_operations}
use rin.Control.Fence.{
  fence_controller_operation, fence_controller_operations, cancel_actor_operation,
  cancel_actor_operations, fence_superseded_operation, fence_superseded_authority,
}
use rin.Control.Delivery.{collect_host_work}
use rin.Control.Submit.{store_operation}
use rin.Control.Invariant.{OutcomeFits}
use rin.Control.Invariant.Steps.{
  acknowledge-IsCoherent, report_run-IsCoherent, report_result-IsCoherent,
  expire_host_operation-IsCoherent, fence_controller_operation-IsCoherent,
  cancel_actor_operation-IsCoherent, fence_superseded_operation-IsCoherent,
}
use rin.Control.Invariant.Calls.{
  Every, IsSound, Every-lookup, Every-each, on_host_operation-IsSound, get-IsSound, cancel-IsSound,
}
use rin.Control.Confirm.{
  begin_confirmation, stale_pending, record_decision, queue_confirmed, give_back, on_operation,
  nothing, finish_confirmation,
}
use rin.Control.Invariant.Confirms.{
  begin_confirmation-IsCoherent, stale_pending-IsCoherent, record_decision-IsCoherent,
  queue_confirmed-IsCoherent, on_operation-IsSound, finish_confirmation-IsSound,
}
use rin.Control.Invariant.Loops.{prune-IsSound, collect-IsSound, store-IsSound}

-- The calls under the service's lock, in any order. A change of the leases is one of them, and so
-- is any change of the desk: the policy engine also serves other callers.
pub data Call : Service → Service → Type 0 where
  stored :
      {s : Service} (key : String) (request : HostControlRequest) (verdict : Verdict)
      → Call s (store_operation key request verdict s).1
  collected :
      {s : Service} (host_id : String) (limit waiting now : ℕ)
      → Call s (collect_host_work host_id limit waiting now s).1
  acknowledged :
      {s : Service} (host_id lease_id : String) (ack : HostAcknowledgement) (now : ℕ)
      → Call s (acknowledge_host host_id lease_id ack now s).1
  ran :
      {s : Service} (host_id lease_id : String) (run : ActionRun) (now : ℕ)
      → Call s (report_host_run host_id lease_id run now s).1
  ended :
      {s : Service} (host_id lease_id : String) (outcome : ActionOutcome) (output : String)
      (now : ℕ)
      → Call s (report_host_result host_id lease_id outcome output now s).1
  read : {s : Service} (p : Principal) (id : String) (now : ℕ) → Call s (get_operation p id now s).1
  cancelled :
      {s : Service} (p : Principal) (id : String) (now : ℕ) → Call s (cancel_requested p id now s).1
  pruned : {s : Service} (now : ℕ) → Call s (prune_operations now s)
  expired :
      {s : Service} (host_id : String) (now : ℕ) → Call s (expire_host_operations host_id now s)
  released :
      {s : Service} (lease_id : String) (now : ℕ)
      → Call s (fence_controller_operations lease_id now s)
  stopped :
      {s : Service} (host_id world_id actor_id : String) (now : ℕ)
      → Call s (cancel_actor_operations host_id world_id actor_id now s)
  published :
      {s : Service} (host_id world_id : String) (revisions : Map ℕ) (now : ℕ)
      → Call s (fence_superseded_authority host_id world_id revisions now s)
  confirm_began :
      {s : Service} (id : String) (denial obstacle : Option ControlError) (now : ℕ)
      → Call s (on_operation id nothing (begin_confirmation denial obstacle now) s).1
  confirm_staled :
      {s : Service} (id : String) (now : ℕ)
      → Call s (on_operation id nothing (stale_pending now) s).1
  confirm_decided :
      {s : Service} (id : String) (decision : Decision) (now : ℕ)
      → Call s (on_operation id nothing (record_decision decision now) s).1
  confirm_queued :
      {s : Service} (id : String) (decision : Decision) (obstacle : Option ControlError) (now : ℕ)
      → Call s (on_operation id (give_back decision) (queue_confirmed decision obstacle now) s).1
  confirm_finished : {s : Service} (id : String) → Call s (finish_confirmation id s)
  leased : {s : Service} (leases : Map HostLease) → Call s (record s { leases = leases })
  decided : {s : Service} (desk : Desk) → Call s (record s { desk = desk })

pub data Reachable : Service → Type 0 where
  started : (s : Service) → s.operations ≡ [] → Reachable s
  called : {s s' : Service} → Reachable s → Call s s' → Reachable s'

Call-IsSound : {s s' : Service} → Call s s' → IsSound s → IsSound s'
unfolding acknowledge_host report_host_run report_host_result expire_host_operations
    fence_controller_operations cancel_actor_operations fence_superseded_authority
Call-IsSound {s = s} (stored key request verdict) h = store-IsSound key request verdict s h
Call-IsSound {s = s} (collected host_id limit waiting now) h =
    collect-IsSound host_id limit waiting now s h
Call-IsSound {s = s} (acknowledged host_id lease_id ack now) h =
    on_host_operation-IsSound host_id lease_id ack.operation_id now (acknowledge ack now) s
      (λ o. acknowledge-IsCoherent ack now o s.desk) h
Call-IsSound {s = s} (ran host_id lease_id run now) h =
    on_host_operation-IsSound host_id lease_id run.operation_id now (report_run run now) s
      (λ o. report_run-IsCoherent run now o s.desk) h
Call-IsSound {s = s} (ended host_id lease_id outcome output now) h =
    on_host_operation-IsSound host_id lease_id outcome.operation_id now
      (report_result s.outcome_sinks outcome output now) s
      (λ o. report_result-IsCoherent s.outcome_sinks outcome output now o s.desk) h
Call-IsSound {s = s} (read p id now) h = get-IsSound p id now s h
Call-IsSound {s = s} (cancelled p id now) h = cancel-IsSound p id now s h
Call-IsSound {s = s} (pruned now) h = prune-IsSound now s h
Call-IsSound {s = s} (expired host_id now) h =
    Every-each (expire_host_operation host_id now) (expire_host_operation-IsCoherent host_id now)
      s.operations s.desk h
Call-IsSound {s = s} (released lease_id now) h =
    Every-each (fence_controller_operation lease_id now)
      (fence_controller_operation-IsCoherent lease_id now) s.operations s.desk h
Call-IsSound {s = s} (stopped host_id world_id actor_id now) h =
    Every-each (cancel_actor_operation host_id world_id actor_id now)
      (cancel_actor_operation-IsCoherent host_id world_id actor_id now) s.operations s.desk h
Call-IsSound {s = s} (published host_id world_id revisions now) h =
    Every-each (fence_superseded_operation host_id world_id revisions now)
      (fence_superseded_operation-IsCoherent host_id world_id revisions now) s.operations s.desk h
Call-IsSound {s = s} (confirm_began id denial obstacle now) h =
    on_operation-IsSound id nothing (begin_confirmation denial obstacle now) s
      (λ o. begin_confirmation-IsCoherent denial obstacle now o s.desk) h
Call-IsSound {s = s} (confirm_staled id now) h =
    on_operation-IsSound id nothing (stale_pending now) s
      (λ o. stale_pending-IsCoherent now o s.desk) h
Call-IsSound {s = s} (confirm_decided id decision now) h =
    on_operation-IsSound id nothing (record_decision decision now) s
      (λ o. record_decision-IsCoherent decision now o s.desk) h
Call-IsSound {s = s} (confirm_queued id decision obstacle now) h =
    on_operation-IsSound id (give_back decision) (queue_confirmed decision obstacle now) s
      (λ o. queue_confirmed-IsCoherent decision obstacle now o s.desk) h
Call-IsSound {s = s} (confirm_finished id) h = finish_confirmation-IsSound id s h
Call-IsSound (leased leases) h = h
Call-IsSound (decided desk) h = h

-- In every state that a service comes to from an empty table, by submissions, deliveries, Host
-- reports, confirmations, cancellations, expiry, pruning and fencing in any order, each operation is
-- coherent: an undelivered one has no attempt and no answer, a run or an outcome stands on an
-- acceptance by the Host, the status of an operation with an outcome is that of the outcome, and its
-- timeline has at most 64 events.
pub Reachable-IsSound : (s : Service) → Reachable s → IsSound s
Reachable-IsSound s (started _ e) = subst Every (sym e) tt
Reachable-IsSound s (called r c) = Call-IsSound c (Reachable-IsSound _ r)

-- What a client may believe of an operation that reads as executed.
abbrev pub IsExecuted : Option ActionOutcome → Option HostAcknowledgement → Type 0
IsExecuted none ack = ⊥
IsExecuted (some outcome) ack = (outcome.status ≡ RunStatus.succeeded) × (is_accepted ack ≡ true)

-- In every state that a service comes to from an empty table by its calls, an operation that reads
-- as `execution_confirmed` has an outcome of the Host that says it succeeded, and the Host had
-- accepted it.
pub execution_confirmed-IsExecuted :
    (s : Service) (id : String) (o : Operation)
    → Reachable s
    → lookup id s.operations ≡ some o
    → execution_confirmed o ≡ true
    → IsExecuted o.outcome o.ack
unfolding execution_confirmed OutcomeFits status_eq status_from_run
execution_confirmed-IsExecuted s id o r there e =
    let c = Every-lookup id s.operations o (Reachable-IsSound s r) there in
    ground (arith, c.outcome_fits, e)
