-- ===== src/Control/Outcome.antt =====
-- An outcome is final, expiry completes, and a batch is bounded.
use rin.Common.{ℕ, ◌≡◌, eq_iff, String, Option, true, false, not, ◌||◌, List, [], ◌∷◌, arith, ◌=ₛ◌}
use rin.Common.Maps.{Map}
use rin.Host.{ActionRun, ActionOutcome}
use rin.Policy.{Decision}
use rin.Control.Confirm.{begin_confirmation, stale_pending, record_decision, queue_confirmed}
use rin.Control.Delivery.{deliver, is_due}
use rin.Control.{
  ControlError, stale, outcome_unknown, HostAcknowledgement, Operation, Desk, Service,
}
use rin.Control.Status.{is_accepted, is_complete, status_eq}
use rin.Control.Settle.{each}
use rin.Control.Reports.{acknowledge, report_run, report_result}
use rin.Control.Cancel.{cancel_operation}
use rin.Control.Expiry.{expire_host_operation, expire_host_operations, expire_by_ttl}
use rin.Control.Fence.{
  bound_to, withdraw, fence_controller_operations, fence_controller_operation,
  cancel_actor_operation, fence_superseded_operation,
}
use rin.Control.Invariant.{settle-SameCore, request_cancel-SameCore}

-- What the handlers of the service do to one operation.
pub data Step : Operation → Operation → Type 0 where
  acknowledged :
      {o : Operation} (ack : HostAcknowledgement) (now : ℕ) (desk : Desk)
      → Step o (acknowledge ack now o desk).1.0
  ran :
      {o : Operation} (run : ActionRun) (now : ℕ) (desk : Desk)
      → Step o (report_run run now o desk).1.0
  ended :
      {o : Operation} (sinks : List String) (outcome : ActionOutcome) (output : String) (now : ℕ)
      (desk : Desk)
      → Step o (report_result sinks outcome output now o desk).1.0
  cancelled : {o : Operation} (now : ℕ) (desk : Desk) → Step o (cancel_operation now o desk).0
  host_expired :
      {o : Operation} (host_id : String) (now : ℕ) (desk : Desk)
      → Step o (expire_host_operation host_id now o desk).0
  expired : {o : Operation} (ttl now : ℕ) (desk : Desk) → Step o (expire_by_ttl ttl now o desk).0
  released :
      {o : Operation} (lease_id : String) (now : ℕ) (desk : Desk)
      → Step o (fence_controller_operation lease_id now o desk).0
  stopped :
      {o : Operation} (host_id world_id actor_id : String) (now : ℕ) (desk : Desk)
      → Step o (cancel_actor_operation host_id world_id actor_id now o desk).0
  published :
      {o : Operation} (host_id world_id : String) (revisions : Map ℕ) (now : ℕ) (desk : Desk)
      → Step o (fence_superseded_operation host_id world_id revisions now o desk).0
  confirm_began :
      {o : Operation} (denial obstacle : Option ControlError) (now : ℕ) (desk : Desk)
      → Step o (begin_confirmation denial obstacle now o desk).1.0
  confirm_staled : {o : Operation} (now : ℕ) (desk : Desk) → Step o (stale_pending now o desk).1.0
  confirm_decided :
      {o : Operation} (decision : Decision) (now : ℕ) (desk : Desk)
      → Step o (record_decision decision now o desk).1.0
  confirm_queued :
      {o : Operation} (decision : Decision) (obstacle : Option ControlError) (now : ℕ) (desk : Desk)
      → Step o (queue_confirmed decision obstacle now o desk).1.0
  collected :
      {o : Operation} (now : ℕ) (desk : Desk) → is_due o ≡ true → Step o (deliver now o desk).0

abbrev pub SameEnd : Operation → Operation → Type 0
SameEnd o o' = (o'.outcome ≡ o.outcome) × (o'.status ≡ o.status)

-- The operations of a Host are all complete.
abbrev pub AreComplete : String → Map Operation → Type 0
AreComplete host_id [] = Unit
AreComplete host_id ((id, o) ∷ m) =
    ((not (o.request.host_id =ₛ host_id) || is_complete o) ≡ true) × AreComplete host_id m

expire_host_operation_complete :
    (host_id : String) (now : ℕ) (o : Operation) (desk : Desk)
    → (not ((expire_host_operation host_id now o desk).0.request.host_id =ₛ host_id)
        || is_complete (expire_host_operation host_id now o desk).0)
      ≡ true
unfolding expire_host_operation is_complete status_eq
expire_host_operation_complete host_id now o desk = ground (
  arith,
  eq_iff o.request.host_id host_id,
  settle-SameCore outcome_unknown now true o desk,
  settle-SameCore stale now false o desk,
)

each-AreComplete :
    (host_id : String) (now : ℕ) (m : Map Operation) (desk : Desk)
    → AreComplete host_id (each (expire_host_operation host_id now) m desk).0
unfolding each
each-AreComplete host_id now [] desk = tt
each-AreComplete host_id now ((id, o) ∷ m) desk = (
  expire_host_operation_complete host_id now o desk,
  each-AreComplete host_id now m (expire_host_operation host_id now o desk).1,
)

-- When the operations of a Host expire with its lease, each of them is complete afterwards.
pub expire_host-AreComplete :
    (host_id : String) (now : ℕ) (s : Service)
    → AreComplete host_id (expire_host_operations host_id now s).operations
unfolding expire_host_operations
expire_host-AreComplete host_id now s = each-AreComplete host_id now s.operations s.desk

-- The operations that are bound to a controller lease are complete or asked to stop.
abbrev pub AreFenced : String → Map Operation → Type 0
AreFenced lease_id [] = Unit
AreFenced lease_id ((id, o) ∷ m) =
    ((not (bound_to lease_id o.request.binding) || (is_complete o || o.cancel)) ≡ true)
    × AreFenced lease_id m

fence_controller_operation_lem :
    (lease_id : String) (now : ℕ) (o : Operation) (desk : Desk)
    → (not (bound_to lease_id (fence_controller_operation lease_id now o desk).0.request.binding)
        || (is_complete (fence_controller_operation lease_id now o desk).0
            || (fence_controller_operation lease_id now o desk).0.cancel))
      ≡ true
unfolding fence_controller_operation withdraw is_complete status_eq is_accepted
fence_controller_operation_lem lease_id now o desk =
    ground (arith, settle-SameCore stale now false o desk, request_cancel-SameCore now o desk)

each-AreFenced :
    (lease_id : String) (now : ℕ) (m : Map Operation) (desk : Desk)
    → AreFenced lease_id (each (fence_controller_operation lease_id now) m desk).0
unfolding each
each-AreFenced lease_id now [] desk = tt
each-AreFenced lease_id now ((id, o) ∷ m) desk = (
  fence_controller_operation_lem lease_id now o desk,
  each-AreFenced lease_id now m (fence_controller_operation lease_id now o desk).1,
)

-- When a controller lease ends, each operation that is bound to it is complete or is asked to
-- stop.
pub fence_controller-AreFenced :
    (lease_id : String) (now : ℕ) (s : Service)
    → AreFenced lease_id (fence_controller_operations lease_id now s).operations
unfolding fence_controller_operations
fence_controller-AreFenced lease_id now s = each-AreFenced lease_id now s.operations s.desk
