-- ===== src/Control/Fence.antt =====
-- controlplane/controller.go and controlplane/service.go: an authority that is gone takes its
-- operations with it.
use rin.Common.{
  ℕ, String, Bool, false, not, ◌&&◌, ◌||◌, Option, none, some, ◌==◌, ◌=ₛ◌, if◌then◌else◌,
}
use rin.Common.Maps.{Map, lookup}
use rin.Control.{stale, cancelled, OperationStatus, ControlBinding, Operation, Desk, Service}
use rin.Control.Status.{is_complete, is_accepted, is_none}
use rin.Control.Settle.{settle, request_cancel}
use rin.Control.Expiry.{run_each}

-- Work that never left ends at once; other work is asked to stop.
unfoldable pub withdraw : OperationStatus → ℕ → Operation → Desk → Operation × Desk
withdraw status now o desk =
    if (o.attempts == 0) && is_none o.ack
    then settle status now false o desk
    else request_cancel now o desk

abbrev pub bound_to : String → Option ControlBinding → Bool
bound_to lease_id none = false
bound_to lease_id (some binding) = binding.controller_lease_id =ₛ lease_id

-- The body of the loop of `fenceControllerOperationsLocked`.
unfoldable pub fence_controller_operation : String → ℕ → Operation → Desk → Operation × Desk
unfolding withdraw
fence_controller_operation lease_id now o desk =
    if not (bound_to lease_id o.request.binding) || is_complete o
    then (o, desk)
    else withdraw stale now o desk

unfoldable pub fence_controller_operations : String → ℕ → Service → Service
fence_controller_operations lease_id now service =
    run_each (fence_controller_operation lease_id now) service

-- The body of the loop of `cancelActorOperationsLocked`.
unfoldable pub cancel_actor_operation :
    String → String → String → ℕ → Operation → Desk → Operation × Desk
unfolding withdraw
cancel_actor_operation host_id world_id actor_id now o desk =
    if not (o.request.host_id =ₛ host_id)
      || (not (o.request.world_id =ₛ world_id)
          || (not (o.request.actor_id =ₛ actor_id) || is_complete o))
    then (o, desk)
    else withdraw cancelled now o desk

unfoldable pub cancel_actor_operations : String → String → String → ℕ → Service → Service
cancel_actor_operations host_id world_id actor_id now service =
    run_each (cancel_actor_operation host_id world_id actor_id now) service

abbrev keeps_revision : Map ℕ → String → ControlBinding → Bool
keeps_revision revisions actor_id binding = elim (lookup actor_id revisions) [
  | none ↦ false
  | some revision ↦ revision == binding.authority_revision
]

-- The body of the loop of `fenceSupersededAuthorityLocked`, with the published revisions.
unfoldable pub fence_superseded_operation :
    String → String → Map ℕ → ℕ → Operation → Desk → Operation × Desk
fence_superseded_operation host_id world_id revisions now o desk =
    if not (o.request.host_id =ₛ host_id)
      || (not (o.request.world_id =ₛ world_id) || (is_complete o || is_accepted o.ack))
    then (o, desk)
    else elim o.request.binding [
      | none ↦ (o, desk)
      | some binding ↦
          if keeps_revision revisions o.request.actor_id binding
          then (o, desk)
          else if o.attempts == 0
          then settle stale now false o desk
          else request_cancel now o desk
    ]

unfoldable pub fence_superseded_authority : String → String → Map ℕ → ℕ → Service → Service
fence_superseded_authority host_id world_id revisions now service =
    run_each (fence_superseded_operation host_id world_id revisions now) service
