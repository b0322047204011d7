-- ===== src/Control/Controllers.antt =====
-- controlplane/controller.go: the leases of controllers. A target, an input and a principal are
-- validated, and the actor is the one that `authorizeActorLocked` returns. A lifetime is positive.
pub mod Exclusive
use rin.Common.{
  ℕ, ◌+◌, String, Bool, true, false, not, ◌&&◌, ◌||◌, List, [], ◌∷◌, Option, none, some, leb, ltb,
  ◌==◌, ◌=ₛ◌, if◌then◌else◌,
}
use rin.Host.{Epoch, Principal, epoch_eq}
use rin.Control.{
  Service, ControlError, conflict, lease_expired, forbidden, entropy_failed, Reply, done, refused,
}
use rin.Control.Cancel.{has_scope}
use rin.Control.Fence.{fence_controller_operations}

pub data DecisionSource : Type 0 where
  internal external : DecisionSource

unfoldable pub source_eq : DecisionSource → DecisionSource → Bool
source_eq internal internal = true
source_eq external external = true
source_eq _ _ = false

pub record DecisionAuthority : Type 0 where
  pub source : DecisionSource
  pub controller_principal_id : String
  pub revision : ℕ
  pub persona_mode : String

pub record ActorPublication : Type 0 where
  pub actor_id : String
  pub owner_principal_id : String
  pub epoch : Epoch
  pub authority : DecisionAuthority

pub record ActorControlTarget : Type 0 where
  pub host_id : String
  pub world_id : String
  pub actor_id : String

unfoldable pub target_eq : ActorControlTarget → ActorControlTarget → Bool
target_eq a b =
    (a.host_id =ₛ b.host_id) && ((a.world_id =ₛ b.world_id) && (a.actor_id =ₛ b.actor_id))

pub record ControllerLease : Type 0 where
  pub lease_id : String
  pub controller_id : String
  pub principal_id : String
  pub target : ActorControlTarget
  pub source : DecisionSource
  pub persona_mode : String
  pub authority_revision : ℕ
  pub epoch : Epoch
  pub acquired_at : ℕ
  pub expires_at : ℕ

-- `service.controllers`, by the target that is the key.
abbrev pub Leases : Type 0
Leases = List (ActorControlTarget × ControllerLease)

unfoldable pub find_lease : ActorControlTarget → Leases → Option ControllerLease
unfolding target_eq
find_lease key [] = none
find_lease key ((k, lease) ∷ m) = if target_eq k key then some lease else find_lease key m

unfoldable pub drop_lease : ActorControlTarget → Leases → Leases
unfolding target_eq
drop_lease key [] = []
drop_lease key ((k, lease) ∷ m) =
    let rest = drop_lease key m in if target_eq k key then rest else (k, lease) ∷ rest

unfoldable pub put_lease : ActorControlTarget → ControllerLease → Leases → Leases
unfolding drop_lease
put_lease key lease m = (key, lease) ∷ drop_lease key m

pub record Controllers : Type 0 where
  pub leases : Leases
  pub service : Service

-- `controllerPrincipalAllowed`
unfoldable pub principal_allowed : Principal → DecisionAuthority → Bool
unfolding source_eq
principal_allowed principal authority =
    if source_eq authority.source internal
    then has_scope principal "host.admin"
    else authority.controller_principal_id =ₛ principal.id

-- `controllerMatchesActor`
unfoldable pub matches_actor : ControllerLease → ActorPublication → Bool
unfolding source_eq
matches_actor lease actor =
    (lease.target.actor_id =ₛ actor.actor_id)
    && (epoch_eq lease.epoch actor.epoch
        && (source_eq lease.source actor.authority.source
            && ((lease.persona_mode =ₛ actor.authority.persona_mode)
                && ((lease.authority_revision == actor.authority.revision)
                    && (not (source_eq actor.authority.source external)
                        || (lease.principal_id =ₛ actor.authority.controller_principal_id))))))

-- `invalidateControllerLocked`
unfoldable pub invalidate_controller : ActorControlTarget → ℕ → Controllers → Controllers
invalidate_controller key now c = elim (find_lease key c.leases) [
  | none ↦ c
  | some lease ↦ record {
    leases = drop_lease key c.leases;
    service = fence_controller_operations lease.lease_id now c.service;
  }
]

-- `expireControllerLocked`
unfoldable pub expire_controller : ActorControlTarget → ℕ → Controllers → Controllers
unfolding invalidate_controller
expire_controller key now c = elim (find_lease key c.leases) [
  | none ↦ c
  | some lease ↦ if ltb now lease.expires_at then c else invalidate_controller key now c
]

-- The tests of `AcquireController` on a lease that is there.
unfoldable pub same_holder : ControllerLease → String → Principal → ActorPublication → Bool
unfolding source_eq
same_holder lease controller_id principal actor =
    (lease.controller_id =ₛ controller_id)
    && ((lease.principal_id =ₛ principal.id)
        && (source_eq lease.source actor.authority.source
            && ((lease.persona_mode =ₛ actor.authority.persona_mode)
                && ((lease.authority_revision == actor.authority.revision)
                    && epoch_eq lease.epoch actor.epoch))))

abbrev extended : ControllerLease → ℕ → ControllerLease
extended lease until = record lease { expires_at = until }

abbrev pub new_lease :
    String → Principal → ActorPublication → ActorControlTarget → String → ℕ → ℕ → ControllerLease
new_lease id principal actor key controller_id ttl now = record {
  lease_id = id;
  controller_id = controller_id;
  principal_id = principal.id;
  target = key;
  source = actor.authority.source;
  persona_mode = actor.authority.persona_mode;
  authority_revision = actor.authority.revision;
  epoch = actor.epoch;
  acquired_at = now;
  expires_at = now + ttl;
}

-- `AcquireController` from the expiry of the lease on; the draw is the new lease's identifier.
unfoldable pub take_lease :
    Option String
    → Principal
    → ActorPublication
    → ActorControlTarget
    → String
    → ℕ
    → ℕ
    → Controllers
    → Reply ControllerLease × Controllers
unfolding same_holder put_lease
take_lease draw principal actor key controller_id ttl now c = elim (find_lease key c.leases) [
  | some current ↦
      if same_holder current controller_id principal actor
      then (
        done (extended current (now + ttl)),
        record c { leases = put_lease key (extended current (now + ttl)) c.leases },
      )
      else (refused conflict, c)
  | none ↦ elim draw [
    | none ↦ (refused entropy_failed, c)
    | some id ↦
        let lease = new_lease id principal actor key controller_id ttl now in
        (done lease, record c { leases = put_lease key lease c.leases })
  ]
]

-- `AcquireController`
unfoldable pub acquire_controller :
    Option String
    → Principal
    → ActorPublication
    → ActorControlTarget
    → String
    → ℕ
    → ℕ
    → Controllers
    → Reply ControllerLease × Controllers
unfolding principal_allowed expire_controller take_lease
acquire_controller draw principal actor key controller_id ttl now c =
    if not (principal_allowed principal actor.authority)
    then (refused forbidden, c)
    else take_lease draw principal actor key controller_id ttl now (expire_controller key now c)

-- `ReleaseController`
unfoldable pub release_controller :
    Principal → ActorControlTarget → String → ℕ → Controllers → Reply (Unit {0}) × Controllers
release_controller principal key lease_id now c = elim (find_lease key c.leases) [
  | none ↦ (refused lease_expired, c)
  | some lease ↦
      if not (lease.lease_id =ₛ lease_id)
      then (refused lease_expired, c)
      else if not (lease.principal_id =ₛ principal.id) && not (has_scope principal "host.admin")
      then (refused forbidden, c)
      else (done tt, invalidate_controller key now c)
]

-- `RenewController`, for the actor that `authorizeActorLocked` returns.
unfoldable pub renew_controller :
    Principal
    → ActorPublication
    → ActorControlTarget
    → String
    → ℕ
    → ℕ
    → Controllers
    → Reply ControllerLease × Controllers
unfolding matches_actor expire_controller invalidate_controller put_lease
renew_controller principal actor key lease_id ttl now c₀ =
    let c = expire_controller key now c₀ in
    elim (find_lease key c.leases) [
      | none ↦ (refused lease_expired, c)
      | some lease ↦
          if not (lease.lease_id =ₛ lease_id)
          then (refused lease_expired, c)
          else if not (lease.principal_id =ₛ principal.id) && not (has_scope principal "host.admin")
          then (refused forbidden, c)
          else if not (matches_actor lease actor)
          then (refused lease_expired, invalidate_controller key now c)
          else (
            done (extended lease (now + ttl)),
            record c { leases = put_lease key (extended lease (now + ttl)) c.leases },
          )
    ]
