-- ===== src/Control/Controllers/Exclusive.antt =====
-- One controller at a time.
use rin.Common.{
  ℕ, ◌+◌, ◌<◌, ◌≡◌, ◌≢◌, refl, subst, ◌⊎◌, inl, inr, String, true, Option, none, some, arith,
  eq_iff, eq_refl, Option-cases, Bool-cases,
}
use rin.Host.{Principal}
use rin.Control.{Reply, done, refused, entropy_failed}
use rin.Control.Controllers.{
  ActorPublication, ActorControlTarget, ControllerLease, Leases, Controllers, target_eq, find_lease,
  put_lease, new_lease, principal_allowed, expire_controller, same_holder, take_lease,
  acquire_controller,
}

abbrev pub IsRefused : Reply ControllerLease → Type 0
IsRefused (done lease) = ⊥
IsRefused (refused e) = Unit

expire_live :
    (key : ActorControlTarget) (now : ℕ) (c : Controllers) (current : ControllerLease)
    → find_lease key c.leases ≡ some current
    → now < current.expires_at
    → expire_controller key now c ≡ c
unfolding expire_controller
expire_live key now c current there live = ground (arith, there, live)

take_lease-IsRefused :
    (draw : Option String) (principal : Principal) (actor : ActorPublication)
    (key : ActorControlTarget) (controller_id : String) (ttl now : ℕ) (c : Controllers)
    (current : ControllerLease)
    → find_lease key c.leases ≡ some current
    → (current.controller_id ≢ controller_id) ⊎ (current.principal_id ≢ principal.id)
    → IsRefused (take_lease draw principal actor key controller_id ttl now c).0
      × ((take_lease draw principal actor key controller_id ttl now c).1 ≡ c)
unfolding take_lease same_holder
take_lease-IsRefused draw principal actor key controller_id ttl now c current there other = ground (
  arith,
  there,
  other,
  eq_iff current.controller_id controller_id,
  eq_iff current.principal_id principal.id,
)

-- While a controller's lease of an actor lives, an `AcquireController` by another controller or by
-- another principal is refused, and the leases and the operations stay as they are.
pub acquire_controller-IsRefused :
    (draw : Option String) (principal : Principal) (actor : ActorPublication)
    (key : ActorControlTarget) (controller_id : String) (ttl now : ℕ) (c : Controllers)
    (current : ControllerLease)
    → find_lease key c.leases ≡ some current
    → now < current.expires_at
    → (current.controller_id ≢ controller_id) ⊎ (current.principal_id ≢ principal.id)
    → IsRefused (acquire_controller draw principal actor key controller_id ttl now c).0
      × ((acquire_controller draw principal actor key controller_id ttl now c).1 ≡ c)
unfolding acquire_controller
acquire_controller-IsRefused draw principal actor key controller_id ttl now c current there live
      other =
    elim (Bool-cases (principal_allowed principal actor.authority)) [
      | inr no_right ↦ rw (no_right, acquire_controller) (tt, refl)
      | inl right ↦
          rw (right, acquire_controller, expire_live key now c current there live)
            (take_lease-IsRefused draw principal actor key controller_id ttl now c current there
              other)
    ]

target_eq_refl : (key : ActorControlTarget) → target_eq key key ≡ true
unfolding target_eq
target_eq_refl key = ground (arith, eq_refl key.host_id, eq_refl key.world_id, eq_refl key.actor_id)

find_lease-put_lease :
    (key : ActorControlTarget) (lease : ControllerLease) (m : Leases)
    → find_lease key (put_lease key lease m) ≡ some lease
unfolding find_lease put_lease
find_lease-put_lease key lease m = ground (arith, target_eq_refl key)

-- What the holder of a lease that was just given may rely on.
abbrev pub Holds :
    ActorControlTarget → String → Principal → ℕ → Controllers → ControllerLease → Type 0
Holds key controller_id principal until c lease =
    (find_lease key c.leases ≡ some lease)
    × ((lease.controller_id ≡ controller_id)
        × ((lease.principal_id ≡ principal.id) × (lease.expires_at ≡ until)))

abbrev Given :
    ActorControlTarget → String → Principal → ℕ → Reply ControllerLease × Controllers → Type 0
Given key controller_id principal until (done lease, c) =
    Holds key controller_id principal until c lease
Given key controller_id principal until (refused e, c) = Unit

take_lease-Given :
    (draw : Option String) (principal : Principal) (actor : ActorPublication)
    (key : ActorControlTarget) (controller_id : String) (ttl now : ℕ) (c : Controllers)
    → Given key controller_id principal
        (now + ttl)
        (take_lease draw principal actor key controller_id ttl now c)
unfolding take_lease same_holder
take_lease-Given draw principal actor key controller_id ttl now c =
    elim (Option-cases (find_lease key c.leases)) [
      | inl eq ↦ rw (eq, take_lease) (fresh draw)
      | inr (current, eq) ↦ elim (Bool-cases (same_holder current controller_id principal actor)) [
        | inl same ↦
            rw (eq, same, take_lease)
              (
                find_lease-put_lease key _ c.leases,
                ground (
                  arith,
                  same,
                  eq_iff current.controller_id controller_id,
                  eq_iff current.principal_id principal.id,
                ),
              )
        | inr other ↦ rw (eq, other, take_lease) tt
      ]
    ]
  where
    fresh :
        (d : Option String)
        → Given key controller_id principal (now + ttl) (elim d [
          | none ↦ (refused entropy_failed, c)
          | some id ↦
              let lease = new_lease id principal actor key controller_id ttl now in
              (done lease, record c { leases = put_lease key lease c.leases })
        ])
    fresh none = tt
    fresh (some id) = (find_lease-put_lease key _ c.leases, (refl, (refl, refl)))

Given-Holds :
    (key : ActorControlTarget) (controller_id : String) (principal : Principal) (until : ℕ)
    (out : Reply ControllerLease × Controllers) (lease : ControllerLease)
    → Given key controller_id principal until out
    → out.0 ≡ done lease
    → Holds key controller_id principal until out.1 lease
Given-Holds key controller_id principal until (done l, c) lease h eq =
    let same : l ≡ lease = cc in subst (Holds key controller_id principal until c) same h
Given-Holds key controller_id principal until (refused e, c) lease h eq =
    absurd (ground (arith, eq))

acquire_controller-Given :
    (draw : Option String) (principal : Principal) (actor : ActorPublication)
    (key : ActorControlTarget) (controller_id : String) (ttl now : ℕ) (c : Controllers)
    → Given key controller_id principal
        (now + ttl)
        (acquire_controller draw principal actor key controller_id ttl now c)
unfolding acquire_controller
acquire_controller-Given draw principal actor key controller_id ttl now c =
    elim (Bool-cases (principal_allowed principal actor.authority)) [
      | inr no_right ↦ rw (no_right, acquire_controller) tt
      | inl right ↦
          rw (right, acquire_controller)
            (take_lease-Given draw principal actor key controller_id ttl now
              (expire_controller key now c))
    ]

-- A lease that `AcquireController` gives is on record for the actor afterwards, belongs to the
-- controller and the principal that asked, and lasts the lifetime that was asked for from now on.
pub acquire_controller-Holds :
    (draw : Option String) (principal : Principal) (actor : ActorPublication)
    (key : ActorControlTarget) (controller_id : String) (ttl now : ℕ) (c : Controllers)
    (lease : ControllerLease)
    → (acquire_controller draw principal actor key controller_id ttl now c).0 ≡ done lease
    → Holds key controller_id principal
        (now + ttl)
        (acquire_controller draw principal actor key controller_id ttl now c).1
        lease
acquire_controller-Holds draw principal actor key controller_id ttl now c lease eq =
    Given-Holds key controller_id principal (now + ttl) _ lease
      (acquire_controller-Given draw principal actor key controller_id ttl now c) eq
