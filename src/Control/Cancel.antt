-- ===== src/Control/Cancel.antt =====
-- controlplane/operation.go: `GetOperation` and `CancelOperation`. A principal and an identifier are
-- validated. The operation is looked up again after `refreshOperationHostLocked`, which changes it
-- through the table.
use rin.Common.{
  ℕ, String, Bool, false, not, ◌&&◌, ◌||◌, none, some, leb, ltb, ◌+◌, ◌=ₛ◌, if◌then◌else◌,
}
use rin.Common.Maps.{Map, lookup, insert}
use rin.Host.{Principal}
use rin.Policy.Kernel.{str_in}
use rin.Control.{
  cancelled, queued, awaiting_confirmation, Operation, Desk, HostLease, Service, forbidden,
  not_found, Reply, done, refused,
}
use rin.Control.Status.{status_eq, is_complete}
use rin.Control.Settle.{settle, request_cancel}
use rin.Control.Expiry.{expire_by_ttl, expire_host_operations}

-- `hasScope`
unfoldable pub has_scope : Principal → String → Bool
has_scope principal scope = str_in principal.granted_scopes scope

-- What `expireOperationByTTLLocked` answers.
unfoldable pub is_overdue : ℕ → ℕ → Operation → Bool
is_overdue ttl now o = not (is_complete o || ltb now (o.updated_at + ttl))

abbrev lease_over : String → ℕ → Map HostLease → Bool
lease_over host_id now leases = elim (lookup host_id leases) [
  | none ↦ false
  | some lease ↦ leb lease.expires_at now
]

-- `refreshOperationHostLocked`, of the operation filed under an identifier.
unfoldable pub refresh_operation : String → Operation → ℕ → Service → Service
unfolding is_overdue
refresh_operation id o now service =
    if is_overdue service.operation_ttl now o
    then (let out = expire_by_ttl service.operation_ttl now o service.desk in
        record service { operations = insert id out.0 service.operations; desk = out.1 })
    else if lease_over o.request.host_id now service.leases
    then expire_host_operations o.request.host_id now service
    else service

-- `operationView` of an operation is the operation here.
unfoldable pub get_operation : Principal → String → ℕ → Service → Reply Operation × Service
unfolding has_scope refresh_operation
get_operation principal id now service₀ = elim (lookup id service₀.operations) [
  | none ↦ (refused not_found, service₀)
  | some before ↦
      let service = refresh_operation id before now service₀ in
      elim (lookup id service.operations) [
        | none ↦ (refused not_found, service)
        | some o ↦
            if not (has_scope principal "host.admin")
              && not (principal.id =ₛ o.request.principal.id)
            then (refused forbidden, service)
            else (done o, service)
      ]
]

abbrev may_cancel : Principal → Operation → Bool
may_cancel principal o =
    has_scope principal "host.admin"
    || ((principal.id =ₛ o.request.principal.id) && has_scope principal "operation.cancel")

-- From the test of `completeOperation` on.
unfoldable pub cancel_operation : ℕ → Operation → Desk → Operation × Desk
cancel_operation now o desk =
    if is_complete o
    then (o, desk)
    else if status_eq o.status queued
    then settle cancelled now false o desk
    else if status_eq o.status awaiting_confirmation
    then settle cancelled now false o desk
    else if not o.cancel
    then request_cancel now o desk
    else (o, desk)

abbrev cancelled_in : String → Operation × Desk → Service → Reply Operation × Service
cancelled_in id out service =
    (done out.0, record service { operations = insert id out.0 service.operations; desk = out.1 })

-- `CancelOperation`
unfoldable pub cancel_requested : Principal → String → ℕ → Service → Reply Operation × Service
unfolding has_scope refresh_operation cancel_operation
cancel_requested principal id now service₀ = elim (lookup id service₀.operations) [
  | none ↦ (refused not_found, service₀)
  | some before ↦
      let service = refresh_operation id before now service₀ in
      elim (lookup id service.operations) [
        | none ↦ (refused not_found, service)
        | some o ↦
            if may_cancel principal o
            then cancelled_in id (cancel_operation now o service.desk) service
            else (refused forbidden, service)
      ]
]
