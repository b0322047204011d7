-- ===== src/Control/Delivery.antt =====
-- controlplane/operation.go: `collectHostWorkLocked`. The requests of the Host gateway, which
-- come between the cancellations and the operations, enter by their number.
pub mod Bounds
use rin.Common.{
  ℕ, ◌+◌, ◌-◌, String, Bool, true, false, not, ◌&&◌, ◌||◌, List, [], ◌∷◌, ◌++◌, Option, none, some,
  ltb, leb, ◌==◌, ◌=ₛ◌, length, if◌then◌else◌,
}
use Prim.Native.Nat.{Ordering}
use Prim.Native.String.{compare}
use rin.Common.Maps.{Map, lookup, insert}
use rin.Control.{
  queued, delivered, accepted, HostControlRequest, Operation, Desk, Service, OperationStatus,
}
use rin.Control.Status.{status_eq, is_complete, is_none, delivery_priority}
use rin.Control.Timeline.{record_timeline}

abbrev max_uint32 : ℕ
max_uint32 = 4294967295

-- Go's order of strings.
abbrev id_before : String → String → Bool
id_before a b = elim (compare a b) [ Ordering.lt ↦ true | _ ↦ false ]

-- The comparison of the sort: priority, time of creation, identifier.
unfoldable pub comes_before : Operation → Operation → Bool
unfolding delivery_priority
comes_before a b =
    if not (delivery_priority a.status == delivery_priority b.status)
    then ltb (delivery_priority a.status) (delivery_priority b.status)
    else if not (a.created_at == b.created_at)
    then ltb a.created_at b.created_at
    else id_before a.request.operation_id b.request.operation_id

unfoldable pub place : Operation → List Operation → List Operation
place o [] = o ∷ []
place o (x ∷ xs) = let rest = place o xs in if comes_before x o then x ∷ rest else o ∷ x ∷ xs

-- The operations of a host in the order of the sort, which no two share.
unfoldable pub host_work : String → Map Operation → List Operation
unfolding place
host_work host_id [] = []
host_work host_id ((id, o) ∷ m) =
    let rest = host_work host_id m in if o.request.host_id =ₛ host_id then place o rest else rest

-- The loop over the cancellations, with those so far.
unfoldable pub collect_cancellations : ℕ → List Operation → List String → List String
collect_cancellations limit [] found = found
collect_cancellations limit (o ∷ os) found = elim (leb limit (length found)) [
  | true ↦ found
  | false ↦
      collect_cancellations limit os
        (if o.cancel && not (is_complete o) then found ++ o.request.operation_id ∷ [] else found)
]

abbrev is_deliverable : OperationStatus → Bool
is_deliverable queued = true
is_deliverable delivered = true
is_deliverable accepted = true
is_deliverable _ = false

-- The tests of the delivery loop.
unfoldable pub is_due : Operation → Bool
is_due o = not o.cancel && is_deliverable o.status

unfoldable pub deliver : ℕ → Operation → Desk → Operation × Desk
deliver now o desk =
    record_timeline
      (record o {
        attempts = if ltb o.attempts max_uint32 then o.attempts + 1 else o.attempts;
        status = if is_none o.ack then delivered else o.status;
        updated_at = now;
      })
      desk

pub record Delivery : Type 0 where
  pub request : HostControlRequest
  pub delivery_attempt : ℕ

-- The delivery loop; `taken` counts the cancellations and the gateway requests.
unfoldable pub collect_requests :
    ℕ
    → ℕ
    → ℕ
    → List Operation
    → List Delivery
    → Map Operation × Desk
    → List Delivery × (Map Operation × Desk)
unfolding is_due deliver
collect_requests limit taken now [] found table = (found, table)
collect_requests limit taken now (o ∷ os) found (operations, desk) =
    elim (leb limit (taken + length found)) [
      | true ↦ (found, (operations, desk))
      | false ↦ elim (is_due o) [
        | false ↦ collect_requests limit taken now os found (operations, desk)
        | true ↦
            let out = deliver now o desk in
            collect_requests limit taken now os
              (found ++ record { request = out.0.request; delivery_attempt = out.0.attempts } ∷ [])
              (insert o.request.operation_id out.0 operations, out.1)
      ]
    ]

-- `limit-len(batch.Cancellations)` bounds the gateway requests, of which `waiting` are there.
abbrev gateway_count : ℕ → ℕ → ℕ → ℕ
gateway_count limit cancelled waiting =
    if ltb (limit - cancelled) waiting then limit - cancelled else waiting

pub record Batch : Type 0 where
  pub gateway : ℕ
  pub requests : List Delivery
  pub cancellations : List String

-- `collectHostWorkLocked`
unfoldable pub collect_host_work : String → ℕ → ℕ → ℕ → Service → Batch × Service
unfolding host_work collect_cancellations collect_requests
collect_host_work host_id limit waiting now service =
    let work = host_work host_id service.operations in
    let cancellations = collect_cancellations limit work [] in
    let gateway = gateway_count limit (length cancellations) waiting in
    let out =
      collect_requests limit (length cancellations + gateway) now work []
        (service.operations, service.desk) in
    (
      record { gateway = gateway; requests = out.0; cancellations = cancellations },
      record service { operations = out.1.0; desk = out.1.1 },
    )
