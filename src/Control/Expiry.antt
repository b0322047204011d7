-- ===== src/Control/Expiry.antt =====
-- controlplane/operation.go: what time does to operations; and the host leases of service.go.
use rin.Common.{
  ℕ, ◌+◌, String, Bool, true, false, not, ◌&&◌, ◌||◌, List, [], ◌∷◌, none, some, ltb, leb, ◌=ₛ◌,
  if◌then◌else◌,
}
use rin.Common.Maps.{Map, lookup, insert, delete}
use rin.Control.{stale, outcome_unknown, Operation, Desk, Service}
use rin.Control.Status.{status_eq, is_complete, is_accepted}
use rin.Control.Settle.{settle, each}

-- The body of the loop of `expireHostOperationsLocked`.
unfoldable pub expire_host_operation : String → ℕ → Operation → Desk → Operation × Desk
expire_host_operation host_id now o desk =
    if not (o.request.host_id =ₛ host_id) || is_complete o
    then (o, desk)
    else if is_accepted o.ack
    then (if status_eq o.status outcome_unknown
        then (o, desk)
        else settle outcome_unknown now true o desk)
    else if status_eq o.status stale
    then (o, desk)
    else settle stale now false o desk

abbrev pub run_each : (Operation → Desk → Operation × Desk) → Service → Service
run_each body service =
    let out = each body service.operations service.desk in
    record service { operations = out.0; desk = out.1 }

-- `expireHostOperationsLocked`
unfoldable pub expire_host_operations : String → ℕ → Service → Service
unfolding each expire_host_operation
expire_host_operations host_id now service = run_each (expire_host_operation host_id now) service

-- `expireOperationByTTLLocked`
unfoldable pub expire_by_ttl : ℕ → ℕ → Operation → Desk → Operation × Desk
expire_by_ttl ttl now o desk =
    if is_complete o || ltb now (o.updated_at + ttl)
    then (o, desk)
    else if is_accepted o.ack
    then settle outcome_unknown now true o desk
    else settle stale now false o desk

abbrev has_pending : Map Bool → Bool
has_pending [] = false
has_pending ((id, delivered) ∷ m) = not delivered || has_pending m

abbrev no_children : List String → Bool
no_children [] = true
no_children (x ∷ xs) = false

-- The tests of the second loop of `pruneOperationsLocked`, without an archive.
unfoldable pub is_prunable : ℕ → ℕ → Operation → Bool
is_prunable ttl now o =
    is_complete o
    && (not (status_eq o.status outcome_unknown)
        && (not (has_pending o.outcome_delivery)
            && (leb (o.updated_at + ttl) now && no_children o.children)))

abbrev remove_string : String → List String → List String
remove_string id [] = []
remove_string id (x ∷ xs) = let rest = remove_string id xs in if x =ₛ id then rest else x ∷ rest

-- The parent of a removed operation.
unfoldable pub forget_child : String → String → ℕ → Map Operation → Map Operation
forget_child parent_id id now operations = elim (lookup parent_id operations) [
  | none ↦ operations
  | some parent ↦
      insert parent_id
        (record parent { children = remove_string id parent.children; updated_at = now }) operations
]

-- The second loop of `pruneOperationsLocked`, over the identifiers that the table had.
unfoldable pub prune_from :
    ℕ → ℕ → List String → Map Operation → Map String → Map Operation × Map String
unfolding is_prunable forget_child
prune_from ttl now [] operations requests = (operations, requests)
prune_from ttl now (id ∷ ids) operations requests = elim (lookup id operations) [
  | none ↦ prune_from ttl now ids operations requests
  | some o ↦ elim (is_prunable ttl now o) [
    | false ↦ prune_from ttl now ids operations requests
    | true ↦
        prune_from ttl now ids
          (forget_child o.request.parent_operation_id id now (delete id operations))
          (delete o.idempotency requests)
  ]
]

abbrev keys_of : Map Operation → List String
keys_of [] = []
keys_of ((id, o) ∷ m) = id ∷ keys_of m

-- `pruneOperationsLocked`
unfoldable pub prune_operations : ℕ → Service → Service
unfolding each expire_by_ttl prune_from
prune_operations now service₀ =
    let service = run_each (expire_by_ttl service₀.operation_ttl now) service₀ in
    let out =
      prune_from service.operation_ttl now (keys_of service.operations) service.operations
        service.requests in
    record service { operations = out.0; requests = out.1 }
