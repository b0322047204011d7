-- ===== src/Control/Delivery/Bounds.antt =====
-- The bounds of a poll, and what it hands out.
use rin.Common.{
  ℕ, ◌+◌, ◌≤◌, ◌≡◌, String, List, [], ◌∷◌, ◌++◌, arith, leb, length, length-append, Bool-cases, All,
  All-append, inl, inr, ◌=ₛ◌, eq_iff,
}
use rin.Common.Maps.{Map}
use rin.Control.{Operation, Desk, Service, HostControlRequest}
use rin.Control.Timeline.{record_timeline, append_event}
use rin.Control.Delivery.{
  Delivery, place, comes_before, host_work, collect_cancellations, collect_requests,
  collect_host_work, deliver, is_due,
}

collect_cancellations-le :
    (limit : ℕ) (os : List Operation) (found : List String)
    → length found ≤ limit
    → length (collect_cancellations limit os found) ≤ limit
unfolding collect_cancellations
collect_cancellations-le limit [] found h = h
collect_cancellations-le limit (o ∷ os) found h = ground (
  arith,
  h,
  length-append found (o.request.operation_id ∷ []),
  collect_cancellations-le limit os found h,
  collect_cancellations-le limit os (found ++ o.request.operation_id ∷ []),
)

module _ (limit taken now : ℕ) where
  collect_requests-le :
      (os : List Operation) (found : List Delivery) (m : Map Operation) (desk : Desk)
      → taken + length found ≤ limit
      → taken + length (collect_requests limit taken now os found (m, desk)).0 ≤ limit
  unfolding collect_requests
  collect_requests-le [] found m desk h = h
  collect_requests-le (o ∷ os) found m desk h =
      elim (Bool-cases (leb limit (taken + length found))) [
        | inl full ↦ rw (full, collect_requests) h
        | inr room ↦ elim (Bool-cases (is_due o)) [
          | inr idle ↦ rw (room, idle, collect_requests) (collect_requests-le os found m desk h)
          | inl due ↦
              rw (room, due, collect_requests)
                (collect_requests-le os _ _ _ (rw length-append (ground (arith, room))))
        ]
      ]

-- A poll with a limit hands out at most that many cancellations, gateway requests and operations
-- together, however many are waiting.
pub collect-le :
    (host_id : String) (limit waiting now : ℕ) (s : Service)
    → length (collect_host_work host_id limit waiting now s).0.cancellations
        + (collect_host_work host_id limit waiting now s).0.gateway
        + length (collect_host_work host_id limit waiting now s).0.requests
      ≤ limit
unfolding collect_host_work
collect-le host_id limit waiting now s =
    let work = host_work host_id s.operations in
    let few = collect_cancellations-le limit work [] (omega arith) in
    collect_requests-le limit _ now work [] s.operations s.desk (ground (arith, few))

place-All :
    (P : Operation → Type 0) (o : Operation) (os : List Operation)
    → P o
    → All P os
    → All P (place o os)
unfolding place
place-All P o [] c h = (c, h)
place-All P o (x ∷ xs) c h = elim (Bool-cases (comes_before x o)) [
  | inl eq ↦ rw eq (h.0, place-All P o xs c h.1)
  | inr eq ↦ rw eq (c, h)
]

abbrev pub IsOf : String → HostControlRequest → Type 0
IsOf host_id request = request.host_id ≡ host_id

host_work-IsOf :
    (host_id : String) (m : Map Operation) → All (λ o. IsOf host_id o.request) (host_work host_id m)
unfolding host_work
host_work-IsOf host_id [] = tt
host_work-IsOf host_id ((id, o) ∷ m) = elim (Bool-cases (o.request.host_id =ₛ host_id)) [
  | inl eq ↦ rw eq (
      place-All (λ x. IsOf host_id x.request) o (host_work host_id m)
        ((eq_iff o.request.host_id host_id).0 eq) (host_work-IsOf host_id m))
  | inr eq ↦ rw eq (host_work-IsOf host_id m)
]

deliver-request :
    (now : ℕ) (o : Operation) (desk : Desk) → (deliver now o desk).0.request ≡ o.request
unfolding deliver record_timeline append_event
deliver-request now o desk = ground arith

module _ (host_id : String) (limit taken now : ℕ) where
  collect_requests-IsOf :
      (os : List Operation) (found : List Delivery) (m : Map Operation) (desk : Desk)
      → All (λ o. IsOf host_id o.request) os
      → All (λ d. IsOf host_id d.request) found
      → All (λ d. IsOf host_id d.request) (collect_requests limit taken now os found (m, desk)).0
  unfolding collect_requests
  collect_requests-IsOf [] found m desk c h = h
  collect_requests-IsOf (o ∷ os) found m desk c h =
      elim (Bool-cases (leb limit (taken + length found))) [
        | inl full ↦ rw (full, collect_requests) h
        | inr room ↦ elim (Bool-cases (is_due o)) [
          | inr idle ↦
              rw (room, idle, collect_requests) (collect_requests-IsOf os found m desk c.1 h)
          | inl due ↦
              rw (room, due, collect_requests)
                (collect_requests-IsOf os _ _ _ c.1
                  (All-append (λ d. IsOf host_id d.request) found _ h (rw deliver-request c.0, tt)))
        ]
      ]

-- Every operation that a poll hands out was submitted for the Host that polls.
pub collect-IsOf :
    (host_id : String) (limit waiting now : ℕ) (s : Service)
    → All (λ d. IsOf host_id d.request) (collect_host_work host_id limit waiting now s).0.requests
unfolding collect_host_work
collect-IsOf host_id limit waiting now s =
    collect_requests-IsOf host_id limit _ now (host_work host_id s.operations) [] s.operations
      s.desk (host_work-IsOf host_id s.operations) tt
