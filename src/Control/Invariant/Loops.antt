-- ===== src/Control/Invariant/Loops.antt =====
-- The loops over the operations and the new operations keep all coherent.
use rin.Common.{
  ℕ, ◌+◌, inl, inr, String, List, [], ◌∷◌, ◌++◌, arith, ◌=ₛ◌, leb, length, Bool-cases, Option-cases,
  All,
}
use rin.Common.Maps.{Map, lookup, insert, delete}
use rin.Policy.{Verdict, allow, deny, require_confirmation}
use rin.Control.{HostControlRequest, Operation, Desk, Service}
use rin.Control.Status.{is_accepted}
use rin.Control.Expiry.{expire_by_ttl, prune_operations, prune_from, forget_child, is_prunable}
use rin.Control.Delivery.{
  Delivery, host_work, place, comes_before, collect_requests, deliver, is_due, collect_host_work,
}
use rin.Control.Submit.{new_operation, file_operation, refuse_child, store_operation}
use rin.Control.Invariant.{
  StatusFits, OutcomeFits, RunFits, IsCoherent, SameCore-IsCoherent, record_timeline-SameCore,
}
use rin.Control.Invariant.Steps.{expire_by_ttl-IsCoherent, deliver-IsCoherent}
use rin.Control.Invariant.Calls.{
  Every, IsSound, Every-delete, Every-insert, Every-lookup, Every-each,
}

forget_child-Every :
    (parent_id id : String) (now : ℕ) (m : Map Operation)
    → Every m
    → Every (forget_child parent_id id now m)
unfolding forget_child
forget_child-Every parent_id id now m h = elim (Option-cases (lookup parent_id m)) [
  | inl eq ↦ ground (arith, eq, h)
  | inr (p, eq) ↦
      let c = Every-lookup parent_id m p h eq in
      rw (eq, forget_child)
        (Every-insert parent_id _ m
          (record {
            status_fits = c.status_fits;
            outcome_fits = c.outcome_fits;
            run_fits = c.run_fits;
            timeline_fits = c.timeline_fits;
          })
          h)
]

prune_from-Every :
    (ttl now : ℕ) (ids : List String) (m : Map Operation) (requests : Map String)
    → Every m
    → Every (prune_from ttl now ids m requests).0
unfolding prune_from
prune_from-Every ttl now [] m requests h = h
prune_from-Every ttl now (id ∷ ids) m requests h = elim (Option-cases (lookup id m)) [
  | inl eq ↦ rw (eq, prune_from) (prune_from-Every ttl now ids m requests h)
  | inr (o, eq) ↦ elim (Bool-cases (is_prunable ttl now o)) [
    | inl old ↦
        rw (eq, old, prune_from)
          (prune_from-Every ttl now ids
            (forget_child o.request.parent_operation_id id now (delete id m))
            (delete o.idempotency requests)
            (forget_child-Every o.request.parent_operation_id id now (delete id m)
              (Every-delete id m h)))
    | inr young ↦ rw (eq, young, prune_from) (prune_from-Every ttl now ids m requests h)
  ]
]

pub prune-IsSound : (now : ℕ) (s : Service) → IsSound s → IsSound (prune_operations now s)
unfolding prune_operations
prune-IsSound now s h = prune_from-Every s.operation_ttl now _ _ s.requests (
    Every-each (expire_by_ttl s.operation_ttl now) (expire_by_ttl-IsCoherent s.operation_ttl now)
      s.operations s.desk h)

place-All :
    (o : Operation) (os : List Operation)
    → IsCoherent o
    → All IsCoherent os
    → All IsCoherent (place o os)
unfolding place
place-All o [] c h = (c, h)
place-All o (x ∷ xs) c h = elim (Bool-cases (comes_before x o)) [
  | inl eq ↦ rw eq (h.0, place-All o xs c h.1)
  | inr eq ↦ rw eq (c, h)
]

host_work-All :
    (host_id : String) (m : Map Operation) → Every m → All IsCoherent (host_work host_id m)
unfolding host_work
host_work-All host_id [] h = h
host_work-All host_id ((id, o) ∷ m) h = elim (Bool-cases (o.request.host_id =ₛ host_id)) [
  | inl eq ↦ rw eq (place-All o (host_work host_id m) h.0 (host_work-All host_id m h.1))
  | inr eq ↦ rw eq (host_work-All host_id m h.1)
]

collect_requests-Every :
    (limit taken now : ℕ) (os : List Operation) (found : List Delivery) (m : Map Operation)
    (desk : Desk)
    → All IsCoherent os
    → Every m
    → Every (collect_requests limit taken now os found (m, desk)).1.0
unfolding collect_requests
collect_requests-Every limit taken now [] found m desk c h = h
collect_requests-Every limit taken now (o ∷ os) found m desk c h =
    elim (Bool-cases (leb limit (taken + length found))) [
      | inl full ↦ rw (full, collect_requests) h
      | inr room ↦ elim (Bool-cases (is_due o)) [
        | inl due ↦
            rw (room, due, collect_requests)
              (collect_requests-Every limit taken now os _ _ _ c.1 (
                Every-insert o.request.operation_id (deliver now o desk).0 m
                  (deliver-IsCoherent now o desk due c.0) h))
        | inr idle ↦
            rw (room, idle, collect_requests)
              (collect_requests-Every limit taken now os found m desk c.1 h)
      ]
    ]

pub collect-IsSound :
    (host_id : String) (limit waiting now : ℕ) (s : Service)
    → IsSound s
    → IsSound (collect_host_work host_id limit waiting now s).1
unfolding collect_host_work
collect-IsSound host_id limit waiting now s h =
    collect_requests-Every limit _ now (host_work host_id s.operations) [] s.operations s.desk
      (host_work-All host_id s.operations h) h

new_operation-IsCoherent :
    (key : String) (request : HostControlRequest) (verdict : Verdict)
    → IsCoherent (new_operation key request verdict)
unfolding new_operation StatusFits OutcomeFits RunFits is_accepted
new_operation-IsCoherent key request allow = ground arith
new_operation-IsCoherent key request deny = ground arith
new_operation-IsCoherent key request require_confirmation = ground arith

file-IsSound :
    (key : String) (o : Operation) (m : Map Operation) (s : Service)
    → IsCoherent o
    → Every m
    → IsSound (file_operation key o m s).1
unfolding file_operation
file-IsSound key o m s c h =
    Every-insert o.request.operation_id _ m
      (SameCore-IsCoherent _ _ (record_timeline-SameCore o s.desk) c) h

pub store-IsSound :
    (key : String) (request : HostControlRequest) (verdict : Verdict) (s : Service)
    → IsSound s
    → IsSound (store_operation key request verdict s).1
unfolding store_operation refuse_child
store-IsSound key request verdict s h =
    let o = new_operation key request verdict in
    let c = new_operation-IsCoherent key request verdict in
    elim (Option-cases (lookup request.parent_operation_id s.operations)) [
      | inl eq ↦ ground (arith, eq, h, file-IsSound key o s.operations s c h)
      | inr (parent, eq) ↦
          let p = Every-lookup request.parent_operation_id s.operations parent h eq in
          let with_child : Operation = record parent {
            children = parent.children ++ request.operation_id ∷ [];
            updated_at = request.submitted_at;
          } in
          ground (
            arith,
            eq,
            h,
            file-IsSound key o s.operations s c h,
            file-IsSound key o (insert request.parent_operation_id with_child s.operations) s c (
                Every-insert request.parent_operation_id with_child s.operations
                  (record {
                    status_fits = p.status_fits;
                    outcome_fits = p.outcome_fits;
                    run_fits = p.run_fits;
                    timeline_fits = p.timeline_fits;
                  })
                  h),
          )
    ]
